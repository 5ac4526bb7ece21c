-- ===== src/Portals/Dol.antt =====
-- The listing of กรมที่ดิน: src/modules/crawler/dol/dol.parser.ts, with the types of dol.types.ts.
pub mod Announcements
use gov_jobs_backend.Base.{
  ℕ, zero, suc, ◌+◌, Bool, true, false, not, ◌||◌, Option, none, some, List, [], ◌∷◌, ◌++◌, any,
  ◌==◌, if◌then◌else◌, Attempt, ok, error, String, Text, text_eq, codes, native_text, is_space,
  trim, print_number,
}
use gov_jobs_backend.Dates.{is_digit}
use gov_jobs_backend.Dates.Thai.{parse_thai_date}
use gov_jobs_backend.Models.{JobContent, dol, announcement_pdf}
use gov_jobs_backend.Crawler.{NormalizedJob, NormalizedAttachment}
use gov_jobs_backend.Patterns.{
  Atom, one, many, fewest, perhaps, edge, either, begins, ends, literal, literal_i, exactly,
  same_unit, Piece, group, exec, find_match, match_all,
}
use gov_jobs_backend.Portals.{Fault, strip_slash}
use gov_jobs_backend.Portals.Normal.{Draft, with_hash}
use gov_jobs_backend.Portals.Markup.{
  is_not, anything, strip_non_content, decode_entities, to_text, non_empty, attachments_from,
  plain_content, bangkok_midnight, unless_blank,
}
use gov_jobs_backend.Portals.Listings.{Portal}

pub record DolListingEntry : Type 0 where
  pub external_id : Text
  pub title : Text
  pub url : Text
  pub category : Option Text
  pub published_on : Option Text

pub record DolAnnouncementDetail : Type 0 where
  pub pdf_urls : List Text
  pub body : Option Text

-- `/<div\b[^>]*class="[^"]*\bcard-template\b/gi`
abbrev pub card_pattern : List Atom
card_pattern =
    literal_i (codes "<div")
    ++ (edge ∷ many (is_not b'>') ∷ literal_i (codes "class=\"")
        ++ (many (is_not 34) ∷ edge ∷ literal_i (codes "card-template") ++ (edge ∷ [])))

-- Each card goes on to the next one, the last to the end.
abbrev pub slices : Text → List Piece → Text → List Text
slices start [] tail = (start ++ tail) ∷ []
slices start (p ∷ ps) tail = (start ++ p.skipped) ∷ slices p.matched ps tail

abbrev pub cards : List Piece → Text → List Text
cards [] tail = []
cards (p ∷ ps) tail = slices p.matched ps tail

unfoldable pub split_cards : Text → List Text
unfolding match_all literal_i
split_cards html = let (found, tail) = match_all card_pattern html in cards found tail

-- `/href="(https?:\/\/[^"]*?\/news-(\d+)\/?)"/i`
abbrev pub link_pattern : List Atom
link_pattern =
    literal_i (codes "href=\"")
    ++ (begins 1 ∷ literal_i (codes "http")
        ++ (perhaps (same_unit b's') ∷ literal (codes "://")
            ++ (fewest (is_not 34) ∷ literal_i (codes "/news-")
                ++ (begins 2
                    ∷ one is_digit
                    ∷ many is_digit
                    ∷ ends 2
                    ∷ perhaps (λ c. c == b'/')
                    ∷ ends 1
                    ∷ one (λ c. c == 34)
                    ∷ []))))

-- `/<h4\b[^>]*\bclass="[^"]*\btitle\b[^"]*"[^>]*\btitle="([^"]*)"/i`
abbrev pub title_pattern : List Atom
title_pattern =
    literal_i (codes "<h4")
    ++ (edge ∷ many (is_not b'>') ∷ edge ∷ literal_i (codes "class=\"")
        ++ (many (is_not 34) ∷ edge ∷ literal_i (codes "title")
            ++ (edge
                  ∷ many (is_not 34)
                  ∷ one (λ c. c == 34)
                  ∷ many (is_not b'>')
                  ∷ edge
                  ∷ literal_i (codes "title=\"")
                ++ (begins 1 ∷ many (is_not 34) ∷ ends 1 ∷ one (λ c. c == 34) ∷ []))))

-- `/<div\b[^>]*class="category"[^>]*>([\s\S]*?)<\/div>/i`
abbrev pub category_pattern : List Atom
category_pattern =
    literal_i (codes "<div")
    ++ (edge ∷ many (is_not b'>') ∷ literal_i (codes "class=\"category\"")
        ++ (many (is_not b'>')
            ∷ one (λ c. c == b'>')
            ∷ begins 1
            ∷ fewest anything
            ∷ ends 1
            ∷ literal_i (codes "</div>")))

-- The title of a card, trimmed; empty where the heading is missing.
unfoldable pub card_title : Text → Attempt Fault Text
unfolding find_match decode_entities trim group literal_i
card_title card = elim (exec title_pattern card) [
  | none ↦ ok []
  | some p ↦ elim (decode_entities (group 1 p.groups)) [
    | error e ↦ error e
    | ok title ↦ ok (trim title)
  ]
]

unfoldable pub card_category : Text → Attempt Fault (Option Text)
unfolding find_match to_text group literal_i
card_category card = elim (exec category_pattern card) [
  | none ↦ ok none
  | some p ↦ elim (to_text (group 1 p.groups)) [ error e ↦ error e | ok t ↦ ok (non_empty t) ]
]

-- The rest of an entry, once its link and title are known.
unfoldable pub card_entry : Text → Text → Text → Text → Attempt Fault DolListingEntry
unfolding card_category to_text parse_thai_date
card_entry card url external_id title = elim (card_category card) [
  | error e ↦ error e
  | ok category ↦ elim (to_text card) [
    | error e ↦ error e
    | ok t ↦ ok (record {
      external_id = external_id;
      title = title;
      url = url;
      category = category;
      published_on = parse_thai_date t;
    })
  ]
]

-- What one round of the loop makes of a card: no entry, or one.
unfoldable pub read_card : List Text → Text → Attempt Fault (Option DolListingEntry)
unfolding find_match card_title card_entry group literal literal_i
read_card seen card = elim (exec link_pattern card) [
  | none ↦ ok none
  | some link ↦
      let external_id = group 2 link.groups in
      elim (card_title card) [
        | error e ↦ error e
        | ok [] ↦ ok none
        | ok (c ∷ title) ↦ elim (any (text_eq external_id) seen) [
          | true ↦ ok none
          | false ↦ elim (card_entry card (group 1 link.groups) external_id (c ∷ title)) [
            | error e ↦ error e
            | ok entry ↦ ok (some entry)
          ]
        ]
      ]
]

abbrev pub with_entry :
    DolListingEntry → Attempt Fault (List DolListingEntry) → Attempt Fault (List DolListingEntry)
with_entry entry (error e) = error e
with_entry entry (ok entries) = ok (entry ∷ entries)

unfoldable pub read_cards : List Text → List Text → Attempt Fault (List DolListingEntry)
unfolding read_card
read_cards seen [] = ok []
read_cards seen (card ∷ later) = elim (read_card seen card) [
  | error e ↦ error e
  | ok none ↦ read_cards seen later
  | ok (some entry) ↦ with_entry entry (read_cards (entry.external_id ∷ seen) later)
]

unfoldable pub parse_dol_listing : Text → Attempt Fault (List DolListingEntry)
unfolding strip_non_content split_cards read_cards
parse_dol_listing html = read_cards [] (split_cards (strip_non_content html))
