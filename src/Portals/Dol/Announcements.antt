-- ===== src/Portals/Dol/Announcements.antt =====
-- The pages of announcements of กรมที่ดิน, and its crawler: the rest of
-- src/modules/crawler/dol/dol.parser.ts, and dol.crawler.ts. `new Date(text)` is the parameter
-- `date_of`, the text of the stored payload is `payload`.
use gov_jobs_backend.Base.{
  ℕ, Bool, true, false, ◌||◌, Option, none, some, List, [], ◌∷◌, ◌++◌, any, ◌==◌, if◌then◌else◌,
  Attempt, ok, error, String, Text, text_eq, codes, native_text, trim, print_number,
}
use gov_jobs_backend.Models.{dol}
use gov_jobs_backend.Crawler.{NormalizedJob}
use gov_jobs_backend.Patterns.{
  Atom, one, many, fewest, perhaps, edge, either, begins, ends, literal, literal_i, same_unit,
  Piece, group, exec, find_match, match_all,
}
use gov_jobs_backend.Portals.Dol.{DolListingEntry, DolAnnouncementDetail, parse_dol_listing}
use gov_jobs_backend.Portals.{Fault, strip_slash}
use gov_jobs_backend.Portals.Normal.{Draft, with_hash}
use gov_jobs_backend.Portals.Markup.{
  is_not, anything, in_url, strip_non_content, to_text, non_empty, attachments_from, plain_content,
  bangkok_midnight, unless_blank,
}
use gov_jobs_backend.Portals.Listings.{Portal}

-- `/https?:\/\/[^\s"'<>\\]+?\.pdf/gi`
abbrev pub pdf_pattern : List Atom
pdf_pattern =
    literal_i (codes "http")
    ++ (perhaps (same_unit b's') ∷ literal (codes "://")
        ++ (one in_url ∷ fewest in_url ∷ literal_i (codes ".pdf")))

-- `/\/(themes|assets)\//i`
abbrev pub theme_pattern : List Atom
theme_pattern =
    one (λ c. c == b'/')
    ∷ either same_unit (codes "themes" ∷ codes "assets" ∷ [])
    ∷ one (λ c. c == b'/')
    ∷ []

abbrev pub is_matched : List Atom → Text → Bool
is_matched pattern s = elim (exec pattern s) [ none ↦ false | some p ↦ true ]

unfoldable pub keep_urls : List Text → List Piece → List Text
unfolding find_match text_eq
keep_urls urls [] = urls
keep_urls urls (p ∷ ps) =
    keep_urls
      (if is_matched theme_pattern p.matched || any (text_eq p.matched) urls
        then urls
        else urls ++ p.matched ∷ [])
      ps

unfoldable pub parse_pdf_urls : Text → List Text
unfolding match_all keep_urls literal literal_i
parse_pdf_urls content = let (found, tail) = match_all pdf_pattern content in keep_urls [] found

-- `/<div\b[^>]*class="[^"]*\b(?:content-detail|news-detail|detail-content)\b[^"]*"[^>]*>([\s\S]*?)<\/div>/i`
abbrev pub body_pattern : List Atom
body_pattern =
    literal_i (codes "<div")
    ++ (edge ∷ many (is_not b'>') ∷ literal_i (codes "class=\"")
        ++ (many (is_not 34)
            ∷ edge
            ∷ either same_unit
                (codes "content-detail" ∷ codes "news-detail" ∷ codes "detail-content" ∷ [])
            ∷ edge
            ∷ many (is_not 34)
            ∷ one (λ c. c == 34)
            ∷ many (is_not b'>')
            ∷ one (λ c. c == b'>')
            ∷ begins 1
            ∷ fewest anything
            ∷ ends 1
            ∷ literal_i (codes "</div>")))

unfoldable pub parse_dol_announcement : Text → Attempt Fault DolAnnouncementDetail
unfolding strip_non_content parse_pdf_urls find_match to_text group literal_i
parse_dol_announcement html =
    let content = strip_non_content html in
    let pdf_urls = parse_pdf_urls content in
    elim (exec body_pattern content) [
      | none ↦ ok (record { pdf_urls = pdf_urls; body = none })
      | some p ↦ elim (to_text (group 1 p.groups)) [
        | error e ↦ error e
        | ok t ↦ ok (record { pdf_urls = pdf_urls; body = non_empty t })
      ]
    ]

abbrev pub dol_agency : Text
dol_agency = codes "กรมที่ดิน"

abbrev pub dol_ministry : Text
dol_ministry = codes "กระทรวงมหาดไทย"

module _ (nfc : Text → Text) (sha256 : Text → String) (date_of : Text → Option ℕ)
    (payload : DolListingEntry → DolAnnouncementDetail → String) where
  unfoldable pub dol_draft : DolListingEntry → DolAnnouncementDetail → Draft
  unfolding attachments_from native_text
  dol_draft entry detail = record {
    source = dol;
    external_id = native_text entry.external_id;
    content =
        plain_content entry.title dol_agency dol_ministry entry.category detail.body
          (bangkok_midnight date_of entry.published_on) entry.url (payload entry detail);
    attachments = attachments_from 0 detail.pdf_urls;
  }

  unfoldable pub normalize_dol_job :
      DolListingEntry → DolAnnouncementDetail → Attempt Fault NormalizedJob
  unfolding dol_draft with_hash trim
  normalize_dol_job entry detail =
      unless_blank entry.external_id entry.title
        (ok (with_hash nfc sha256 (dol_draft entry detail)))

  -- The crawler of กรมที่ดิน: dol/dol.crawler.ts.
  unfoldable pub dol_portal : Text → Portal DolListingEntry DolAnnouncementDetail
  unfolding strip_slash parse_dol_listing parse_dol_announcement normalize_dol_job native_text
  dol_portal listing_url = record {
    name = codes "DOL";
    entry = λ e. record { external_id = native_text e.external_id; title = e.title; url = e.url };
    listing_url = λ page.
        let base = strip_slash listing_url in
        if page == 1 then base ++ codes "/" else base ++ (codes "/?page=" ++ print_number page);
    parse_listing = parse_dol_listing;
    parse_announcement = parse_dol_announcement;
    normalize = normalize_dol_job;
  }
