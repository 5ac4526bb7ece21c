-- ===== src/Portals/Mdes.antt =====
-- กระทรวงดิจิทัลเพื่อเศรษฐกิจและสังคม: src/modules/crawler/mdes/mdes.parser.ts and mdes.crawler.ts,
-- with the types of mdes.types.ts. `new Date(text)` is the parameter `date_of`, the text of the
-- stored payload is `payload`.
use gov_jobs_backend.Base.{
  ℕ, true, false, Option, none, some, List, [], ◌∷◌, ◌++◌, any, ◌==◌, if◌then◌else◌, Attempt, ok,
  error, String, Text, text_eq, codes, native_text, is_space, trim, print_number,
}
use gov_jobs_backend.Dates.{is_digit}
use gov_jobs_backend.Dates.Thai.{parse_slash_date}
use gov_jobs_backend.Models.{mdes}
use gov_jobs_backend.Crawler.{NormalizedJob}
use gov_jobs_backend.Patterns.{
  Atom, one, many, fewest, perhaps, edge, begins, ends, literal, literal_i, same_unit, Piece, group,
  exec, find_match, match_all,
}
use gov_jobs_backend.CrawlRuns.{CrawlResult}
use gov_jobs_backend.Portals.{Fault, strip_slash, FetchResponse, Wire, fetch_text}
use gov_jobs_backend.Portals.Normal.{Draft, with_hash}
use gov_jobs_backend.Portals.Markup.{
  is_not, anything, in_url, strip_non_content, decode_entities, to_text, attachments_from,
  plain_content, bangkok_midnight, unless_blank,
}
use gov_jobs_backend.Portals.Listings.{Portal, collect_listing, crawl}

pub record MdesListingEntry : Type 0 where
  pub external_id : Text
  pub title : Text
  pub url : Text

pub record MdesAnnouncementDetail : Type 0 where
  pub attachment_urls : List Text
  pub published_on : Option Text
  pub body : Option Text

-- `/<a\b[^>]*?href="(https?:\/\/[^"]*?\/news\/detail\/(\d+)-[^"]*)"[^>]*>([\s\S]*?)<\/a>/gi`
abbrev pub anchor_pattern : List Atom
anchor_pattern =
    literal_i (codes "<a")
    ++ (edge ∷ fewest (is_not b'>') ∷ literal_i (codes "href=\"")
        ++ (begins 1 ∷ literal_i (codes "http")
            ++ (perhaps (same_unit b's') ∷ literal (codes "://")
                ++ (fewest (is_not 34) ∷ literal_i (codes "/news/detail/")
                    ++ (begins 2
                        ∷ one is_digit
                        ∷ many is_digit
                        ∷ ends 2
                        ∷ one (λ c. c == b'-')
                        ∷ many (is_not 34)
                        ∷ ends 1
                        ∷ one (λ c. c == 34)
                        ∷ many (is_not b'>')
                        ∷ one (λ c. c == b'>')
                        ∷ begins 3
                        ∷ fewest anything
                        ∷ ends 3
                        ∷ literal_i (codes "</a>"))))))

-- `/\btitle="([^"]+)"/i`
abbrev pub title_attribute : List Atom
title_attribute =
    edge ∷ literal_i (codes "title=\"")
    ++ (begins 1 ∷ one (is_not 34) ∷ many (is_not 34) ∷ ends 1 ∷ one (λ c. c == 34) ∷ [])

-- The attribute, or the text of the link; decoded and trimmed.
unfoldable pub anchor_title : Piece → Attempt Fault Text
unfolding find_match to_text decode_entities trim group literal_i
anchor_title p =
    let written : Attempt Fault Text = elim (exec title_attribute p.matched) [
      | some t ↦ ok (group 1 t.groups)
      | none ↦ to_text (group 3 p.groups)
    ] in
    elim written [
      | error e ↦ error e
      | ok t ↦ elim (decode_entities t) [ error e ↦ error e | ok title ↦ ok (trim title) ]
    ]

unfoldable pub read_anchor : List Text → Piece → Attempt Fault (Option MdesListingEntry)
unfolding anchor_title decode_entities text_eq group
read_anchor seen p = elim (any (text_eq (group 2 p.groups)) seen) [
  | true ↦ ok none
  | false ↦ elim (anchor_title p) [
    | error e ↦ error e
    | ok [] ↦ ok none
    | ok (c ∷ title) ↦ elim (decode_entities (group 1 p.groups)) [
      | error e ↦ error e
      | ok url ↦ ok (some (record { external_id = group 2 p.groups; title = c ∷ title; url = url }))
    ]
  ]
]

abbrev pub with_row :
    MdesListingEntry → Attempt Fault (List MdesListingEntry) → Attempt Fault (List MdesListingEntry)
with_row entry (error e) = error e
with_row entry (ok entries) = ok (entry ∷ entries)

unfoldable pub read_anchors : List Text → List Piece → Attempt Fault (List MdesListingEntry)
unfolding read_anchor
read_anchors seen [] = ok []
read_anchors seen (p ∷ ps) = elim (read_anchor seen p) [
  | error e ↦ error e
  | ok none ↦ read_anchors seen ps
  | ok (some entry) ↦ with_row entry (read_anchors (entry.external_id ∷ seen) ps)
]

unfoldable pub parse_mdes_listing : Text → Attempt Fault (List MdesListingEntry)
unfolding strip_non_content match_all read_anchors literal literal_i
parse_mdes_listing html =
    let (found, tail) = match_all anchor_pattern (strip_non_content html) in read_anchors [] found

-- `/https?:\/\/[^\s"'<>\\]*?\/content\/download-detail\/\d+/gi`
abbrev pub download_pattern : List Atom
download_pattern =
    literal_i (codes "http")
    ++ (perhaps (same_unit b's') ∷ literal (codes "://")
        ++ (fewest in_url ∷ literal_i (codes "/content/download-detail/")
            ++ (one is_digit ∷ many is_digit ∷ [])))

unfoldable pub distinct_matches : List Text → List Piece → List Text
unfolding text_eq
distinct_matches urls [] = urls
distinct_matches urls (p ∷ ps) =
    distinct_matches (if any (text_eq p.matched) urls then urls else urls ++ p.matched ∷ []) ps

-- `/วันที่\s*(\d{1,2}\/\d{1,2}\/\d{4})/`
abbrev pub stamp_pattern : List Atom
stamp_pattern =
    literal (codes "วันที่")
    ++ (many is_space
        ∷ begins 1
        ∷ one is_digit
        ∷ perhaps is_digit
        ∷ one (λ c. c == b'/')
        ∷ one is_digit
        ∷ perhaps is_digit
        ∷ one (λ c. c == b'/')
        ∷ one is_digit
        ∷ one is_digit
        ∷ one is_digit
        ∷ one is_digit
        ∷ ends 1
        ∷ [])

unfoldable pub stamped_date : Text → Option Text
unfolding find_match parse_slash_date group literal
stamped_date text = elim (exec stamp_pattern text) [
  | none ↦ none
  | some p ↦ parse_slash_date (group 1 p.groups)
]

unfoldable pub parse_mdes_announcement : Text → Attempt Fault MdesAnnouncementDetail
unfolding strip_non_content match_all distinct_matches to_text stamped_date literal literal_i
parse_mdes_announcement html =
    let content = strip_non_content html in
    let (found, tail) = match_all download_pattern content in
    elim (to_text content) [
      | error e ↦ error e
      | ok text ↦ ok (record {
        attachment_urls = distinct_matches [] found;
        published_on = stamped_date text;
        body = none;
      })
    ]

abbrev pub mdes_agency : Text
mdes_agency = codes "สำนักงานปลัดกระทรวงดิจิทัลเพื่อเศรษฐกิจและสังคม"

abbrev pub mdes_ministry : Text
mdes_ministry = codes "กระทรวงดิจิทัลเพื่อเศรษฐกิจและสังคม"

module _ (nfc : Text → Text) (sha256 : Text → String) (date_of : Text → Option ℕ)
    (payload : MdesListingEntry → MdesAnnouncementDetail → String) where
  unfoldable pub mdes_draft : MdesListingEntry → MdesAnnouncementDetail → Draft
  unfolding attachments_from native_text
  mdes_draft entry detail = record {
    source = mdes;
    external_id = native_text entry.external_id;
    content =
        plain_content entry.title mdes_agency mdes_ministry none detail.body
          (bangkok_midnight date_of detail.published_on) entry.url (payload entry detail);
    attachments = attachments_from 0 detail.attachment_urls;
  }

  unfoldable pub normalize_mdes_job :
      MdesListingEntry → MdesAnnouncementDetail → Attempt Fault NormalizedJob
  unfolding mdes_draft with_hash trim
  normalize_mdes_job entry detail =
      unless_blank entry.external_id entry.title
        (ok (with_hash nfc sha256 (mdes_draft entry detail)))

  unfoldable pub mdes_portal : Text → Portal MdesListingEntry MdesAnnouncementDetail
  unfolding strip_slash parse_mdes_listing parse_mdes_announcement normalize_mdes_job native_text
  mdes_portal listing_url = record {
    name = codes "MDES";
    entry = λ e. record { external_id = native_text e.external_id; title = e.title; url = e.url };
    listing_url = λ page.
        let base = strip_slash listing_url in
        if page == 1 then base else base ++ (codes "?page=" ++ print_number page);
    parse_listing = parse_mdes_listing;
    parse_announcement = parse_mdes_announcement;
    normalize = normalize_mdes_job;
  }

-- The crawler of the ministry: `listing_pages` and `pause_ms` are its configuration.
module _ (nfc : Text → Text) (sha256 : Text → String) (date_of : Text → Option ℕ)
    (payload : MdesListingEntry → MdesAnnouncementDetail → String) (listing_url : Text)
    (answer : ℕ → Text → FetchResponse) (pause_ms : ℕ) where
  unfoldable pub mdes_fetch_text : Text → Wire → Attempt Fault Text × Wire
  unfolding fetch_text
  mdes_fetch_text = fetch_text answer pause_ms

  unfoldable pub mdes_collect_listing : ℕ → Wire → Attempt Fault (List MdesListingEntry) × Wire
  unfolding collect_listing mdes_portal
  mdes_collect_listing =
      collect_listing (mdes_portal nfc sha256 date_of payload listing_url) nfc answer pause_ms

  unfoldable pub crawl_mdes : ℕ → Wire → Attempt Fault CrawlResult × Wire
  unfolding crawl mdes_portal
  crawl_mdes = crawl (mdes_portal nfc sha256 date_of payload listing_url) nfc answer pause_ms
