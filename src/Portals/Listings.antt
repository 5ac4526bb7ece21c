-- ===== src/Portals/Listings.antt =====
-- The paged listings of the HTML portals and what `crawl` makes of them: `collectListing` and
-- `crawl` of dol/dol.crawler.ts and mdes/mdes.crawler.ts, which differ in their parsers, their URLs
-- and the name in one message. The titles that count: src/modules/crawler/recruitment-title.ts.
pub mod Accounts
pub mod Sightings
pub mod Crawled
use gov_jobs_backend.Base.{
  Attempt, ok, error, ℕ, zero, suc, Bool, true, false, Option, none, some, List, [], ◌∷◌, ◌++◌, any,
  length, ◌==◌, if◌then◌else◌, String, str_eq, Text, codes, includes, print_number,
}
use gov_jobs_backend.ThaiText.{normalize_thai_text}
use gov_jobs_backend.Crawler.{NormalizedJob}
use gov_jobs_backend.CrawlRuns.{CrawlResult, RejectedJob}
use gov_jobs_backend.Portals.{
  Fault, source_unavailable, job_validation, unexpected, FetchResponse, Wire, strip_slash,
  fetch_text,
}

abbrev pub recruitment_title_patterns : List Text
recruitment_title_patterns =
    codes "รับสมัครสอบแข่งขัน"
    ∷ codes "รับสมัครสอบคัดเลือก"
    ∷ codes "รับสมัครคัดเลือก"
    ∷ codes "รับสมัครบุคคล"
    ∷ codes "รับสมัครพนักงาน"
    ∷ codes "รับสมัครลูกจ้าง"
    ∷ codes "รับโอน"
    ∷ codes "รับย้าย"
    ∷ []

unfoldable pub is_recruitment_announcement : (Text → Text) → Text → Bool
unfolding includes normalize_thai_text
is_recruitment_announcement nfc title =
    any (λ pattern. includes pattern (normalize_thai_text nfc title)) recruitment_title_patterns

-- What the crawl reads of an entry.
pub record Entry : Type 0 where
  pub external_id : String
  pub title : Text
  pub url : Text

-- A portal: its announcements' details, the URLs of its listing and its parsers.
pub record Portal {ℓ κ} (E : Type ℓ) (D : Type κ) : Type (ℓ ⊔ κ) where
  pub name : Text
  pub entry : E → Entry
  pub listing_url : ℕ → Text
  pub parse_listing : Text → Attempt Fault (List E)
  pub parse_announcement : Text → Attempt Fault D
  pub normalize : E → D → Attempt Fault NormalizedJob

-- The reason under which a skipped announcement is recorded.
abbrev pub reason : Fault → Text
reason (source_unavailable m) = m
reason (job_validation m) = m
reason (unexpected m) = codes "unexpected normalisation error"

abbrev pub with_job : NormalizedJob → CrawlResult → CrawlResult
with_job job r = record r { jobs = job ∷ r.jobs }

abbrev pub with_rejected : String → Text → CrawlResult → CrawlResult
with_rejected external_id why r = record r {
  rejected = record { external_id = some external_id; reason = why } ∷ r.rejected;
}

-- One announcement is a job or is recorded as skipped.
abbrev pub with_outcome : String → Attempt Fault NormalizedJob → CrawlResult → CrawlResult
with_outcome external_id (ok job) r = with_job job r
with_outcome external_id (error e) r = with_rejected external_id (reason e) r

module _ {ℓ κ} {E : Type ℓ} {D : Type κ} (portal : Portal E D) where
  abbrev pub id_of : E → String
  id_of e = (portal.entry e).external_id

  abbrev pub has_entry : String → List E → Bool
  has_entry external_id entries = any (λ e. str_eq (id_of e) external_id) entries

  -- The first sighting wins, in the order of the `Map`.
  unfoldable pub add_entries : List E → List E → List E
  add_entries entries [] = entries
  add_entries entries (e ∷ page_entries) =
      add_entries (if has_entry (id_of e) entries then entries else entries ++ e ∷ []) page_entries

  module _ (nfc : Text → Text) (answer : ℕ → Text → FetchResponse) (pause_ms : ℕ) where
    -- The loop, from a page on, for `left` more pages.
    unfoldable pub collect_from : ℕ → ℕ → List E → Wire → Attempt Fault (List E) × Wire
    unfolding add_entries fetch_text
    collect_from zero page entries w = (ok entries, w)
    collect_from (suc left) page entries w =
        let (html, w') = fetch_text answer pause_ms (portal.listing_url page) w in
        elim html [
          | error e ↦ (if page == 1 then error e else ok entries, w')
          | ok body ↦ elim (portal.parse_listing body) [
            | error e ↦ (error e, w')
            | ok [] ↦ (ok entries, w')
            | ok (e ∷ es) ↦ collect_from left (suc page) (add_entries entries (e ∷ es)) w'
          ]
        ]

    unfoldable pub collect_listing : ℕ → Wire → Attempt Fault (List E) × Wire
    unfolding collect_from
    collect_listing listing_pages = collect_from listing_pages 1 []

    unfoldable pub fetch_announcement : E → Wire → Attempt Fault D × Wire
    unfolding fetch_text
    fetch_announcement e w =
        let (html, w') = fetch_text answer pause_ms (portal.entry e).url w in
        (elim html [ ok body ↦ portal.parse_announcement body | error f ↦ error f ], w')

    -- One round of the loop: the job, or why there is none.
    unfoldable pub read_entry : E → Wire → Attempt Fault NormalizedJob × Wire
    unfolding fetch_announcement
    read_entry e w =
        let (detail, w') = fetch_announcement e w in
        (elim detail [ ok d ↦ portal.normalize e d | error f ↦ error f ], w')

    unfoldable pub crawl_entries : List E → Wire → CrawlResult × Wire
    unfolding is_recruitment_announcement read_entry
    crawl_entries [] w = (record { jobs = []; rejected = []; total_found = 0 }, w)
    crawl_entries (e ∷ es) w = elim (is_recruitment_announcement nfc (portal.entry e).title) [
      | true ↦
          let (job, w') = read_entry e w in
          let (rest, w'') = crawl_entries es w' in (with_outcome (id_of e) job rest, w'')
      | false ↦
          let (rest, w') = crawl_entries es w in
          (with_rejected (id_of e) (codes "not a recruitment announcement") rest, w')
    ]

    -- The `total_found` is the number of the entries.
    unfoldable pub crawl : ℕ → Wire → Attempt Fault CrawlResult × Wire
    unfolding collect_listing crawl_entries
    crawl listing_pages w =
        let (entries, w') = collect_listing listing_pages w in
        elim entries [
          | error e ↦ (error e, w')
          | ok [] ↦ (
            error (
                source_unavailable
                  (portal.name ++ codes " listing returned no announcements on any page")),
            w',
          )
          | ok (e ∷ es) ↦
              (let (found, w'') = crawl_entries (e ∷ es) w' in
                (ok (record found { total_found = length (e ∷ es) }), w''))
        ]
