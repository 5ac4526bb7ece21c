-- ===== src/Portals/Tests.antt =====
-- The parsers on pages of the portals, cut down, and a crawl of them.
use gov_jobs_backend.Base.{
  ℕ, zero, suc, ok, error, ◌≡◌, refl, none, some, true, false, List, [], ◌∷◌, ◌++◌, Text, codes,
}
use gov_jobs_backend.Dates.Thai.{parse_thai_date}
use gov_jobs_backend.Models.{ocsc}
use gov_jobs_backend.Emails.{ReferenceItem, province}
use gov_jobs_backend.Portals.{
  FetchResponse, no_response, response, Wire, fetch, fetch_text, read_page,
}
use gov_jobs_backend.Portals.Requests.{Outcome, fetch-Outcome}
use gov_jobs_backend.Portals.Listings.{Portal, crawl}
use gov_jobs_backend.Portals.Listings.Crawled.{Crawled, crawl-Crawled}
use gov_jobs_backend.Portals.Dol.{DolListingEntry, DolAnnouncementDetail, parse_dol_listing}
use gov_jobs_backend.Portals.Dol.Announcements.{dol_portal}
use gov_jobs_backend.Portals.Mdes.{parse_mdes_announcement}
use gov_jobs_backend.Portals.Values.{string}
use gov_jobs_backend.Portals.Reference.{OcscRawReferenceRow, sync_reference}
use gov_jobs_backend.Portals.Reference.Translations.{Extends, sync_reference-Extends}

thai_date : parse_thai_date (codes "ประกาศ 22 ก.ย. 2569 นี้") ≡ some (codes "2026-09-22")
unfolding parse_thai_date gov_jobs_backend.Base.is_space
thai_date = refl

abbrev card : Text
card =
    codes
      "<div class=\"col card-template\"><a href=\"https://www.dol.go.th/news-178/\"><h4 class=\"title\" title=\"รับโอน &amp; รับย้าย\">x</h4></a><div class=\"category\"> การ<b>สอบ</b></div>2 กันยายน 2026</div>"

dol_listing :
    parse_dol_listing (codes "<!-- c -->" ++ (card ++ card))
    ≡ ok (
        record {
          external_id = codes "178";
          title = codes "รับโอน & รับย้าย";
          url = codes "https://www.dol.go.th/news-178/";
          category = some (codes "การ สอบ");
          published_on = some (codes "2026-09-02");
        }
        ∷ [])
unfolding parse_dol_listing
dol_listing = refl

mdes_announcement :
    parse_mdes_announcement
      (codes "<p>วันที่ 14/09/2569</p><a href=\"https://x.go.th/content/download-detail/12\">a</a>")
    ≡ ok (record {
      attachment_urls = codes "https://x.go.th/content/download-detail/12" ∷ [];
      published_on = some (codes "2026-09-14");
      body = none;
    })
unfolding parse_mdes_announcement
mdes_announcement = refl

-- A portal of which the listing answers at the second attempt, and the announcement never does.
abbrev answer : ℕ → Text → FetchResponse
answer zero url = response false 503 (ok [])
answer (suc zero) url = response true 200 (ok card)
answer n url = no_response (codes "connect ECONNREFUSED")

abbrev start : Wire
start = record { made = 0; waited = 0 }

abbrev portal : Portal DolListingEntry DolAnnouncementDetail
portal =
    dol_portal (λ s. s) (λ s. "h") (λ s. none) (λ e d. "{}") (codes "https://www.dol.go.th/news/")

retried :
    fetch_text answer 0 (codes "https://www.dol.go.th/news/") start
    ≡ (ok card, record { made = 2; waited = 1000 })
unfolding fetch_text gov_jobs_backend.Base.is_space
retried = refl

crawled : crawl portal (λ s. s) answer 0 1 start ≡ (
  ok (record {
    jobs = [];
    rejected =
        record {
          external_id = some "178";
          reason = codes "GET https://www.dol.go.th/news-178/ failed: connect ECONNREFUSED";
        }
        ∷ [];
    total_found = 1;
  }),
  record { made = 5; waited = 4000 },
)
unfolding crawl dol_portal gov_jobs_backend.Base.is_space
crawled = refl

crawl-Crawled_example :
    Crawled portal
      (λ s. s)
      answer
      0
      1
      start
      (crawl portal (λ s. s) answer 0 1 start).0
      (crawl portal (λ s. s) answer 0 1 start).1
crawl-Crawled_example = crawl-Crawled portal (λ s. s) answer 0 1 start

fetch-Outcome_example :
    let url : Text = codes "https://www.dol.go.th/news/" in
    let (r, w) = fetch answer 0 url url (read_page url) start in
    Outcome (λ n. read_page url (answer n url)) 0 3 r w.made
fetch-Outcome_example =
    let url : Text = codes "https://www.dol.go.th/news/" in
    fetch-Outcome answer 0 url url (read_page url) start

abbrev provinces : List OcscRawReferenceRow
provinces = record { id = 10; property = λ name. string (codes " กรุงเทพมหานคร ") } ∷ []

abbrev translated : List ReferenceItem
translated =
    record {
      source = ocsc;
      kind = province;
      external_id = 10;
      name_th = codes "กทม.";
      name_en = some (codes "Bangkok");
      sort_order = 7;
    }
    ∷ []

abbrev lookups : ℕ → Text → FetchResponse
lookups zero url = response true 200 (ok (codes "[]"))
lookups n url = no_response (codes "socket hang up")

synced :
    (sync_reference
      (λ body. some (some provinces))
      lookups
      (codes "https://api/")
      translated
      start).1
    ≡ record {
      source = ocsc;
      kind = province;
      external_id = 10;
      name_th = codes "กรุงเทพมหานคร";
      name_en = some (codes "Bangkok");
      sort_order = 0;
    }
      ∷ []
unfolding sync_reference gov_jobs_backend.Base.is_space
synced = refl

sync_reference-Extends_example :
    let (r, table, w) =
      sync_reference
        (λ body. some (some provinces))
        lookups
        (codes "https://api/")
        translated
        start in
    Extends translated table
sync_reference-Extends_example =
    sync_reference-Extends (λ body. some (some provinces)) lookups (codes "https://api/") translated
      start
