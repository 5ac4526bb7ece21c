-- ===== src/Portals/Listings/Crawled.antt =====
-- The outcome of `crawl` as a whole.
use mathlib.Core.Path.{subst}
use gov_jobs_backend.Base.{
  Attempt, ok, error, ℕ, ◌+◌, ◌*◌, ◌≤◌, ◌<◌, ◌≡◌, refl, ap, ◌∙◌, List, [], ◌∷◌, ◌++◌, length, Text,
  codes, arith,
}
use gov_jobs_backend.CrawlRuns.{CrawlResult}
use gov_jobs_backend.Portals.{Fault, source_unavailable, FetchResponse, Wire}
use gov_jobs_backend.Portals.Listings.{Portal, collect_listing, crawl}
use gov_jobs_backend.Portals.Listings.Accounts.{
  DistinctIds, no_ids, add_entries-DistinctIds, IsToldBy, crawl_entries-IsToldBy,
}
use gov_jobs_backend.Portals.Listings.Sightings.{
  first_sightings, add_entries-none, Pages, collect_from-Collected,
}

module _ {ℓ κ} {E : Type ℓ} {D : Type κ} (portal : Portal E D) (nfc : Text → Text)
    (answer : ℕ → Text → FetchResponse) (pause_ms : ℕ) where
  pub data Crawled (listing_pages : ℕ) (w : Wire)
      : Attempt Fault CrawlResult → Wire → Type (ℓ ⊔ κ) where
    found :
        {r : CrawlResult} {w1 w' : Wire}
        → (listed : List E) → Pages portal nfc answer pause_ms listing_pages 1 w (ok listed) w1
        → 0 < length listed
        → r.total_found ≡ length (first_sightings portal listed)
        → DistinctIds portal (first_sightings portal listed)
        → IsToldBy portal nfc answer pause_ms
            (first_sightings portal listed)
            w1
            r.jobs
            r.rejected
            w'
        → w'.made ≤ w.made + 3 * (listing_pages + length (first_sightings portal listed))
        → Crawled listing_pages w (ok r) w'
    nothing_listed :
        {w1 : Wire}
        → Pages portal nfc answer pause_ms listing_pages 1 w (ok []) w1
        → w1.made ≤ w.made + 3 * listing_pages
        → Crawled listing_pages w
            (error (
              source_unavailable
                (portal.name ++ codes " listing returned no announcements on any page")))
            w1
    broke_off :
        {w1 : Wire}
        → (e : Fault) → Pages portal nfc answer pause_ms listing_pages 1 w (error e) w1
        → w1.made ≤ w.made + 3 * listing_pages
        → Crawled listing_pages w (error e) w1

  first_sightings-DistinctIds : (es : List E) → DistinctIds portal (first_sightings portal es)
  first_sightings-DistinctIds es =
      subst (DistinctIds portal) (add_entries-none portal es)
        (add_entries-DistinctIds portal [] es no_ids)

  abbrev listing : ℕ → Wire → Attempt Fault (List E) × Wire
  listing = collect_listing portal nfc answer pause_ms

  after_listing :
      (listing_pages : ℕ) (w : Wire) (listed : Attempt Fault (List E))
      → Pages portal nfc answer pause_ms listing_pages 1 w listed (listing listing_pages w).1
      → ((es : List E)
          → listed ≡ ok es
          → (listing listing_pages w).0 ≡ ok (first_sightings portal es))
      → ((e : Fault) → listed ≡ error e → (listing listing_pages w).0 ≡ error e)
      → (listing listing_pages w).1.made ≤ w.made + 3 * listing_pages
      → let (r, w') = crawl portal nfc answer pause_ms listing_pages w in
        Crawled listing_pages w r w'
  unfolding crawl first_sightings
  after_listing listing_pages w (error e) pages good bad m =
      rw (bad e refl, crawl) (broke_off e pages m)
  after_listing listing_pages w (ok []) pages good bad m =
      rw (good [] refl, crawl) (nothing_listed pages m)
  after_listing listing_pages w (ok (e ∷ es)) pages good bad m =
      let (told, made) =
        crawl_entries-IsToldBy portal nfc answer pause_ms (first_sightings portal (e ∷ es))
          (listing listing_pages w).1 in
      rw (good (e ∷ es) refl, crawl)
        (found (e ∷ es) pages (omega arith) refl (first_sightings-DistinctIds (e ∷ es)) told
          (omega arith))

  -- A crawl reads its listing page by page, up to the number of pages, until a page has no entry or
  -- a page after the first does not answer, and fails where the first page does not answer or one
  -- cannot be parsed, or where no page has an entry. Otherwise it found the first entry of each id,
  -- in order, and each of these became, in order, the job that the answer for its URL was parsed
  -- and normalised to, or stands among the rejected under its id with the reason. However the
  -- portal answers, a crawl makes at most three requests for each page of the listing and each
  -- entry.
  pub crawl-Crawled :
      (listing_pages : ℕ) (w : Wire)
      → let (r, w') = crawl portal nfc answer pause_ms listing_pages w in
        Crawled listing_pages w r w'
  unfolding collect_listing
  crawl-Crawled listing_pages w =
      let collected = collect_from-Collected portal nfc answer pause_ms listing_pages 1 [] w in
      after_listing listing_pages w collected.listed collected.pages
        (λ es e. collected.result ∙ (rw e refl ∙ ap ok (add_entries-none portal es)))
        (λ f e. collected.result ∙ rw e refl) collected.made
