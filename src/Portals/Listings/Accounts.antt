-- ===== src/Portals/Listings/Accounts.antt =====
-- What a crawl of a listing accounts for, and how many requests it makes.
use mathlib.Core.Bool.{false≢true}
use gov_jobs_backend.Base.{
  Attempt, ok, error, Attempt-cases, ℕ, ◌+◌, ◌*◌, ◌≤◌, ◌≡◌, refl, sym, ◌∙◌, true, false, some, List,
  [], ◌∷◌, ◌++◌, length, Bool-cases, inl, inr, String, str_eq, str_eq_iff, Text, codes, arith,
}
use gov_jobs_backend.Crawler.{NormalizedJob}
use gov_jobs_backend.CrawlRuns.{CrawlResult, RejectedJob}
use gov_jobs_backend.Portals.{Fault, FetchResponse, Wire, fetch_text, read_page}
use gov_jobs_backend.Portals.Requests.{Outcome, answered, refused, fetch-Outcome}
use gov_jobs_backend.Portals.Listings.{
  Portal, is_recruitment_announcement, reason, with_outcome, id_of, has_entry, add_entries,
  fetch_announcement, read_entry, crawl_entries,
}

module _ {ℓ} {A : Type ℓ} where
  not_both : {e : Fault} {a : A} → error e ≡ ok a → ⊥
  not_both h = cc

  requests_made :
      {good : ℕ → Attempt Fault A} {first limit made : ℕ} {r : Attempt Fault A}
      → Outcome good first limit r made
      → made ≤ first + limit
  requests_made (answered k a q before last) = omega arith
  requests_made (refused m before) = omega arith

pub fetch_text_made :
    (answer : ℕ → Text → FetchResponse) (pause_ms : ℕ) (url : Text) (w : Wire)
    → (fetch_text answer pause_ms url w).1.made ≤ w.made + 3
unfolding fetch_text
fetch_text_made answer pause_ms url w =
    requests_made (fetch-Outcome answer pause_ms url url (read_page url) w)

pub str_eq_sym : (a b : String) → str_eq a b ≡ str_eq b a
str_eq_sym a b = elim (Bool-cases (str_eq a b)) [
  | inl e ↦ let same : a ≡ b = (str_eq_iff a b).0 e in rw same refl
  | inr n ↦ elim (Bool-cases (str_eq b a)) [
    | inl e ↦ absurd (false≢true (sym n ∙ (str_eq_iff a b).1 (sym ((str_eq_iff b a).0 e))))
    | inr n' ↦ n ∙ sym n'
  ]
]

module _ {ℓ κ} {E : Type ℓ} {D : Type κ} (portal : Portal E D) where
  -- No two entries have one id.
  pub data DistinctIds : List E → Type ℓ where
    no_ids : DistinctIds []
    more_ids :
        (e : E) (es : List E)
        → has_entry portal (id_of portal e) es ≡ false
        → DistinctIds es
        → DistinctIds (e ∷ es)

  has_entry-append :
      (id : String) (es : List E) (e : E)
      → has_entry portal id es ≡ false
      → str_eq (id_of portal e) id ≡ false
      → has_entry portal id (es ++ e ∷ []) ≡ false
  has_entry-append id [] e p q = rw q refl
  has_entry-append id (f ∷ es) e p q = elim (Bool-cases (str_eq (id_of portal f) id)) [
    | inl h ↦ absurd (false≢true (sym (rw h at p)))
    | inr h ↦ rw h (has_entry-append id es e (rw h at p) q)
  ]

  append-DistinctIds :
      (es : List E) (e : E)
      → DistinctIds es
      → has_entry portal (id_of portal e) es ≡ false
      → DistinctIds (es ++ e ∷ [])
  append-DistinctIds _ e no_ids h = more_ids e [] refl no_ids
  append-DistinctIds _ e (more_ids f es p ds) h =
      elim (Bool-cases (str_eq (id_of portal f) (id_of portal e))) [
        | inl q ↦ absurd (false≢true (sym (rw q at h)))
        | inr q ↦
            more_ids f (es ++ e ∷ [])
              (has_entry-append (id_of portal f) es e p
                (str_eq_sym (id_of portal e) (id_of portal f) ∙ q))
              (append-DistinctIds es e ds (rw q at h))
      ]

  pub add_entries-DistinctIds :
      (entries page_entries : List E)
      → DistinctIds entries
      → DistinctIds (add_entries portal entries page_entries)
  unfolding add_entries
  add_entries-DistinctIds entries [] ds = ds
  add_entries-DistinctIds entries (e ∷ es) ds =
      elim (Bool-cases (has_entry portal (id_of portal e) entries)) [
        | inl h ↦ rw h (add_entries-DistinctIds entries es ds)
        | inr h ↦
            rw h
              (add_entries-DistinctIds (entries ++ e ∷ []) es (append-DistinctIds entries e ds h))
      ]

  module _ (nfc : Text → Text) (answer : ℕ → Text → FetchResponse) (pause_ms : ℕ) where
    -- What the request for an entry's page answers, and the wire after it.
    abbrev fetched : E → Wire → Attempt Fault Text × Wire
    fetched e w = fetch_text answer pause_ms (portal.entry e).url w

    abbrev pub told_off : E → Text → RejectedJob
    told_off e why = record { external_id = some (id_of portal e); reason = why }

    -- The requests are made in the order of the entries. Each entry is the job that the answer for
    -- its URL was parsed and normalised to, or is recorded under its id: as no announcement of
    -- recruitment, or with the reason why its page was not read, parsed or normalised.
    pub data IsToldBy
        : List E → Wire → List NormalizedJob → List RejectedJob → Wire → Type (ℓ ⊔ κ) where
      all_told : {w : Wire} → IsToldBy [] w [] [] w
      kept :
          {es : List E} {w w' : Wire} {jobs : List NormalizedJob} {rejected : List RejectedJob}
          → (e : E) (body : Text) (d : D) (job : NormalizedJob)
          → is_recruitment_announcement nfc (portal.entry e).title ≡ true
          → (fetched e w).0 ≡ ok body
          → portal.parse_announcement body ≡ ok d
          → portal.normalize e d ≡ ok job
          → IsToldBy es (fetched e w).1 jobs rejected w'
          → IsToldBy (e ∷ es) w (job ∷ jobs) rejected w'
      no_recruitment :
          {es : List E} {w w' : Wire} {jobs : List NormalizedJob} {rejected : List RejectedJob}
          → (e : E) → is_recruitment_announcement nfc (portal.entry e).title ≡ false
          → IsToldBy es w jobs rejected w'
          → IsToldBy
              (e ∷ es)
              w
              jobs
              (told_off e (codes "not a recruitment announcement") ∷ rejected)
              w'
      not_read :
          {es : List E} {w w' : Wire} {jobs : List NormalizedJob} {rejected : List RejectedJob}
          → (e : E) (f : Fault) → is_recruitment_announcement nfc (portal.entry e).title ≡ true
          → (fetched e w).0 ≡ error f
          → IsToldBy es (fetched e w).1 jobs rejected w'
          → IsToldBy (e ∷ es) w jobs (told_off e (reason f) ∷ rejected) w'
      not_parsed :
          {es : List E} {w w' : Wire} {jobs : List NormalizedJob} {rejected : List RejectedJob}
          → (e : E) (body : Text) (f : Fault)
          → is_recruitment_announcement nfc (portal.entry e).title ≡ true
          → (fetched e w).0 ≡ ok body
          → portal.parse_announcement body ≡ error f
          → IsToldBy es (fetched e w).1 jobs rejected w'
          → IsToldBy (e ∷ es) w jobs (told_off e (reason f) ∷ rejected) w'
      not_normalized :
          {es : List E} {w w' : Wire} {jobs : List NormalizedJob} {rejected : List RejectedJob}
          → (e : E) (body : Text) (d : D) (f : Fault)
          → is_recruitment_announcement nfc (portal.entry e).title ≡ true
          → (fetched e w).0 ≡ ok body
          → portal.parse_announcement body ≡ ok d
          → portal.normalize e d ≡ error f
          → IsToldBy es (fetched e w).1 jobs rejected w'
          → IsToldBy (e ∷ es) w jobs (told_off e (reason f) ∷ rejected) w'

    read_entry-fetched :
        (e : E) (w : Wire) → (read_entry portal nfc answer pause_ms e w).1 ≡ (fetched e w).1
    unfolding read_entry fetch_announcement
    read_entry-fetched e w = refl

    read_entry-not_read :
        (e : E) (w : Wire) (f : Fault)
        → (fetched e w).0 ≡ error f
        → (read_entry portal nfc answer pause_ms e w).0 ≡ error f
    unfolding read_entry fetch_announcement
    read_entry-not_read e w f q = rw (q, read_entry) refl

    read_entry-not_parsed :
        (e : E) (w : Wire) (body : Text) (f : Fault)
        → (fetched e w).0 ≡ ok body
        → portal.parse_announcement body ≡ error f
        → (read_entry portal nfc answer pause_ms e w).0 ≡ error f
    unfolding read_entry fetch_announcement
    read_entry-not_parsed e w body f q p = rw (q, p, read_entry) refl

    read_entry-normalize :
        (e : E) (w : Wire) (body : Text) (d : D)
        → (fetched e w).0 ≡ ok body
        → portal.parse_announcement body ≡ ok d
        → (read_entry portal nfc answer pause_ms e w).0 ≡ portal.normalize e d
    unfolding read_entry fetch_announcement
    read_entry-normalize e w body d q p = rw (q, p, read_entry) refl

    -- The entries `es` from `w` on, as `r` tells of them and the wire stands afterwards.
    abbrev Told : List E → Wire → CrawlResult × Wire → Type (ℓ ⊔ κ)
    Told es w (r, w') = IsToldBy es w r.jobs r.rejected w'

    read_entry-Told :
        (e : E) (es : List E) (w : Wire) (rest : CrawlResult × Wire)
        → is_recruitment_announcement nfc (portal.entry e).title ≡ true
        → Told es (fetched e w).1 rest
        → Told (e ∷ es) w (
          with_outcome (id_of portal e) (read_entry portal nfc answer pause_ms e w).0 rest.0,
          rest.1,
        )
    read_entry-Told e es w rest h told = elim (Attempt-cases (fetched e w).0) [
      | inr (f, q) ↦ rw (read_entry-not_read e w f q) (not_read e f h q told)
      | inl (body, q) ↦ elim (Attempt-cases (portal.parse_announcement body)) [
        | inr (f, p) ↦ rw (read_entry-not_parsed e w body f q p) (not_parsed e body f h q p told)
        | inl (d, p) ↦ elim (Attempt-cases (portal.normalize e d)) [
          | inr (f, n) ↦
              rw (read_entry-normalize e w body d q p ∙ n) (not_normalized e body d f h q p n told)
          | inl (job, n) ↦
              rw (read_entry-normalize e w body d q p ∙ n) (kept e body d job h q p n told)
        ]
      ]
    ]

    pub crawl_entries-IsToldBy :
        (es : List E) (w : Wire)
        → let (r, w') = crawl_entries portal nfc answer pause_ms es w in
          IsToldBy es w r.jobs r.rejected w' × (w'.made ≤ w.made + 3 * length es)
    unfolding crawl_entries read_entry fetch_announcement
    crawl_entries-IsToldBy [] w = (all_told, omega arith)
    crawl_entries-IsToldBy (e ∷ es) w =
        let (told, made) = crawl_entries-IsToldBy es (fetched e w).1 in
        let (told', made') = crawl_entries-IsToldBy es w in
        elim (Bool-cases (is_recruitment_announcement nfc (portal.entry e).title)) [
          | inr h ↦ rw (h, crawl_entries) (no_recruitment e h told', omega arith)
          | inl h ↦
              let step = fetch_text_made answer pause_ms (portal.entry e).url w in
              rw (h, crawl_entries) (read_entry-Told e es w _ h told, omega arith)
        ]
