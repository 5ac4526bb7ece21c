-- ===== src/Crawler/Again.antt =====
-- Storing the same listing twice: `persist` of src/modules/crawler/crawler.service.ts.
use mathlib.Core.Option.{none-ne-some}
use mathlib.Core.Path.{subst}
use gov_jobs_backend.Base.{
  ℕ, ◌+◌, ◌≡◌, sym, ap, ◌∙◌, inl, inr, true, false, Option, some, List, [], ◌∷◌, any, length,
  Bool-cases, Option-cases, All, String, str_eq_iff, arith,
}
use gov_jobs_backend.Models.{JobSource, Job}
use gov_jobs_backend.Crawler.{
  NormalizedJob, JobStore, find_job, persist_one, persist_from, persist, unchanged, Tally, no_tally,
  count_one,
}
use gov_jobs_backend.Crawler.Stored.{IsJobTable, same_source_eq, or-eq-false}
use gov_jobs_backend.Crawler.Rounds.{persist_one-jobs}
use gov_jobs_backend.Crawler.Persist.{
  persist_one-IsJobTable, persist_from-next, persist_from-stop, persist_from-IsJobTable,
}
use gov_jobs_backend.Crawler.Hashes.{
  stored_hash, stored_hash-jobs_after, stored_hash-jobs_after_other, same_key,
}

-- The announcement is in the table with the content hash it was listed with.
abbrev pub IsStored : List Job → NormalizedJob → Type 0
IsStored js job = stored_hash job.source job.external_id js ≡ some job.content_hash

-- No announcement is listed twice.
abbrev pub IsDistinct : List NormalizedJob → Type 0
IsDistinct [] = Unit
IsDistinct (job ∷ jobs) = (any (λ k. same_key k job) jobs ≡ false) × IsDistinct jobs

IsStored-one :
    (now : ℕ) (job : NormalizedJob) (s : JobStore)
    → IsJobTable s
    → IsStored (persist_one now job s).0.jobs job
IsStored-one now job s t = rw (persist_one-jobs now job s t) (stored_hash-jobs_after now job s)

IsStored-other :
    (now : ℕ) (job other : NormalizedJob) (s : JobStore)
    → IsJobTable s
    → same_key job other ≡ false
    → IsStored s.jobs other
    → IsStored (persist_one now job s).0.jobs other
IsStored-other now job other s t differs h =
    rw (persist_one-jobs now job s t) (stored_hash-jobs_after_other now job other s t differs ∙ h)

-- Two entries for one announcement, both stored, stay stored together.
IsStored-same :
    (job other : NormalizedJob) (js js' : List Job)
    → same_key job other ≡ true
    → IsStored js job
    → IsStored js other
    → IsStored js' job
    → IsStored js' other
IsStored-same job other js js' same a b h =
    let p : job.source ≡ other.source = same_source_eq _ _ (ground arith) in
    let q : job.external_id ≡ other.external_id = (str_eq_iff _ _).0 (ground arith) in
    let c : stored_hash job.source job.external_id js ≡ some other.content_hash = rw (p, q) b in
    rw (← p, ← q) (h ∙ (sym a ∙ c))

stored-row :
    (source : JobSource) (e : String) (js : List Job) (hash : String)
    → stored_hash source e js ≡ some hash
    → (r : Job) × (find_job source e js ≡ some r) × (r.content_hash ≡ hash)
unfolding stored_hash
stored-row source e js hash h = elim (Option-cases (find_job source e js)) [
  | inl none_found ↦ ground arith
  | inr (r, found) ↦ (r, found, ground arith)
]

-- A round for a stored announcement counts it as unchanged.
persist_one_stored :
    (now : ℕ) (job : NormalizedJob) (s : JobStore)
    → IsStored s.jobs job
    → (persist_one now job s).1 ≡ unchanged
unfolding persist_one
persist_one_stored now job s h =
    let (r, found, same) = stored-row job.source job.external_id s.jobs job.content_hash h in
    rw (found, persist_one) (rw ((str_eq_iff r.content_hash job.content_hash).1 same))

persist_from-IsStored :
    (now : ℕ) (jobs : List NormalizedJob) (tally : Tally) (other : NormalizedJob) (s : JobStore)
    → IsJobTable s
    → any (λ k. same_key k other) jobs ≡ false
    → IsStored s.jobs other
    → IsStored (persist_from now jobs tally s).0.jobs other
unfolding persist_from
persist_from-IsStored now [] tally other s t free h = h
persist_from-IsStored now (job ∷ jobs) tally other s t free h =
    let (here, later) = or-eq-false (same_key job other) _ free in
    let next = IsStored-other now job other s t here h in
    elim (Option-cases (count_one (persist_one now job s).1 tally)) [
      | inl e ↦ rw (persist_from-stop now job jobs tally s e) next
      | inr (tally', e) ↦ rw (persist_from-next now job jobs tally tally' s e) (
          persist_from-IsStored now jobs tally' other (persist_one now job s).0
            (persist_one-IsJobTable now job s t) later next)
    ]

-- After a completed run every announcement of the listing is stored, with its current hash.
IsStored-persist_from :
    (now : ℕ) (jobs : List NormalizedJob) (tally t' : Tally) (s : JobStore)
    → IsJobTable s
    → IsDistinct jobs
    → (persist_from now jobs tally s).1 ≡ some t'
    → All (IsStored (persist_from now jobs tally s).0.jobs) jobs
IsStored-persist_from now [] tally t' s t d h = tt
IsStored-persist_from now (job ∷ jobs) tally t' s t (free, d) h =
    elim (Option-cases (count_one (persist_one now job s).1 tally)) [
      | inl e ↦
          absurd
            (none-ne-some t' (ap (λ x. x.1) (sym (persist_from-stop now job jobs tally s e)) ∙ h))
      | inr (tally', e) ↦
          let same = persist_from-next now job jobs tally tally' s e in
          let next = persist_one-IsJobTable now job s t in
          subst (λ (x : JobStore × Option Tally). All (IsStored x.0.jobs) (job ∷ jobs)) (sym same)
            (
              persist_from-IsStored now jobs tally' job (persist_one now job s).0 next free
                  (IsStored-one now job s t),
              IsStored-persist_from now jobs tally' t' (persist_one now job s).0 next d
                  (ap (λ x. x.1) (sym same) ∙ h),
            )
    ]

-- A round for a stored announcement leaves the others of the listing stored.
IsStored-kept :
    (now : ℕ) (job : NormalizedJob) (jobs : List NormalizedJob) (s : JobStore)
    → IsJobTable s
    → IsStored s.jobs job
    → All (IsStored s.jobs) jobs
    → All (IsStored (persist_one now job s).0.jobs) jobs
IsStored-kept now job [] s t h later = tt
IsStored-kept now job (other ∷ jobs) s t h (here, later) = (
  elim (Bool-cases (same_key job other)) [
    | inl same ↦ IsStored-same job other s.jobs _ same h here (IsStored-one now job s t)
    | inr differs ↦ IsStored-other now job other s t differs here
  ],
  IsStored-kept now job jobs s t h later,
)

abbrev more_unchanged : Tally → ℕ → Tally
more_unchanged t n = record t { unchanged_jobs = t.unchanged_jobs + n }

-- Storing a listing whose announcements are all stored counts each as unchanged.
persist_from_stored :
    (now : ℕ) (jobs : List NormalizedJob) (tally : Tally) (s : JobStore)
    → IsJobTable s
    → All (IsStored s.jobs) jobs
    → (persist_from now jobs tally s).1 ≡ some (more_unchanged tally (length jobs))
unfolding persist_from
persist_from_stored now [] tally s t h =
    ap (λ n. some (record tally { unchanged_jobs = n })) (omega arith)
persist_from_stored now (job ∷ jobs) tally s t (here, later) =
    let counted : count_one (persist_one now job s).1 tally ≡ some (more_unchanged tally 1) =
      rw (persist_one_stored now job s here) in
    ap (λ x. x.1) (persist_from-next now job jobs tally (more_unchanged tally 1) s counted)
    ∙ (persist_from_stored now jobs (more_unchanged tally 1) (persist_one now job s).0
          (persist_one-IsJobTable now job s t) (IsStored-kept now job jobs s t here later)
        ∙ ap (λ n. some (record tally { unchanged_jobs = n })) (omega arith))

-- When a run over a listing without repetitions completes, every announcement is stored with the
-- hash that the listing shows, and a later run over the same listing completes too, counts each
-- announcement as unchanged, and hands none to the matching of alerts.
pub persist_again :
    (now later : ℕ) (jobs : List NormalizedJob) (s : JobStore) (t : Tally)
    → IsJobTable s
    → IsDistinct jobs
    → (persist now jobs s).1 ≡ some t
    → All (IsStored (persist now jobs s).0.jobs) jobs
      × ((persist later jobs (persist now jobs s).0).1
          ≡ some (record {
            new_jobs = 0;
            updated_jobs = 0;
            unchanged_jobs = length jobs;
            changed_job_ids = [];
          }))
unfolding persist
persist_again now later jobs s t table distinct done =
    let all = IsStored-persist_from now jobs no_tally t s table distinct done in
    (
      all,
      persist_from_stored later jobs no_tally (persist_from now jobs no_tally s).0
            (persist_from-IsJobTable now jobs no_tally s table) all
          ∙ ap (λ n. some (record no_tally { unchanged_jobs = n })) (omega arith),
    )
