-- ===== src/Crawler/Hashes.antt =====
-- The content hash that is stored for an announcement, and what a round of `persist` in
-- src/modules/crawler/crawler.service.ts makes of it.
use mathlib.Core.Bool.{false≢true}
use mathlib.Core.Option
use gov_jobs_backend.Base.{
  ℕ, ◌≡◌, refl, sym, ◌∙◌, inl, inr, Bool, true, false, ◌&&◌, Option, none, some, List, [], ◌∷◌,
  ◌++◌, ◌==◌, ==_refl, if◌then◌else◌, Bool-cases, Option-cases, String, str_eq, str_eq_iff,
}
use gov_jobs_backend.Models.{JobSource, same_source, Job}
use gov_jobs_backend.Crawler.{NormalizedJob, JobStore, has_key, find_job, new_row}
use gov_jobs_backend.Crawler.Stored.{
  IsJobTable, find_job-some, has_key_of_eq, find_job-update_where, same_row, same_source_refl,
}
use gov_jobs_backend.Crawler.Rounds.{
  refreshed, refreshed-id, refreshed-source, refreshed-external_id, refreshed-hash, jobs_after,
}

unfoldable pub stored_hash : JobSource → String → List Job → Option String
stored_hash source e js = Option.map (λ (j : Job). j.content_hash) (find_job source e js)

find_job-append :
    (source : JobSource) (e : String) (js : List Job) (r : Job)
    → find_job source e (js ++ r ∷ []) ≡ elim (find_job source e js) [
      | none ↦ if has_key source e r then some r else none
      | some j ↦ some j
    ]
unfolding find_job
find_job-append source e [] r = refl
find_job-append source e (j ∷ js) r = elim (Bool-cases (has_key source e j)) [
  | inl hit ↦ rw hit
  | inr miss ↦ rw (miss, find_job-append source e js r)
]

-- The round's own announcement is stored under the hash the source shows.
pub stored_hash-jobs_after :
    (now : ℕ) (job : NormalizedJob) (s : JobStore)
    → stored_hash job.source job.external_id (jobs_after now job s) ≡ some job.content_hash
unfolding stored_hash jobs_after new_row
stored_hash-jobs_after now job s =
    elim (Option-cases (find_job job.source job.external_id s.jobs)) [
      | inl e ↦
          rw (e, jobs_after)
            (rw (find_job-append job.source job.external_id s.jobs (new_row now s.drawn job), e)
              (rw (has_key_of_eq job.source job.external_id (new_row now s.drawn job) refl refl)))
      | inr (r, e) ↦
          rw (e, jobs_after)
            (rw
              (
                find_job-update_where (λ j. j.id == r.id) (refreshed now job r)
                    (refreshed-id now job r) (refreshed-source now job r)
                    (refreshed-external_id now job r) job.source job.external_id s.jobs,
                e,
              )
              (rw (==_refl r.id, refreshed-hash now job r)))
    ]

-- Two announcements of the source.
abbrev pub same_key : NormalizedJob → NormalizedJob → Bool
same_key a b = same_source a.source b.source && str_eq a.external_id b.external_id

other_row :
    (job other : NormalizedJob) (s : JobStore) (q r : Job)
    → IsJobTable s
    → same_key job other ≡ false
    → find_job other.source other.external_id s.jobs ≡ some q
    → find_job job.source job.external_id s.jobs ≡ some r
    → (q.id == r.id) ≡ false
other_row job other s q r t differs q_found r_found = elim (Bool-cases (q.id == r.id)) [
  | inl same ↦
      let (mq, a, b) = find_job-some other.source other.external_id s.jobs q q_found in
      let (mr, c, d) = find_job-some job.source job.external_id s.jobs r r_found in
      let e = same_row s.jobs q r t.unique_ids mq mr same in
      let key : same_key job other ≡ true = rw (
        ← c,
        ← d,
        ← a,
        ← b,
        e,
        same_source_refl,
        (str_eq_iff r.external_id r.external_id).1 refl,
      ) in
      absurd (false≢true (sym differs ∙ key))
  | inr apart ↦ apart
]

-- An announcement with another key keeps its hash.
pub stored_hash-jobs_after_other :
    (now : ℕ) (job other : NormalizedJob) (s : JobStore)
    → IsJobTable s
    → same_key job other ≡ false
    → stored_hash other.source other.external_id (jobs_after now job s)
      ≡ stored_hash other.source other.external_id s.jobs
unfolding stored_hash jobs_after new_row
stored_hash-jobs_after_other now job other s t differs =
    let found = find_job other.source other.external_id s.jobs in
    elim (Option-cases (find_job job.source job.external_id s.jobs)) [
      | inl e ↦
          rw (e, jobs_after)
            (rw (find_job-append other.source other.external_id s.jobs (new_row now s.drawn job))
              (elim (Option-cases found) [
                | inl none_found ↦ rw (none_found, differs)
                | inr (q, q_found) ↦ rw q_found
              ]))
      | inr (r, e) ↦
          rw (e, jobs_after)
            (rw
              (find_job-update_where (λ j. j.id == r.id) (refreshed now job r)
                (refreshed-id now job r) (refreshed-source now job r)
                (refreshed-external_id now job r) other.source other.external_id s.jobs)
              (elim (Option-cases found) [
                | inl none_found ↦ rw none_found
                | inr (q, q_found) ↦ rw q_found (rw (other_row job other s q r t differs q_found e))
              ]))
    ]
