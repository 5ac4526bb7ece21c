-- ===== src/Crawler/Persist.antt =====
-- The table of announcements through `persist` of src/modules/crawler/crawler.service.ts.
use mathlib.Core.Option.{none-ne-some, some-injective}
use mathlib.Core.Path.{subst}
use gov_jobs_backend.Base.{
  ℕ, suc, ◌+◌, ◌≡◌, refl, sym, ap, ◌∙◌, inl, inr, none, some, List, [], ◌∷◌, ◌++◌, length, ◌==◌,
  Option-cases, length-append, arith,
}
use gov_jobs_backend.Models.{Job}
use gov_jobs_backend.Crawler.{
  NormalizedJob, JobStore, find_job, persist_one, persist_from, persist, new_row, Persisted,
  created, updated, unchanged, threw, Tally, no_tally, count_one,
}
use gov_jobs_backend.Crawler.Rounds.{
  IsJobTable-Kept, append-UniqueIds, append-UniqueKeys, append-below, refreshed, refreshed-id,
  refreshed-source, refreshed-external_id, jobs_after, drawn_after, persist_one-jobs,
  persist_one-drawn,
}
use gov_jobs_backend.Crawler.Stored.{
  IsJobTable, update_where-UniqueIds, update_where-UniqueKeys, update_where-below,
}

-- One round keeps the constraints of the table.
IsJobTable-jobs_after :
    (now : ℕ) (job : NormalizedJob) (s : JobStore)
    → IsJobTable s
    → IsJobTable (record s { jobs = jobs_after now job s; drawn = drawn_after job s })
unfolding jobs_after drawn_after new_row
IsJobTable-jobs_after now job s t =
    elim (Option-cases (find_job job.source job.external_id s.jobs)) [
      | inl e ↦
          rw (e, jobs_after, drawn_after)
            record {
              unique_ids =
                  append-UniqueIds s.drawn (new_row now s.drawn job) refl s.jobs t.below
                    t.unique_ids;
              unique_keys = append-UniqueKeys (new_row now s.drawn job) s.jobs e t.unique_keys;
              below = append-below s.drawn (new_row now s.drawn job) refl s.jobs t.below;
            }
      | inr (r, e) ↦
          let f = refreshed now job r in
          let id = refreshed-id now job r in
          let source = refreshed-source now job r in
          let external_id = refreshed-external_id now job r in
          let p = λ (j : Job). j.id == r.id in
          rw (e, jobs_after, drawn_after)
            record {
              unique_ids = update_where-UniqueIds p f id source external_id s.jobs t.unique_ids;
              unique_keys = update_where-UniqueKeys p f id source external_id s.jobs t.unique_keys;
              below = update_where-below p f id source external_id s.drawn s.jobs t.below;
            }
    ]

pub persist_one-IsJobTable :
    (now : ℕ) (job : NormalizedJob) (s : JobStore)
    → IsJobTable s
    → IsJobTable (persist_one now job s).0
persist_one-IsJobTable now job s t =
    IsJobTable-Kept (record s { jobs = jobs_after now job s; drawn = drawn_after job s })
      (persist_one now job s).0 (persist_one-jobs now job s t, persist_one-drawn now job s)
      (IsJobTable-jobs_after now job s t)

pub persist_from-next :
    (now : ℕ) (job : NormalizedJob) (jobs : List NormalizedJob) (t t' : Tally) (s : JobStore)
    → count_one (persist_one now job s).1 t ≡ some t'
    → persist_from now (job ∷ jobs) t s ≡ persist_from now jobs t' (persist_one now job s).0
unfolding persist_from
persist_from-next now job jobs t t' s e = rw (e, persist_from)

pub persist_from-stop :
    (now : ℕ) (job : NormalizedJob) (jobs : List NormalizedJob) (t : Tally) (s : JobStore)
    → count_one (persist_one now job s).1 t ≡ none
    → persist_from now (job ∷ jobs) t s ≡ ((persist_one now job s).0, none)
unfolding persist_from
persist_from-stop now job jobs t s e = rw (e, persist_from)

pub persist_from-IsJobTable :
    (now : ℕ) (jobs : List NormalizedJob) (tally : Tally) (s : JobStore)
    → IsJobTable s
    → IsJobTable (persist_from now jobs tally s).0
unfolding persist_from
persist_from-IsJobTable now [] tally s t = t
persist_from-IsJobTable now (job ∷ jobs) tally s t =
    let next = persist_one-IsJobTable now job s t in
    elim (Option-cases (count_one (persist_one now job s).1 tally)) [
      | inl e ↦ rw (persist_from-stop now job jobs tally s e) next
      | inr (tally', e) ↦
          rw (persist_from-next now job jobs tally tally' s e)
            (persist_from-IsJobTable now jobs tally' (persist_one now job s).0 next)
    ]

-- Whatever a crawl found, and also where an exception cuts it short, the announcements keep
-- their constraints: no two rows share an id, no two rows share a source and an external id,
-- and every id is one that was drawn.
pub persist-IsJobTable :
    (now : ℕ) (jobs : List NormalizedJob) (s : JobStore)
    → IsJobTable s
    → IsJobTable (persist now jobs s).0
unfolding persist
persist-IsJobTable now jobs s t = persist_from-IsJobTable now jobs no_tally s t

-- What the counters say of `n` announcements.
abbrev pub IsTallyOf : ℕ → Tally → Type 0
IsTallyOf n t =
    (t.new_jobs + t.updated_jobs + t.unchanged_jobs ≡ n)
    × (length t.changed_job_ids ≡ t.new_jobs + t.updated_jobs)

count_id : (id : ℕ) (ids : List ℕ) (n : ℕ) → length ids ≡ n → length (ids ++ id ∷ []) ≡ n + 1
count_id id ids n h = length-append ids (id ∷ []) ∙ ap (λ k. k + 1) h

count_one-IsTallyOf :
    (p : Persisted) (n : ℕ) (t t' : Tally)
    → IsTallyOf n t
    → count_one p t ≡ some t'
    → IsTallyOf (n + 1) t'
count_one-IsTallyOf (created id) n t t' (a, b) h =
    subst (IsTallyOf (n + 1)) (some-injective _ t' h)
      (omega arith, count_id id t.changed_job_ids _ b ∙ omega arith)
count_one-IsTallyOf (updated id) n t t' (a, b) h =
    subst (IsTallyOf (n + 1)) (some-injective _ t' h)
      (omega arith, count_id id t.changed_job_ids _ b ∙ omega arith)
count_one-IsTallyOf unchanged n t t' (a, b) h =
    subst (IsTallyOf (n + 1)) (some-injective _ t' h) (omega arith, b)
count_one-IsTallyOf threw n t t' (a, b) h = ground arith

zero_add : (n : ℕ) → 0 + n ≡ n
zero_add n = omega arith

add_nil : (n : ℕ) → n + 0 ≡ n
add_nil n = omega arith

add_one : (n m : ℕ) → (n + 1) + m ≡ n + suc m
add_one n m = omega arith

persist_from-IsTallyOf :
    (now n : ℕ) (jobs : List NormalizedJob) (tally t' : Tally) (s : JobStore)
    → IsTallyOf n tally
    → (persist_from now jobs tally s).1 ≡ some t'
    → IsTallyOf (n + length jobs) t'
unfolding persist_from
persist_from-IsTallyOf now n [] tally t' s c h =
    let same : tally ≡ t' = some-injective tally t' h in rw (add_nil n) (subst (IsTallyOf n) same c)
persist_from-IsTallyOf now n (job ∷ jobs) tally t' s c h =
    elim (Option-cases (count_one (persist_one now job s).1 tally)) [
      | inl e ↦
          absurd
            (none-ne-some t' (ap (λ x. x.1) (sym (persist_from-stop now job jobs tally s e)) ∙ h))
      | inr (next, e) ↦
          subst (λ m. IsTallyOf m t') (add_one n (length jobs))
            (persist_from-IsTallyOf now (n + 1) jobs next t' (persist_one now job s).0
              (count_one-IsTallyOf (persist_one now job s).1 n tally next c e)
              (ap (λ x. x.1) (sym (persist_from-next now job jobs tally next s e)) ∙ h))
    ]

-- When a run completes, the counters of new, updated and unchanged announcements add up to the
-- length of the listing, and one id per new or updated announcement is handed on.
pub persist-IsTallyOf :
    (now : ℕ) (jobs : List NormalizedJob) (s : JobStore) (t : Tally)
    → (persist now jobs s).1 ≡ some t
    → IsTallyOf (length jobs) t
unfolding persist
persist-IsTallyOf now jobs s t h =
    subst (λ m. IsTallyOf m t) (zero_add (length jobs))
      (persist_from-IsTallyOf now 0 jobs no_tally t s (refl, refl) h)
