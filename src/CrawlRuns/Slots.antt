-- ===== src/CrawlRuns/Slots.antt =====
-- The slot of a source: `uq_crawler_run_active` of
-- src/models/crawler/entities/crawler-run.entity.ts.
use gov_jobs_backend.Base.{
  Attempt, ok, error, ℕ, ◌+◌, ◌≤◌, ◌≡◌, refl, sym, ◌∙◌, inl, inr, Bool, false, some, List, [], ◌∷◌,
  ◌++◌, any, filter, length, if◌then◌else◌, Bool-cases, String, arith,
}
use mathlib.Core.Option.{none-ne-some, some-injective}
use mathlib.Core.Path.{subst}
use gov_jobs_backend.Models.{JobSource, CrawlerRun}
use gov_jobs_backend.Crawler.{update_where}
use gov_jobs_backend.Crawler.Stored.{or-eq-false, same_source_eq}
use gov_jobs_backend.CrawlRuns.{
  Figures, holds_slot, release_stale_runs, start_run, run_row, abandoned,
}
use gov_jobs_backend.CrawlRuns.Run.{finish, succeeded_row, failed_row}

abbrev pub active : JobSource → List CrawlerRun → ℕ
active source runs = length (filter (holds_slot source) runs)

-- At most one live run per source.
abbrev pub AtMostOne : List CrawlerRun → Type 0
AtMostOne runs = (source : JobSource) → active source runs ≤ 1

-- A change to rows after which they are not live.
module _ (p : CrawlerRun → Bool) (f : CrawlerRun → CrawlerRun)
    (ends : (source : JobSource) (r : CrawlerRun) → holds_slot source (f r) ≡ false) where
  pub update_where-active :
      (source : JobSource) (runs : List CrawlerRun)
      → active source (update_where p f runs) ≤ active source runs
  unfolding update_where
  update_where-active source [] = omega arith
  update_where-active source (r ∷ runs) =
      let later = update_where-active source runs in
      elim (Bool-cases (p r)) [
        | inl e ↦
            rw (e, ends source r)
              (elim (Bool-cases (holds_slot source r)) [
                | inl live ↦ rw live (omega arith)
                | inr over ↦ rw over later
              ])
        | inr e ↦ rw e (elim (Bool-cases (holds_slot source r)) [
          | inl live ↦ rw live (omega arith)
          | inr over ↦ rw over later
        ])
      ]

  update_where-AtMostOne :
      (runs : List CrawlerRun) → AtMostOne runs → AtMostOne (update_where p f runs)
  update_where-AtMostOne runs h source =
      let less = update_where-active source runs in let one = h source in omega arith

pub ends_abandoned :
    (now : ℕ) (source : JobSource) (r : CrawlerRun) → holds_slot source (abandoned now r) ≡ false
ends_abandoned now source r = ground arith

pub ends_succeeded :
    (now : ℕ) (f : Figures) (source : JobSource) (r : CrawlerRun)
    → holds_slot source (succeeded_row now f r) ≡ false
ends_succeeded now f source r = ground arith

pub ends_failed :
    (now : ℕ) (message : String) (source : JobSource) (r : CrawlerRun)
    → holds_slot source (failed_row now message r) ≡ false
ends_failed now message source r = ground arith

pub release_stale_runs-AtMostOne :
    (now : ℕ) (source : JobSource) (runs : List CrawlerRun)
    → AtMostOne runs
    → AtMostOne (release_stale_runs now source runs)
unfolding release_stale_runs
release_stale_runs-AtMostOne now source runs h =
    update_where-AtMostOne _ (abandoned now) (ends_abandoned now) runs h

pub finish-AtMostOne :
    (id now : ℕ) (result : Attempt String Figures) (runs : List CrawlerRun)
    → AtMostOne runs
    → AtMostOne (finish id now result runs)
unfolding finish
finish-AtMostOne id now (ok f) runs h =
    update_where-AtMostOne _ (succeeded_row now f) (ends_succeeded now f) runs h
finish-AtMostOne id now (error e) runs h =
    update_where-AtMostOne _ (failed_row now e) (ends_failed now e) runs h

active-append :
    (source : JobSource) (runs : List CrawlerRun) (r : CrawlerRun)
    → active source (runs ++ r ∷ []) ≡ active source runs + (if holds_slot source r then 1 else 0)
active-append source [] r = ground arith
active-append source (x ∷ runs) r = elim (Bool-cases (holds_slot source x)) [
  | inl e ↦ rw (e, active-append source runs r) (omega arith)
  | inr e ↦ rw (e, active-append source runs r)
]

active-free :
    (source : JobSource) (runs : List CrawlerRun)
    → any (holds_slot source) runs ≡ false
    → active source runs ≡ 0
active-free source [] h = refl
active-free source (r ∷ runs) h =
    let (here, later) = or-eq-false (holds_slot source r) _ h in
    rw here (active-free source runs later)

pub start_run-some :
    (id : ℕ) (source : JobSource) (trigger : String) (now : ℕ) (runs runs' : List CrawlerRun)
    → start_run id source trigger now runs ≡ some runs'
    → (any (holds_slot source) runs ≡ false) × (runs' ≡ runs ++ run_row id source trigger now ∷ [])
unfolding start_run
start_run-some id source trigger now runs runs' h =
    elim (Bool-cases (any (holds_slot source) runs)) [
      | inl taken ↦ absurd (none-ne-some runs' (sym (rw (taken, start_run)) ∙ h))
      | inr free ↦ (free, sym (some-injective _ runs' (sym (rw (free, start_run)) ∙ h)))
    ]

pub start_run-AtMostOne :
    (id : ℕ) (source : JobSource) (trigger : String) (now : ℕ) (runs runs' : List CrawlerRun)
    → start_run id source trigger now runs ≡ some runs'
    → AtMostOne runs
    → AtMostOne runs'
start_run-AtMostOne id source trigger now runs runs' h one other =
    let row = run_row id source trigger now in
    let (free, e) = start_run-some id source trigger now runs runs' h in
    let before = one other in
    rw (e, active-append other runs row)
      (elim (Bool-cases (holds_slot other row)) [
        | inl same ↦
            let key : source ≡ other = same_source_eq source other (ground arith) in
            let none_live : active other runs ≡ 0 =
              subst (λ (x : JobSource). active x runs ≡ 0) key (active-free source runs free) in
            rw (same, none_live) (omega arith)
        | inr differs ↦ rw differs (omega arith)
      ])

-- What a process does to the table in one statement; processes interleave between statements.
pub data Step : List CrawlerRun → List CrawlerRun → Type 0 where
  releases :
      (now : ℕ) (source : JobSource) {runs : List CrawlerRun}
      → Step runs (release_stale_runs now source runs)
  claims :
      (id : ℕ) (source : JobSource) (trigger : String) (now : ℕ) {runs runs' : List CrawlerRun}
      → start_run id source trigger now runs ≡ some runs'
      → Step runs runs'
  finishes :
      (id now : ℕ) (result : Attempt String Figures) {runs : List CrawlerRun}
      → Step runs (finish id now result runs)

pub data Steps : List CrawlerRun → List CrawlerRun → Type 0 where
  still : {runs : List CrawlerRun} → Steps runs runs
  then_step :
      {runs runs' runs'' : List CrawlerRun}
      → Steps runs runs'
      → Step runs' runs''
      → Steps runs runs''

Step-AtMostOne : {runs runs' : List CrawlerRun} → Step runs runs' → AtMostOne runs → AtMostOne runs'
Step-AtMostOne {runs} (releases now source) h = release_stale_runs-AtMostOne now source runs h
Step-AtMostOne {runs} {runs'} (claims id source trigger now e) h =
    start_run-AtMostOne id source trigger now runs runs' e h
Step-AtMostOne {runs} (finishes id now result) h = finish-AtMostOne id now result runs h

-- However the statements of concurrent runs interleave, each source has at most one live run, if
-- it had at most one before.
pub Steps-AtMostOne :
    {runs runs' : List CrawlerRun} → Steps runs runs' → AtMostOne runs → AtMostOne runs'
Steps-AtMostOne still h = h
Steps-AtMostOne (then_step before last) h = Step-AtMostOne last (Steps-AtMostOne before h)
