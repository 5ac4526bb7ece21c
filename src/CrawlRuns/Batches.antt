-- ===== src/CrawlRuns/Batches.antt =====
-- When `run` of src/modules/crawler/crawler.service.ts answers that a crawl is running, which
-- statements it consists of, and what `runAll` adds up.
use gov_jobs_backend.Base.{
  ℕ, suc, ◌+◌, ◌-◌, ◌*◌, ◌≤◌, ◌≡◌, refl, sym, ap, ◌∙◌, inl, inr, Bool, true, false, ◌&&◌, not, none,
  some, List, [], ◌∷◌, ◌++◌, any, filter, length, length-append, ◌↔◌, ltb, Bool-cases, Option-cases,
  String, arith,
}
use mathlib.Core.Path.{subst}
use mathlib.Core.Bool.{false≢true}
use gov_jobs_backend.Models.{JobSource, CrawlerRun}
use gov_jobs_backend.Crawler.{update_where}
use gov_jobs_backend.CrawlRuns.{
  Answers, Clock, CrawlStore, CrawlSummary, RunOutcome, finished, not_found, conflict, holds_slot,
  release_stale_runs, stale_run_minutes, start_run, run_row, crawl_and_persist,
}
use gov_jobs_backend.CrawlRuns.Run.{
  has_crawler, sources, finish, run_claimed, run, Batch, add_outcome, has_failed, run_each, run_all,
}
use gov_jobs_backend.CrawlRuns.Slots.{
  ends_abandoned, Step, releases, claims, finishes, Steps, still, then_step,
}
use gov_jobs_backend.CrawlRuns.Outcomes.{
  crawl_and_persist-runs, run_of_claimed, run_of_conflict, run_of_unregistered,
}

-- A live row of the source, started no more than half an hour before.
abbrev pub is_live : ℕ → JobSource → CrawlerRun → Bool
is_live now source r = holds_slot source r && not (ltb r.started_at (now - 30 * 60 * 1000))

any-release_stale_runs :
    (now : ℕ) (source : JobSource) (runs : List CrawlerRun)
    → any (holds_slot source) (release_stale_runs now source runs) ≡ any (is_live now source) runs
unfolding release_stale_runs update_where
any-release_stale_runs now source [] = refl
any-release_stale_runs now source (r ∷ runs) =
    let later = any-release_stale_runs now source runs in
    elim (Bool-cases (holds_slot source r)) [
      | inl live ↦ elim (Bool-cases (ltb r.started_at (now - stale_run_minutes * 60000))) [
        | inl old ↦ rw (live, old, ends_abandoned now source r) later
        | inr young ↦ rw (live, young, live)
      ]
      | inr over ↦ rw (over, over) later
    ]

module _ (batch_size : ℕ) (registered : List JobSource) (answers : JobSource → Answers)
    (clock : JobSource → Clock) (trigger : String) where
  run_claimed-finishes :
      (source : JobSource) (runs : List CrawlerRun) (s : CrawlStore)
      → Step runs (run_claimed batch_size registered answers clock trigger source runs s).0.runs
  unfolding run_claimed
  run_claimed-finishes source runs s =
      let c = clock source in
      let body =
        crawl_and_persist batch_size (answers source) c s.runs_drawn
          (record s { runs = runs; runs_drawn = suc s.runs_drawn }) in
      subst (λ rs. Step runs (finish s.runs_drawn c.finished_at body.1 rs))
        (sym (crawl_and_persist-runs batch_size (answers source) c s.runs_drawn _))
        (finishes s.runs_drawn c.finished_at body.1)

  -- A run is a sequence of the statements that interleave.
  pub run-Steps :
      (source : JobSource) (s : CrawlStore)
      → Steps s.runs (run batch_size registered answers clock trigger source s).0.runs
  run-Steps source s =
      let c = clock source in
      elim (Bool-cases (has_crawler registered source)) [
        | inl has ↦
            let released = then_step still (releases c.released_at source) in
            elim (Option-cases (
              start_run s.runs_drawn source trigger c.created_at
                (release_stale_runs c.released_at source s.runs))) [
                  | inl e ↦
                      rw
                        (run_of_conflict batch_size registered answers clock trigger source s has e)
                        released
                  | inr (runs, e) ↦
                      rw
                        (run_of_claimed batch_size registered answers clock trigger source s has
                          runs e)
                        (then_step
                          (then_step released (claims s.runs_drawn source trigger c.created_at e))
                          (run_claimed-finishes source runs s))
                ]
        | inr missing ↦
            rw (run_of_unregistered batch_size registered answers clock trigger source s missing)
              still
      ]

  run_claimed-ne-conflict :
      (source : JobSource) (runs : List CrawlerRun) (s : CrawlStore)
      → (run_claimed batch_size registered answers clock trigger source runs s).1 ≡ conflict
      → false ≡ true
  unfolding run_claimed
  run_claimed-ne-conflict source runs s h = ground arith

  -- For a source with a crawler, a run answers that a crawl is already running exactly when a row
  -- of the source is RUNNING that started no more than half an hour before.
  pub run_conflict_iff :
      (source : JobSource) (s : CrawlStore)
      → has_crawler registered source ≡ true
      → ((run batch_size registered answers clock trigger source s).1 ≡ conflict)
        ↔ (any (is_live (clock source).released_at source) s.runs ≡ true)
  unfolding start_run
  run_conflict_iff source s has =
      let c = clock source in
      let released = release_stale_runs c.released_at source s.runs in
      let live = any-release_stale_runs c.released_at source s.runs in
      elim (Bool-cases (any (holds_slot source) released)) [
        | inl taken ↦
            let e : start_run s.runs_drawn source trigger c.created_at released ≡ none = rw taken in
            (
              λ _. sym live ∙ taken,
              λ _.
                  ap (λ y. y.1)
                    (run_of_conflict batch_size registered answers clock trigger source s has e),
            )
        | inr free ↦
            let e : start_run s.runs_drawn source trigger c.created_at released
                ≡ some (released ++ run_row s.runs_drawn source trigger c.created_at ∷ []) =
              rw free in
            let same =
              run_of_claimed batch_size registered answers clock trigger source s has _ e in
            (
              λ h.
                  absurd (
                    false≢true (run_claimed-ne-conflict source _ s (ap (λ y. y.1) (sym same) ∙ h))),
              λ h. absurd (false≢true (sym free ∙ live ∙ h)),
            )
      ]

  abbrev outcomes : Batch → ℕ
  outcomes b = length b.runs + length b.skipped_sources

  outcomes-add_outcome :
      (source : JobSource) (o : RunOutcome) (b : Batch)
      → outcomes (add_outcome source o b) ≡ outcomes b + 1
  outcomes-add_outcome source (finished x) b = omega (arith, length-append b.runs (x ∷ []))
  outcomes-add_outcome source not_found b =
      omega (arith, length-append b.skipped_sources (source ∷ []))
  outcomes-add_outcome source conflict b =
      omega (arith, length-append b.skipped_sources (source ∷ []))

  outcomes-run_each :
      (list : List JobSource) (b : Batch) (s : CrawlStore)
      → outcomes (run_each batch_size registered answers clock trigger list b s).1
        ≡ outcomes b + length list
  unfolding run_each
  outcomes-run_each [] b s = omega arith
  outcomes-run_each (source ∷ rest) b s =
      let r = run batch_size registered answers clock trigger source s in
      let one = outcomes-add_outcome source r.1 b in
      outcomes-run_each rest (add_outcome source r.1 b) r.0 ∙ omega arith

  length-filter_le :
      (p : CrawlSummary → Bool) (xs : List CrawlSummary) → length (filter p xs) ≤ length xs
  length-filter_le p [] = omega arith
  length-filter_le p (x ∷ xs) =
      let later = length-filter_le p xs in
      elim (Bool-cases (p x)) [ inl e ↦ rw e (omega arith) | inr e ↦ rw e (omega arith) ]

  -- Whatever happens to each run, a batch attempts every source that has a crawler: those that
  -- succeeded, failed and were skipped add up to them.
  pub run_all_totals :
      (elapsed : ℕ) (s : CrawlStore)
      → let x = (run_all batch_size registered answers clock trigger elapsed s).1 in
        (x.succeeded + x.failures + x.skipped ≡ length (sources registered))
        × (x.succeeded + x.failures ≡ length x.runs)
  unfolding run_all
  run_all_totals elapsed s =
      let b =
        (run_each batch_size registered answers clock trigger (sources registered)
          (record { runs = []; skipped_sources = [] }) s).1 in
      let total =
        outcomes-run_each (sources registered) (record { runs = []; skipped_sources = [] }) s in
      let fewer = length-filter_le has_failed b.runs in (omega arith, omega arith)
