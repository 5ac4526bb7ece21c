-- ===== src/CrawlRuns/Outcomes.antt =====
-- What `run` and `runAll` of src/modules/crawler/crawler.service.ts leave and answer.
use gov_jobs_backend.Base.{
  Attempt, ok, error, ℕ, suc, ◌-◌, ◌≡◌, refl, sym, ap, ◌∙◌, inl, inr, Bool, true, false, none, some,
  List, [], ◌∷◌, ◌++◌, any, ==_refl, Memᴰ, Bool-cases, Option-cases, String, arith,
}
use mathlib.Core.Path.{subst}
use gov_jobs_backend.Models.{JobSource, CrawlerRun}
use gov_jobs_backend.Crawler.{update_where}
use gov_jobs_backend.Crawler.Stored.{or-eq-false}
use gov_jobs_backend.CrawlRuns.{
  Figures, Answers, Clock, CrawlStore, CrawlSummary, RunOutcome, finished, not_found, conflict,
  holds_slot, release_stale_runs, start_run, run_row, enqueue, crawl_and_persist,
}
use gov_jobs_backend.CrawlRuns.Run.{
  has_crawler, finish, succeeded_row, failed_row, summary_of, run_claimed, run,
}
use gov_jobs_backend.CrawlRuns.Slots.{start_run-some, ends_succeeded, ends_failed}

-- Nothing between the claim and the last update touches the runs.
pub crawl_and_persist-runs :
    (n : ℕ) (answers : Answers) (clock : Clock) (id : ℕ) (s : CrawlStore)
    → (crawl_and_persist n answers clock id s).0.runs ≡ s.runs
unfolding crawl_and_persist enqueue
crawl_and_persist-runs n answers clock id s = ground arith

any-update_where :
    (source : JobSource) (p : CrawlerRun → Bool) (f : CrawlerRun → CrawlerRun)
    → ((r : CrawlerRun) → holds_slot source (f r) ≡ false)
    → (runs : List CrawlerRun) (row : CrawlerRun) → any (holds_slot source) runs ≡ false
    → p row ≡ true
    → any (holds_slot source) (update_where p f (runs ++ row ∷ [])) ≡ false
unfolding update_where
any-update_where source p f ends [] row h e = rw (e, ends row)
any-update_where source p f ends (r ∷ runs) row h e =
    let (here, later) = or-eq-false (holds_slot source r) _ h in
    let rest = any-update_where source p f ends runs row later e in
    elim (Bool-cases (p r)) [ inl hit ↦ rw (hit, ends r) rest | inr miss ↦ rw (miss, here) rest ]

updated_row :
    (p : CrawlerRun → Bool) (f : CrawlerRun → CrawlerRun) (runs : List CrawlerRun)
    (row : CrawlerRun)
    → p row ≡ true
    → Memᴰ (f row) (update_where p f (runs ++ row ∷ []))
unfolding update_where
updated_row p f [] row e = Memᴰ.head (rw e)
updated_row p f (r ∷ runs) row e = Memᴰ.tail (updated_row p f runs row e)

-- The row says what the summary says.
pub record IsRowOf (x : CrawlSummary) (r : CrawlerRun) : Type 0 where
  pub same_id : r.id ≡ x.run_id
  pub of_source : r.source ≡ x.source
  pub same_status : r.status ≡ x.status
  pub same_error : r.error_message ≡ x.error_message
  pub same_found : r.total_found ≡ x.total_found
  pub same_new : r.new_jobs ≡ x.new_jobs
  pub same_updated : r.updated_jobs ≡ x.updated_jobs
  pub same_unchanged : r.unchanged_jobs ≡ x.unchanged_jobs
  pub same_skipped : r.skipped_jobs ≡ x.skipped_jobs

abbrev pub Settled : JobSource → CrawlSummary → List CrawlerRun → Type 0
Settled source x runs =
    (any (holds_slot source) runs ≡ false)
    × ((r : CrawlerRun) × Memᴰ r runs × IsRowOf x r × ((t : ℕ) × (r.finished_at ≡ some t)))

finish-Settled :
    (id now duration : ℕ) (source : JobSource) (trigger : String) (created : ℕ)
    (result : Attempt String Figures) (runs : List CrawlerRun)
    → any (holds_slot source) runs ≡ false
    → Settled source
        (summary_of id source duration result)
        (finish id now result (runs ++ run_row id source trigger created ∷ []))
unfolding finish summary_of
finish-Settled id now duration source trigger created (ok f) runs free =
    let row = run_row id source trigger created in
    (
      any-update_where source _ (succeeded_row now f) (ends_succeeded now f source) runs row free
          (==_refl id),
      (
        succeeded_row now f row,
        updated_row _ (succeeded_row now f) runs row (==_refl id),
        record {
          same_id = refl;
          of_source = refl;
          same_status = refl;
          same_error = refl;
          same_found = refl;
          same_new = refl;
          same_updated = refl;
          same_unchanged = refl;
          same_skipped = refl;
        },
        (now, refl),
      ),
    )
finish-Settled id now duration source trigger created (error e) runs free =
    let row = run_row id source trigger created in
    (
      any-update_where source _ (failed_row now e) (ends_failed now e source) runs row free
          (==_refl id),
      (
        failed_row now e row,
        updated_row _ (failed_row now e) runs row (==_refl id),
        record {
          same_id = refl;
          of_source = refl;
          same_status = refl;
          same_error = refl;
          same_found = refl;
          same_new = refl;
          same_updated = refl;
          same_unchanged = refl;
          same_skipped = refl;
        },
        (now, refl),
      ),
    )

finished_inj : (x y : CrawlSummary) → Path RunOutcome (finished x) (finished y) → x ≡ y
finished_inj x y h = ground arith

pub conflict-ne-finished : (x : CrawlSummary) → ¬ Path RunOutcome conflict (finished x)
conflict-ne-finished x h = ground arith

not_found-ne-finished : (x : CrawlSummary) → ¬ Path RunOutcome not_found (finished x)
not_found-ne-finished x h = ground arith

module _ (batch_size : ℕ) (registered : List JobSource) (answers : JobSource → Answers)
    (clock : JobSource → Clock) (trigger : String) where
  pub run_of_unregistered :
      (source : JobSource) (s : CrawlStore)
      → has_crawler registered source ≡ false
      → run batch_size registered answers clock trigger source s ≡ (s, not_found)
  unfolding run
  run_of_unregistered source s none_here = rw none_here

  pub run_of_conflict :
      (source : JobSource) (s : CrawlStore)
      → has_crawler registered source ≡ true
      → let released = release_stale_runs (clock source).released_at source s.runs in
        start_run s.runs_drawn source trigger (clock source).created_at released ≡ none
        → run batch_size registered answers clock trigger source s
          ≡ (record s { runs = released }, conflict)
  unfolding run
  run_of_conflict source s has e = rw has (rw e)

  pub run_of_claimed :
      (source : JobSource) (s : CrawlStore)
      → has_crawler registered source ≡ true
      → (runs : List CrawlerRun)
      → start_run s.runs_drawn source trigger
          (clock source).created_at
          (release_stale_runs (clock source).released_at source s.runs)
        ≡ some runs
      → run batch_size registered answers clock trigger source s
        ≡ run_claimed batch_size registered answers clock trigger source runs s
  unfolding run
  run_of_claimed source s has runs e = rw has (rw e)

  run_claimed-Settled :
      (source : JobSource) (runs : List CrawlerRun) (s : CrawlStore) (x : CrawlSummary)
      → start_run s.runs_drawn source trigger
          (clock source).created_at
          (release_stale_runs (clock source).released_at source s.runs)
        ≡ some runs
      → let r = run_claimed batch_size registered answers clock trigger source runs s in
        r.1 ≡ finished x → Settled source x r.0.runs
  unfolding run_claimed
  run_claimed-Settled source runs s x e h =
      let c = clock source in
      let body =
        crawl_and_persist batch_size (answers source) c s.runs_drawn
          (record s { runs = runs; runs_drawn = suc s.runs_drawn }) in
      let kept : body.0.runs ≡ runs =
        crawl_and_persist-runs batch_size (answers source) c s.runs_drawn _ in
      let (free, appended) = start_run-some _ source trigger _ _ runs e in
      subst
        (λ (y : CrawlSummary).
          Settled source y (finish s.runs_drawn c.finished_at body.1 body.0.runs))
        (finished_inj _ x h)
        (subst
          (λ rs.
            Settled source (summary_of s.runs_drawn source (c.measured_at - c.started_at) body.1)
              (finish s.runs_drawn c.finished_at body.1 rs))
          (sym appended ∙ sym kept)
          (finish-Settled s.runs_drawn c.finished_at (c.measured_at - c.started_at) source trigger
            c.created_at body.1 _ free))

  -- Whatever the portal, the queues and the inserts do, a run that returns a summary has given its
  -- source's slot back: no row of the source is live. Its own row is in the table, finished, with
  -- the status, the error and the counters of the summary.
  pub run-Settled :
      (source : JobSource) (s : CrawlStore) (x : CrawlSummary)
      → let r = run batch_size registered answers clock trigger source s in
        r.1 ≡ finished x → Settled source x r.0.runs
  run-Settled source s x h = elim (Bool-cases (has_crawler registered source)) [
    | inl has ↦
        elim (Option-cases (
          start_run s.runs_drawn source trigger (clock source).created_at
            (release_stale_runs (clock source).released_at source s.runs))) [
              | inl e ↦ absurd (
                  conflict-ne-finished x (ap (λ y. y.1) (sym (run_of_conflict source s has e)) ∙ h))
              | inr (runs, e) ↦
                  let same = run_of_claimed source s has runs e in
                  subst (λ (y : CrawlStore × RunOutcome). Settled source x y.0.runs) (sym same)
                    (run_claimed-Settled source runs s x e (ap (λ y. y.1) (sym same) ∙ h))
            ]
    | inr missing ↦
        absurd
          (not_found-ne-finished x (ap (λ y. y.1) (sym (run_of_unregistered source s missing)) ∙ h))
  ]
