-- ===== src/CrawlRuns/Run.antt =====
-- `run` and `runAll` of src/modules/crawler/crawler.service.ts, and the registry that they ask:
-- src/modules/crawler/crawler.registry.ts.
use gov_jobs_backend.Base.{
  Attempt, ok, error, ℕ, suc, ◌-◌, Bool, true, false, none, some, List, [], ◌∷◌, ◌++◌, any, filter,
  length, ◌==◌, if◌then◌else◌, String,
}
use gov_jobs_backend.Models.{
  JobSource, ocsc, dol, admin_court, doe, mdes, same_source, CrawlerRun, running, success, failed,
}
use gov_jobs_backend.Crawler.{update_where}
use gov_jobs_backend.CrawlRuns.{
  Answers, Clock, CrawlStore, CrawlSummary, RunOutcome, finished, not_found, conflict, Figures,
  release_stale_runs, start_run, crawl_and_persist,
}

-- The sources that have a crawler.
unfoldable pub has_crawler : List JobSource → JobSource → Bool
has_crawler registered source = any (λ c. same_source c source) registered

-- `Object.values(JobSource)`
abbrev pub all_sources : List JobSource
all_sources = ocsc ∷ dol ∷ admin_court ∷ doe ∷ mdes ∷ []

unfoldable pub sources : List JobSource → List JobSource
sources registered = filter (has_crawler registered) all_sources

-- The last update of a run's row.
abbrev pub succeeded_row : ℕ → Figures → CrawlerRun → CrawlerRun
succeeded_row now f r = record r {
  status = success;
  finished_at = some now;
  total_found = f.found.total_found;
  new_jobs = f.tally.new_jobs;
  updated_jobs = f.tally.updated_jobs;
  unchanged_jobs = f.tally.unchanged_jobs;
  skipped_jobs = length f.found.rejected;
}

abbrev pub failed_row : ℕ → String → CrawlerRun → CrawlerRun
failed_row now message r = record r {
  status = failed;
  finished_at = some now;
  error_message = some message;
}

unfoldable pub finish : ℕ → ℕ → Attempt String Figures → List CrawlerRun → List CrawlerRun
finish id now (ok f) = update_where (λ r. r.id == id) (succeeded_row now f)
finish id now (error e) = update_where (λ r. r.id == id) (failed_row now e)

unfoldable pub summary_of : ℕ → JobSource → ℕ → Attempt String Figures → CrawlSummary
summary_of id source duration (ok f) = record {
  run_id = id;
  source = source;
  status = success;
  total_found = f.found.total_found;
  new_jobs = f.tally.new_jobs;
  updated_jobs = f.tally.updated_jobs;
  unchanged_jobs = f.tally.unchanged_jobs;
  skipped_jobs = length f.found.rejected;
  matching_enqueued = f.matching_enqueued;
  documents_enqueued = f.documents_enqueued;
  duration_ms = duration;
  error_message = none;
  changed_job_ids = f.tally.changed_job_ids;
}
summary_of id source duration (error e) = record {
  run_id = id;
  source = source;
  status = failed;
  total_found = 0;
  new_jobs = 0;
  updated_jobs = 0;
  unchanged_jobs = 0;
  skipped_jobs = 0;
  matching_enqueued = 0;
  documents_enqueued = 0;
  duration_ms = duration;
  error_message = some e;
  changed_job_ids = [];
}

pub record Batch : Type 0 where
  pub runs : List CrawlSummary
  pub skipped_sources : List JobSource

abbrev pub add_outcome : JobSource → RunOutcome → Batch → Batch
add_outcome source (finished x) b = record b { runs = b.runs ++ x ∷ [] }
add_outcome source not_found b = record b { skipped_sources = b.skipped_sources ++ source ∷ [] }
add_outcome source conflict b = record b { skipped_sources = b.skipped_sources ++ source ∷ [] }

pub record RunAllSummary : Type 0 where
  pub total_sources : ℕ
  pub succeeded : ℕ
  pub failures : ℕ
  pub skipped : ℕ
  pub duration_ms : ℕ
  pub runs : List CrawlSummary
  pub skipped_sources : List JobSource

abbrev pub has_failed : CrawlSummary → Bool
has_failed x = elim x.status [ running ↦ false | success ↦ false | failed ↦ true ]

-- The answers and the clock of a run depend on its source.
module _ (batch_size : ℕ) (registered : List JobSource) (answers : JobSource → Answers)
    (clock : JobSource → Clock) (trigger : String) where
  -- A run that holds the slot, from its row on.
  unfoldable pub run_claimed : JobSource → List CrawlerRun → CrawlStore → CrawlStore × RunOutcome
  unfolding finish summary_of
  run_claimed source runs s =
      let id = s.runs_drawn in
      let c = clock source in
      let (s', result) =
        crawl_and_persist batch_size (answers source) c id
          (record s { runs = runs; runs_drawn = suc id }) in
      (
        record s' { runs = finish id c.finished_at result s'.runs },
        finished (summary_of id source (c.measured_at - c.started_at) result),
      )

  unfoldable pub run : JobSource → CrawlStore → CrawlStore × RunOutcome
  unfolding has_crawler release_stale_runs start_run run_claimed
  run source s =
      let c = clock source in
      let released = release_stale_runs c.released_at source s.runs in
      if has_crawler registered source
      then elim (start_run s.runs_drawn source trigger c.created_at released) [
        | none ↦ (record s { runs = released }, conflict)
        | some runs ↦ run_claimed source runs s
      ]
      else (s, not_found)

  unfoldable pub run_each : List JobSource → Batch → CrawlStore → CrawlStore × Batch
  run_each [] b s = (s, b)
  run_each (source ∷ rest) b s =
      let (s', outcome) = run source s in run_each rest (add_outcome source outcome b) s'

  -- The batch; `elapsed` is what the clock measured from its first line to its last.
  unfoldable pub run_all : ℕ → CrawlStore → CrawlStore × RunAllSummary
  unfolding sources run_each
  run_all elapsed s =
      let (s', b) = run_each (sources registered) (record { runs = []; skipped_sources = [] }) s in
      let failures = length (filter has_failed b.runs) in
      (
        s',
        record {
          total_sources = length (sources registered);
          succeeded = length b.runs - failures;
          failures = failures;
          skipped = length b.skipped_sources;
          duration_ms = elapsed;
          runs = b.runs;
          skipped_sources = b.skipped_sources;
        },
      )
