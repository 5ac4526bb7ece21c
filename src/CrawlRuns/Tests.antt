-- ===== src/CrawlRuns/Tests.antt =====
-- Two portals, of which one answers and the other is down, and a run left over from a crash.
use gov_jobs_backend.Base.{ok, error, ◌≡◌, ◌↔◌, refl, true, none, some, List, [], ◌∷◌, any, arith}
use gov_jobs_backend.Models.{JobSource, ocsc, dol, admin_court, doe, mdes, failed}
use gov_jobs_backend.Crawler.{update_where}
use gov_jobs_backend.CrawlRuns.{
  Answers, Clock, CrawlStore, CrawlSummary, finished, conflict, run_row, release_stale_runs,
  start_run, crawl_and_persist,
}
use gov_jobs_backend.CrawlRuns.Run.{has_crawler, summary_of, run_claimed, run}
use gov_jobs_backend.CrawlRuns.Slots.{AtMostOne, Steps-AtMostOne}
use gov_jobs_backend.CrawlRuns.Outcomes.{Settled, run-Settled}
use gov_jobs_backend.CrawlRuns.Batches.{is_live, run-Steps, run_conflict_iff}

abbrev answers : JobSource → Answers
answers source = record {
  synced = none;
  invalidated = none;
  crawled = elim source [
    | dol ↦ error "socket hang up"
    | ocsc ↦ ok (record {
      jobs = [];
      rejected = record { external_id = none; reason = [] } ∷ [];
      total_found = 1;
    })
    | admin_court ↦ error ""
    | doe ↦ error ""
    | mdes ↦ error ""
  ];
  insert_error = "duplicate key";
  matching_error = none;
  documents_error = none;
}

abbrev clock : JobSource → Clock
clock source = record {
  released_at = 2000000;
  created_at = 2000001;
  started_at = 2000002;
  seen_at = 2000003;
  measured_at = 2000009;
  finished_at = 2000010;
}

abbrev crashed : CrawlStore
crashed = record {
  runs = run_row 4 ocsc "scheduler" 100 ∷ [];
  runs_drawn = 5;
  listed = record { jobs = []; attachments = []; drawn = 0 };
  matching = [];
  documents = [];
}

abbrev registered : List JobSource
registered = dol ∷ ocsc ∷ []

abbrev summary : CrawlSummary
summary = record {
  run_id = 5;
  source = dol;
  status = failed;
  total_found = 0;
  new_jobs = 0;
  updated_jobs = 0;
  unchanged_jobs = 0;
  skipped_jobs = 0;
  matching_enqueued = 0;
  documents_enqueued = 0;
  duration_ms = 7;
  error_message = some "socket hang up";
  changed_job_ids = [];
}

dol_is_down : (run 50 registered answers clock "api" dol crashed).1 ≡ finished summary
unfolding run has_crawler release_stale_runs update_where start_run run_claimed crawl_and_persist
    summary_of
dol_is_down = refl

run-Settled_example : Settled dol summary (run 50 registered answers clock "api" dol crashed).0.runs
run-Settled_example = run-Settled 50 registered answers clock "api" dol crashed summary dol_is_down

has_ocsc : has_crawler registered ocsc ≡ true
unfolding has_crawler
has_ocsc = refl

run_conflict_iff_example :
    ((run 50 registered answers clock "api" ocsc crashed).1 ≡ conflict)
    ↔ (any (is_live 2000000 ocsc) (run_row 4 ocsc "scheduler" 100 ∷ []) ≡ true)
run_conflict_iff_example = run_conflict_iff 50 registered answers clock "api" ocsc crashed has_ocsc

crashed-AtMostOne : AtMostOne crashed.runs
crashed-AtMostOne ocsc = omega arith
crashed-AtMostOne dol = omega arith
crashed-AtMostOne admin_court = omega arith
crashed-AtMostOne doe = omega arith
crashed-AtMostOne mdes = omega arith

Steps-AtMostOne_example : AtMostOne (run 50 registered answers clock "api" ocsc crashed).0.runs
Steps-AtMostOne_example =
    Steps-AtMostOne (run-Steps 50 registered answers clock "api" ocsc crashed) crashed-AtMostOne
