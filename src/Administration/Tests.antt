-- ===== src/Administration/Tests.antt =====
-- The dashboard and the list of users over a few rows.
use gov_jobs_backend.Base.{ℕ, ◌≡◌, refl, none, some, List, [], ◌∷◌, pos}
use gov_jobs_backend.Models.{User, CrawlerRun, CrawlerRunStatus, ocsc, running, success, failed}
use gov_jobs_backend.Samples.{somchai, alert, job}
use gov_jobs_backend.Jobs.Filters.{AllRows}
use gov_jobs_backend.Pagination.{PaginationQuery, Selection}
use gov_jobs_backend.Administration.{
  AdminStore, count_leading_failures, list_users, rounded_seconds,
}
use gov_jobs_backend.Administration.Counted.{IsCounted, list_users-IsCounted}

abbrev past_run : ℕ → CrawlerRunStatus → CrawlerRun
past_run at status = record {
  id = at;
  source = ocsc;
  started_at = at;
  finished_at = none;
  status = status;
  total_found = 0;
  new_jobs = 0;
  updated_jobs = 0;
  skipped_jobs = 0;
  unchanged_jobs = 0;
  alert_matches = 0;
  error_message = none;
  trigger = "cron";
}

two_failures :
    count_leading_failures (
      past_run 5 running
      ∷ past_run 4 failed
      ∷ past_run 3 failed
      ∷ past_run 2 success
      ∷ past_run 1 failed
      ∷ [])
    ≡ 2
unfolding count_leading_failures
two_failures = refl

half_a_second : rounded_seconds 1000 2500 ≡ pos 2
unfolding rounded_seconds
half_a_second = refl

abbrev store : AdminStore
store = record {
  users = somchai ∷ [];
  jobs = job ∷ [];
  saved_jobs = record { id = 1; user_id = 7; job_id = 1; created_at = 5 } ∷ [];
  alerts = alert ∷ [];
  matches = [];
  email_logs = [];
  runs = [];
}

abbrev all_users : List User → Selection → List User × ℕ
all_users rows s = (rows, 1)

abbrev first_page : PaginationQuery
first_page = record { page = some (pos 1); limit = some (pos 10); sort_by = none; order = none }

list_users-IsCounted_example :
    AllRows (IsCounted store) (list_users (λ id. 1) (λ id. 2) all_users first_page store)
list_users-IsCounted_example = list_users-IsCounted (λ id. 1) (λ id. 2) all_users first_page store
