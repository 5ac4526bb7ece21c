-- ===== src/JobStatus/Tests.antt =====
-- The status of concrete announcements, and the theorems at concrete inputs.
use gov_jobs_backend.Base.{◌≡◌, refl, none, some, text_lt, codes, arith}
use gov_jobs_backend.Dates.{missing, string, instant, to_date_string}
use gov_jobs_backend.JobStatus.{upcoming, open_now, JobApplicationPeriod, resolve_job_status}
use gov_jobs_backend.JobStatus.Sql.{
  SqlDate, text_of, column, job_status_sql_expression, resolve_job_status-eq-sql,
}

abbrev september : JobApplicationPeriod
september = record {
  application_start = string (codes " 2026-09-07T00:00:00 ");
  application_end = string (codes "2026-09-30");
}

before_september : resolve_job_status september (codes "2026-09-06") ≡ upcoming
unfolding resolve_job_status to_date_string text_lt
before_september = refl

last_day : resolve_job_status september (codes "2026-09-30") ≡ open_now
unfolding resolve_job_status to_date_string text_lt
last_day = refl

no_deadline :
    resolve_job_status
      (record { application_start = missing; application_end = instant none })
      (codes "2026-09-30")
    ≡ open_now
unfolding resolve_job_status to_date_string text_lt
no_deadline = refl

abbrev day : SqlDate
day = record { year = 2026; month = 9; day = 30 }

resolve_job_status-eq-sql_example :
    resolve_job_status
      (record { application_start = column none; application_end = column (some day) })
      (text_of (record { year = 2026; month = 10; day = 1 }))
    ≡ job_status_sql_expression none (some day) (record { year = 2026; month = 10; day = 1 })
resolve_job_status-eq-sql_example =
    resolve_job_status-eq-sql (record { year = 2026; month = 10; day = 1 }) none (some day) tt
      (omega arith)
