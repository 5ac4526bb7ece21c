-- ===== src/JobStatus.antt =====
-- The status of an announcement: src/shared/utils/job-status.util.ts,
-- src/shared/enums/job-status.enum.ts.
pub mod Sql
pub mod Progress
mod Tests
use gov_jobs_backend.Base.{
  Bool, true, false, ◌&&◌, not, Option, none, some, List, [], ◌∷◌, if◌then◌else◌, Text, text_lt,
}
use gov_jobs_backend.Dates.{DateValue, to_date_string}

pub data JobStatus : Type 0 where
  upcoming open_now closed : JobStatus

pub record JobApplicationPeriod : Type 0 where
  pub application_start : DateValue
  pub application_end : DateValue

-- `date && test(date)`: false on null and on the empty text.
abbrev pub holds_of : (Text → Bool) → Option Text → Bool
holds_of test none = false
holds_of test (some []) = false
holds_of test (some (c ∷ s)) = test (c ∷ s)

unfoldable pub resolve_job_status : JobApplicationPeriod → Text → JobStatus
resolve_job_status job today =
    let start = to_date_string job.application_start in
    let end_ = to_date_string job.application_end in
    if holds_of (λ s. text_lt today s) start
    then upcoming
    else if holds_of (λ e. text_lt e today) end_
    then closed
    else open_now
