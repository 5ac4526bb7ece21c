-- ===== src/JobStatus/Progress.antt =====
-- How the status of one announcement moves as the days pass.
use gov_jobs_backend.Base.{
  ℕ, ◌≤◌, ◌≡◌, refl, false, Option, none, some, [], ◌∷◌, Text, text_lt, text_lt_mono, arith,
}
use gov_jobs_backend.Dates.{to_date_string}
use gov_jobs_backend.JobStatus.{
  JobStatus, upcoming, open_now, closed, JobApplicationPeriod, resolve_job_status, holds_of,
}

abbrev pub rank : JobStatus → ℕ
rank upcoming = 0
rank open_now = 1
rank closed = 2

-- A day that has come stays come, and a day that has passed stays passed.
started_stays :
    (start : Option Text) (t u : Text)
    → text_lt u t ≡ false
    → holds_of (λ s. text_lt t s) start ≡ false
    → holds_of (λ s. text_lt u s) start ≡ false
started_stays none t u h p = refl
started_stays (some []) t u h p = refl
started_stays (some (c ∷ s)) t u h p = text_lt_mono t u (c ∷ s) h p

ended_stays :
    (end_ : Option Text) (t u : Text)
    → text_lt u t ≡ false
    → holds_of (λ e. text_lt e u) end_ ≡ false
    → holds_of (λ e. text_lt e t) end_ ≡ false
ended_stays none t u h p = refl
ended_stays (some []) t u h p = refl
ended_stays (some (c ∷ e)) t u h p = text_lt_mono u (c ∷ e) t p h

-- From a day to a later one, the status only moves from UPCOMING to OPEN to CLOSED, whatever the
-- two dates of the announcement are, unreadable and reversed ones included.
pub resolve_job_status_mono :
    (job : JobApplicationPeriod) (t u : Text)
    → text_lt u t ≡ false
    → rank (resolve_job_status job t) ≤ rank (resolve_job_status job u)
unfolding resolve_job_status
resolve_job_status_mono job t u h = ground (
  arith,
  started_stays (to_date_string job.application_start) t u,
  ended_stays (to_date_string job.application_end) t u,
)
