-- ===== src/Jobs/Tests.antt =====
-- A search for open announcements among two, one of which is over.
use gov_jobs_backend.Base.{
  ℕ, zero, suc, refl, false, some, none, List, [], ◌∷◌, All, take, drop, includes, arith,
}
use gov_jobs_backend.Models.{Job}
use gov_jobs_backend.Samples.{content, job}
use gov_jobs_backend.Pagination.{Selection}
use gov_jobs_backend.Pagination.Windows.{window}
use gov_jobs_backend.JobStatus.{open_now}
use gov_jobs_backend.JobStatus.Sql.{SqlDate, IsDate, text_of}
use gov_jobs_backend.Jobs.{QueryJobsDto, find_all}
use gov_jobs_backend.Jobs.Filters.{IsDated, Suits, AllRows, find_all-Suits}

abbrev yesterday : SqlDate
yesterday = record { year = 2026; month = 9; day = 20 }

abbrev today : SqlDate
today = record { year = 2026; month = 9; day = 21 }

abbrev over : Job
over = record job {
  id = 2;
  content = record content { application_end = some (text_of yesterday) };
}

abbrev query : QueryJobsDto
query = record {
  pagination = record { page = none; limit = none; sort_by = none; order = none };
  q = none;
  job_type = [];
  job_category = [];
  education = [];
  province = 10 ∷ [];
  province_strict = false;
  status = some open_now;
  salary_min = some 15000;
  salary_max = none;
}

today-IsDate : IsDate today
today-IsDate = record { year_fits = omega arith; month_fits = omega arith; day_fits = omega arith }

yesterday-IsDate : IsDate yesterday
yesterday-IsDate = record {
  year_fits = omega arith;
  month_fits = omega arith;
  day_fits = omega arith;
}

All-take : (P : Job → Type 0) (n : ℕ) (rows : List Job) → All P rows → All P (take n rows)
All-take P zero rows h = tt
All-take P (suc n) [] h = tt
All-take P (suc n) (j ∷ rows) (here, later) = (here, All-take P n rows later)

All-drop : (P : Job → Type 0) (n : ℕ) (rows : List Job) → All P rows → All P (drop n rows)
All-drop P zero rows h = h
All-drop P (suc n) [] h = tt
All-drop P (suc n) (j ∷ rows) (here, later) = All-drop P n rows later

from_rows :
    (P : Job → Type 0) (rows : List Job) (s : Selection) → All P rows → All P (window rows s).0
from_rows P rows s h =
    All-take P s.take_rows (drop s.skip_rows rows) (All-drop P s.skip_rows rows h)

jobs-IsDated : All IsDated (job ∷ over ∷ [])
jobs-IsDated = (
  ((none, tt, refl), (none, tt, refl)),
  (((none, tt, refl), (some yesterday, yesterday-IsDate, refl)), tt),
)

find_all-Suits_example :
    AllRows (Suits query) (find_all includes window query (text_of today) (job ∷ over ∷ []))
find_all-Suits_example =
    find_all-Suits includes query today today-IsDate window from_rows (job ∷ over ∷ []) jobs-IsDated
