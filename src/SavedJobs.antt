-- ===== src/SavedJobs.antt =====
-- The saved announcements of a user: src/modules/saved-jobs/saved-jobs.service.ts and
-- src/models/saved-jobs/entities/saved-job.entity.ts. An instant in a response is in milliseconds.
pub mod Sets
mod Tests
use gov_jobs_backend.Base.{
  ℕ, suc, Bool, true, false, ◌&&◌, not, Option, none, some, List, [], ◌∷◌, ◌++◌, map, any, filter,
  ◌==◌, if◌then◌else◌, String, Text,
}
use gov_jobs_backend.Models.{Job}
use gov_jobs_backend.Jobs.{JobSummaryResponse, to_job_summary}
use gov_jobs_backend.Alerts.{map_paginated}
use gov_jobs_backend.Pagination.{
  PaginationQuery, Paginated, Selection, DefaultSort, desc, map_page, paginate,
}

pub record SavedJob : Type 0 where
  pub id : ℕ
  pub user_id : ℕ
  pub job_id : ℕ
  pub created_at : ℕ

-- The two tables, and the next key.
pub record SavedStore : Type 0 where
  pub jobs : List Job
  pub saved : List SavedJob
  pub drawn : ℕ

pub record SavedJobResponse : Type 0 where
  pub summary : JobSummaryResponse
  pub saved_at : ℕ

pub data SaveOutcome : Type 0 where
  done : SaveOutcome
  not_found : SaveOutcome

abbrev pub sortable_saved : List (String × String)
sortable_saved =
    ("savedAt", "saved_job.created_at")
    ∷ ("applicationEnd", "job.application_end")
    ∷ ("publishedAt", "job.published_at")
    ∷ ("title", "job.title")
    ∷ []

abbrev pub last_saved_first : DefaultSort
last_saved_first = record { expression = "saved_job.created_at"; order = some desc }

abbrev pub is_saved : ℕ → ℕ → SavedJob → Bool
is_saved user_id job_id row = row.user_id == user_id && row.job_id == job_id

unfoldable pub has_saved : ℕ → ℕ → List SavedJob → Bool
has_saved user_id job_id = any (is_saved user_id job_id)

abbrev pub job_exists : ℕ → List Job → Bool
job_exists job_id = any (λ j. j.id == job_id)

-- The insert; the unique constraint on (user_id, job_id) makes it do nothing.
unfoldable pub insert_saved : ℕ → ℕ → ℕ → SavedStore → SavedStore
unfolding has_saved
insert_saved now user_id job_id s = if has_saved user_id job_id s.saved then s else record s {
  saved =
      s.saved ++ record { id = s.drawn; user_id = user_id; job_id = job_id; created_at = now } ∷ [];
  drawn = suc s.drawn;
}

unfoldable pub save : ℕ → ℕ → ℕ → SavedStore → SavedStore × SaveOutcome
unfolding insert_saved
save now user_id job_id s =
    if job_exists job_id s.jobs then (insert_saved now user_id job_id s, done) else (s, not_found)

unfoldable pub remove : ℕ → ℕ → SavedStore → SavedStore
remove user_id job_id s = record s {
  saved = filter (λ row. not (is_saved user_id job_id row)) s.saved;
}

unfoldable pub find_ids : ℕ → SavedStore → List ℕ
find_ids user_id s = map (λ row. row.job_id) (filter (λ row. row.user_id == user_id) s.saved)

-- `innerJoinAndSelect("saved_job.job", "job")`, by the primary key of the announcement.
unfoldable pub job_of : ℕ → List Job → Option Job
job_of id [] = none
job_of id (j ∷ jobs) = if j.id == id then some j else job_of id jobs

abbrev pub joined_row : SavedJob → Option Job → List (SavedJob × Job) → List (SavedJob × Job)
joined_row row none rows = rows
joined_row row (some job) rows = (row, job) ∷ rows

unfoldable pub inner_join : List Job → List SavedJob → List (SavedJob × Job)
unfolding job_of
inner_join jobs [] = []
inner_join jobs (row ∷ rows) = joined_row row (job_of row.job_id jobs) (inner_join jobs rows)

abbrev pub to_saved_job : Text → SavedJob × Job → SavedJobResponse
to_saved_job today (row, job) = record {
  summary = to_job_summary job today;
  saved_at = row.created_at;
}

-- `run` executes a selection on the rows that the WHERE clause leaves.
module _ (run : List (SavedJob × Job) → Selection → List (SavedJob × Job) × ℕ) where
  unfoldable pub find_all : ℕ → PaginationQuery → Text → SavedStore → Paginated SavedJobResponse
  unfolding paginate inner_join to_job_summary
  find_all user_id query today s = map_paginated (to_saved_job today) (
      paginate (run (inner_join s.jobs (filter (λ row. row.user_id == user_id) s.saved))) query
        (some sortable_saved) (some last_saved_first))
