-- ===== src/Administration.antt =====
-- The figures and lists of the administration: src/modules/admin/admin.service.ts, with the
-- responses of src/modules/admin/dto/admin.response.ts. Instants are milliseconds, in the responses
-- too.
pub mod Counted
mod Tests
use gov_jobs_backend.Base.{
  ℕ, zero, suc, ◌+◌, ◌-◌, ◌*◌, ◌/◌, Bool, true, false, ◌&&◌, not, Option, none, some, List, [], ◌∷◌,
  ◌++◌, map, any, filter, take, length, ◌==◌, ltb, leb, if◌then◌else◌, ℤ, pos, negsuc, String, Text,
}
use gov_jobs_backend.Models.{
  Job, JobAlert, JobAlertMatch, JobSource, User, UserRole, user, admin, CrawlerRun,
  CrawlerRunStatus, running, success, failed, AlertFrequency,
}
use gov_jobs_backend.JobStatus.{JobStatus, upcoming, open_now, closed}
use gov_jobs_backend.JobStatus.Sql.{SqlDate, job_status_sql_expression}
use gov_jobs_backend.Jobs.{sql_date, read_date, same_status}
use gov_jobs_backend.Notifications.{is_unnotified}
use gov_jobs_backend.Alerts.{map_paginated}
use gov_jobs_backend.Sessions.{find_user}
use gov_jobs_backend.Sessions.Accounts.{is_admin, EmailLog, EmailLogStatus, queued, sent}
use gov_jobs_backend.SavedJobs.{SavedJob}
use gov_jobs_backend.Pagination.{
  PaginationQuery, Paginated, page_of, bad_request, Selection, DefaultSort, desc, map_page,
  paginate,
}

-- The rows of all tables. A user's and a log's creation stand beside the row.
pub record AdminStore : Type 0 where
  pub users : List User
  pub jobs : List Job
  pub saved_jobs : List SavedJob
  pub alerts : List JobAlert
  pub matches : List JobAlertMatch
  pub email_logs : List EmailLog
  pub runs : List CrawlerRun

pub record CrawlerRunResponse : Type 0 where
  pub id : ℕ
  pub source : JobSource
  pub status : CrawlerRunStatus
  pub trigger : String
  pub started_at : ℕ
  pub finished_at : Option ℕ
  pub duration_seconds : Option ℤ
  pub total_found : ℕ
  pub new_jobs : ℕ
  pub updated_jobs : ℕ
  pub unchanged_jobs : ℕ
  pub skipped_jobs : ℕ
  pub alert_matches : ℕ
  pub error_message : Option String

pub record AdminOverviewResponse : Type 0 where
  pub users : ℕ
  pub admins : ℕ
  pub jobs : ℕ
  pub open_jobs : ℕ
  pub saved_jobs : ℕ
  pub alerts : ℕ
  pub active_alerts : ℕ
  pub alert_matches : ℕ
  pub pending_notifications : ℕ
  pub emails_sent : ℕ
  pub emails_failed : ℕ
  pub last_crawler_run : Option CrawlerRunResponse
  pub consecutive_failures : ℕ

pub record AdminUserResponse : Type 0 where
  pub id : ℕ
  pub email : String
  pub name : String
  pub role : UserRole
  pub is_verified : Bool
  pub created_at : ℕ
  pub alert_count : ℕ
  pub saved_job_count : ℕ

pub record AdminAlertResponse : Type 0 where
  pub id : ℕ
  pub name : String
  pub owner_email : String
  pub frequency : AlertFrequency
  pub is_active : Bool
  pub keyword_count : ℕ
  pub match_count : ℕ
  pub last_sent_at : Option ℕ
  pub created_at : ℕ

pub record AdminEmailLogResponse : Type 0 where
  pub id : ℕ
  pub to_email : String
  pub subject : Text
  pub template : String
  pub status : EmailLogStatus
  pub provider : String
  pub sent_at : Option ℕ
  pub error_message : Option Text
  pub created_at : ℕ

-- `COUNT(*)` under a condition.
abbrev pub count_where {ℓ} : {A : Type ℓ} → (A → Bool) → List A → ℕ
count_where p rows = length (filter p rows)

abbrev pub is_open : Text → Job → Bool
is_open today job =
    same_status
      (job_status_sql_expression (sql_date job.content.application_start)
        (sql_date job.content.application_end) (read_date today))
      open_now

abbrev pub was_sent : EmailLog → Bool
was_sent log = elim log.status [ queued ↦ false | sent ↦ true | EmailLogStatus.failed ↦ false ]

abbrev pub was_refused : EmailLog → Bool
was_refused log = elim log.status [ queued ↦ false | sent ↦ false | EmailLogStatus.failed ↦ true ]

-- `order: { startedAt: "DESC" }`
unfoldable pub insert_by_start : CrawlerRun → List CrawlerRun → List CrawlerRun
insert_by_start r [] = r ∷ []
insert_by_start r (s ∷ runs) =
    if leb s.started_at r.started_at then r ∷ s ∷ runs else s ∷ insert_by_start r runs

unfoldable pub latest_first : List CrawlerRun → List CrawlerRun
unfolding insert_by_start
latest_first [] = []
latest_first (r ∷ runs) = insert_by_start r (latest_first runs)

-- `Math.round` of a difference in milliseconds, as seconds: halves are rounded up.
unfoldable pub rounded_seconds : ℕ → ℕ → ℤ
rounded_seconds start end_ =
    if leb start end_
    then pos ((end_ - start + 500) / 1000)
    else (let seconds = (start - end_ + 499) / 1000 in
        if seconds == 0 then pos 0 else negsuc (seconds - 1))

abbrev pub duration_of : ℕ → Option ℕ → Option ℤ
duration_of start none = none
duration_of start (some end_) = some (rounded_seconds start end_)

unfoldable pub to_crawler_run : CrawlerRun → CrawlerRunResponse
unfolding rounded_seconds
to_crawler_run run = record {
  id = run.id;
  source = run.source;
  status = run.status;
  trigger = run.trigger;
  started_at = run.started_at;
  finished_at = run.finished_at;
  duration_seconds = duration_of run.started_at run.finished_at;
  total_found = run.total_found;
  new_jobs = run.new_jobs;
  updated_jobs = run.updated_jobs;
  unchanged_jobs = run.unchanged_jobs;
  skipped_jobs = run.skipped_jobs;
  alert_matches = run.alert_matches;
  error_message = run.error_message;
}

-- One round of the loop: a success ends it, a run that is going on is passed over.
unfoldable pub count_leading_failures : List CrawlerRun → ℕ
count_leading_failures [] = 0
count_leading_failures (run ∷ runs) =
    let rest = count_leading_failures runs in
    elim run.status [ success ↦ 0 | failed ↦ suc rest | running ↦ rest ]

abbrev pub first_run : List CrawlerRun → Option CrawlerRunResponse
first_run [] = none
first_run (run ∷ runs) = some (to_crawler_run run)

unfoldable pub overview : Text → AdminStore → AdminOverviewResponse
unfolding latest_first to_crawler_run count_leading_failures job_status_sql_expression read_date
overview today s =
    let recent_runs = take 20 (latest_first s.runs) in
    record {
      users = length s.users;
      admins = count_where is_admin s.users;
      jobs = length s.jobs;
      open_jobs = count_where (is_open today) s.jobs;
      saved_jobs = length s.saved_jobs;
      alerts = length s.alerts;
      active_alerts = count_where (λ a. a.is_active) s.alerts;
      alert_matches = length s.matches;
      pending_notifications = count_where is_unnotified s.matches;
      emails_sent = count_where was_sent s.email_logs;
      emails_failed = count_where was_refused s.email_logs;
      last_crawler_run = first_run recent_runs;
      consecutive_failures = count_leading_failures recent_runs;
    }

-- `GROUP BY`, one group after another as their first rows come.
unfoldable pub count_in_group : ℕ → List (ℕ × ℕ) → List (ℕ × ℕ)
count_in_group id [] = (id, 1) ∷ []
count_in_group id ((i, n) ∷ counts) =
    if i == id then (i, suc n) ∷ counts else (i, n) ∷ count_in_group id counts

-- The groups of the rows whose key is among the ids.
unfoldable pub counts_by {ℓ} : {A : Type ℓ} → (A → ℕ) → List ℕ → List A → List (ℕ × ℕ)
unfolding count_in_group
counts_by key ids [] = []
counts_by key ids (row ∷ rows) =
    let counts = counts_by key ids rows in
    if any (λ i. i == key row) ids then count_in_group (key row) counts else counts

-- `counts.get(id) ?? 0`
unfoldable pub count_for : ℕ → List (ℕ × ℕ) → ℕ
count_for id [] = 0
count_for id ((i, n) ∷ counts) = if i == id then n else count_for id counts

abbrev pub alert_counts : List ℕ → List JobAlert → List (ℕ × ℕ)
alert_counts = counts_by (λ a. a.user_id)

abbrev pub saved_job_counts : List ℕ → List SavedJob → List (ℕ × ℕ)
saved_job_counts = counts_by (λ r. r.user_id)

abbrev pub match_counts : List ℕ → List JobAlertMatch → List (ℕ × ℕ)
match_counts = counts_by (λ m. m.job_alert_id)

abbrev pub page_rows {ℓ} : {A : Type ℓ} → Paginated A → List A
page_rows (page_of p) = p.data_rows
page_rows (bad_request key) = []

-- `alert.user?.email ?? alert.notificationEmail`
abbrev pub email_or : Option User → String → String
email_or none fallback = fallback
email_or (some u) fallback = u.email

unfoldable pub to_alert : List User → JobAlert → ℕ → AdminAlertResponse
unfolding find_user
to_alert users alert match_count = record {
  id = alert.id;
  name = alert.name;
  owner_email = email_or (find_user alert.user_id users) alert.notification_email;
  frequency = alert.frequency;
  is_active = alert.is_active;
  keyword_count = length alert.keywords;
  match_count = match_count;
  last_sent_at = alert.last_sent_at;
  created_at = alert.created_at;
}

-- `innerJoinAndSelect("alert.user", "user")`
abbrev pub has_owner : List User → JobAlert → Bool
has_owner users alert = any (λ u. u.id == alert.user_id) users

abbrev pub newest : String → DefaultSort
newest column = record { expression = column; order = some desc }

-- When a user registered and an email was logged, by their ids.
module _ (user_created log_created : ℕ → ℕ) where
  unfoldable pub to_user : User → List (ℕ × ℕ) → List (ℕ × ℕ) → AdminUserResponse
  unfolding count_for
  to_user u alert_counts saved_counts = record {
    id = u.id;
    email = u.email;
    name = u.name;
    role = u.role;
    is_verified = u.is_verified;
    created_at = user_created u.id;
    alert_count = count_for u.id alert_counts;
    saved_job_count = count_for u.id saved_counts;
  }

  abbrev pub to_email_log : EmailLog → AdminEmailLogResponse
  to_email_log log = record {
    id = log.id;
    to_email = log.to_email;
    subject = log.subject;
    template = log.template;
    status = log.status;
    provider = log.provider;
    sent_at = log.sent_at;
    error_message = log.error_message;
    created_at = log_created log.id;
  }

  -- The lists. `run` executes a selection on the rows of a table.
  unfoldable pub crawler_runs :
      (List CrawlerRun → Selection → List CrawlerRun × ℕ)
      → PaginationQuery
      → AdminStore
      → Paginated CrawlerRunResponse
  unfolding paginate to_crawler_run
  crawler_runs run query s = map_paginated to_crawler_run (
      paginate (run s.runs) query
        (some (("startedAt", "crawler_run.started_at") ∷ ("status", "crawler_run.status") ∷ []))
        (some (newest "crawler_run.started_at")))

  unfoldable pub list_users :
      (List User → Selection → List User × ℕ)
      → PaginationQuery
      → AdminStore
      → Paginated AdminUserResponse
  unfolding paginate to_user counts_by
  list_users run query s =
      let page =
        paginate (run s.users) query
          (some (
            ("createdAt", "user.created_at")
            ∷ ("email", "user.email")
            ∷ ("role", "user.role")
            ∷ []))
          (some (newest "user.created_at")) in
      let ids = map (λ (u : User). u.id) (page_rows page) in
      map_paginated
        (λ (u : User). to_user u (alert_counts ids s.alerts) (saved_job_counts ids s.saved_jobs))
        page

  unfoldable pub list_alerts :
      (List JobAlert → Selection → List JobAlert × ℕ)
      → PaginationQuery
      → AdminStore
      → Paginated AdminAlertResponse
  unfolding paginate to_alert counts_by count_for
  list_alerts run query s =
      let page =
        paginate (run (filter (has_owner s.users) s.alerts)) query
          (some (
            ("createdAt", "alert.created_at")
            ∷ ("name", "alert.name")
            ∷ ("lastSentAt", "alert.last_sent_at")
            ∷ []))
          (some (newest "alert.created_at")) in
      let counts = match_counts (map (λ (a : JobAlert). a.id) (page_rows page)) s.matches in
      map_paginated (λ (a : JobAlert). to_alert s.users a (count_for a.id counts)) page

  unfoldable pub list_email_logs :
      (List EmailLog → Selection → List EmailLog × ℕ)
      → PaginationQuery
      → AdminStore
      → Paginated AdminEmailLogResponse
  unfolding paginate
  list_email_logs run query s = map_paginated to_email_log (
      paginate (run s.email_logs) query
        (some (("createdAt", "email_log.created_at") ∷ ("status", "email_log.status") ∷ []))
        (some (newest "email_log.created_at")))
