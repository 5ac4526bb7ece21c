-- ===== src/Jobs.antt =====
-- The search: src/modules/jobs/jobs.service.ts, with src/modules/jobs/dto/query-jobs.dto.ts and
-- src/modules/jobs/dto/job.response.ts. ILIKE and the execution of a paginated selection are
-- parameters. A column of type `date` is held as its text, `YYYY-MM-DD`.
pub mod Filters
mod Tests
use gov_jobs_backend.Base.{
  ℕ, ◌+◌, ◌-◌, ◌*◌, ◌/◌, ◌%◌, ℤ, pos, negsuc, Bool, true, false, ◌&&◌, ◌||◌, Option, none, some,
  List, [], ◌∷◌, ◌++◌, map, filter, ◌==◌, ltb, leb, if◌then◌else◌, String, Text, read_digits, take,
  drop,
}
use gov_jobs_backend.Models.{Job, JobSource, JobAttachment, JobAttachmentType}
use gov_jobs_backend.Dates.{missing, string, DateValue, date_prefix}
use gov_jobs_backend.JobStatus.{
  JobStatus, upcoming, open_now, closed, JobApplicationPeriod, resolve_job_status,
}
use gov_jobs_backend.JobStatus.Sql.{SqlDate, job_status_sql_expression}
use gov_jobs_backend.Matching.{overlap, is_nil, is_among, attachments_of}
use gov_jobs_backend.Pagination.{
  PaginationQuery, Paginated, page_of, bad_request, Selection, DefaultSort, desc, map_page,
  paginate,
}

pub record QueryJobsDto : Type 0 where
  pub pagination : PaginationQuery
  pub q : Option Text
  pub job_type : List ℕ
  pub job_category : List ℕ
  pub education : List ℕ
  pub province : List ℕ
  pub province_strict : Bool
  pub status : Option JobStatus
  pub salary_min : Option ℕ
  pub salary_max : Option ℕ

pub record JobSummaryResponse : Type 0 where
  pub id : ℕ
  pub source : JobSource
  pub external_id : String
  pub title : Text
  pub agency : Text
  pub ministry : Option Text
  pub agency_seal_url : Option String
  pub job_category_id : Option ℕ
  pub job_type_id : Option ℕ
  pub province_ids : List ℕ
  pub education_level_ids : List ℕ
  pub is_nationwide : Bool
  pub salary_min : Option ℕ
  pub salary_max : Option ℕ
  pub position_amount : Option ℕ
  pub application_start : Option Text
  pub application_end : Option Text
  pub published_at : Option ℕ
  pub status : JobStatus
  pub days_until_deadline : Option ℤ
  pub source_url : String

pub record JobAttachmentResponse : Type 0 where
  pub id : ℕ
  pub name : String
  pub url : String
  pub type : JobAttachmentType

pub record JobDetailResponse : Type 0 where
  pub summary : JobSummaryResponse
  pub job_level_id : Option ℕ
  pub job_selection_id : Option ℕ
  pub job_condition_id : Option ℕ
  pub job_condition_other : Option Text
  pub education_level_other : Option Text
  pub description : Option Text
  pub education_requirements : Option Text
  pub knowledge : Option Text
  pub skill : Option Text
  pub competency : Option Text
  pub criteria : Option Text
  pub exam_date : Option Text
  pub interview_date : Option Text
  pub apply_url : Option String
  pub attachments : List JobAttachmentResponse

-- The value of a `date` column, from its text.
unfoldable pub read_date : Text → SqlDate
read_date t = record {
  year = read_digits 0 (take 4 t);
  month = read_digits 0 (take 2 (drop 5 t));
  day = read_digits 0 (take 2 (drop 8 t));
}

abbrev pub sql_date : Option Text → Option SqlDate
sql_date none = none
sql_date (some t) = some (read_date t)

abbrev pub date_value : Option Text → DateValue
date_value none = missing
date_value (some t) = string t

abbrev pub period_of : Job → JobApplicationPeriod
period_of job = record {
  application_start = date_value job.content.application_start;
  application_end = date_value job.content.application_end;
}

-- Midnight of a date, in days.
unfoldable pub days_of : SqlDate → ℕ
days_of d =
    let y : ℕ = if leb d.month 2 then d.year - 1 else d.year in
    let m : ℕ = if leb d.month 2 then d.month + 9 else d.month - 3 in
    365 * y + y / 4 + y / 400 - y / 100 + (153 * m + 2) / 5 + d.day

abbrev pub difference : ℕ → ℕ → ℤ
difference a b = if leb b a then pos (a - b) else negsuc (b - a - 1)

-- `Date.parse` of the two dates; a text that does not start with a date is not one.
abbrev pub days_between : Option Text → Option Text → Option ℤ
days_between none now = none
days_between (some end_) none = none
days_between (some end_) (some now) =
    some (difference (days_of (read_date end_)) (days_of (read_date now)))

unfoldable pub days_until : Option Text → Text → Option ℤ
unfolding date_prefix days_of read_date
days_until none today = none
days_until (some []) today = none
days_until (some (c ∷ deadline)) today =
    days_between (date_prefix (c ∷ deadline)) (date_prefix today)

unfoldable pub to_job_summary : Job → Text → JobSummaryResponse
unfolding resolve_job_status days_until
to_job_summary job today = record {
  id = job.id;
  source = job.source;
  external_id = job.external_id;
  title = job.content.title;
  agency = job.content.agency;
  ministry = job.content.ministry;
  agency_seal_url = job.content.agency_seal_url;
  job_category_id = job.content.job_category_id;
  job_type_id = job.content.job_type_id;
  province_ids = job.content.province_ids;
  education_level_ids = job.content.education_level_ids;
  is_nationwide = is_nil job.content.province_ids;
  salary_min = job.content.salary_min;
  salary_max = job.content.salary_max;
  position_amount = job.content.position_amount;
  application_start = job.content.application_start;
  application_end = job.content.application_end;
  published_at = job.content.published_at;
  status = resolve_job_status (period_of job) today;
  days_until_deadline = days_until job.content.application_end today;
  source_url = job.content.source_url;
}

abbrev pub to_attachment : JobAttachment → JobAttachmentResponse
to_attachment a = record { id = a.id; name = a.name; url = a.url; type = a.type }

unfoldable pub to_job_detail : Job → List JobAttachment → Text → JobDetailResponse
unfolding to_job_summary
to_job_detail job attachments today = record {
  summary = to_job_summary job today;
  job_level_id = job.content.job_level_id;
  job_selection_id = job.content.job_selection_id;
  job_condition_id = job.content.job_condition_id;
  job_condition_other = job.content.job_condition_other;
  education_level_other = job.content.education_level_other;
  description = job.content.description;
  education_requirements = job.content.education_requirements;
  knowledge = job.content.knowledge;
  skill = job.content.skill;
  competency = job.content.competency;
  criteria = job.content.criteria;
  exam_date = job.content.exam_date;
  interview_date = job.content.interview_date;
  apply_url = job.content.apply_url;
  attachments = map to_attachment attachments;
}

abbrev pub same_status : JobStatus → JobStatus → Bool
same_status upcoming upcoming = true
same_status open_now open_now = true
same_status closed closed = true
same_status _ _ = false

-- `= ANY(…)` on a column that may be null.
abbrev pub is_any_of : List ℕ → Option ℕ → Bool
is_any_of ids none = false
is_any_of ids (some id) = is_among ids id

-- A condition that is added only when ids are given.
abbrev pub when_given : List ℕ → Bool → Bool
when_given [] condition = true
when_given (id ∷ ids) condition = condition

abbrev pub null_or : Option ℕ → (ℕ → Bool) → Bool
null_or none test = true
null_or (some n) test = test n

abbrev pub text_hits : (Text → Text → Bool) → Text → Option Text → Bool
text_hits ilike pattern none = false
text_hits ilike pattern (some t) = ilike t pattern

module _ (ilike : Text → Text → Bool) where
  -- `if (query.q)`: the empty text is no condition.
  unfoldable pub matches_text : Option Text → Job → Bool
  matches_text none job = true
  matches_text (some []) job = true
  matches_text (some (c ∷ q)) job =
      let pattern : Text = b'%' ∷ ((c ∷ q) ++ (b'%' ∷ [])) in
      ilike job.content.title pattern
      || (ilike job.content.agency pattern || text_hits ilike pattern job.content.ministry)

  abbrev pub in_province : QueryJobsDto → Job → Bool
  in_province query job =
      if query.province_strict
      then overlap job.content.province_ids query.province
      else overlap job.content.province_ids query.province || is_nil job.content.province_ids

  abbrev pub has_status : Option JobStatus → Text → Job → Bool
  has_status none today job = true
  has_status (some status) today job =
      same_status
        (job_status_sql_expression (sql_date job.content.application_start)
          (sql_date job.content.application_end) (read_date today))
        status

  -- The WHERE clause.
  unfoldable pub apply_filters : QueryJobsDto → Text → Job → Bool
  unfolding matches_text overlap job_status_sql_expression read_date
  apply_filters query today job =
      matches_text query.q job
      && (when_given query.job_type (is_any_of query.job_type job.content.job_type_id)
          && (when_given query.job_category
                (is_any_of query.job_category job.content.job_category_id)
              && (when_given query.education
                    (overlap job.content.education_level_ids query.education)
                  && (when_given query.province (in_province query job)
                      && (has_status query.status today job
                          && (null_or query.salary_min
                                (λ low. null_or job.content.salary_max (λ high. leb low high))
                              && null_or query.salary_max (λ high.
                                null_or job.content.salary_min (λ low. leb low high))))))))

abbrev pub job_sortable_columns : List (String × String)
job_sortable_columns =
    ("publishedAt", "job.published_at")
    ∷ ("applicationEnd", "job.application_end")
    ∷ ("applicationStart", "job.application_start")
    ∷ ("salaryMax", "job.salary_max")
    ∷ ("salaryMin", "job.salary_min")
    ∷ ("title", "job.title")
    ∷ ("firstSeenAt", "job.first_seen_at")
    ∷ []

abbrev pub newest_first : DefaultSort
newest_first = record { expression = "job.published_at"; order = some desc }

abbrev pub summaries : Text → Paginated Job → Paginated JobSummaryResponse
summaries today (page_of p) = page_of (map_page (λ job. to_job_summary job today) p)
summaries today (bad_request key) = bad_request key

-- `run` executes a selection on the rows that the WHERE clause leaves.
module _ (ilike : Text → Text → Bool) (run : List Job → Selection → List Job × ℕ) where
  unfoldable pub find_all : QueryJobsDto → Text → List Job → Paginated JobSummaryResponse
  unfolding to_job_summary paginate apply_filters
  find_all query today jobs = summaries today (
      paginate (run (filter (apply_filters ilike query today) jobs)) query.pagination
        (some job_sortable_columns) (some newest_first))

-- `none` is the answer 404.
unfoldable pub find_one : ℕ → Text → List Job → List JobAttachment → Option JobDetailResponse
unfolding to_job_detail
find_one id today [] attachments = none
find_one id today (job ∷ jobs) attachments =
    if job.id == id
    then some (to_job_detail job (attachments_of id attachments) today)
    else find_one id today jobs attachments
