-- ===== src/Jobs/Filters.antt =====
-- What the filters of src/modules/jobs/jobs.service.ts promise about the rows that are shown.
use gov_jobs_backend.Base.{
  ℕ, ◌≤◌, ◌≡◌, ◌≢◌, ◌⊎◌, refl, sym, ap, ◌∙◌, inl, inr, Bool, true, false, ◌||◌, Bool-cases, Option,
  Option-cases, none, some, List, [], ◌∷◌, map, filter, All, leb, if◌then◌else◌, String, Text,
  read_digits, take, drop, arith,
}
use gov_jobs_backend.Models.{Job}
use gov_jobs_backend.JobStatus.{JobStatus, upcoming, open_now, closed, resolve_job_status}
use gov_jobs_backend.JobStatus.Sql.{
  SqlDate, IsDate, IsColumn, column, text_of, job_status_sql_expression, resolve_job_status-eq-sql,
}
use gov_jobs_backend.Matching.{overlap, is_nil}
use gov_jobs_backend.Matching.Records.{and-eq-true}
use gov_jobs_backend.Pagination.{
  PaginationQuery, Paginated, page_of, bad_request, Selection, DefaultSort, paginate, fetch_page,
  new_page, sort_key, lookup_sort, get_pagination_options, map_page,
}
use gov_jobs_backend.Jobs.{
  QueryJobsDto, JobSummaryResponse, read_date, sql_date, date_value, period_of, to_job_summary,
  same_status, apply_filters, matches_text, when_given, is_any_of, in_province, has_status, null_or,
  summaries, find_all, job_sortable_columns, newest_first,
}

same_status_eq : (a b : JobStatus) → same_status a b ≡ true → a ≡ b
same_status_eq upcoming upcoming h = refl
same_status_eq upcoming open_now h = cc
same_status_eq upcoming closed h = cc
same_status_eq open_now upcoming h = cc
same_status_eq open_now open_now h = refl
same_status_eq open_now closed h = cc
same_status_eq closed upcoming h = cc
same_status_eq closed open_now h = cc
same_status_eq closed closed h = refl

read_date-text_of : (d : SqlDate) → IsDate d → read_date (text_of d) ≡ d
unfolding read_date read_digits
read_date-text_of d h =
    let y : read_digits 0 (take 4 (text_of d)) ≡ d.year = omega arith in
    let m : read_digits 0 (take 2 (drop 5 (text_of d))) ≡ d.month = omega arith in
    let n : read_digits 0 (take 2 (drop 8 (text_of d))) ≡ d.day = omega arith in
    λ i. record { year = y i; month = m i; day = n i }

-- The text of a column of type `date`.
abbrev pub text_column : Option SqlDate → Option Text
text_column none = none
text_column (some d) = some (text_of d)

abbrev pub IsDateColumn : Option Text → Type 0
IsDateColumn o = (c : Option SqlDate) × IsColumn c × (o ≡ text_column c)

abbrev pub IsDated : Job → Type 0
IsDated job = IsDateColumn job.content.application_start × IsDateColumn job.content.application_end

sql_date-text_column : (c : Option SqlDate) → IsColumn c → sql_date (text_column c) ≡ c
sql_date-text_column none h = refl
sql_date-text_column (some d) h = ap some (read_date-text_of d h)

date_value-text_column : (c : Option SqlDate) → date_value (text_column c) ≡ column c
date_value-text_column none = refl
date_value-text_column (some d) = refl

status_shown :
    (job : Job) (t : SqlDate)
    → IsDate t
    → IsDated job
    → resolve_job_status (period_of job) (text_of t)
      ≡ job_status_sql_expression
          (sql_date job.content.application_start)
          (sql_date job.content.application_end)
          (read_date (text_of t))
status_shown job t ht ((c, hc, ec), (e, he, ee)) =
    ap (λ p. resolve_job_status p (text_of t))
      (rw (ec, ee, date_value-text_column c, date_value-text_column e) refl)
    ∙ (resolve_job_status-eq-sql t c e hc he
        ∙ sym (
            rw
              (ec, ee, sql_date-text_column c hc, sql_date-text_column e he, read_date-text_of t ht)
              refl))

module _ {T : Type 0} (P : T → Type 0) where
  abbrev pub AllRows : Paginated T → Type 0
  AllRows (page_of p) = All P p.data_rows
  AllRows (bad_request key) = Unit

  paginate-AllRows :
      (run : Selection → List T × ℕ)
      → ((s : Selection) → All P (run s).0)
      → (q : PaginationQuery) (sortable : Option (List (String × String)))
        (default_sort : Option DefaultSort)
      → AllRows (paginate run q sortable default_sort)
  unfolding paginate fetch_page new_page
  paginate-AllRows run h q sortable default_sort =
      elim (Option-cases (sort_key (get_pagination_options q).sort_by)) [
        | inl e ↦ rw (e, AllRows) (h _)
        | inr (key, e) ↦
            rw (e, AllRows)
              (elim (Option-cases (lookup_sort sortable key)) [
                | inl f ↦ rw (f, AllRows) tt
                | inr (x, f) ↦ rw (f, AllRows) (h _)
              ])
      ]

map_rows :
    {T U : Type 0} (P : T → Type 0) (Q : U → Type 0) (f : T → U)
    → ((t : T) → P t → Q (f t))
    → (rows : List T) → All P rows
    → All Q (map f rows)
map_rows P Q f keeps [] h = tt
map_rows P Q f keeps (t ∷ rows) (here, later) = (keeps t here, map_rows P Q f keeps rows later)

kept_rows :
    (P : Job → Type 0) (p : Job → Bool) (rows : List Job)
    → All P rows
    → All (λ j. P j × (p j ≡ true)) (filter p rows)
kept_rows P p [] h = tt
kept_rows P p (j ∷ rows) (here, later) = elim (Bool-cases (p j)) [
  | inl e ↦ rw e ((here, e), kept_rows P p rows later)
  | inr e ↦ rw e (kept_rows P p rows later)
]

-- What a row that is shown has, of what was asked for.
pub record Suits (query : QueryJobsDto) (r : JobSummaryResponse) : Type 0 where
  pub has_asked_status : (status : JobStatus) → query.status ≡ some status → r.status ≡ status
  pub pays_enough :
      (low high : ℕ) → query.salary_min ≡ some low → r.salary_max ≡ some high → low ≤ high
  pub pays_no_more :
      (low high : ℕ) → query.salary_max ≡ some high → r.salary_min ≡ some low → low ≤ high
  pub in_asked_province :
      query.province ≢ []
      → (overlap r.province_ids query.province ≡ true)
        ⊎ ((query.province_strict ≡ false) × (r.is_nationwide ≡ true))

status_asked :
    (ilike : Text → Text → Bool) (o : Option JobStatus) (today : SqlDate) (job : Job)
    (status : JobStatus)
    → IsDate today
    → IsDated job
    → has_status ilike o (text_of today) job ≡ true
    → o ≡ some status
    → resolve_job_status (period_of job) (text_of today) ≡ status
status_asked ilike none today job status ht dated h e = ground arith
status_asked ilike (some s) today job status ht dated h e =
    status_shown job today ht dated ∙ (same_status_eq _ s h ∙ cc)

asked_low :
    (o c : Option ℕ) (low high : ℕ)
    → null_or o (λ l. null_or c (λ k. leb l k)) ≡ true
    → o ≡ some low
    → c ≡ some high
    → low ≤ high
asked_low none c low high h e f = ground arith
asked_low (some l) none low high h e f = ground arith
asked_low (some l) (some k) low high h e f = ground arith

either :
    (strict hit nationwide : Bool)
    → (if strict then hit else hit || nationwide) ≡ true
    → (hit ≡ true) ⊎ ((strict ≡ false) × (nationwide ≡ true))
either true hit nationwide h = inl h
either false true nationwide h = inl refl
either false false nationwide h = inr (refl, h)

province_asked :
    (ilike : Text → Text → Bool) (query : QueryJobsDto) (job : Job) (ids : List ℕ)
    → when_given ids (in_province ilike query job) ≡ true
    → ids ≢ []
    → (overlap job.content.province_ids query.province ≡ true)
      ⊎ ((query.province_strict ≡ false) × (is_nil job.content.province_ids ≡ true))
province_asked ilike query job [] h some_ids = absurd (some_ids refl)
province_asked ilike query job (id ∷ ids) h some_ids = either query.province_strict _ _ h

asked_high :
    (o c : Option ℕ) (low high : ℕ)
    → null_or o (λ k. null_or c (λ l. leb l k)) ≡ true
    → o ≡ some high
    → c ≡ some low
    → low ≤ high
asked_high none c low high h e f = ground arith
asked_high (some k) none low high h e f = ground arith
asked_high (some k) (some l) low high h e f = ground arith

module _ (ilike : Text → Text → Bool) (query : QueryJobsDto) (today : SqlDate)
    (today_IsDate : IsDate today) where
  summary-Suits :
      (job : Job)
      → IsDated job × (apply_filters ilike query (text_of today) job ≡ true)
      → Suits query (to_job_summary job (text_of today))
  unfolding apply_filters to_job_summary
  summary-Suits job (dated, h) =
      let h1 = (and-eq-true (matches_text ilike query.q job) _ h).1 in
      let h2 =
        (and-eq-true (when_given query.job_type (is_any_of query.job_type job.content.job_type_id))
          _ h1).1 in
      let h3 =
        (and-eq-true
          (when_given query.job_category (is_any_of query.job_category job.content.job_category_id))
          _ h2).1 in
      let h4 =
        (and-eq-true
          (when_given query.education (overlap job.content.education_level_ids query.education)) _
          h3).1 in
      let (province, h5) =
        and-eq-true (when_given query.province (in_province ilike query job)) _ h4 in
      let (status, h6) = and-eq-true (has_status ilike query.status (text_of today) job) _ h5 in
      let (low, high) =
        and-eq-true (null_or query.salary_min (λ l. null_or job.content.salary_max (λ k. leb l k)))
          _ h6 in
      record {
        has_asked_status =
            λ s e. status_asked ilike query.status today job s today_IsDate dated status e;
        pays_enough = λ l k e f. asked_low query.salary_min job.content.salary_max l k low e f;
        pays_no_more = λ l k e f. asked_high query.salary_max job.content.salary_min l k high e f;
        in_asked_province = λ given. province_asked ilike query job query.province province given;
      }

  -- Where the date columns hold dates, and the database answers a selection with rows that the
  -- WHERE clause leaves: every row of every page has the status that was asked for, as the row
  -- itself shows it; the range of its salary, as far as it is known, overlaps the range asked for;
  -- and it names one of the provinces asked for or, unless the filter is strict, it is shown as
  -- nationwide.
  pub find_all-Suits :
      (run : List Job → Selection → List Job × ℕ)
      → ((P : Job → Type 0) (rows : List Job) (s : Selection) → All P rows → All P (run rows s).0)
      → (jobs : List Job) → All IsDated jobs
      → AllRows (Suits query) (find_all ilike run query (text_of today) jobs)
  unfolding find_all map_page
  find_all-Suits run from_rows jobs dated =
      let P : Job → Type 0 =
        λ j. IsDated j × (apply_filters ilike query (text_of today) j ≡ true) in
      let rows = filter (apply_filters ilike query (text_of today)) jobs in
      shown (paginate (run rows) query.pagination (some job_sortable_columns) (some newest_first)) (
        paginate-AllRows P (run rows)
          (λ s.
            from_rows P rows s
              (kept_rows IsDated (apply_filters ilike query (text_of today)) jobs dated))
          query.pagination (some job_sortable_columns) (some newest_first))
    where
      shown :
          (page : Paginated Job)
          → AllRows (λ j. IsDated j × (apply_filters ilike query (text_of today) j ≡ true)) page
          → AllRows (Suits query) (summaries (text_of today) page)
      shown (page_of p) h = map_rows _ (Suits query) _ summary-Suits p.data_rows h
      shown (bad_request key) h = tt
