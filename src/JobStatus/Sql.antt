-- ===== src/JobStatus/Sql.antt =====
-- The same rule as SQL (`jobStatusSqlExpression`), and its agreement with the text comparison.
use gov_jobs_backend.Base.{
  ℕ, ◌+◌, ◌/◌, ◌%◌, ◌<◌, ◌≡◌, refl, Bool, false, ◌&&◌, ◌||◌, Option, none, some, [], ◌∷◌, ltb, ◌==◌,
  if◌then◌else◌, Text, text_lt, arith,
}
use gov_jobs_backend.Dates.{DateValue, missing, string, to_date_string}
use gov_jobs_backend.Dates.Reading.{to_date_string-written}
use gov_jobs_backend.JobStatus.{JobStatus, upcoming, open_now, closed, resolve_job_status, holds_of}

-- A value of the SQL type `date`, by year, month and day.
pub record SqlDate : Type 0 where
  pub year : ℕ
  pub month : ℕ
  pub day : ℕ

abbrev pub date_lt : SqlDate → SqlDate → Bool
date_lt a b =
    ltb a.year b.year
    || (a.year == b.year && (ltb a.month b.month || (a.month == b.month && ltb a.day b.day)))

-- `CASE … WHEN x IS NOT NULL AND test THEN …`.
abbrev pub not_null_and : Option SqlDate → (SqlDate → Bool) → Bool
not_null_and none test = false
not_null_and (some d) test = test d

unfoldable pub job_status_sql_expression : Option SqlDate → Option SqlDate → SqlDate → JobStatus
job_status_sql_expression application_start application_end today =
    if not_null_and application_start (λ s. date_lt today s)
    then upcoming
    else if not_null_and application_end (λ e. date_lt e today)
    then closed
    else open_now

-- Two digits, and the text `YYYY-MM-DD` of a date.
abbrev pub two : ℕ → Text → Text
two n rest = (b'0' + n / 10) ∷ (b'0' + n % 10) ∷ rest

abbrev pub text_of : SqlDate → Text
text_of d = two (d.year / 100) (two (d.year % 100) (b'-' ∷ two d.month (b'-' ∷ two d.day [])))

pub record IsDate (d : SqlDate) : Type 0 where
  pub year_fits : d.year < 10000
  pub month_fits : d.month < 100
  pub day_fits : d.day < 100

text_lt-two :
    (a b : ℕ) (r s : Text) → text_lt (two a r) (two b s) ≡ ltb a b || (a == b && text_lt r s)
unfolding text_lt
text_lt-two a b r s = ground arith

text_lt-dash : (r s : Text) → text_lt (b'-' ∷ r) (b'-' ∷ s) ≡ text_lt r s
unfolding text_lt
text_lt-dash r s = refl

two_twice :
    (a b : ℕ) (x : Bool)
    → ltb (a / 100) (b / 100)
        || (a / 100 == b / 100 && (ltb (a % 100) (b % 100) || (a % 100 == b % 100 && x)))
      ≡ ltb a b || (a == b && x)
two_twice a b x = ground arith

text_lt-nil : text_lt [] [] ≡ false
unfolding text_lt
text_lt-nil = refl

text_lt-text_of : (a b : SqlDate) → text_lt (text_of a) (text_of b) ≡ date_lt a b
text_lt-text_of a b =
    simp (text_lt-two, text_lt-dash, text_lt-nil, two_twice a.year b.year) (ground arith)

to_date_string-text_of :
    (d : SqlDate) → IsDate d → to_date_string (string (text_of d)) ≡ some (text_of d)
to_date_string-text_of d h =
    to_date_string-written _ _ _ _ _ _ _ _ (ground arith) (ground arith) (ground arith)
      (ground arith) (ground arith) (ground arith) (ground arith) (ground arith)

-- The column as the entity holds it.
abbrev pub column : Option SqlDate → DateValue
column none = missing
column (some d) = string (text_of d)

abbrev pub IsColumn : Option SqlDate → Type 0
IsColumn none = Unit
IsColumn (some d) = IsDate d

to_date_string-missing : to_date_string missing ≡ none
unfolding to_date_string
to_date_string-missing = refl

module _ (today : SqlDate) where
  before_column :
      (start : Option SqlDate)
      → IsColumn start
      → holds_of (λ s. text_lt (text_of today) s) (to_date_string (column start))
        ≡ not_null_and start (λ s. date_lt today s)
  before_column none h = rw to_date_string-missing
  before_column (some d) h = rw (to_date_string-text_of d h) (text_lt-text_of today d)

  after_column :
      (end_ : Option SqlDate)
      → IsColumn end_
      → holds_of (λ e. text_lt e (text_of today)) (to_date_string (column end_))
        ≡ not_null_and end_ (λ e. date_lt e today)
  after_column none h = rw to_date_string-missing
  after_column (some d) h = rw (to_date_string-text_of d h) (text_lt-text_of d today)

  -- For columns that are null or dates with a year below 10000, on any day, the status that the API
  -- computes from the texts of the columns is the status that the SQL expression computes from the
  -- columns.
  pub resolve_job_status-eq-sql :
      (start end_ : Option SqlDate)
      → IsColumn start
      → IsColumn end_
      → resolve_job_status
          (record { application_start = column start; application_end = column end_ })
          (text_of today)
        ≡ job_status_sql_expression start end_ today
  unfolding resolve_job_status job_status_sql_expression
  resolve_job_status-eq-sql start end_ hs he = rw (before_column start hs, after_column end_ he)
