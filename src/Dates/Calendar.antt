-- ===== src/Dates/Calendar.antt =====
-- The calendar of an instant: `getLocalDateString` of src/shared/utils/date.util.ts and `isoWeekKey`
-- of src/modules/notifications/notification-dispatch.service.ts. Instants are milliseconds from
-- 1970 on; Bangkok is seven hours ahead of UTC.
use gov_jobs_backend.Base.{
  ℕ, ◌+◌, ◌-◌, ◌*◌, ◌/◌, ◌%◌, ◌==◌, ltb, leb, if◌then◌else◌, ◌∷◌, ◌++◌, Text, codes, print_number,
}

-- A date of the Gregorian calendar, from the days that went by since 1970-01-01: years are counted
-- from March, in eras of 400.
pub record Civil : Type 0 where
  pub year : ℕ
  pub month : ℕ
  pub day : ℕ

abbrev pub year_in_era : ℕ → ℕ
year_in_era doe = (doe + doe / 36524 - doe / 1460 - doe / 146096) / 365

unfoldable pub civil_of_days : ℕ → Civil
civil_of_days days =
    let z : ℕ = days + 719468 in
    let doe : ℕ = z % 146097 in
    let yoe : ℕ = year_in_era doe in
    let doy : ℕ = doe - (365 * yoe + yoe / 4 - yoe / 100) in
    let mp : ℕ = (5 * doy + 2) / 153 in
    let month : ℕ = if ltb mp 10 then mp + 3 else mp - 9 in
    let year : ℕ = yoe + z / 146097 * 400 in
    record {
      year = if leb month 2 then year + 1 else year;
      month = month;
      day = doy + 1 - (153 * mp + 2) / 5;
    }

-- `Date.UTC(year, 0, 1)`, in days.
unfoldable pub first_day_of : ℕ → ℕ
first_day_of year = 365 * (year - 1) + (year - 1) / 4 + (year - 1) / 400 - (year - 1) / 100 - 719162

-- Two digits at least.
abbrev pub two_digits : ℕ → Text
two_digits n = if ltb n 10 then b'0' ∷ print_number n else print_number n

abbrev pub day_ms : ℕ
day_ms = 86400000

unfoldable pub local_date_string : ℕ → Text
unfolding civil_of_days
local_date_string now =
    let date : Civil = civil_of_days ((now + 7 * 3600000) / day_ms) in
    print_number date.year ++ (b'-' ∷ (two_digits date.month ++ (b'-' ∷ two_digits date.day)))

-- `getUTCDay() || 7`: 1 on Mondays, 7 on Sundays.
unfoldable pub week_day : ℕ → ℕ
week_day days = let day : ℕ = (days + 4) % 7 in if day == 0 then 7 else day

unfoldable pub thursday_of : ℕ → ℕ
unfolding week_day
thursday_of days = days + 4 - week_day days

-- `Math.ceil((days + 1) / 7)`.
unfoldable pub week_of : ℕ → ℕ
unfolding civil_of_days first_day_of
week_of thursday = (thursday - first_day_of (civil_of_days thursday).year + 1 + 6) / 7

unfoldable pub iso_week_key : ℕ → Text
unfolding thursday_of week_of civil_of_days
iso_week_key date =
    let thursday : ℕ = thursday_of (date / day_ms) in
    print_number (civil_of_days thursday).year ++ (codes "-W" ++ two_digits (week_of thursday))
