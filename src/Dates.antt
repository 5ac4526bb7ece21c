-- ===== src/Dates.antt =====
-- Dates as texts: src/shared/utils/date.util.ts, the part that reads `YYYY-MM-DD`.
pub mod Reading
pub mod Calendar
pub mod Thai
pub mod Rolled
mod Tests
use gov_jobs_backend.Base.{
  ℕ, Bool, ◌&&◌, Option, none, some, List, [], ◌∷◌, ◌==◌, leb, if◌then◌else◌, Text, trim, take,
}

-- `string | Date | null`: of a `Date`, its ISO text, or none where its time is NaN.
pub data DateValue : Type 0 where
  missing : DateValue
  string : Text → DateValue
  instant : Option Text → DateValue

abbrev pub is_digit : ℕ → Bool
is_digit c = leb b'0' c && leb c b'9'

-- `/^(\d{4}-\d{2}-\d{2})/`.
unfoldable pub date_prefix : Text → Option Text
date_prefix (y ∷ y' ∷ y'' ∷ y''' ∷ h ∷ m ∷ m' ∷ h' ∷ d ∷ d' ∷ rest) =
    if is_digit y
      && (is_digit y'
          && (is_digit y''
              && (is_digit y'''
                  && (h == b'-'
                      && (is_digit m
                          && (is_digit m' && (h' == b'-' && (is_digit d && is_digit d'))))))))
    then some (y ∷ y' ∷ y'' ∷ y''' ∷ h ∷ m ∷ m' ∷ h' ∷ d ∷ d' ∷ [])
    else none
date_prefix _ = none

-- The date that starts a text which is not blank.
unfoldable pub date_of_trimmed : Text → Option Text
unfolding date_prefix
date_of_trimmed [] = none
date_of_trimmed (c ∷ s) = date_prefix (c ∷ s)

unfoldable pub to_date_string : DateValue → Option Text
unfolding date_of_trimmed trim
to_date_string missing = none
to_date_string (instant none) = none
to_date_string (instant (some iso)) = some (take 10 iso)
to_date_string (string value) = date_of_trimmed (trim value)
