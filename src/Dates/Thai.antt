-- ===== src/Dates/Thai.antt =====
-- Thai dates: `parseThaiDate` of src/shared/utils/date.util.ts and `parseSlashDate` of
-- src/modules/crawler/mdes/mdes.parser.ts.
use gov_jobs_backend.Base.{
  ℕ, zero, suc, ◌+◌, ◌-◌, ◌/◌, ◌%◌, Bool, true, false, ◌&&◌, ◌||◌, not, Option, none, some, List,
  [], ◌∷◌, any, ◌==◌, leb, ltb, if◌then◌else◌, Text, text_eq, codes, read_digits, is_space,
}
use gov_jobs_backend.Dates.{is_digit}
use gov_jobs_backend.Patterns.{
  Atom, one, many, perhaps, edge, begins, ends, Groups, group, exec, find_match,
}

abbrev pub thai_months : List (List Text)
thai_months =
    (codes "ม.ค." ∷ codes "มกราคม" ∷ [])
    ∷ (codes "ก.พ." ∷ codes "กุมภาพันธ์" ∷ [])
    ∷ (codes "มี.ค." ∷ codes "มีนาคม" ∷ [])
    ∷ (codes "เม.ย." ∷ codes "เมษายน" ∷ [])
    ∷ (codes "พ.ค." ∷ codes "พฤษภาคม" ∷ [])
    ∷ (codes "มิ.ย." ∷ codes "มิถุนายน" ∷ [])
    ∷ (codes "ก.ค." ∷ codes "กรกฎาคม" ∷ [])
    ∷ (codes "ส.ค." ∷ codes "สิงหาคม" ∷ [])
    ∷ (codes "ก.ย." ∷ codes "กันยายน" ∷ [])
    ∷ (codes "ต.ค." ∷ codes "ตุลาคม" ∷ [])
    ∷ (codes "พ.ย." ∷ codes "พฤศจิกายน" ∷ [])
    ∷ (codes "ธ.ค." ∷ codes "ธันวาคม" ∷ [])
    ∷ []

abbrev pub buddhist_era_offset : ℕ
buddhist_era_offset = 543

-- `findIndex`, from an index on.
unfoldable pub month_index : ℕ → List (List Text) → Text → Option ℕ
unfolding text_eq
month_index n [] month_text = none
month_index n (names ∷ later) month_text = elim (any (λ name. text_eq name month_text) names) [
  | true ↦ some n
  | false ↦ month_index (suc n) later month_text
]

-- A date as `Date` holds it, the month counted from 0.
pub record UtcDate : Type 0 where
  pub year : ℕ
  pub month : ℕ
  pub day : ℕ

abbrev pub is_leap_year : ℕ → Bool
is_leap_year y = y % 4 == 0 && (not (y % 100 == 0) || y % 400 == 0)

abbrev pub days_in_month : ℕ → ℕ → ℕ
days_in_month y m =
    if m == 1
    then (if is_leap_year y then 29 else 28)
    else if m == 3 || m == 5 || m == 8 || m == 10
    then 30
    else 31

-- The day rolls over into the months that follow; four of them take up 99 days.
unfoldable pub roll_over : ℕ → ℕ → ℕ → ℕ → UtcDate
roll_over zero y m d = record { year = y; month = m; day = d }
roll_over (suc fuel) y m d = elim (leb d (days_in_month y m)) [
  | true ↦ record { year = y; month = m; day = d }
  | false ↦ elim (m == 11) [
    | true ↦ roll_over fuel (suc y) 0 (d - days_in_month y m)
    | false ↦ roll_over fuel y (suc m) (d - days_in_month y m)
  ]
]

-- The day before the first of a month.
abbrev pub last_before : ℕ → ℕ → UtcDate
last_before y zero = record { year = y - 1; month = 11; day = 31 }
last_before y (suc m) = record { year = y; month = m; day = days_in_month y m }

-- `Date.UTC(year, month, day)`: years below 100 count from 1900, months from 12 on are later years.
unfoldable pub date_utc : ℕ → ℕ → ℕ → UtcDate
unfolding roll_over
date_utc year month day =
    let y : ℕ = (if ltb year 100 then 1900 + year else year) + month / 12 in
    elim day [ zero ↦ last_before y (month % 12) | suc d ↦ roll_over 4 y (month % 12) (suc d) ]

-- `toISOString().slice(0, 10)` of a year of four digits.
abbrev pub iso_date : UtcDate → Text
iso_date d =
    (b'0' + d.year / 1000)
    ∷ (b'0' + d.year / 100 % 10)
    ∷ (b'0' + d.year / 10 % 10)
    ∷ (b'0' + d.year % 10)
    ∷ b'-'
    ∷ (b'0' + suc d.month / 10)
    ∷ (b'0' + suc d.month % 10)
    ∷ b'-'
    ∷ (b'0' + d.day / 10)
    ∷ (b'0' + d.day % 10)
    ∷ []

abbrev pub gregorian : ℕ → ℕ
gregorian raw_year = if leb 2400 raw_year then raw_year - buddhist_era_offset else raw_year

-- The date, unless `Date` moved it.
unfoldable pub unless_moved : ℕ → ℕ → ℕ → Option Text
unfolding date_utc
unless_moved year month day =
    let date : UtcDate = date_utc year month day in
    if date.year == year && (date.month == month && date.day == day)
    then some (iso_date date)
    else none

abbrev pub is_thai_consonant : ℕ → Bool
is_thai_consonant c = leb 0x0e01 c && leb c 0x0e2e

abbrev pub in_thai_month : ℕ → Bool
in_thai_month c = is_thai_consonant c || c == b'.' || (leb 0x0e30 c && leb c 0x0e4e)

-- `/(\d{1,2})\s*([ก-ฮ][ก-ฮ.ะ-๎]*)\s*(\d{4})/`
abbrev pub thai_date_pattern : List Atom
thai_date_pattern =
    begins 1
    ∷ one is_digit
    ∷ perhaps is_digit
    ∷ ends 1
    ∷ many is_space
    ∷ begins 2
    ∷ one is_thai_consonant
    ∷ many in_thai_month
    ∷ ends 2
    ∷ many is_space
    ∷ begins 3
    ∷ one is_digit
    ∷ one is_digit
    ∷ one is_digit
    ∷ one is_digit
    ∷ ends 3
    ∷ []

unfoldable pub thai_date_of : Groups → Option Text
unfolding month_index unless_moved read_digits group
thai_date_of gs = elim (month_index 0 thai_months (group 2 gs)) [
  | none ↦ none
  | some m ↦ unless_moved (gregorian (read_digits 0 (group 3 gs))) m (read_digits 0 (group 1 gs))
]

unfoldable pub parse_thai_date : Text → Option Text
unfolding find_match thai_date_of
parse_thai_date value = elim (exec thai_date_pattern value) [
  | none ↦ none
  | some p ↦ thai_date_of p.groups
]

-- `/\b(\d{1,2})\/(\d{1,2})\/(\d{4})\b/`
abbrev pub slash_date_pattern : List Atom
slash_date_pattern =
    edge
    ∷ begins 1
    ∷ one is_digit
    ∷ perhaps is_digit
    ∷ ends 1
    ∷ one (λ c. c == b'/')
    ∷ begins 2
    ∷ one is_digit
    ∷ perhaps is_digit
    ∷ ends 2
    ∷ one (λ c. c == b'/')
    ∷ begins 3
    ∷ one is_digit
    ∷ one is_digit
    ∷ one is_digit
    ∷ one is_digit
    ∷ ends 3
    ∷ edge
    ∷ []

-- A month 0 is December of the year before, which is not the month that was asked for.
abbrev pub slash_date : ℕ → ℕ → ℕ → Option Text
slash_date year zero day = none
slash_date year (suc month) day = unless_moved year month day

unfoldable pub parse_slash_date : Text → Option Text
unfolding find_match unless_moved read_digits group
parse_slash_date value = elim (exec slash_date_pattern value) [
  | none ↦ none
  | some p ↦
      slash_date (gregorian (read_digits 0 (group 3 p.groups))) (read_digits 0 (group 2 p.groups))
        (read_digits 0 (group 1 p.groups))
]
