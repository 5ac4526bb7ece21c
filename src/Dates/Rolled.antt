-- ===== src/Dates/Rolled.antt =====
-- The dates that the parsers of Thai dates accept: those that `Date` does not move.
use mathlib.Core.Path.{subst}
use gov_jobs_backend.Base.{
  ℕ, zero, suc, ◌+◌, ◌-◌, ◌*◌, ◌/◌, ◌%◌, ◌≤◌, ◌<◌, ◌≡◌, refl, ◌↔◌, inl, inr, Bool, true, false,
  ◌&&◌, none, some, ◌==◌, leb, ltb, if◌then◌else◌, Bool-cases, leb_iff, ltb_iff, ==_refl, sym, ap,
  ◌∙◌, Text, arith,
}
use gov_jobs_backend.Dates.Thai.{
  UtcDate, days_in_month, roll_over, last_before, date_utc, iso_date, unless_moved,
}

-- A date of the calendar, the month counted from 0.
pub record IsCalendarDate (d : UtcDate) : Type 0 where
  pub year_starts : 100 ≤ d.year
  pub month_fits : d.month < 12
  pub day_starts : 1 ≤ d.day
  pub day_fits : d.day ≤ days_in_month d.year d.month

abbrev months_of : UtcDate → ℕ
months_of d = d.year * 12 + d.month

-- Rolling over never goes back.
roll_over_ahead :
    (fuel y m d : ℕ)
    → m < 12
    → let r = roll_over fuel y m d in (y * 12 + m ≤ months_of r) × (r.month < 12)
unfolding roll_over
roll_over_ahead zero y m d h = (omega arith, h)
roll_over_ahead (suc fuel) y m d h = elim (Bool-cases (leb d (days_in_month y m))) [
  | inl p ↦ rw (p, roll_over) (omega arith, h)
  | inr p ↦ elim (Bool-cases (m == 11)) [
    | inl q ↦
        let (ahead, small) = roll_over_ahead fuel (suc y) 0 (d - days_in_month y m) (omega arith) in
        rw (p, roll_over) (rw q (ground arith, small))
    | inr q ↦
        let (ahead, small) =
          roll_over_ahead fuel y (suc m) (d - days_in_month y m) (ground arith) in
        rw (p, roll_over) (rw q (ground arith, small))
  ]
]

-- A day past the end of its month is moved to a later one.
roll_over_moves :
    (y m d : ℕ)
    → m < 12
    → leb d (days_in_month y m) ≡ false
    → let r = roll_over 4 y m d in y * 12 + m < months_of r
unfolding roll_over
roll_over_moves y m d h p = elim (Bool-cases (m == 11)) [
  | inl q ↦
      let (ahead, small) = roll_over_ahead 3 (suc y) 0 (d - days_in_month y m) (omega arith) in
      rw (p, roll_over) (rw q (ground arith))
  | inr q ↦
      let (ahead, small) = roll_over_ahead 3 y (suc m) (d - days_in_month y m) (ground arith) in
      rw (p, roll_over) (rw q (ground arith))
]

days_in_month_positive : (y m : ℕ) → 28 ≤ days_in_month y m
days_in_month_positive y m = ground arith

abbrev utc_year : ℕ → ℕ → ℕ
utc_year y m = (if ltb y 100 then 1900 + y else y) + m / 12

abbrev is_date : UtcDate → ℕ → ℕ → ℕ → Bool
is_date date y m d = date.year == y && (date.month == m && date.day == d)

is_date-same :
    (date : UtcDate) (y m d : ℕ)
    → is_date date y m d ≡ true
    → (date.year ≡ y) × (date.month ≡ m) × (date.day ≡ d)
is_date-same date y m d h = (ground arith, ground arith, ground arith)

last_before_late : (y m : ℕ) → 28 ≤ (last_before y m).day
last_before_late y zero = omega arith
last_before_late y (suc m) = days_in_month_positive y m

ltb-false : (a b : ℕ) → ltb a b ≡ false → b ≤ a
ltb-false a b h = ground arith

-- A date that is not before the year it was made from, in the era `Date` takes it to be in.
utc_year_same :
    (y m : ℕ) (date : UtcDate)
    → utc_year y m * 12 + m % 12 ≤ months_of date
    → date.year ≡ y
    → date.month ≡ m
    → date.month < 12
    → (100 ≤ y) × (utc_year y m ≡ y)
utc_year_same y m date ahead hy hm small = elim (Bool-cases (ltb y 100)) [
  | inl p ↦
      let ahead' : (1900 + y + m / 12) * 12 + m % 12 ≤ months_of date = rw p at ahead in
      absurd (omega arith)
  | inr p ↦ rw p ((ltb-false y 100 p), omega arith)
]

same_date :
    (date : UtcDate) (y m d : ℕ)
    → is_date date y m d ≡ true
    → date ≡ record { year = y; month = m; day = d }
same_date date y m d h =
    let (year, month, day) = is_date-same date y m d h in
    λ i. record { year = year i; month = month i; day = day i }

utc_year_late : (y m : ℕ) → 100 ≤ y → m < 12 → utc_year y m ≡ y
utc_year_late y m h q = elim (Bool-cases (ltb y 100)) [
  | inl p ↦ let below = (ltb_iff y 100).0 p in absurd (omega arith)
  | inr p ↦ rw p (omega arith)
]

none≢some : {t : Text} → none ≡ some t → ⊥
none≢some h = cc

some_injective : {s t : Text} → some s ≡ some t → s ≡ t
some_injective h = cc

date_utc_unmoved :
    (y m d : ℕ)
    → is_date (date_utc y m d) y m d ≡ true
    → (100 ≤ y) × (m < 12) × (1 ≤ d) × (d ≤ days_in_month y m)
unfolding date_utc
date_utc_unmoved y m zero h =
    let (year, month, day) = is_date-same _ y m 0 h in
    let late = last_before_late (utc_year y m) (m % 12) in absurd (omega arith)
date_utc_unmoved y m (suc d) h =
    let (year, month, day) = is_date-same _ y m (suc d) h in
    let (ahead, small) = roll_over_ahead 4 (utc_year y m) (m % 12) (suc d) (omega arith) in
    let (starts, at_year) =
      utc_year_same y m (roll_over 4 (utc_year y m) (m % 12) (suc d)) ahead year month small in
    let at_month : m % 12 ≡ m = omega arith in
    (
      starts,
      omega arith,
      omega arith,
      elim (Bool-cases (leb (suc d) (days_in_month (utc_year y m) (m % 12)))) [
        | inl p ↦
            subst (λ n. suc d ≤ days_in_month n m) at_year
              (subst (λ k. suc d ≤ days_in_month (utc_year y m) k) at_month ((leb_iff _ _).0 p))
        | inr p ↦
            let moved = roll_over_moves (utc_year y m) (m % 12) (suc d) (omega arith) p in
            absurd (omega arith)
      ],
    )

date_utc_stays :
    (y m d : ℕ)
    → IsCalendarDate (record { year = y; month = m; day = d })
    → date_utc y m d ≡ record { year = y; month = m; day = d }
unfolding date_utc roll_over
date_utc_stays y m zero c = let starts = c.day_starts in absurd (omega arith)
date_utc_stays y m (suc d) c =
    let starts = c.year_starts in
    let month_fits = c.month_fits in
    let at_month : m % 12 ≡ m = omega arith in
    let at_year : utc_year y m ≡ y = utc_year_late y m starts month_fits in
    let fits : leb (suc d) (days_in_month y m) ≡ true = (leb_iff _ _).1 c.day_fits in
    ap (λ (n : ℕ). roll_over 4 n (m % 12) (suc d)) at_year
    ∙ ap (λ (k : ℕ). roll_over 4 y k (suc d)) at_month
    ∙ rw (fits, roll_over) refl

-- Exactly the dates of the calendar from year 100 on are not moved.
pub unless_moved_iff :
    (y m d : ℕ) (t : Text)
    → let date : UtcDate = record { year = y; month = m; day = d } in
      (unless_moved y m d ≡ some t) ↔ (IsCalendarDate date × (iso_date date ≡ t))
unfolding unless_moved
unless_moved_iff y m d t = (
  λ h. elim (Bool-cases (is_date (date_utc y m d) y m d)) [
    | inr p ↦ absurd (none≢some (rw (p, unless_moved) at h))
    | inl p ↦
        let (starts, month_fits, day_starts, day_fits) = date_utc_unmoved y m d p in
        let same : date_utc y m d ≡ record { year = y; month = m; day = d } =
          same_date (date_utc y m d) y m d p in
        (
          record {
            year_starts = starts;
            month_fits = month_fits;
            day_starts = day_starts;
            day_fits = day_fits;
          },
          ap iso_date (sym same) ∙ some_injective (rw (p, unless_moved) at h),
        )
  ],
  λ (c, e).
      rw (date_utc_stays y m d c, unless_moved)
        (rw (==_refl y) (rw (==_refl m) (rw (==_refl d) (ap some e)))),
)
