-- ===== src/Dates/Tests.antt =====
-- Dates and weeks of some instants.
use gov_jobs_backend.Base.{◌≡◌, ◌↔◌, refl, some, none, codes, print_number}
use gov_jobs_backend.Dates.Thai.{parse_thai_date, parse_slash_date, unless_moved}
use gov_jobs_backend.Dates.Rolled.{IsCalendarDate, unless_moved_iff}
use gov_jobs_backend.Dates.Calendar.{local_date_string, iso_week_key}

late_evening : local_date_string 1774569599000 ≡ codes "2026-03-27"
unfolding local_date_string print_number
late_evening = refl

last_week_of_long_year : iso_week_key 1798675200000 ≡ codes "2026-W53"
unfolding iso_week_key print_number
last_week_of_long_year = refl

first_week : iso_week_key 1704067200000 ≡ codes "2024-W01"
unfolding iso_week_key print_number
first_week = refl

leap_day : parse_slash_date (codes "29/02/2567") ≡ some (codes "2024-02-29")
unfolding parse_slash_date
leap_day = refl

no_leap_day : parse_thai_date (codes "29 กุมภาพันธ์ 2568") ≡ none
unfolding parse_thai_date gov_jobs_backend.Base.is_space
no_leap_day = refl

unless_moved_iff_example : (unless_moved 2024 1 29 ≡ some (codes "2024-02-29")) ↔ (
    IsCalendarDate (record { year = 2024; month = 1; day = 29 })
    × (codes "2024-02-29" ≡ codes "2024-02-29"))
unless_moved_iff_example = unless_moved_iff 2024 1 29 (codes "2024-02-29")
