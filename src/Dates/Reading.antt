-- ===== src/Dates/Reading.antt =====
-- A text that is a date already is read as itself.
use gov_jobs_backend.Base.{
  ℕ, ◌≡◌, refl, true, false, some, [], ◌∷◌, arith, Text, trim, trim_start, is_space,
}
use gov_jobs_backend.Dates.{string, is_digit, to_date_string}

is_space_of_digit : (c : ℕ) → is_digit c ≡ true → is_space c ≡ false
unfolding is_space
is_space_of_digit c h = ground arith

trim_start_of_digit : (c : ℕ) (s : Text) → is_digit c ≡ true → trim_start (c ∷ s) ≡ c ∷ s
unfolding trim_start
trim_start_of_digit c s h = rw (is_space_of_digit c h)

module _ (y y' y'' y''' m m' d d' : ℕ) (hy : is_digit y ≡ true) (hy' : is_digit y' ≡ true)
    (hy'' : is_digit y'' ≡ true) (hy''' : is_digit y''' ≡ true) (hm : is_digit m ≡ true)
    (hm' : is_digit m' ≡ true) (hd : is_digit d ≡ true) (hd' : is_digit d' ≡ true) where
  abbrev written : Text
  written = y ∷ y' ∷ y'' ∷ y''' ∷ b'-' ∷ m ∷ m' ∷ b'-' ∷ d ∷ d' ∷ []

  trim-written : trim written ≡ written
  unfolding trim
  trim-written = rw (trim_start_of_digit y _ hy) (rw (trim_start_of_digit d' _ hd') refl)

  pub to_date_string-written : to_date_string (string written) ≡ some written
  unfolding to_date_string
  to_date_string-written = rw trim-written (rw (hy, hy', hy'', hy''', hm, hm', hd, hd'))
