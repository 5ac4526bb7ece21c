-- ===== src/ThaiText/Marks.antt =====
-- The private-use marks of PDF fonts, and the table that replaces them.
use gov_jobs_backend.Base.{
  ℕ, ◌≡◌, refl, true, false, [], ◌∷◌, Text, arith, any, Bool-cases, inl, inr,
}
use gov_jobs_backend.ThaiText.{in_pua_range, restore_mark, restore_pua_marks}

restore_mark_in_range : (c : ℕ) → in_pua_range c ≡ true → in_pua_range (restore_mark c) ≡ false
unfolding restore_mark
restore_mark_in_range c h = ground arith

restore_mark_out_of_range : (c : ℕ) → in_pua_range c ≡ false → restore_mark c ≡ c
unfolding restore_mark
restore_mark_out_of_range c h = rw h

restore_mark-not_pua : (c : ℕ) → in_pua_range (restore_mark c) ≡ false
restore_mark-not_pua c = elim (Bool-cases (in_pua_range c)) [
  | inl inside ↦ restore_mark_in_range c inside
  | inr outside ↦ rw (restore_mark_out_of_range c outside) outside
]

any-restored : (s : Text) → any in_pua_range (restore_pua_marks s) ≡ false
unfolding restore_pua_marks
any-restored [] = refl
any-restored (c ∷ s) = rw (restore_mark-not_pua c) (any-restored s)

unchanged : (s : Text) → any in_pua_range s ≡ false → restore_pua_marks s ≡ s
unfolding restore_pua_marks
unchanged [] h = refl
unchanged (c ∷ s) h = ground (arith, restore_mark_out_of_range c, unchanged s)

-- After the replacement no unit of the private-use range is left, a second replacement changes
-- nothing, and a text without such units is unchanged.
pub restore_pua_marks_lem :
    (s : Text)
    → (any in_pua_range (restore_pua_marks s) ≡ false)
      × (restore_pua_marks (restore_pua_marks s) ≡ restore_pua_marks s)
      × (any in_pua_range s ≡ false → restore_pua_marks s ≡ s)
restore_pua_marks_lem s =
    (any-restored s, unchanged (restore_pua_marks s) (any-restored s), unchanged s)
