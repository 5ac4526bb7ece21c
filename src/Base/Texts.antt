-- ===== src/Base/Texts.antt =====
-- Texts as lists of UTF-16 code units, where the program walks or compares them unit by unit.
use Prim.Native.Nat.{ℕ, Ordering, compare}
use Prim.Native.Char.{Char, char, code, IsLt}
use Prim.Native.String.{String}
use mathlib.Core.Path.{◌≡◌, refl}
use mathlib.Core.Logic.{◌↔◌}
use mathlib.Core.Bool.{Bool, true, false, ◌&&◌, ◌||◌}
use mathlib.Core.Option.{Option, none, some}
use mathlib.Core.List.{List, [], ◌∷◌, reverse}
use native.Mathlib.Omega.{arith}
use gov_jobs_backend.Base.Tests.{leb, ltb, ◌==◌, if◌then◌else◌}

abbrev pub Text : Type 0
Text = List ℕ

-- The code units of a text literal, all below U+10000.
abbrev pub codes : String → Text
codes String.[] = []
codes (String.◌∷◌ c s) = code c ∷ codes s

-- `n` is a Unicode scalar value, by the comparisons with the ends of the surrogates and of Unicode.
abbrev BothBelow : Ordering → Ordering → Type 0
BothBelow Ordering.lt o = IsLt o
BothBelow Ordering.eq _ = ⊥
BothBelow Ordering.gt _ = ⊥

abbrev ScalarBy : Ordering → Ordering → Ordering → Type 0
ScalarBy Ordering.lt _ _ = Unit
ScalarBy Ordering.eq o p = BothBelow o p
ScalarBy Ordering.gt o p = BothBelow o p

abbrev both_below_dec : (o p : Ordering) → Option (BothBelow o p)
both_below_dec Ordering.lt Ordering.lt = some tt
both_below_dec Ordering.lt Ordering.eq = none
both_below_dec Ordering.lt Ordering.gt = none
both_below_dec Ordering.eq p = none
both_below_dec Ordering.gt p = none

abbrev scalar_dec : (o p q : Ordering) → Option (ScalarBy o p q)
scalar_dec Ordering.lt p q = some tt
scalar_dec Ordering.eq p q = both_below_dec p q
scalar_dec Ordering.gt p q = both_below_dec p q

-- The character of a unit; U+FFFD for half a surrogate pair.
abbrev char_of : ℕ → Char
char_of n = elim (scalar_dec (compare n 55296) (compare 57343 n) (compare n 1114112)) [
  | none ↦ char 0xfffd tt
  | some p ↦ char n p
]

-- The native text of code units.
unfoldable pub native_text : Text → String
native_text [] = String.[]
native_text (c ∷ s) = String.◌∷◌ (char_of c) (native_text s)

-- `a < b` on strings: by the first unit that differs.
unfoldable pub text_lt : Text → Text → Bool
text_lt xs [] = false
text_lt [] (b ∷ ys) = true
text_lt (a ∷ xs) (b ∷ ys) = ltb a b || (a == b && text_lt xs ys)

unfoldable pub text_eq : Text → Text → Bool
text_eq [] [] = true
text_eq [] (b ∷ ys) = false
text_eq (a ∷ xs) [] = false
text_eq (a ∷ xs) (b ∷ ys) = a == b && text_eq xs ys

-- White space and line terminators of `String.prototype.trim`.
unfoldable pub is_space : ℕ → Bool
is_space c =
    (leb 9 c && leb c 13)
    || c == 32
    || c == 0xa0
    || c == 0x1680
    || (leb 0x2000 c && leb c 0x200a)
    || c == 0x2028
    || c == 0x2029
    || c == 0x202f
    || c == 0x205f
    || c == 0x3000
    || c == 0xfeff

unfoldable pub trim_start : Text → Text
unfolding is_space
trim_start [] = []
trim_start (c ∷ s) = if is_space c then trim_start s else c ∷ s

unfoldable pub trim : Text → Text
unfolding trim_start
trim s = reverse (trim_start (reverse (trim_start s)))

-- `s.startsWith(p)`, and `s.includes(p)` by every place where it may start.
unfoldable pub starts_with : Text → Text → Bool
starts_with [] s = true
starts_with (c ∷ p) [] = false
starts_with (c ∷ p) (d ∷ s) = c == d && starts_with p s

unfoldable pub includes : Text → Text → Bool
unfolding starts_with
includes p [] = starts_with p []
includes p (c ∷ s) = starts_with p (c ∷ s) || includes p s

pub text_eq_iff : (a b : Text) → (text_eq a b ≡ true) ↔ (a ≡ b)
unfolding text_eq
text_eq_iff [] [] = ground arith
text_eq_iff [] (b ∷ ys) = ground arith
text_eq_iff (a ∷ xs) [] = ground arith
text_eq_iff (a ∷ xs) (b ∷ ys) = ground (arith, text_eq_iff xs ys)

-- No text lies before itself, and "not before" is transitive.
pub text_lt_irrefl : (a : Text) → text_lt a a ≡ false
unfolding text_lt
text_lt_irrefl [] = refl
text_lt_irrefl (a ∷ xs) = ground (arith, text_lt_irrefl xs)

pub text_lt_mono : (a b c : Text) → text_lt b a ≡ false → text_lt a c ≡ false → text_lt b c ≡ false
unfolding text_lt
text_lt_mono a b [] p q = refl
text_lt_mono [] b (c ∷ zs) p q = cc
text_lt_mono (a ∷ xs) [] (c ∷ zs) p q = cc
text_lt_mono (a ∷ xs) (b ∷ ys) (c ∷ zs) p q = ground (arith, text_lt_mono xs ys zs)
