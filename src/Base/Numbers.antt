-- ===== src/Base/Numbers.antt =====
-- Decimal numerals in texts: `String(n)` and `Number.parseInt(digits, 10)`.
use Prim.Native.Nat.{ℕ, zero, suc, ◌+◌, ◌*◌, ◌-◌, ◌/◌, ◌%◌}
use mathlib.Core.List.{[], ◌∷◌}
use gov_jobs_backend.Base.Tests.{ltb, if◌then◌else◌}
use gov_jobs_backend.Base.Texts.{Text}

-- The digits of `n` before `rest`; one more round than `n` is always enough.
unfoldable pub print_before : ℕ → ℕ → Text → Text
print_before zero n rest = rest
print_before (suc fuel) n rest =
    let more = print_before fuel (n / 10) ((48 + n % 10) ∷ rest) in
    if ltb n 10 then (48 + n) ∷ rest else more

unfoldable pub print_number : ℕ → Text
unfolding print_before
print_number n = print_before (suc n) n []

unfoldable pub read_digits : ℕ → Text → ℕ
read_digits acc [] = acc
read_digits acc (c ∷ s) = read_digits (acc * 10 + (c - 48)) s
