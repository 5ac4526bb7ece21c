-- ===== src/Base/Results.antt =====
-- A call that can throw: its value, or what it throws.
use mathlib.Core.Path.{◌≡◌, refl}
use mathlib.Core.Logic.{◌⊎◌, inl, inr}

pub data Attempt {ℓ} (E : Type 0) (A : Type ℓ) : Type ℓ where
  ok : A → Attempt E A
  error : E → Attempt E A

pub Attempt-cases {ℓ} :
    {E : Type 0} {A : Type ℓ} (x : Attempt E A) → ((a : A) × (x ≡ ok a)) ⊎ ((e : E) × (x ≡ error e))
Attempt-cases (ok a) = inl (a, refl)
Attempt-cases (error e) = inr (e, refl)
