-- ===== src/Base/Members.antt =====
-- Membership with its place, and what the tests `any` and `filter` say of the members.
use mathlib.Core.Path.{◌≡◌, refl, sym, subst}
use mathlib.Core.Logic.{◌⊎◌, inl, inr}
use mathlib.Core.Bool.{Bool, true, false, ◌||◌, false≢true}
use mathlib.Core.List.{List, [], ◌∷◌, ◌++◌, Memᴰ}
use gov_jobs_backend.Base.Tests.{Bool-cases, if◌then◌else◌}
use gov_jobs_backend.Base.Lists.{any, filter}

or-true : (b : Bool) → b || true ≡ true
or-true true = refl
or-true false = refl

module _ {ℓ} {A : Type ℓ} where
  pub mem-cases : {x y : A} {ys : List A} → Memᴰ x (y ∷ ys) → (x ≡ y) ⊎ Memᴰ x ys
  mem-cases (Memᴰ.head e) = inl e
  mem-cases (Memᴰ.tail m) = inr m

  pub mem-append_left : {x : A} {xs : List A} (ys : List A) → Memᴰ x xs → Memᴰ x (xs ++ ys)
  mem-append_left ys (Memᴰ.head e) = Memᴰ.head e
  mem-append_left ys (Memᴰ.tail m) = Memᴰ.tail (mem-append_left ys m)

  pub mem-append_right : {x : A} (xs : List A) {ys : List A} → Memᴰ x ys → Memᴰ x (xs ++ ys)
  mem-append_right [] m = m
  mem-append_right (y ∷ xs) m = Memᴰ.tail (mem-append_right xs m)

  pub mem_of_append :
      {x : A} (xs : List A) {ys : List A} → Memᴰ x (xs ++ ys) → Memᴰ x xs ⊎ Memᴰ x ys
  mem_of_append [] m = inr m
  mem_of_append (y ∷ xs) m = elim (mem-cases m) [
    | inl e ↦ inl (Memᴰ.head e)
    | inr n ↦ elim (mem_of_append xs n) [ inl l ↦ inl (Memᴰ.tail l) | inr r ↦ inr r ]
  ]

module _ {ℓ} {A : Type ℓ} (p : A → Bool) where
  pub any_of_mem : {x : A} {xs : List A} → Memᴰ x xs → p x ≡ true → any p xs ≡ true
  any_of_mem {x} (Memᴰ.head e) h = rw (subst (λ y. p y ≡ true) e h)
  any_of_mem {xs = y ∷ ys} (Memᴰ.tail m) h = rw (any_of_mem m h) (or-true (p y))

  pub mem_of_any : (xs : List A) → any p xs ≡ true → (x : A) × Memᴰ x xs × (p x ≡ true)
  mem_of_any [] h = absurd (false≢true h)
  mem_of_any (x ∷ xs) h = elim (Bool-cases (p x)) [
    | inl e ↦ (x, Memᴰ.head refl, e)
    | inr e ↦ let (y, m, q) = mem_of_any xs (rw e at h) in (y, Memᴰ.tail m, q)
  ]

  pub mem-filter : {x : A} {xs : List A} → Memᴰ x xs → p x ≡ true → Memᴰ x (filter p xs)
  mem-filter (Memᴰ.head e) h = rw (subst (λ y. p y ≡ true) e h) (Memᴰ.head e)
  mem-filter {xs = y ∷ ys} (Memᴰ.tail m) h = elim (Bool-cases (p y)) [
    | inl e ↦ rw e (Memᴰ.tail (mem-filter m h))
    | inr e ↦ rw e (mem-filter m h)
  ]

  pub mem_of_filter : {x : A} (xs : List A) → Memᴰ x (filter p xs) → Memᴰ x xs × (p x ≡ true)
  mem_of_filter [] m = elim m [ ]
  mem_of_filter {x} (y ∷ ys) m = elim (Bool-cases (p y)) [
    | inl e ↦
        let m' : Memᴰ x (y ∷ filter p ys) =
          subst (λ b. Memᴰ x (if b then y ∷ filter p ys else filter p ys)) e m in
        elim (mem-cases m') [
          | inl same ↦ (Memᴰ.head same, subst (λ z. p z ≡ true) (sym same) e)
          | inr later ↦ let (n, h) = mem_of_filter ys later in (Memᴰ.tail n, h)
        ]
    | inr e ↦
        let m' : Memᴰ x (filter p ys) =
          subst (λ b. Memᴰ x (if b then y ∷ filter p ys else filter p ys)) e m in
        let (n, h) = mem_of_filter ys m' in (Memᴰ.tail n, h)
  ]
