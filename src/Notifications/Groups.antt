-- ===== src/Notifications/Groups.antt =====
-- The map of groups of `dispatchImmediate` in
-- src/modules/notifications/notification-dispatch.service.ts.
use mathlib.Core.Bool.{false≢true}
use mathlib.Core.Path.{subst}
use gov_jobs_backend.Base.{
  ℕ, ◌+◌, ◌≡◌, refl, sym, ap, ◌∙◌, inl, inr, Bool, false, ◌||◌, Bool-cases, List, [], ◌∷◌, ◌++◌,
  map, any, All, ◌==◌, if◌then◌else◌, Text, text_eq, text_eq_iff, arith,
}
use gov_jobs_backend.Models.{JobAlertMatch}
use gov_jobs_backend.Matching.{Listings}
use gov_jobs_backend.Notifications.{Group, members, add_to_groups, group_key, group_from}

-- How often a number stands in a list: two lists with the same counts hold the same, in some order.
abbrev pub occurrences : ℕ → List ℕ → ℕ
occurrences x [] = 0
occurrences x (y ∷ ys) = (if y == x then 1 else 0) + occurrences x ys

pub occurrences-append :
    (x : ℕ) (ys zs : List ℕ) → occurrences x (ys ++ zs) ≡ occurrences x ys + occurrences x zs
occurrences-append x [] zs = omega arith
occurrences-append x (y ∷ ys) zs = omega (arith, occurrences-append x ys zs)

abbrev pub match_ids_of : List JobAlertMatch → List ℕ
match_ids_of = map (λ m. m.id)

-- The matches that the groups hold.
abbrev pub held : List Group → List ℕ
held [] = []
held (g ∷ groups) = match_ids_of (members g) ++ held groups

match_ids_of-append :
    (xs ys : List JobAlertMatch) → match_ids_of (xs ++ ys) ≡ match_ids_of xs ++ match_ids_of ys
match_ids_of-append [] ys = refl
match_ids_of-append (x ∷ xs) ys = ap (◌∷◌ x.id) (match_ids_of-append xs ys)

held-add_to_groups :
    (x : ℕ) (key : Text) (m : JobAlertMatch) (groups : List Group)
    → occurrences x (held (add_to_groups key m groups))
      ≡ occurrences x (held groups) + occurrences x (m.id ∷ [])
unfolding add_to_groups
held-add_to_groups x key m [] = omega arith
held-add_to_groups x key m (g ∷ groups) = elim (Bool-cases (text_eq g.key key)) [
  | inl same ↦ rw same (
      omega (
        arith,
        ap (occurrences x) (match_ids_of-append g.rest (m ∷ [])),
        occurrences-append x (match_ids_of g.rest) (m.id ∷ []),
        occurrences-append x (match_ids_of (g.rest ++ m ∷ [])) (held groups),
        occurrences-append x (match_ids_of g.rest) (held groups),
      ))
  | inr other ↦ rw other (
      omega (
        arith,
        held-add_to_groups x key m groups,
        occurrences-append x (match_ids_of g.rest) (held (add_to_groups key m groups)),
        occurrences-append x (match_ids_of g.rest) (held groups),
      ))
]

-- No key stands twice.
abbrev pub holds_key : Text → List Group → Bool
holds_key key = any (λ g. text_eq g.key key)

abbrev pub UniqueKeys : List Group → Type 0
UniqueKeys [] = Unit
UniqueKeys (g ∷ groups) = (holds_key g.key groups ≡ false) × UniqueKeys groups

holds_key-add_to_groups :
    (x key : Text) (m : JobAlertMatch) (groups : List Group)
    → holds_key x (add_to_groups key m groups) ≡ holds_key x groups || text_eq key x
unfolding add_to_groups
holds_key-add_to_groups x key m [] = ground arith
holds_key-add_to_groups x key m (g ∷ groups) = elim (Bool-cases (text_eq g.key key)) [
  | inl same ↦
      let e = (text_eq_iff g.key key).0 same in
      rw same (
        subst
          (λ k.
            text_eq g.key x || holds_key x groups
            ≡ (text_eq g.key x || holds_key x groups) || text_eq k x)
          e (ground arith))
  | inr other ↦ rw other (ground (arith, holds_key-add_to_groups x key m groups))
]

text_ne_sym : (a b : Text) → text_eq a b ≡ false → text_eq b a ≡ false
text_ne_sym a b h = elim (Bool-cases (text_eq b a)) [
  | inl same ↦ absurd (false≢true (sym h ∙ (text_eq_iff a b).1 (sym ((text_eq_iff b a).0 same))))
  | inr other ↦ other
]

UniqueKeys-add_to_groups :
    (key : Text) (m : JobAlertMatch) (groups : List Group)
    → UniqueKeys groups
    → UniqueKeys (add_to_groups key m groups)
unfolding add_to_groups
UniqueKeys-add_to_groups key m [] u = (refl, tt)
UniqueKeys-add_to_groups key m (g ∷ groups) (fresh, u) = elim (Bool-cases (text_eq g.key key)) [
  | inl same ↦ rw same (fresh, u)
  | inr other ↦ rw other (
    holds_key-add_to_groups g.key key m groups ∙ rw (fresh, text_ne_sym g.key key other) refl,
    UniqueKeys-add_to_groups key m groups u,
  )
]

module _ (uuid_text : ℕ → Text) (sha256_hex : Text → Text) (db : Listings) where
  -- The members of a group have its key.
  abbrev pub Keyed : Group → Type 0
  Keyed g = All (λ m. group_key uuid_text sha256_hex db m ≡ g.key) (members g)

  All-append_one :
      (key : Text) (ms : List JobAlertMatch) (m : JobAlertMatch)
      → All (λ x. group_key uuid_text sha256_hex db x ≡ key) ms
      → group_key uuid_text sha256_hex db m ≡ key
      → All (λ x. group_key uuid_text sha256_hex db x ≡ key) (ms ++ m ∷ [])
  All-append_one key [] m h e = (e, tt)
  All-append_one key (x ∷ ms) m (here, later) e = (here, All-append_one key ms m later e)

  Keyed-add_to_groups :
      (m : JobAlertMatch) (groups : List Group)
      → All Keyed groups
      → All Keyed (add_to_groups (group_key uuid_text sha256_hex db m) m groups)
  unfolding add_to_groups
  Keyed-add_to_groups m [] h = ((refl, tt), tt)
  Keyed-add_to_groups m (g ∷ groups) ((first, rest), later) =
      elim (Bool-cases (text_eq g.key (group_key uuid_text sha256_hex db m))) [
        | inl same ↦ rw same (
          (first, All-append_one g.key g.rest m rest (sym ((text_eq_iff g.key _).0 same))),
          later,
        )
        | inr other ↦ rw other ((first, rest), Keyed-add_to_groups m groups later)
      ]

  -- What the loop keeps.
  pub record Grouped (groups : List Group) (matches : List JobAlertMatch) (before : List Group)
      : Type 0 where
    pub once :
        (x : ℕ)
        → occurrences x (held groups)
          ≡ occurrences x (held before) + occurrences x (match_ids_of matches)
    pub keyed : All Keyed groups
    pub unique : UniqueKeys groups

  pub group_from-Grouped :
      (before : List Group) (matches : List JobAlertMatch)
      → All Keyed before
      → UniqueKeys before
      → Grouped (group_from uuid_text sha256_hex db before matches) matches before
  unfolding group_from
  group_from-Grouped before [] k u = record { once = λ x. omega arith; keyed = k; unique = u }
  group_from-Grouped before (m ∷ matches) k u =
      let key = group_key uuid_text sha256_hex db m in
      let later =
        group_from-Grouped (add_to_groups key m before) matches (Keyed-add_to_groups m before k)
          (UniqueKeys-add_to_groups key m before u) in
      record {
        once = λ x. omega (arith, later.once x, held-add_to_groups x key m before);
        keyed = later.keyed;
        unique = later.unique;
      }
