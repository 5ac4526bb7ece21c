-- ===== src/Web/Repeated.antt =====
-- A filter that is given several times, or once with commas.
use gov_jobs_backend.Base.{
  ℕ, ◌≡◌, refl, sym, ap, ◌∙◌, inl, inr, none, List, [], ◌∷◌, ◌++◌, ◌==◌, Bool-cases, Text, codes,
  trim,
}
use gov_jobs_backend.Notifications.{join_with}
use gov_jobs_backend.Web.Queries.{
  before_first, split_commas, split_all, parse_entries, unless_no_number, once, repeated,
  to_number_array,
}

abbrev comma : Text
comma = codes ","

append-nil : (s : List Text) → s ++ [] ≡ s
append-nil [] = refl
append-nil (c ∷ s) = ap (λ t. c ∷ t) (append-nil s)

before_first_part :
    (c : ℕ) (ps : List Text) → (p : Text) × (qs : List Text) × (before_first c ps ≡ p ∷ qs)
before_first_part c [] = (c ∷ [], [], refl)
before_first_part c (p ∷ ps) = (c ∷ p, ps, refl)

-- There is always a first part.
first_part : (s : Text) → (p : Text) × (ps : List Text) × (split_commas s ≡ p ∷ ps)
unfolding split_commas
first_part [] = ([], [], refl)
first_part (c ∷ s) = elim (Bool-cases (c == b',')) [
  | inl e ↦ rw e ([], split_commas s, refl)
  | inr e ↦ rw e (before_first_part c (split_commas s))
]

before_first-append :
    (c : ℕ) (s : Text) (parts : List Text)
    → before_first c (split_commas s) ++ parts ≡ before_first c (split_commas s ++ parts)
before_first-append c s parts = let (p, ps, e) = first_part s in rw e refl

split_commas-append :
    (s t : Text) → split_commas (s ++ (comma ++ t)) ≡ split_commas s ++ split_commas t
unfolding split_commas
split_commas-append [] t = refl
split_commas-append (c ∷ s) t = elim (Bool-cases (c == b',')) [
  | inl e ↦ rw e (ap (λ ps. [] ∷ ps) (split_commas-append s t))
  | inr e ↦ rw e (ap (before_first c) (split_commas-append s t) ∙ sym (before_first-append c s _))
]

split_all-join_with :
    (x : Text) (xs : List Text) → split_all (x ∷ xs) ≡ split_commas (join_with comma (x ∷ xs))
unfolding split_all join_with
split_all-join_with x [] = append-nil (split_commas x)
split_all-join_with x (y ∷ xs) =
    ap (λ ps. split_commas x ++ ps) (split_all-join_with y xs)
    ∙ sym (split_commas-append x (join_with comma (y ∷ xs)))

unless_no_number_blank :
    (s : Text) → s ≡ [] → unless_no_number (parse_entries (split_all (s ∷ []))) ≡ none
unfolding split_all split_commas parse_entries trim
unless_no_number_blank s h = rw h refl

once_of :
    (s : Text) → to_number_array (once s) ≡ unless_no_number (parse_entries (split_all (s ∷ [])))
unfolding to_number_array
once_of [] = sym (unless_no_number_blank [] refl)
once_of (c ∷ s) = refl

-- A filter reads the same however it is sent: values that are repeated, of which each may list
-- several numbers, and one value that joins them all with commas.
pub to_number_array-join_with :
    (values : List Text)
    → to_number_array (repeated values) ≡ to_number_array (once (join_with comma values))
unfolding to_number_array join_with
to_number_array-join_with [] = refl
to_number_array-join_with (x ∷ xs) =
    ap (λ ps. unless_no_number (parse_entries ps))
      (split_all-join_with x xs ∙ sym (append-nil (split_commas (join_with comma (x ∷ xs)))))
    ∙ sym (once_of (join_with comma (x ∷ xs)))
