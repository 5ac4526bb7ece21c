-- ===== src/Matching/Records.antt =====
-- The rows that matching adds: one for a pair, for ever, and the ids of the new ones.
use mathlib.Core.List.{append_assoc, append-nil, map-append}
use gov_jobs_backend.Base.{
  ℕ, ◌≡◌, refl, sym, ap, ◌∙◌, inl, inr, Bool, true, false, ◌&&◌, ◌||◌, none, List, [], ◌∷◌, ◌++◌,
  map, any, all, All, ◌==◌, Bool-cases, arith,
}
use gov_jobs_backend.Models.{JobAlert, JobAlertMatch}
use gov_jobs_backend.Matching.{MatchStore, has_match, insert_or_ignore, insert_matches}

-- The unique constraint of the table.
abbrev pub UniquePairs : List JobAlertMatch → Type 0
UniquePairs [] = Unit
UniquePairs (m ∷ ms) = (has_match m.job_alert_id m.job_id ms ≡ false) × UniquePairs ms

abbrev is_pair : ℕ → ℕ → JobAlertMatch → Bool
is_pair a j m = m.job_alert_id == a && m.job_id == j

has_match-append :
    (a j : ℕ) (xs ys : List JobAlertMatch)
    → has_match a j (xs ++ ys) ≡ has_match a j xs || has_match a j ys
unfolding has_match
has_match-append a j [] ys = refl
has_match-append a j (x ∷ xs) ys = ground (arith, has_match-append a j xs ys)

has_match-one :
    (m : JobAlertMatch) (x y : ℕ) → has_match x y (m ∷ []) ≡ m.job_alert_id == x && m.job_id == y
unfolding has_match
has_match-one m x y = ground arith

UniquePairs-append_one :
    (xs : List JobAlertMatch) (m : JobAlertMatch)
    → UniquePairs xs
    → has_match m.job_alert_id m.job_id xs ≡ false
    → UniquePairs (xs ++ m ∷ [])
unfolding has_match
UniquePairs-append_one [] m u h = (refl, tt)
UniquePairs-append_one (x ∷ xs) m (fresh, u) h = (
  ground (arith, has_match-append x.job_alert_id x.job_id xs (m ∷ [])),
  UniquePairs-append_one xs m u (ground arith),
)

pub and-eq-true : (x y : Bool) → x && y ≡ true → (x ≡ true) × (y ≡ true)
and-eq-true x y h = ground arith

-- The old rows stay as they are; the new ones are unsent and carry the ids that are returned.
pub record Added (s : MatchStore) (r : MatchStore × List ℕ) : Type 0 where
  pub rows : List JobAlertMatch
  pub kept : r.0.matches ≡ s.matches ++ rows
  pub ids : map (λ m. m.id) rows ≡ r.1
  pub unsent : All (λ m. m.notified_at ≡ none) rows

pub Added-nothing : (s : MatchStore) → Added s (s, [])
Added-nothing s = record { rows = []; kept = sym (append-nil _); ids = refl; unsent = tt }

All-append :
    (xs ys : List JobAlertMatch)
    → All (λ m. m.notified_at ≡ none) xs
    → All (λ m. m.notified_at ≡ none) ys
    → All (λ m. m.notified_at ≡ none) (xs ++ ys)
All-append [] ys hx hy = hy
All-append (x ∷ xs) ys (h, hx) hy = (h, All-append xs ys hx hy)

pub Added-trans :
    {s : MatchStore} {r t : MatchStore × List ℕ}
    → Added s r
    → Added r.0 t
    → Added s (t.0, r.1 ++ t.1)
Added-trans {s} a b = record {
  rows = a.rows ++ b.rows;
  kept = b.kept ∙ rw a.kept (append_assoc s.matches a.rows b.rows);
  ids = map-append (λ (m : JobAlertMatch). m.id) a.rows b.rows ∙ rw (a.ids, b.ids);
  unsent = All-append a.rows b.rows a.unsent b.unsent;
}

module _ (now : ℕ) (uuid : ℕ → ℕ) where
  -- What one insertion leaves: the old rows, then the new one if the pair was free.
  insert_or_ignore-UniquePairs :
      (a j : ℕ) (s : MatchStore)
      → UniquePairs s.matches
      → UniquePairs (insert_or_ignore now uuid a j s).0.matches
  unfolding insert_or_ignore
  insert_or_ignore-UniquePairs a j s u = elim (Bool-cases (has_match a j s.matches)) [
    | inl old ↦ rw old u
    | inr new ↦ rw new (UniquePairs-append_one s.matches _ u new)
  ]

  has_match-insert_or_ignore :
      (a j x y : ℕ) (s : MatchStore)
      → has_match x y (insert_or_ignore now uuid a j s).0.matches
        ≡ has_match x y s.matches || (a == x && j == y)
  unfolding insert_or_ignore
  has_match-insert_or_ignore a j x y s = elim (Bool-cases (has_match a j s.matches)) [
    | inl old ↦ rw old (ground arith)
    | inr new ↦ rw new (
        has_match-append x y s.matches _
        ∙ ap (◌||◌ (has_match x y s.matches)) (has_match-one _ x y))
  ]

  pub insert_matches-UniquePairs :
      (alerts : List JobAlert) (j : ℕ) (s : MatchStore)
      → UniquePairs s.matches
      → UniquePairs (insert_matches now uuid alerts j s).0.matches
  unfolding insert_matches
  insert_matches-UniquePairs [] j s u = u
  insert_matches-UniquePairs (a ∷ alerts) j s u =
      insert_matches-UniquePairs alerts j _ (insert_or_ignore-UniquePairs a.id j s u)

  pub has_match-insert_matches :
      (alerts : List JobAlert) (j x y : ℕ) (s : MatchStore)
      → has_match x y (insert_matches now uuid alerts j s).0.matches
        ≡ has_match x y s.matches || (any (λ a. a.id == x) alerts && j == y)
  unfolding insert_matches
  has_match-insert_matches [] j x y s = ground arith
  has_match-insert_matches (a ∷ alerts) j x y s =
      has_match-insert_matches alerts j x y (insert_or_ignore now uuid a.id j s).0
      ∙ ground (arith, has_match-insert_or_ignore a.id j x y s)

  insert_or_ignore-Added : (a j : ℕ) (s : MatchStore) → Added s (insert_or_ignore now uuid a j s)
  unfolding insert_or_ignore
  insert_or_ignore-Added a j s = elim (Bool-cases (has_match a j s.matches)) [
    | inl old ↦ rw old (Added-nothing s)
    | inr new ↦ rw new (record { rows = _; kept = refl; ids = refl; unsent = (refl, tt) })
  ]

  pub insert_matches-Added :
      (alerts : List JobAlert) (j : ℕ) (s : MatchStore)
      → Added s (insert_matches now uuid alerts j s)
  unfolding insert_matches
  insert_matches-Added [] j s = Added-nothing s
  insert_matches-Added (a ∷ alerts) j s =
      Added-trans (insert_or_ignore-Added a.id j s) (insert_matches-Added alerts j _)

  -- Where every pair has its row, nothing is inserted.
  pub insert_matches_again :
      (alerts : List JobAlert) (j : ℕ) (s : MatchStore)
      → all (λ a. has_match a.id j s.matches) alerts ≡ true
      → insert_matches now uuid alerts j s ≡ (s, [])
  unfolding insert_matches insert_or_ignore
  insert_matches_again [] j s h = refl
  insert_matches_again (a ∷ alerts) j s h =
      let (old, rest) = and-eq-true (has_match a.id j s.matches) _ h in
      rw old (rw (insert_matches_again alerts j s rest))
