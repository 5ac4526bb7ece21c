-- ===== src/Patterns/Rounds.antt =====
-- The rounds that are allowed for the matches of a pattern are enough.
use gov_jobs_backend.Base.{
  ℕ, zero, suc, ◌≤◌, ◌<◌, ◌≡◌, refl, sym, ap, ◌∙◌, inl, inr, Bool, Option, none, some, Option-cases,
  Bool-cases, List, [], ◌∷◌, length, Text, arith,
}
use gov_jobs_backend.Patterns.{
  Atom, one, many, fewest, perhaps, edge, stop, either, begins, ends, again, Groups, Found, Place,
  Piece, group, is_edge, is_word, word_at, last_of, after_word, greedy, lazily, optionally,
  first_word, match_at, find_match, pieces,
}

none≢some {ℓ} : {A : Type ℓ} {a : A} → none ≡ some a → ⊥
none≢some h = cc

some_injective {ℓ} : {A : Type ℓ} {a b : A} → some a ≡ some b → a ≡ b
some_injective h = cc

-- What goes on with a text leaves no more of it than there was.
abbrev Shortens : (ℕ → Text → Option Found) → Type 0
Shortens k = (q : ℕ) (t : Text) (m : Found) → k q t ≡ some m → length m.rest ≤ length t

module _ (k : ℕ → Text → Option Found) (h : Shortens k) where
  greedy-Shortens : (f : ℕ → Bool) → Shortens (greedy k f)
  unfolding greedy
  greedy-Shortens f q [] m e = h q [] m e
  greedy-Shortens f q (c ∷ s) m e = elim (Bool-cases (f c)) [
    | inr miss ↦ h q (c ∷ s) m (rw (miss, greedy) at e)
    | inl hit ↦ elim (Option-cases (greedy k f c s)) [
      | inl failed ↦ h q (c ∷ s) m (rw (hit, failed, greedy) at e)
      | inr (n, found) ↦
          let shorter = greedy-Shortens f c s m (found ∙ (rw (hit, found, greedy) at e)) in
          omega arith
    ]
  ]

  lazily-Shortens : (f : ℕ → Bool) → Shortens (lazily k f)
  unfolding lazily
  lazily-Shortens f q [] m e = h q [] m e
  lazily-Shortens f q (c ∷ s) m e = elim (Option-cases (k q (c ∷ s))) [
    | inr (n, found) ↦ h q (c ∷ s) m (found ∙ (rw (found, lazily) at e))
    | inl failed ↦ elim (Bool-cases (f c)) [
      | inr miss ↦ absurd (none≢some (rw (failed, miss, lazily) at e))
      | inl hit ↦
          let shorter = lazily-Shortens f c s m (rw (failed, hit, lazily) at e) in omega arith
    ]
  ]

  optionally-Shortens : (f : ℕ → Bool) → Shortens (optionally k f)
  optionally-Shortens f q [] m e = h q [] m e
  optionally-Shortens f q (c ∷ s) m e = elim (Bool-cases (f c)) [
    | inr miss ↦ h q (c ∷ s) m (rw (miss, optionally) at e)
    | inl hit ↦ elim (Option-cases (k c s)) [
      | inl failed ↦ h q (c ∷ s) m (rw (hit, failed, optionally) at e)
      | inr (n, found) ↦
          let shorter = h c s m (found ∙ (rw (hit, found, optionally) at e)) in omega arith
    ]
  ]

same_length : {s t : Text} → s ≡ t → length t ≤ length s
same_length e = rw e (omega arith)

rest_of_match :
    (gs : Groups) (q : ℕ) (s : Text) (m : Found)
    → some (record { groups = gs; last = q; rest = s }) ≡ some m
    → length m.rest ≤ length s
rest_of_match gs q s m e = same_length (ap (λ (x : Found). x.rest) (some_injective e))

after_word_shorter :
    (same : ℕ → ℕ → Bool) (w s t : Text) → after_word same w s ≡ some t → length t ≤ length s
unfolding after_word
after_word_shorter same [] s t e = same_length (some_injective e)
after_word_shorter same (c ∷ w) [] t e = absurd (none≢some e)
after_word_shorter same (c ∷ w) (d ∷ s) t e = elim (Bool-cases (same c d)) [
  | inr miss ↦ absurd (none≢some (rw (miss, after_word) at e))
  | inl hit ↦ let shorter = after_word_shorter same w s t (rw (hit, after_word) at e) in omega arith
]

module _ (k : ℕ → Text → Option Found) (h : Shortens k) where
  first_word-Shortens : (same : ℕ → ℕ → Bool) (ws : List Text) → Shortens (first_word k same ws)
  unfolding first_word
  first_word-Shortens same [] q s m e = absurd (none≢some e)
  first_word-Shortens same (w ∷ ws) q s m e = elim (Option-cases (after_word same w s)) [
    | inl failed ↦ first_word-Shortens same ws q s m (rw (failed, first_word) at e)
    | inr (t, read) ↦ elim (Option-cases (k (last_of q w) t)) [
      | inl failed ↦ first_word-Shortens same ws q s m (rw (read, failed, first_word) at e)
      | inr (n, found) ↦
          let rest = h (last_of q w) t m (found ∙ (rw (read, found, first_word) at e)) in
          let shorter = after_word_shorter same w s t read in omega arith
    ]
  ]

match_at-Shortens : (pattern : List Atom) (gs : Groups) → Shortens (match_at pattern gs)
unfolding match_at
match_at-Shortens [] gs q s m e = rest_of_match gs q s m e
match_at-Shortens (one f ∷ more) gs q [] m e = absurd (none≢some e)
match_at-Shortens (one f ∷ more) gs q (c ∷ s) m e = elim (Bool-cases (f c)) [
  | inr miss ↦ absurd (none≢some (rw (miss, match_at) at e))
  | inl hit ↦ let shorter = match_at-Shortens more gs c s m (rw (hit, match_at) at e) in omega arith
]
match_at-Shortens (many f ∷ more) gs q s m e =
    greedy-Shortens (match_at more gs) (match_at-Shortens more gs) f q s m e
match_at-Shortens (fewest f ∷ more) gs q s m e =
    lazily-Shortens (match_at more gs) (match_at-Shortens more gs) f q s m e
match_at-Shortens (perhaps f ∷ more) gs q s m e =
    optionally-Shortens (match_at more gs) (match_at-Shortens more gs) f q s m e
match_at-Shortens (edge ∷ more) gs q s m e = elim (Bool-cases (is_edge (is_word q) (word_at s))) [
  | inr miss ↦ absurd (none≢some (rw (miss, match_at) at e))
  | inl hit ↦ match_at-Shortens more gs q s m (rw (hit, match_at) at e)
]
match_at-Shortens (stop ∷ more) gs q [] m e = match_at-Shortens more gs q [] m e
match_at-Shortens (stop ∷ more) gs q (c ∷ s) m e = absurd (none≢some e)
match_at-Shortens (either same ws ∷ more) gs q s m e =
    first_word-Shortens (match_at more gs) (match_at-Shortens more gs) same ws q s m e
match_at-Shortens (begins n ∷ more) gs q s m e = match_at-Shortens more ((n, s) ∷ gs) q s m e
match_at-Shortens (ends n ∷ more) gs q s m e = match_at-Shortens more _ q s m e
match_at-Shortens (again same n ∷ more) gs q s m e =
    first_word-Shortens (match_at more gs) (match_at-Shortens more gs) same (group n gs ∷ []) q s m
      e

shorter_of_eq : {s t : Text} (n : ℕ) → s ≡ t → length s < n → length t < n
shorter_of_eq n e h = rw (sym e) h

module _ (f : ℕ → Bool) (more : List Atom) where
  match_at_shorter :
      (gs : Groups) (q : ℕ) (s : Text) (m : Found)
      → match_at (one f ∷ more) gs q s ≡ some m
      → length m.rest < length s
  unfolding match_at
  match_at_shorter gs q [] m e = absurd (none≢some e)
  match_at_shorter gs q (c ∷ s) m e = elim (Bool-cases (f c)) [
    | inr miss ↦ absurd (none≢some (rw (miss, match_at) at e))
    | inl hit ↦
        let shorter = match_at-Shortens more gs c s m (rw (hit, match_at) at e) in omega arith
  ]

  -- A match of a pattern that starts with a unit takes at least one.
  find_match_shorter :
      (q : ℕ) (s : Text) (m : Place)
      → find_match (one f ∷ more) q s ≡ some m
      → length m.rest < length s
  unfolding find_match match_at
  find_match_shorter q [] m e = absurd (none≢some e)
  find_match_shorter q (c ∷ s) m e = elim (Option-cases (match_at (one f ∷ more) [] q (c ∷ s))) [
    | inr (n, found) ↦
        shorter_of_eq (length (c ∷ s))
          (ap (λ (x : Place). x.rest) (some_injective (rw (found, find_match) at e)))
          (match_at_shorter [] q (c ∷ s) n found)
    | inl failed ↦ elim (Option-cases (find_match (one f ∷ more) c s)) [
      | inl none_later ↦ absurd (none≢some (rw (failed, none_later, find_match) at e))
      | inr (n, found) ↦
          let shorter = find_match_shorter c s n found in
          shorter_of_eq (length (c ∷ s))
            (ap (λ (x : Place). x.rest) (some_injective (rw (failed, found, find_match) at e)))
            (omega arith)
    ]
  ]

  -- As soon as there is a round for each unit of the text and one more, their number is of no
  -- account.
  pub pieces_enough :
      (rounds rounds' q : ℕ) (s : Text)
      → length s < rounds
      → length s < rounds'
      → pieces rounds (one f ∷ more) q s ≡ pieces rounds' (one f ∷ more) q s
  unfolding pieces
  pieces_enough zero rounds' q s h h' = absurd (omega arith)
  pieces_enough (suc rounds) zero q s h h' = absurd (omega arith)
  pieces_enough (suc rounds) (suc rounds') q s h h' =
      elim (Option-cases (find_match (one f ∷ more) q s)) [
        | inl e ↦ rw (e, pieces) refl
        | inr (m, e) ↦
            let shorter = find_match_shorter q s m e in
            rw (e, pieces)
              (ap (λ (r : List Piece × Text). (m.piece ∷ r.0, r.1))
                (pieces_enough rounds rounds' m.last m.rest (omega arith) (omega arith)))
      ]
