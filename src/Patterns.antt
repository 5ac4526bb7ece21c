-- ===== src/Patterns.antt =====
-- Regular expressions as the parsers of the portals use them, with the order in which JavaScript
-- tries the ways to match. The expressions of the program repeat single classes of units only.
pub mod Rounds
mod Tests
use gov_jobs_backend.Base.{
  ℕ, zero, suc, ◌+◌, ◌-◌, Bool, true, false, not, ◌&&◌, ◌||◌, Option, none, some, List, [], ◌∷◌,
  ◌++◌, map, length, take, drop, ◌==◌, leb, if◌then◌else◌, String, Text, codes, is_space,
}

pub data Atom : Type 0 where
  -- one unit of a class; any number of them, the most or the fewest first; one or none
  one : (ℕ → Bool) → Atom
  many : (ℕ → Bool) → Atom
  fewest : (ℕ → Bool) → Atom
  perhaps : (ℕ → Bool) → Atom
  -- `\b` and `$`
  edge : Atom
  stop : Atom
  -- the first of several words, with or without regard to case
  either : (ℕ → ℕ → Bool) → List Text → Atom
  -- the ends of a group, and its text again
  begins : ℕ → Atom
  ends : ℕ → Atom
  again : (ℕ → ℕ → Bool) → ℕ → Atom

-- What the groups matched; for one that is open, the text from its start.
abbrev pub Groups : Type 0
Groups = List (ℕ × Text)

-- A match: its groups, the unit before what follows it, and what follows it.
pub record Found : Type 0 where
  pub groups : Groups
  pub last : ℕ
  pub rest : Text

-- The unit as `/i` compares it.
abbrev pub fold_case : ℕ → ℕ
fold_case c = if leb b'A' c && leb c b'Z' then c + 32 else c

abbrev pub exactly : ℕ → ℕ → Bool
exactly c d = c == d

abbrev pub same_unit : ℕ → ℕ → Bool
same_unit c d = fold_case c == fold_case d

unfoldable pub literal : Text → List Atom
literal [] = []
literal (c ∷ s) = one (λ d. c == d) ∷ literal s

unfoldable pub literal_i : Text → List Atom
literal_i [] = []
literal_i (c ∷ s) = one (same_unit c) ∷ literal_i s

abbrev pub is_word : ℕ → Bool
is_word c =
    (leb b'0' c && leb c b'9')
    || (leb b'A' c && leb c b'Z')
    || (leb b'a' c && leb c b'z')
    || c == b'_'

abbrev pub word_at : Text → Bool
word_at [] = false
word_at (c ∷ s) = is_word c

abbrev pub is_edge : Bool → Bool → Bool
is_edge true b = not b
is_edge false b = b

unfoldable pub group : ℕ → Groups → Text
group n [] = []
group n ((m, t) ∷ gs) = if m == n then t else group n gs

-- What follows a word at the start of the text.
unfoldable pub after_word : (ℕ → ℕ → Bool) → Text → Text → Option Text
after_word same [] s = some s
after_word same (c ∷ w) [] = none
after_word same (c ∷ w) (d ∷ s) = if same c d then after_word same w s else none

abbrev pub last_of : ℕ → Text → ℕ
last_of p [] = p
last_of p (c ∷ s) = last_of c s

module _ (continue : ℕ → Text → Option Found) where
  unfoldable pub greedy : (ℕ → Bool) → ℕ → Text → Option Found
  greedy f p [] = continue p []
  greedy f p (c ∷ s) = elim (f c) [
    | false ↦ continue p (c ∷ s)
    | true ↦ elim (greedy f c s) [ some m ↦ some m | none ↦ continue p (c ∷ s) ]
  ]

  unfoldable pub lazily : (ℕ → Bool) → ℕ → Text → Option Found
  lazily f p [] = continue p []
  lazily f p (c ∷ s) = elim (continue p (c ∷ s)) [
    | some m ↦ some m
    | none ↦ elim (f c) [ true ↦ lazily f c s | false ↦ none ]
  ]

  abbrev pub optionally : (ℕ → Bool) → ℕ → Text → Option Found
  optionally f p [] = continue p []
  optionally f p (c ∷ s) = elim (f c) [
    | false ↦ continue p (c ∷ s)
    | true ↦ elim (continue c s) [ some m ↦ some m | none ↦ continue p (c ∷ s) ]
  ]

  unfoldable pub first_word : (ℕ → ℕ → Bool) → List Text → ℕ → Text → Option Found
  unfolding after_word
  first_word same [] p s = none
  first_word same (w ∷ ws) p s = elim (after_word same w s) [
    | none ↦ first_word same ws p s
    | some t ↦ elim (continue (last_of p w) t) [ some m ↦ some m | none ↦ first_word same ws p s ]
  ]

-- The match at this place, `p` being the unit before it, 0 at the start.
unfoldable pub match_at : List Atom → Groups → ℕ → Text → Option Found
unfolding greedy lazily first_word after_word group
match_at [] gs p s = some (record { groups = gs; last = p; rest = s })
match_at (one f ∷ more) gs p [] = none
match_at (one f ∷ more) gs p (c ∷ s) = elim (f c) [ true ↦ match_at more gs c s | false ↦ none ]
match_at (many f ∷ more) gs p s = greedy (λ q t. match_at more gs q t) f p s
match_at (fewest f ∷ more) gs p s = lazily (λ q t. match_at more gs q t) f p s
match_at (perhaps f ∷ more) gs p s = optionally (λ q t. match_at more gs q t) f p s
match_at (edge ∷ more) gs p s = elim (is_edge (is_word p) (word_at s)) [
  | true ↦ match_at more gs p s
  | false ↦ none
]
match_at (stop ∷ more) gs p [] = match_at more gs p []
match_at (stop ∷ more) gs p (c ∷ s) = none
match_at (either same ws ∷ more) gs p s = first_word (λ q t. match_at more gs q t) same ws p s
match_at (begins n ∷ more) gs p s = match_at more ((n, s) ∷ gs) p s
match_at (ends n ∷ more) gs p s =
    match_at more ((n, take (length (group n gs) - length s) (group n gs)) ∷ gs) p s
match_at (again same n ∷ more) gs p s =
    first_word (λ q t. match_at more gs q t) same (group n gs ∷ []) p s

-- One match of several: the text since the one before, its own text, its groups.
pub record Piece : Type 0 where
  pub skipped : Text
  pub matched : Text
  pub groups : Groups

-- A match somewhere in the text.
pub record Place : Type 0 where
  pub piece : Piece
  pub last : ℕ
  pub rest : Text

abbrev pub place : Text → Found → Place
place s m = record {
  piece = record { skipped = []; matched = take (length s - length m.rest) s; groups = m.groups };
  last = m.last;
  rest = m.rest;
}

abbrev pub further : ℕ → Place → Place
further c m = record m { piece = record (m.piece) { skipped = c ∷ m.piece.skipped } }

-- `exec`: the first place from the left.
unfoldable pub find_match : List Atom → ℕ → Text → Option Place
unfolding match_at
find_match pattern p [] = elim (match_at pattern [] p []) [
  | none ↦ none
  | some m ↦ some (place [] m)
]
find_match pattern p (c ∷ s) = elim (match_at pattern [] p (c ∷ s)) [
  | some m ↦ some (place (c ∷ s) m)
  | none ↦ elim (find_match pattern c s) [ none ↦ none | some m ↦ some (further c m) ]
]

abbrev pub exec : List Atom → Text → Option Piece
exec pattern s = elim (find_match pattern 0 s) [ none ↦ none | some m ↦ some m.piece ]

-- All matches, none of them empty, and what follows the last: fewer rounds than units.
unfoldable pub pieces : ℕ → List Atom → ℕ → Text → List Piece × Text
unfolding find_match
pieces zero pattern p s = ([], s)
pieces (suc fuel) pattern p s = elim (find_match pattern p s) [
  | none ↦ ([], s)
  | some m ↦ let (later, tail) = pieces fuel pattern m.last m.rest in (m.piece ∷ later, tail)
]

unfoldable pub match_all : List Atom → Text → List Piece × Text
unfolding pieces
match_all pattern s = pieces (suc (length s)) pattern 0 s

abbrev pub join_pieces : (Piece → Text) → List Piece → Text → Text
join_pieces f [] tail = tail
join_pieces f (p ∷ ps) tail = p.skipped ++ (f p ++ join_pieces f ps tail)

-- `s.replace(pattern, f)` with the flag g.
unfoldable pub replace_matches : List Atom → (Piece → Text) → Text → Text
unfolding match_all
replace_matches pattern f s = let (found, tail) = match_all pattern s in join_pieces f found tail
