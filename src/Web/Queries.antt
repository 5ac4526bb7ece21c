-- ===== src/Web/Queries.antt =====
-- Query parameters as Express gives them: src/shared/dto/transform.util.ts.
use gov_jobs_backend.Base.{
  ℕ, zero, suc, ℤ, pos, negsuc, Bool, false, ◌||◌, Option, none, some, List, [], ◌∷◌, ◌++◌, any,
  ◌==◌, if◌then◌else◌, Text, text_eq, codes, trim, read_digits,
}
use gov_jobs_backend.Documents.{leading_digits}

-- A parameter: absent, once, or repeated.
pub data QueryValue : Type 0 where
  absent : QueryValue
  once : Text → QueryValue
  repeated : List Text → QueryValue

-- Puts a unit before the first of the parts.
abbrev pub before_first : ℕ → List Text → List Text
before_first c [] = (c ∷ []) ∷ []
before_first c (part ∷ parts) = (c ∷ part) ∷ parts

-- `split(",")`
unfoldable pub split_commas : Text → List Text
split_commas [] = [] ∷ []
split_commas (c ∷ s) =
    let parts = split_commas s in if c == b',' then [] ∷ parts else before_first c parts

abbrev pub non_negative : Text → Option ℤ
non_negative [] = none
non_negative (d ∷ digits) = some (pos (read_digits 0 (d ∷ digits)))

abbrev pub negated : ℕ → ℤ
negated zero = pos zero
negated (suc n) = negsuc n

abbrev pub negative : Text → Option ℤ
negative [] = none
negative (d ∷ digits) = some (negated (read_digits 0 (d ∷ digits)))

-- `Number.parseInt(entry, 10)` of a trimmed entry; none where it is NaN.
unfoldable pub parse_int : Text → Option ℤ
unfolding leading_digits read_digits
parse_int [] = none
parse_int (c ∷ s) =
    if c == b'-'
    then negative (leading_digits s)
    else if c == b'+'
    then non_negative (leading_digits s)
    else non_negative (leading_digits (c ∷ s))

abbrev pub same_int : ℤ → ℤ → Bool
same_int (pos m) (pos n) = m == n
same_int (pos m) (negsuc n) = false
same_int (negsuc m) (pos n) = false
same_int (negsuc m) (negsuc n) = m == n

abbrev pub parsed_before : Option ℤ → List ℤ → List ℤ
parsed_before none ns = ns
parsed_before (some n) ns = n ∷ ns

unfoldable pub parse_entries : List Text → List ℤ
unfolding parse_int trim
parse_entries [] = []
parse_entries (e ∷ es) = parsed_before (parse_int (trim e)) (parse_entries es)

-- `flatMap((entry) => String(entry).split(","))`
unfoldable pub split_all : List Text → List Text
unfolding split_commas
split_all [] = []
split_all (e ∷ es) = split_commas e ++ split_all es

-- `[...new Set(parsed)]`: in the order of the first sightings.
unfoldable pub distinct_from : List ℤ → List ℤ → List ℤ
distinct_from seen [] = []
distinct_from seen (n ∷ ns) =
    let fresh = n ∷ distinct_from (n ∷ seen) ns in
    let rest = distinct_from seen ns in if any (same_int n) seen then rest else fresh

abbrev pub unless_no_number : List ℤ → Option (List ℤ)
unless_no_number [] = none
unless_no_number (n ∷ ns) = some (distinct_from [] (n ∷ ns))

unfoldable pub to_number_array : QueryValue → Option (List ℤ)
unfolding parse_entries split_all distinct_from
to_number_array absent = none
to_number_array (once []) = none
to_number_array (once (c ∷ s)) = unless_no_number (parse_entries (split_all ((c ∷ s) ∷ [])))
to_number_array (repeated values) = unless_no_number (parse_entries (split_all values))

unfoldable pub to_boolean : QueryValue → Option Bool
unfolding text_eq
to_boolean absent = none
to_boolean (once []) = none
to_boolean (once (c ∷ s)) = some (text_eq (c ∷ s) (codes "true") || text_eq (c ∷ s) (codes "1"))
to_boolean (repeated values) = some false

abbrev pub non_empty_text : Text → Option Text
non_empty_text [] = none
non_empty_text (c ∷ s) = some (c ∷ s)

unfoldable pub to_trimmed_string : QueryValue → Option Text
unfolding trim
to_trimmed_string absent = none
to_trimmed_string (once value) = non_empty_text (trim value)
to_trimmed_string (repeated values) = none
