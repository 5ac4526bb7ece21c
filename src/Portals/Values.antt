-- ===== src/Portals/Values.antt =====
-- Reading the values of the OCSC payload: the helpers of
-- src/modules/crawler/ocsc/ocsc.normalizer.ts, and `parseBangkokTimestamp` of
-- src/shared/utils/date.util.ts. The numbers that the portal publishes are not negative; `new
-- Date(text)` is the parameter `date_of`.
use gov_jobs_backend.Base.{
  ℕ, Bool, true, false, ◌||◌, Option, none, some, List, [], ◌∷◌, ◌++◌, any, ◌==◌, leb,
  if◌then◌else◌, Text, text_eq, codes, trim, trim_start, read_digits, print_number,
}
use gov_jobs_backend.Dates.{is_digit}
use gov_jobs_backend.Documents.{leading_digits, unsigned}
use gov_jobs_backend.Notifications.{join_with}
use gov_jobs_backend.Patterns.{Atom, one, perhaps, stop, exec, find_match}

-- A value of the payload. A number is its integer part, and what follows the point.
pub data Scalar : Type 0 where
  absent : Scalar
  boolean : Bool → Scalar
  number : ℕ → Text → Scalar
  string : Text → Scalar

pub data Value : Type 0 where
  scalar : Scalar → Value
  array : List Scalar → Value
  object : Value

abbrev pub non_empty : Text → Option Text
non_empty [] = none
non_empty (c ∷ s) = some (c ∷ s)

unfoldable pub text : Value → Option Text
unfolding trim
text (scalar (string value)) = non_empty (trim value)
text (scalar absent) = none
text (scalar (boolean b)) = none
text (scalar (number n fraction)) = none
text (array values) = none
text object = none

-- `parts`, with what the loop adds for one value.
abbrev pub add_part : List Text → Option Text → List Text
add_part parts none = parts
add_part parts (some part) = if any (text_eq part) parts then parts else parts ++ part ∷ []

unfoldable pub parts_from : List Text → List Value → List Text
unfolding text text_eq
parts_from parts [] = parts
parts_from parts (value ∷ values) = parts_from (add_part parts (text value)) values

abbrev pub joined : List Text → Option Text
joined [] = none
joined (p ∷ ps) = some (join_with (10 ∷ []) (p ∷ ps))

unfoldable pub join_text : List Value → Option Text
unfolding parts_from join_with
join_text values = joined (parts_from [] values)

-- `Number.parseInt(value, 10)`: none where it is NaN.
abbrev pub parsed : Text → Option ℕ
parsed [] = none
parsed (d ∷ digits) = some (read_digits 0 (d ∷ digits))

unfoldable pub int_of : Scalar → Option ℕ
unfolding trim trim_start leading_digits read_digits
int_of absent = none
int_of (boolean b) = none
int_of (number n fraction) = some n
int_of (string value) = parsed (leading_digits (unsigned (trim_start value)))

unfoldable pub int : Value → Option ℕ
unfolding int_of
int (scalar s) = int_of s
int (array values) = none
int object = none

unfoldable pub insert_number : ℕ → List ℕ → List ℕ
insert_number n [] = n ∷ []
insert_number n (m ∷ ms) = if leb n m then n ∷ m ∷ ms else m ∷ insert_number n ms

abbrev pub with_number : Option ℕ → List ℕ → List ℕ
with_number none ns = ns
with_number (some n) ns = insert_number n ns

unfoldable pub sorted_ints : List Scalar → List ℕ
unfolding int_of insert_number
sorted_ints [] = []
sorted_ints (s ∷ values) = with_number (int_of s) (sorted_ints values)

unfoldable pub int_array : Value → List ℕ
unfolding sorted_ints
int_array (array values) = sorted_ints values
int_array (scalar s) = []
int_array object = []

-- `String(value)` of what is not null.
unfoldable pub scalar_text : Scalar → Option Text
unfolding print_number
scalar_text absent = none
scalar_text (boolean true) = some (codes "true")
scalar_text (boolean false) = some (codes "false")
scalar_text (number n []) = some (print_number n)
scalar_text (number n (c ∷ fraction)) = some (print_number n ++ (b'.' ∷ c ∷ fraction))
scalar_text (string value) = some value

-- `/(Z|[+-]\d{2}:?\d{2})$/`
abbrev pub zulu_pattern : List Atom
zulu_pattern = one (λ c. c == b'Z') ∷ stop ∷ []

abbrev pub offset_pattern : List Atom
offset_pattern =
    one (λ c. c == b'+' || c == b'-')
    ∷ one is_digit
    ∷ one is_digit
    ∷ perhaps (λ c. c == b':')
    ∷ one is_digit
    ∷ one is_digit
    ∷ stop
    ∷ []

abbrev pub is_found : List Atom → Text → Bool
is_found pattern s = elim (exec pattern s) [ none ↦ false | some p ↦ true ]

module _ (date_of : Text → Option ℕ) where
  abbrev pub zoned : Text → Option ℕ
  zoned [] = none
  zoned (c ∷ s) = date_of (
      if is_found zulu_pattern (c ∷ s) || is_found offset_pattern (c ∷ s)
      then c ∷ s
      else (c ∷ s) ++ codes "+07:00")

  unfoldable pub parse_bangkok_timestamp : Option Text → Option ℕ
  unfolding find_match trim
  parse_bangkok_timestamp none = none
  parse_bangkok_timestamp (some value) = zoned (trim value)
