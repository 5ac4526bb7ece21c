-- ===== src/ThaiText.antt =====
-- Canonical Thai text: src/shared/utils/thai-text.util.ts. `String.prototype.normalize("NFC")` is
-- the parameter `nfc`.
pub mod Composition
pub mod Marks
mod Tests
use gov_jobs_backend.Base.{
  ℕ, ◌+◌, Bool, true, false, ◌&&◌, ◌||◌, Option, none, some, List, [], ◌∷◌, map, ◌==◌, leb,
  if◌then◌else◌, Text,
}

abbrev pub sara_am : ℕ
sara_am = 0x0e33

abbrev pub nikhahit : ℕ
nikhahit = 0x0e4d

abbrev pub sara_aa : ℕ
sara_aa = 0x0e32

-- The tone marks and the thanthakhat, `[่-์]`.
abbrev pub is_tone_mark : ℕ → Bool
is_tone_mark c = leb 0x0e48 c && leb c 0x0e4c

-- The replacement of `NIKHAHIT([TONE_MARKS]?)SARA_AA` by the tone mark and SARA AM, from left to
-- right over the whole text.
unfoldable pub compose_sara_am : Text → Text
compose_sara_am [] = []
compose_sara_am (a ∷ []) = a ∷ []
compose_sara_am (a ∷ b ∷ []) = if a == nikhahit && b == sara_aa then sara_am ∷ [] else a ∷ b ∷ []
compose_sara_am (a ∷ b ∷ c ∷ s) =
    let plain = sara_am ∷ compose_sara_am (c ∷ s) in
    let toned = b ∷ sara_am ∷ compose_sara_am s in
    let kept = a ∷ compose_sara_am (b ∷ c ∷ s) in
    if a == nikhahit && b == sara_aa
    then plain
    else if a == nikhahit && (is_tone_mark b && c == sara_aa)
    then toned
    else kept

-- The marks that U+F700 to U+F71A stand for, in order.
abbrev pub pua_combining_marks : List ℕ
pua_combining_marks =
    0x0e4d ∷ 0x0e48 ∷ 0x0e49 ∷ 0x0e4a ∷ 0x0e4b ∷ 0x0e4c ∷ 0x0e4d ∷ 0x0e48 ∷ 0x0e49 ∷ 0x0e4a ∷ 0x0e48
    ∷ 0x0e49 ∷ 0x0e4a ∷ 0x0e4b ∷ 0x0e4c ∷ 0x0e0d ∷ 0x0e31 ∷ 0x0e34 ∷ 0x0e35 ∷ 0x0e36 ∷ 0x0e37
    ∷ 0x0e48 ∷ 0x0e49 ∷ 0x0e4a ∷ 0x0e38 ∷ 0x0e39 ∷ 0x0e3a ∷ []

abbrev pub in_pua_range : ℕ → Bool
in_pua_range c = leb 0xf700 c && leb c 0xf71a

-- The entry of the table for `c`, whose first key is `key`; `c` itself where it has none.
unfoldable pub mark_of : ℕ → List ℕ → ℕ → ℕ
mark_of key [] c = c
mark_of key (m ∷ marks) c = if c == key then m else mark_of (key + 1) marks c

unfoldable pub restore_mark : ℕ → ℕ
unfolding mark_of
restore_mark c = if in_pua_range c then mark_of 0xf700 pua_combining_marks c else c

unfoldable pub restore_pua_marks : Text → Text
unfolding restore_mark
restore_pua_marks s = map restore_mark s

abbrev pub non_empty : Text → Option Text
non_empty [] = none
non_empty (c ∷ s) = some (c ∷ s)

module _ (nfc : Text → Text) where
  unfoldable pub normalize_thai_text : Text → Text
  unfolding restore_pua_marks compose_sara_am
  normalize_thai_text value = compose_sara_am (nfc (restore_pua_marks value))

  unfoldable pub normalize_thai_text_or_null : Option Text → Option Text
  unfolding normalize_thai_text
  normalize_thai_text_or_null none = none
  normalize_thai_text_or_null (some value) = non_empty (normalize_thai_text value)
