-- ===== src/ThaiText/Composition.antt =====
-- The two spellings of SARA AM: which text the composition gives, and that it gives one for both.
use mathlib.Core.List.{map-append}
use gov_jobs_backend.Base.{
  ℕ, ◌≡◌, refl, ap, Bool, true, false, ◌&&◌, ◌||◌, [], ◌∷◌, ◌++◌, map, ◌==◌, Text, arith,
}
use gov_jobs_backend.ThaiText.{
  sara_am, nikhahit, sara_aa, is_tone_mark, compose_sara_am, normalize_thai_text, restore_pua_marks,
  restore_mark,
}

abbrev starts_aa : Text → Bool
starts_aa [] = false
starts_aa (a ∷ s) = a == sara_aa

abbrev starts_toned_aa : Text → Bool
starts_toned_aa [] = false
starts_toned_aa (a ∷ s) = is_tone_mark a && starts_aa s

-- The two-codepoint spelling stands somewhere in the text.
abbrev pub has_decomposed : Text → Bool
has_decomposed [] = false
has_decomposed (a ∷ s) = (a == nikhahit && (starts_aa s || starts_toned_aa s)) || has_decomposed s

starts_aa-compose : (s : Text) → starts_aa (compose_sara_am s) ≡ starts_aa s
unfolding compose_sara_am
starts_aa-compose [] = refl
starts_aa-compose (a ∷ []) = refl
starts_aa-compose (a ∷ b ∷ []) = ground arith
starts_aa-compose (a ∷ b ∷ c ∷ s) = ground arith

starts_toned_aa-compose : (s : Text) → starts_toned_aa (compose_sara_am s) ≡ starts_toned_aa s
unfolding compose_sara_am
starts_toned_aa-compose [] = refl
starts_toned_aa-compose (a ∷ []) = refl
starts_toned_aa-compose (a ∷ b ∷ []) = ground arith
starts_toned_aa-compose (a ∷ b ∷ c ∷ s) = ground (arith, starts_aa-compose (b ∷ c ∷ s))

has_decomposed-compose : (s : Text) → has_decomposed (compose_sara_am s) ≡ false
unfolding compose_sara_am
has_decomposed-compose [] = refl
has_decomposed-compose (a ∷ []) = ground arith
has_decomposed-compose (a ∷ b ∷ []) = ground arith
has_decomposed-compose (a ∷ b ∷ c ∷ s) = ground (
  arith,
  starts_aa-compose (b ∷ c ∷ s),
  starts_toned_aa-compose (b ∷ c ∷ s),
  starts_aa-compose s,
  has_decomposed-compose (b ∷ c ∷ s),
  has_decomposed-compose s,
  has_decomposed-compose (c ∷ s),
)

or-eq-false : (x y : Bool) → x || y ≡ false → (x ≡ false) × (y ≡ false)
or-eq-false x y h = ground arith

and-or-eq-false : (x y z : Bool) → x && (y || z) ≡ false → (x && y ≡ false) × (x && z ≡ false)
and-or-eq-false x y z h = ground arith

compose_of_clean : (s : Text) → has_decomposed s ≡ false → compose_sara_am s ≡ s
unfolding compose_sara_am
compose_of_clean [] h = refl
compose_of_clean (a ∷ []) h = refl
compose_of_clean (a ∷ b ∷ []) h = ground arith
compose_of_clean (a ∷ b ∷ c ∷ s) h =
    let (here, later) = or-eq-false _ (has_decomposed (b ∷ c ∷ s)) h in
    let (plain, toned) =
      and-or-eq-false (a == nikhahit) (starts_aa (b ∷ c ∷ s)) (starts_toned_aa (b ∷ c ∷ s)) here in
    rw (plain, toned) (ap (◌∷◌ a) (compose_of_clean (b ∷ c ∷ s) later))

-- Composing leaves no text in the two-codepoint spelling, and composing again changes nothing.
pub compose_sara_am_canonical :
    (s : Text)
    → (has_decomposed (compose_sara_am s) ≡ false)
      × (compose_sara_am (compose_sara_am s) ≡ compose_sara_am s)
compose_sara_am_canonical s =
    (has_decomposed-compose s, compose_of_clean (compose_sara_am s) (has_decomposed-compose s))

compose-plain :
    (xs ys : Text)
    → compose_sara_am (xs ++ (nikhahit ∷ sara_aa ∷ ys)) ≡ compose_sara_am (xs ++ (sara_am ∷ ys))
unfolding compose_sara_am
compose-plain [] [] = refl
compose-plain [] (y ∷ []) = refl
compose-plain [] (y ∷ z ∷ ys) = refl
compose-plain (a ∷ []) ys = ground (arith, compose-plain [] ys)
compose-plain (a ∷ b ∷ []) ys = ground (arith, compose-plain (b ∷ []) ys, compose-plain [] ys)
compose-plain (a ∷ b ∷ c ∷ xs) ys =
    ground (arith, compose-plain (b ∷ c ∷ xs) ys, compose-plain (c ∷ xs) ys, compose-plain xs ys)

compose-cons_of_ne :
    (a : ℕ) (s : Text) → (a == nikhahit) ≡ false → compose_sara_am (a ∷ s) ≡ a ∷ compose_sara_am s
unfolding compose_sara_am
compose-cons_of_ne a [] h = refl
compose-cons_of_ne a (b ∷ []) h = rw h
compose-cons_of_ne a (b ∷ c ∷ s) h = rw h

compose-toned :
    (xs : Text) (t : ℕ) (ys : Text)
    → is_tone_mark t ≡ true
    → compose_sara_am (xs ++ (nikhahit ∷ t ∷ sara_aa ∷ ys))
      ≡ compose_sara_am (xs ++ (t ∷ sara_am ∷ ys))
unfolding compose_sara_am
compose-toned [] t ys h =
    rw (compose-cons_of_ne t (sara_am ∷ ys) (ground arith))
      (rw (compose-cons_of_ne sara_am ys refl) ground arith)
compose-toned (a ∷ []) t ys h = ground (arith, compose-toned [] t ys)
compose-toned (a ∷ b ∷ []) t ys h =
    ground (arith, compose-toned (b ∷ []) t ys, compose-toned [] t ys)
compose-toned (a ∷ b ∷ c ∷ xs) t ys h =
    ground
      (arith, compose-toned (b ∷ c ∷ xs) t ys, compose-toned (c ∷ xs) t ys, compose-toned xs t ys)

-- Both spellings, at any place of a text, compose to the same text: `mark` is the tone mark
-- between the two halves, or nothing.
abbrev pub IsMark : Text → Type 0
IsMark [] = Unit
IsMark (t ∷ []) = is_tone_mark t ≡ true
IsMark (t ∷ u ∷ s) = ⊥

restore_mark_of_tone : (t : ℕ) → is_tone_mark t ≡ true → restore_mark t ≡ t
unfolding restore_mark
restore_mark_of_tone t h = ground arith

restored_spellings :
    (xs mark ys : Text)
    → IsMark mark
    → compose_sara_am (restore_pua_marks (xs ++ (nikhahit ∷ (mark ++ (sara_aa ∷ ys)))))
      ≡ compose_sara_am (restore_pua_marks (xs ++ (mark ++ (sara_am ∷ ys))))
unfolding restore_pua_marks restore_mark
restored_spellings xs [] ys h =
    rw
      (
        map-append restore_mark xs (nikhahit ∷ sara_aa ∷ ys),
        map-append restore_mark xs (sara_am ∷ ys),
      )
      (compose-plain (map restore_mark xs) (map restore_mark ys))
restored_spellings xs (t ∷ []) ys h =
    rw
      (
        map-append restore_mark xs (nikhahit ∷ t ∷ sara_aa ∷ ys),
        map-append restore_mark xs (t ∷ sara_am ∷ ys),
        restore_mark_of_tone t h,
      )
      (compose-toned (map restore_mark xs) t (map restore_mark ys) h)
restored_spellings xs (t ∷ u ∷ s) ys h = absurd h

-- `nfc` is the runtime's NFC normalisation. For two texts that differ in the spelling of one
-- SARA AM only (`mark` is the tone mark caught between its halves, or nothing), and that NFC
-- leaves as they are once the private-use marks are restored, the canonical text is the same.
pub normalize_thai_text_spellings :
    (nfc : Text → Text) (xs mark ys : Text)
    → IsMark mark
    → (let two_parts = xs ++ (nikhahit ∷ (mark ++ (sara_aa ∷ ys))) in
        nfc (restore_pua_marks two_parts) ≡ restore_pua_marks two_parts)
    → (let one_part = xs ++ (mark ++ (sara_am ∷ ys)) in
        nfc (restore_pua_marks one_part) ≡ restore_pua_marks one_part)
    → normalize_thai_text nfc (xs ++ (nikhahit ∷ (mark ++ (sara_aa ∷ ys))))
      ≡ normalize_thai_text nfc (xs ++ (mark ++ (sara_am ∷ ys)))
unfolding normalize_thai_text
normalize_thai_text_spellings nfc xs mark ys h p q = rw (p, q) (restored_spellings xs mark ys h)
