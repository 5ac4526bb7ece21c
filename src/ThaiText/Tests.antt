-- ===== src/ThaiText/Tests.antt =====
-- Thai texts as the portals spell them, and the theorems at concrete inputs.
use gov_jobs_backend.Base.{◌≡◌, refl, [], ◌∷◌, ◌++◌, Text, codes}
use gov_jobs_backend.ThaiText.{normalize_thai_text, sara_am, sara_aa, nikhahit}
use gov_jobs_backend.ThaiText.Composition.{normalize_thai_text_spellings}

abbrev unchanged_nfc : Text → Text
unchanged_nfc s = s

two_spellings : normalize_thai_text unchanged_nfc (codes "น้ํา") ≡ codes "น้ำ"
unfolding normalize_thai_text
two_spellings = refl

mark_of_a_font :
    normalize_thai_text unchanged_nfc (codes "ตําแหน" ++ 0xf70a ∷ codes "ง") ≡ codes "ตำแหน่ง"
unfolding normalize_thai_text
mark_of_a_font = refl

normalize_thai_text_spellings_example :
    normalize_thai_text unchanged_nfc (codes "ท" ++ (nikhahit ∷ (0x0e48 ∷ sara_aa ∷ codes "น")))
    ≡ normalize_thai_text unchanged_nfc (codes "ท" ++ (0x0e48 ∷ sara_am ∷ codes "น"))
normalize_thai_text_spellings_example =
    normalize_thai_text_spellings unchanged_nfc (codes "ท") (0x0e48 ∷ []) (codes "น") refl refl refl
