-- ===== src/Emails/Escaping.antt =====
-- What a mail client reads where `escapeHtml` of src/modules/email/templates/job-alert.template.ts
-- has written: the text itself, and no markup.
use mathlib.Core.List.{append_assoc}
use mathlib.Core.Path.{subst}
use gov_jobs_backend.Base.{
  ℕ, ◌≡◌, refl, sym, ap, ◌∙◌, inl, inr, zero, suc, Bool, true, false, ◌&&◌, ◌||◌, not, Bool-cases,
  [], ◌∷◌, ◌++◌, All, ◌==◌, ==_iff, if◌then◌else◌, Text, codes, starts_with,
}
use gov_jobs_backend.Matching.{replace_all}
use gov_jobs_backend.Emails.{escape_html}

-- The character references that the escaping writes, read as HTML reads them. After a reference its
-- other characters are skipped.
unfoldable pub read_references : ℕ → Text → Text
unfolding starts_with
read_references skipped [] = []
read_references (suc skipped) (c ∷ s) = read_references skipped s
read_references zero (c ∷ s) =
    if c == b'&' && starts_with (codes "amp;") s
    then b'&' ∷ read_references 4 s
    else if c == b'&' && starts_with (codes "lt;") s
    then b'<' ∷ read_references 3 s
    else if c == b'&' && starts_with (codes "gt;") s
    then b'>' ∷ read_references 3 s
    else if c == b'&' && starts_with (codes "quot;") s
    then b'"' ∷ read_references 5 s
    else c ∷ read_references 0 s

unfoldable pub unescape_html : Text → Text
unfolding read_references
unescape_html s = read_references 0 s

-- Not `<`, `>` or `"`: it starts no tag, ends no tag and ends no attribute.
abbrev pub is_plain : ℕ → Bool
is_plain c = not (c == b'<' || c == b'>' || c == b'"')

replace_all-append :
    (c : ℕ) (by_text xs ys : Text)
    → replace_all c by_text (xs ++ ys) ≡ replace_all c by_text xs ++ replace_all c by_text ys
unfolding replace_all
replace_all-append c by_text [] ys = refl
replace_all-append c by_text (x ∷ xs) ys =
    ap (λ zs. (if x == c then by_text else x ∷ []) ++ zs) (replace_all-append c by_text xs ys)
    ∙ sym (append_assoc (if x == c then by_text else x ∷ []) _ _)

escape_html-append : (xs ys : Text) → escape_html (xs ++ ys) ≡ escape_html xs ++ escape_html ys
unfolding escape_html
escape_html-append xs ys =
    let (x1, y1) : Text × Text =
      (replace_all b'&' (codes "&amp;") xs, replace_all b'&' (codes "&amp;") ys) in
    let (x2, y2) : Text × Text =
      (replace_all b'<' (codes "&lt;") x1, replace_all b'<' (codes "&lt;") y1) in
    let (x3, y3) : Text × Text =
      (replace_all b'>' (codes "&gt;") x2, replace_all b'>' (codes "&gt;") y2) in
    ap
      (λ s.
        replace_all b'"' (codes "&quot;")
          (replace_all b'>' (codes "&gt;") (replace_all b'<' (codes "&lt;") s)))
      (replace_all-append b'&' (codes "&amp;") xs ys)
    ∙ (ap (λ s. replace_all b'"' (codes "&quot;") (replace_all b'>' (codes "&gt;") s))
          (replace_all-append b'<' (codes "&lt;") x1 y1)
        ∙ (ap (replace_all b'"' (codes "&quot;")) (replace_all-append b'>' (codes "&gt;") x2 y2)
            ∙ replace_all-append b'"' (codes "&quot;") x3 y3))

-- The four characters that are replaced, and the others.
by_character :
    (P : ℕ → Type 0)
    → P b'&'
    → P b'<'
    → P b'>'
    → P b'"'
    → ((c : ℕ)
        → c == b'&' ≡ false
        → c == b'<' ≡ false
        → c == b'>' ≡ false
        → c == b'"' ≡ false
        → P c)
    → (c : ℕ) → P c
by_character P amp lt gt quot other c = elim (Bool-cases (c == b'&')) [
  | inl e ↦ subst P (sym ((==_iff c b'&').0 e)) amp
  | inr e ↦ elim (Bool-cases (c == b'<')) [
    | inl f ↦ subst P (sym ((==_iff c b'<').0 f)) lt
    | inr f ↦ elim (Bool-cases (c == b'>')) [
      | inl g ↦ subst P (sym ((==_iff c b'>').0 g)) gt
      | inr g ↦ elim (Bool-cases (c == b'"')) [
        | inl h ↦ subst P (sym ((==_iff c b'"').0 h)) quot
        | inr h ↦ other c e f g h
      ]
    ]
  ]
]

escape_html_other :
    (c : ℕ)
    → c == b'&' ≡ false
    → c == b'<' ≡ false
    → c == b'>' ≡ false
    → c == b'"' ≡ false
    → escape_html (c ∷ []) ≡ c ∷ []
unfolding escape_html
escape_html_other c e f g h = rw e (rw f (rw g (rw h refl)))

-- One character, read back before any text.
read_one :
    (s : Text) (c : ℕ) → read_references 0 (escape_html (c ∷ []) ++ s) ≡ c ∷ read_references 0 s
unfolding read_references escape_html
read_one s =
    by_character (λ c. read_references 0 (escape_html (c ∷ []) ++ s) ≡ c ∷ read_references 0 s) refl
      refl refl refl
      (λ c e f g h. ap (λ t. read_references 0 (t ++ s)) (escape_html_other c e f g h) ∙ rw e refl)

plain_one : (c : ℕ) → All (λ d. is_plain d ≡ true) (escape_html (c ∷ []))
unfolding escape_html
plain_one =
    by_character (λ c. All (λ d. is_plain d ≡ true) (escape_html (c ∷ [])))
      (refl, (refl, (refl, (refl, (refl, tt))))) (refl, (refl, (refl, (refl, tt))))
      (refl, (refl, (refl, (refl, tt)))) (refl, (refl, (refl, (refl, (refl, (refl, tt))))))
      (λ c e f g h.
        subst (All (λ d. is_plain d ≡ true)) (sym (escape_html_other c e f g h))
          (rw (f, g, h) refl, tt))

All-append : (P : ℕ → Type 0) (xs ys : Text) → All P xs → All P ys → All P (xs ++ ys)
All-append P [] ys hx hy = hy
All-append P (x ∷ xs) ys (h, hx) hy = (h, All-append P xs ys hx hy)

empty_text :
    (read_references 0 (escape_html []) ≡ []) × All (λ c. is_plain c ≡ true) (escape_html [])
unfolding escape_html read_references
empty_text = (refl, tt)

-- For every text: a mail client that reads the character references of the escaped text finds the
-- text again, and the escaped text holds none of the characters that start a tag, end a tag or end a
-- quoted attribute.
pub unescape_html-escape_html :
    (s : Text) → (unescape_html (escape_html s) ≡ s) × All (λ c. is_plain c ≡ true) (escape_html s)
unfolding unescape_html
unescape_html-escape_html [] = empty_text
unescape_html-escape_html (c ∷ s) =
    let (again, plain) = unescape_html-escape_html s in
    let split = escape_html-append (c ∷ []) s in
    (
      ap (read_references 0) split ∙ (read_one (escape_html s) c ∙ ap (◌∷◌ c) again),
      subst (All (λ d. is_plain d ≡ true)) (sym split) (
          All-append (λ d. is_plain d ≡ true) (escape_html (c ∷ [])) (escape_html s) (plain_one c)
            plain),
    )
