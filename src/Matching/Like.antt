-- ===== src/Matching/Like.antt =====
-- The escaping of a keyword, against what PostgreSQL documents of ILIKE.
use mathlib.Core.List.{append_assoc}
use gov_jobs_backend.Base.{
  ℕ, ◌≡◌, ◌≢◌, refl, ◌∙◌, Bool, true, false, ◌&&◌, ◌||◌, [], ◌∷◌, ◌++◌, ◌==◌, map, if◌then◌else◌,
  Text, starts_with, includes, arith, Bool-cases, inl, inr, ==_iff,
}
use gov_jobs_backend.Matching.{escape_like, keyword_hits}

-- The documentation of LIKE, one law for each form of a pattern: `%` matches any sequence, `_` any
-- one character, a backslash takes the next character literally, and ILIKE compares other
-- characters by their case folding.
pub record IsLike (fold : ℕ → ℕ) (ilike : Text → Text → Bool) : Type 0 where
  pub end_end : ilike [] [] ≡ true
  pub end_more : (c : ℕ) (h : Text) → ilike (c ∷ h) [] ≡ false
  pub percent_end : (p : Text) → ilike [] (b'%' ∷ p) ≡ ilike [] p
  pub percent_more :
      (c : ℕ) (h p : Text) → ilike (c ∷ h) (b'%' ∷ p) ≡ ilike (c ∷ h) p || ilike h (b'%' ∷ p)
  pub underscore_end : (p : Text) → ilike [] (b'_' ∷ p) ≡ false
  pub underscore_more : (c : ℕ) (h p : Text) → ilike (c ∷ h) (b'_' ∷ p) ≡ ilike h p
  pub escape_end : (d : ℕ) (p : Text) → ilike [] (b'\\' ∷ d ∷ p) ≡ false
  pub escape_more :
      (c : ℕ) (h : Text) (d : ℕ) (p : Text)
      → ilike (c ∷ h) (b'\\' ∷ d ∷ p) ≡ fold d == fold c && ilike h p
  pub literal_end : (d : ℕ) (p : Text) → d ≢ b'%' → d ≢ b'_' → d ≢ b'\\' → ilike [] (d ∷ p) ≡ false
  pub literal_more :
      (c : ℕ) (h : Text) (d : ℕ) (p : Text)
      → d ≢ b'%'
      → d ≢ b'_'
      → d ≢ b'\\'
      → ilike (c ∷ h) (d ∷ p) ≡ fold d == fold c && ilike h p

-- Character by character, the three replacements put one backslash before each special one.
abbrev is_special : ℕ → Bool
is_special d = d == b'\\' || (d == b'%' || d == b'_')

not_special : (d : ℕ) → is_special d ≡ false → (d ≢ b'\\') × (d ≢ b'%') × (d ≢ b'_')
not_special d h = ground arith

abbrev escape_char : ℕ → Text
escape_char d = if is_special d then b'\\' ∷ d ∷ [] else d ∷ []

escape_like-nil : escape_like [] ≡ []
unfolding escape_like
escape_like-nil = refl

escape_like-cons : (d : ℕ) (s : Text) → escape_like (d ∷ s) ≡ escape_char d ++ escape_like s
unfolding escape_like
escape_like-cons d s = elim (Bool-cases (d == b'\\')) [
  | inl e ↦ rw ((==_iff _ _).0 e)
  | inr not_backslash ↦ elim (Bool-cases (d == b'%')) [
    | inl e ↦ rw ((==_iff _ _).0 e)
    | inr not_percent ↦ elim (Bool-cases (d == b'_')) [
      | inl e ↦ rw ((==_iff _ _).0 e)
      | inr not_underscore ↦ rw (not_backslash, not_percent, not_underscore)
    ]
  ]
]

-- The keyword begins the text, up to case.
abbrev begins : (ℕ → ℕ) → Text → Text → Bool
begins fold p s = starts_with (map fold p) (map fold s)

module _ (fold : ℕ → ℕ) (ilike : Text → Text → Bool) (law : IsLike fold ilike) where
  any_rest : (h : Text) → ilike h (b'%' ∷ []) ≡ true
  any_rest [] = law.percent_end [] ∙ law.end_end
  any_rest (c ∷ h) = rw (law.percent_more c h [], law.end_more c h) (any_rest h)

  -- One escaped character against an end of the text, and against a character.
  escaped_end : (d : ℕ) (p : Text) → ilike [] (escape_char d ++ p) ≡ false
  escaped_end d p = elim (Bool-cases (is_special d)) [
    | inl e ↦ rw e (law.escape_end d p)
    | inr e ↦
        let (not_backslash, not_percent, not_underscore) = not_special d e in
        rw e (law.literal_end d p not_percent not_underscore not_backslash)
  ]

  escaped_more :
      (c : ℕ) (h : Text) (d : ℕ) (p : Text)
      → ilike (c ∷ h) (escape_char d ++ p) ≡ fold d == fold c && ilike h p
  escaped_more c h d p = elim (Bool-cases (is_special d)) [
    | inl e ↦ rw e (law.escape_more c h d p)
    | inr e ↦
        let (not_backslash, not_percent, not_underscore) = not_special d e in
        rw e (law.literal_more c h d p not_percent not_underscore not_backslash)
  ]

  ilike-begins :
      (keyword h : Text) → ilike h (escape_like keyword ++ (b'%' ∷ [])) ≡ begins fold keyword h
  unfolding starts_with
  ilike-begins [] h = rw escape_like-nil (any_rest h)
  ilike-begins (d ∷ keyword) [] =
      rw (escape_like-cons, append_assoc) (escaped_end d (escape_like keyword ++ (b'%' ∷ [])))
  ilike-begins (d ∷ keyword) (c ∷ h) =
      rw (escape_like-cons, append_assoc, escaped_more, ilike-begins keyword h)

  -- The pattern of a keyword matches a haystack exactly when the keyword stands in it as it was
  -- typed, up to case, `%`, `_` and backslashes included.
  pub keyword_hits_lem :
      (haystack keyword : Text)
      → keyword_hits ilike haystack keyword ≡ includes (map fold keyword) (map fold haystack)
  unfolding keyword_hits includes
  keyword_hits_lem [] keyword = rw (law.percent_end) (ilike-begins keyword [])
  keyword_hits_lem (c ∷ h) keyword =
      rw (law.percent_more, ilike-begins keyword (c ∷ h), keyword_hits_lem h keyword)
