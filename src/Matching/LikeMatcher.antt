-- ===== src/Matching/LikeMatcher.antt =====
-- A matcher for LIKE patterns that meets the laws of `IsLike`, for the tests.
use gov_jobs_backend.Base.{
  ℕ, ◌+◌, ◌≡◌, ◌≢◌, refl, Bool, true, false, ◌&&◌, ◌||◌, [], ◌∷◌, ◌==◌, ==_iff, if◌then◌else◌, leb,
  Text, Bool-cases, inl, inr,
}
use gov_jobs_backend.Matching.Like.{IsLike}

ne_test : {a b : ℕ} → a ≢ b → (a == b) ≡ false
ne_test {a} {b} h = elim (Bool-cases (a == b)) [ inl e ↦ absurd (h ((==_iff a b).0 e)) | inr e ↦ e ]

-- ASCII letters in lower case.
abbrev pub fold : ℕ → ℕ
fold c = if leb b'A' c && leb c b'Z' then c + 32 else c

at_end : Text → Bool
at_end [] = true
at_end (c ∷ h) = false

one_char : ℕ → (Text → Bool) → Text → Bool
one_char d rest [] = false
one_char d rest (c ∷ h) = fold d == fold c && rest h

any_char : (Text → Bool) → Text → Bool
any_char rest [] = false
any_char rest (c ∷ h) = rest h

any_chars : (Text → Bool) → Text → Bool
any_chars rest [] = rest []
any_chars rest (c ∷ h) = rest (c ∷ h) || any_chars rest h

like : Text → Text → Bool
unfolding at_end one_char any_char any_chars
like [] = at_end
like (d ∷ []) =
    if d == b'%' then any_chars at_end else if d == b'_' then any_char at_end else one_char d at_end
like (d ∷ e ∷ p) =
    if d == b'%'
    then any_chars (like (e ∷ p))
    else if d == b'_'
    then any_char (like (e ∷ p))
    else if d == b'\\'
    then one_char e (like p)
    else one_char d (like (e ∷ p))

unfoldable pub ilike : Text → Text → Bool
unfolding like
ilike h p = like p h

percent_more :
    (c : ℕ) (h p : Text) → ilike (c ∷ h) (b'%' ∷ p) ≡ ilike (c ∷ h) p || ilike h (b'%' ∷ p)
unfolding ilike
percent_more c h [] = refl
percent_more c h (e ∷ p) = refl

percent_end : (p : Text) → ilike [] (b'%' ∷ p) ≡ ilike [] p
unfolding ilike
percent_end [] = refl
percent_end (e ∷ p) = refl

underscore_end : (p : Text) → ilike [] (b'_' ∷ p) ≡ false
unfolding ilike
underscore_end [] = refl
underscore_end (e ∷ p) = refl

underscore_more : (c : ℕ) (h p : Text) → ilike (c ∷ h) (b'_' ∷ p) ≡ ilike h p
unfolding ilike
underscore_more c h [] = refl
underscore_more c h (e ∷ p) = refl

literal_end : (d : ℕ) (p : Text) → d ≢ b'%' → d ≢ b'_' → d ≢ b'\\' → ilike [] (d ∷ p) ≡ false
unfolding ilike
literal_end d [] percent underscore backslash = rw (ne_test percent, ne_test underscore)
literal_end d (e ∷ p) percent underscore backslash =
    rw (ne_test percent, ne_test underscore, ne_test backslash)

literal_more :
    (c : ℕ) (h : Text) (d : ℕ) (p : Text)
    → d ≢ b'%'
    → d ≢ b'_'
    → d ≢ b'\\'
    → ilike (c ∷ h) (d ∷ p) ≡ fold d == fold c && ilike h p
unfolding ilike
literal_more c h d [] percent underscore backslash = rw (ne_test percent, ne_test underscore)
literal_more c h d (e ∷ p) percent underscore backslash =
    rw (ne_test percent, ne_test underscore, ne_test backslash)

pub ilike-IsLike : IsLike fold ilike
unfolding ilike
ilike-IsLike = record {
  end_end = refl;
  end_more = λ c h. refl;
  percent_end = percent_end;
  percent_more = percent_more;
  underscore_end = underscore_end;
  underscore_more = underscore_more;
  escape_end = λ d p. refl;
  escape_more = λ c h d p. refl;
  literal_end = literal_end;
  literal_more = literal_more;
}
