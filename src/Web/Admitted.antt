-- ===== src/Web/Admitted.antt =====
-- Whom the guards let through.
use mathlib.Core.Bool.{false≢true}
use mathlib.Core.Path.{subst}
use gov_jobs_backend.Base.{
  ℕ, ◌≡◌, ◌↔◌, ◌≢◌, ◌⊎◌, inl, inr, refl, sym, ◌∙◌, Bool, true, false, Option, none, some, List, [],
  All, ◌<◌, ◌∷◌, any, length, ◌==◌, ==_iff, Bool-cases, Attempt, ok, error, Text, text_eq,
  text_eq_iff, trim, ap, arith,
}
use gov_jobs_backend.Models.{User, UserRole}
use gov_jobs_backend.Sessions.{find_user}
use gov_jobs_backend.Web.Guards.{
  Denied, unauthorized, crashed, Header, provided_key, configured, is_blank, matches,
  internal_api_key_guard, override, AuthenticatedUser, same_role, roles_of, check_role, roles_guard,
}

refused_is_not_admitted : {e : Denied} → error e ≡ ok true → ⊥
refused_is_not_admitted h = cc

text_eq-length : (a b : Text) → (length a == length b) ≡ false → text_eq a b ≡ false
unfolding text_eq
text_eq-length [] [] h = ground arith
text_eq-length [] (d ∷ b) h = refl
text_eq-length (c ∷ a) [] h = refl
text_eq-length (c ∷ a) (d ∷ b) h = ground (arith, text_eq-length a b)

admitted_not_crashed : {e : Text} → ok true ≡ error (crashed e) → ⊥
admitted_not_crashed h = cc

unauthorized_not_crashed :
    {m e : Text} → ◌≡◌ {A = Attempt Denied Bool} (error (unauthorized m)) (error (crashed e)) → ⊥
unauthorized_not_crashed h = cc

none_is_not_some : {u : User} → none ≡ some u → ⊥
none_is_not_some h = cc

some_injective : {u v : User} → some u ≡ some v → u ≡ v
some_injective h = cc

roles-cases :
    (roles : List UserRole)
    → (roles ≡ []) ⊎ ((r : UserRole) × (rs : List UserRole) × (roles ≡ r ∷ rs))
roles-cases [] = inl refl
roles-cases (r ∷ rs) = inr (r, rs, refl)

-- The documented behaviour of `timingSafeEqual`: it compares texts of one length, and throws on
-- others.
pub record ComparesSafely (equal : List ℕ → List ℕ → Attempt Text Bool) : Type 0 where
  pub same_length : (a b : List ℕ) → length a ≡ length b → equal a b ≡ ok (text_eq a b)
  pub other_length :
      (a b : List ℕ) → (length a == length b) ≡ false → (e : Text) × (equal a b ≡ error e)

module _ (utf8 : Text → List ℕ) (equal : List ℕ → List ℕ → Attempt Text Bool)
    (safe : ComparesSafely equal) where
  matches-text_eq :
      (provided expected : Text)
      → matches utf8 equal provided expected ≡ ok (text_eq (utf8 provided) (utf8 expected))
  unfolding matches
  matches-text_eq provided expected =
      let a = utf8 provided in
      let b = utf8 expected in
      elim (Bool-cases (length a == length b)) [
        | inl e ↦ rw (e, matches) (safe.same_length a b ((==_iff _ _).0 e))
        | inr e ↦ rw (e, matches) (ap ok (sym (text_eq-length a b e)))
      ]

  guard_by_bytes :
      (expected : Option Text) (header : Header)
      → ((internal_api_key_guard utf8 equal expected header ≡ ok true) ↔ (
          (is_blank (trim (configured expected)) ≡ false)
          × (utf8 (provided_key header) ≡ utf8 (configured expected))))
        × ((e : Text) → internal_api_key_guard utf8 equal expected header ≢ error (crashed e))
  unfolding internal_api_key_guard
  guard_by_bytes expected header =
      let a = utf8 (provided_key header) in
      let b = utf8 (configured expected) in
      elim (Bool-cases (is_blank (trim (configured expected)))) [
        | inl blank ↦
            rw (blank, internal_api_key_guard)
              (
                (λ h. absurd (refused_is_not_admitted h), λ (h, same). absurd (false≢true (sym h))),
                λ e h. unauthorized_not_crashed h,
              )
        | inr usable ↦
            rw
              (
                usable,
                matches-text_eq (provided_key header) (configured expected),
                internal_api_key_guard,
              )
              (elim (Bool-cases (text_eq a b)) [
                | inl t ↦
                    rw t (
                      (λ h. (refl, (text_eq_iff a b).0 t), λ h. refl),
                      λ e h. admitted_not_crashed h,
                    )
                | inr f ↦ rw f (
                  (
                    λ h. absurd (refused_is_not_admitted h),
                    λ (h, same). absurd (false≢true (sym f ∙ (text_eq_iff a b).1 same)),
                  ),
                  λ e h. unauthorized_not_crashed h,
                )
              ])
      ]

-- The documented behaviour of the UTF-8 of a text, apart from replaced surrogates: of Latin-1
-- characters, as Node reads a header, it is not that of any other text.
pub record EncodesLatin1 (utf8 : Text → List ℕ) : Type 0 where
  pub distinguishes : (a b : Text) → All (λ c. c < 256) a → utf8 a ≡ utf8 b → a ≡ b

-- For a header of Latin-1 characters, as Node reads headers: a request passes exactly where its key
-- is the configured one and that is not blank; no such request makes the comparison throw.
pub internal_api_key_guard_iff :
    (utf8 : Text → List ℕ) (equal : List ℕ → List ℕ → Attempt Text Bool)
    → ComparesSafely equal
    → EncodesLatin1 utf8
    → (expected : Option Text) (header : Header) → All (λ c. c < 256) (provided_key header)
    → ((internal_api_key_guard utf8 equal expected header ≡ ok true) ↔ (
        (is_blank (trim (configured expected)) ≡ false)
        × (provided_key header ≡ configured expected)))
      × ((e : Text) → internal_api_key_guard utf8 equal expected header ≢ error (crashed e))
internal_api_key_guard_iff utf8 equal safe encodes expected header latin1 =
    let (admits, never) = guard_by_bytes utf8 equal safe expected header in
    (
      (
        λ h.
            let (usable, same) = admits.0 h in
            (usable, encodes.distinguishes (provided_key header) (configured expected) latin1 same),
        λ (usable, same). admits.1 (usable, ap utf8 same),
      ),
      never,
    )

check_role_iff :
    (required : List UserRole) (caller : AuthenticatedUser) (found : Option User)
    → ((check_role required caller found).1 ≡ ok true)
      ↔ ((u : User) × (found ≡ some u) × (any (same_role u.role) required ≡ true))
unfolding check_role
check_role_iff required caller none =
    (λ h. absurd (refused_is_not_admitted h), λ (u, e, h). absurd (none_is_not_some e))
check_role_iff required caller (some u) = elim (Bool-cases (any (same_role u.role) required)) [
  | inl e ↦ rw (e, check_role) (λ h. (u, refl, e), λ h. refl)
  | inr e ↦
      rw (e, check_role)
        (
          λ h. absurd (refused_is_not_admitted h),
          λ (v, same, h). absurd (
              false≢true (
                sym e
                ∙ subst (λ w. any (same_role w.role) required ≡ true) (sym (some_injective same))
                    h)),
        )
]

-- A route that requires a role admits a caller exactly when the users' table, and not the token,
-- gives the caller one of the required roles.
pub roles_guard_iff :
    (handler of_class : Option (List UserRole)) (users : List User) (caller : AuthenticatedUser)
    → roles_of (override handler of_class) ≢ []
    → ((roles_guard handler of_class users (some caller)).1 ≡ ok true) ↔ (
        (u : User) × (find_user caller.id users ≡ some u)
        × (any (same_role u.role) (roles_of (override handler of_class)) ≡ true))
unfolding roles_guard
roles_guard_iff handler of_class users caller required =
    elim (roles-cases (roles_of (override handler of_class))) [
      | inl e ↦ absurd (required e)
      | inr (role, roles, e) ↦
          rw (e, roles_guard) (check_role_iff (role ∷ roles) caller (find_user caller.id users))
    ]
