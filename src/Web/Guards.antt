-- ===== src/Web/Guards.antt =====
-- The three guards of src/shared/guards. UTF-8 and `timingSafeEqual` are parameters, and so is the
-- answer of passport to a request with a token.
use gov_jobs_backend.Base.{
  ℕ, Bool, true, false, Option, none, some, List, [], ◌∷◌, any, length, ◌==◌, if◌then◌else◌,
  Attempt, ok, error, Text, codes, trim,
}
use gov_jobs_backend.Models.{User, UserRole, user, admin}
use gov_jobs_backend.Sessions.{find_user}

-- The exceptions of the guards, with their messages; `crashed` is any other one.
pub data Denied : Type 0 where
  unauthorized : Text → Denied
  forbidden : Text → Denied
  crashed : Text → Denied

-- A header of the request: Node gives a list where it was sent several times.
pub data Header : Type 0 where
  missing : Header
  one : Text → Header
  several : List Text → Header

-- `Array.isArray(header) ? header[0] : (header ?? "")`
abbrev pub provided_key : Header → Text
provided_key missing = []
provided_key (one h) = h
provided_key (several []) = []
provided_key (several (h ∷ hs)) = h

abbrev pub configured : Option Text → Text
configured none = []
configured (some key) = key

abbrev pub is_blank : Text → Bool
is_blank [] = true
is_blank (c ∷ s) = false

module _ (utf8 : Text → List ℕ) (timing_safe_equal : List ℕ → List ℕ → Attempt Text Bool) where
  unfoldable pub matches : Text → Text → Attempt Text Bool
  matches provided expected =
      if length (utf8 provided) == length (utf8 expected)
      then timing_safe_equal (utf8 provided) (utf8 expected)
      else ok false

  abbrev pub unless_matched : Attempt Text Bool → Attempt Denied Bool
  unless_matched (ok true) = ok true
  unless_matched (ok false) = error (unauthorized (codes "Invalid internal API key"))
  unless_matched (error e) = error (crashed e)

  -- `canActivate` of `InternalApiKeyGuard`.
  unfoldable pub internal_api_key_guard : Option Text → Header → Attempt Denied Bool
  unfolding matches trim
  internal_api_key_guard expected header =
      if is_blank (trim (configured expected))
      then error (unauthorized (codes "Internal API key is not configured"))
      else unless_matched (matches (provided_key header) (configured expected))

-- `getAllAndOverride`: the metadata of the handler, or else that of the class.
abbrev pub override {ℓ} : {A : Type ℓ} → Option A → Option A → Option A
override none of_class = of_class
override (some m) of_class = some m

abbrev pub is_public : Option Bool → Bool
is_public none = false
is_public (some b) = b

-- `canActivate` of `JwtAuthGuard`; `passport` is what the strategy comes to.
unfoldable pub jwt_auth_guard :
    Option Bool → Option Bool → Attempt Denied Bool → Attempt Denied Bool
jwt_auth_guard handler of_class passport =
    if is_public (override handler of_class) then ok true else passport

-- The user that the token names, with the role it was minted with.
pub record AuthenticatedUser : Type 0 where
  pub id : ℕ
  pub role : UserRole

abbrev pub same_role : UserRole → UserRole → Bool
same_role user user = true
same_role admin admin = true
same_role _ _ = false

abbrev pub insufficient : Denied
insufficient = forbidden (codes "Insufficient permissions")

abbrev pub roles_of : Option (List UserRole) → List UserRole
roles_of none = []
roles_of (some roles) = roles

-- The request's user, and the decision.
abbrev pub Decision : Type 0
Decision = Option AuthenticatedUser × Attempt Denied Bool

unfoldable pub check_role : List UserRole → AuthenticatedUser → Option User → Decision
check_role required caller none = (some caller, error insufficient)
check_role required caller (some current) =
    if any (same_role current.role) required
    then (some (record caller { role = current.role }), ok true)
    else (some caller, error insufficient)

-- `canActivate` of `RolesGuard`, with the users' table.
unfoldable pub roles_guard :
    Option (List UserRole)
    → Option (List UserRole)
    → List User
    → Option AuthenticatedUser
    → Decision
unfolding check_role find_user
roles_guard handler of_class users caller = elim (roles_of (override handler of_class)) [
  | [] ↦ (caller, ok true)
  | role ∷ roles ↦ elim caller [
    | none ↦ (none, error insufficient)
    | some u ↦ check_role (role ∷ roles) u (find_user u.id users)
  ]
]
