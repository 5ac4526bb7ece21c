-- ===== src/Sessions/Admins.antt =====
-- The administrators that `deleteAccount` of src/modules/auth/auth.service.ts leaves.
use gov_jobs_backend.Base.{
  ℕ, ◌+◌, ◌≤◌, ◌≡◌, refl, ap, inl, inr, Bool, true, false, ◌&&◌, not, some, List, [], ◌∷◌, any,
  filter, ◌==◌, ==_iff, leb, if◌then◌else◌, Bool-cases, Option-cases, String, arith,
}
use mathlib.Core.Path.{subst}
use gov_jobs_backend.Models.{User}
use gov_jobs_backend.Crawler.Stored.{or-eq-false}
use gov_jobs_backend.Sessions.{AuthStore, find_user}
use gov_jobs_backend.Sessions.Lookup.{find_user-id}
use gov_jobs_backend.Sessions.Accounts.{EmailLog, is_admin, admins, delete_account}

-- The primary key of the users.
abbrev pub HasUniqueIds : List User → Type 0
HasUniqueIds [] = Unit
HasUniqueIds (u ∷ us) = (any (λ x. x.id == u.id) us ≡ false) × HasUniqueIds us

unfoldable pub removed : ℕ → List User → List User
removed id = filter (λ x. not (x.id == id))

removed-missing : (id : ℕ) (us : List User) → any (λ x. x.id == id) us ≡ false → removed id us ≡ us
unfolding removed
removed-missing id [] h = refl
removed-missing id (u ∷ us) h =
    let (here, later) = or-eq-false (u.id == id) _ h in
    rw here (ap (◌∷◌ u) (removed-missing id us later))

-- Removing a row found takes exactly that row.
admins-removed :
    (id : ℕ) (us : List User) (u : User)
    → HasUniqueIds us
    → find_user id us ≡ some u
    → admins (removed id us) + (if is_admin u then 1 else 0) ≡ admins us
unfolding removed find_user
admins-removed id [] u unique h = ground arith
admins-removed id (x ∷ us) u (new, unique) h = elim (Bool-cases (x.id == id)) [
  | inl hit ↦
      let same : x ≡ u = ground arith in
      let free : any (λ (y : User). y.id == id) us ≡ false =
        subst (λ (i : ℕ). any (λ (y : User). y.id == i) us ≡ false) ((==_iff x.id id).0 hit) new in
      rw (hit, removed-missing id us free, ← same)
        (elim (Bool-cases (is_admin x)) [ inl a ↦ rw a (omega arith) | inr a ↦ rw a (omega arith) ])
  | inr miss ↦
      let later = admins-removed id us u unique (ground arith) in
      elim (Bool-cases (is_admin x)) [
        | inl a ↦ rw (miss, a) (omega arith)
        | inr a ↦ rw (miss, a) later
      ]
]

one_is_left :
    (a b : ℕ) (x : Bool) → a + (if x then 1 else 0) ≡ b → 1 ≤ b → x && leb b 1 ≡ false → 1 ≤ a
one_is_left a b true h some_admin more = ground arith
one_is_left a b false h some_admin more = omega arith

-- Where some account is an administrator, some account is one after any call of `deleteAccount`.
pub delete_account_keeps_admin :
    (compare : String → String → Bool) (user_id : ℕ) (password : String) (logs : List EmailLog)
    (s : AuthStore)
    → HasUniqueIds s.users
    → 1 ≤ admins s.users
    → 1 ≤ admins (delete_account compare user_id password logs s).0.0.users
unfolding delete_account removed
delete_account_keeps_admin compare user_id password logs s unique some_admin =
    elim (Option-cases (find_user user_id s.users)) [
      | inl e ↦ rw (e, delete_account) some_admin
      | inr (u, e) ↦ elim (Bool-cases (compare password u.password_hash)) [
        | inr wrong ↦ rw (e, delete_account) (rw wrong some_admin)
        | inl right ↦ elim (Bool-cases (is_admin u && leb (admins s.users) 1)) [
          | inl last ↦ rw (e, delete_account) (rw (right, last) some_admin)
          | inr more ↦
              let left = admins-removed user_id s.users u unique e in
              rw (e, delete_account)
                (rw (right, more, find_user-id user_id s.users u e)
                  (one_is_left (admins (removed user_id s.users)) (admins s.users) (is_admin u) left
                    some_admin more))
        ]
      ]
    ]
