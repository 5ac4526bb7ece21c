-- ===== src/Sessions/Lookup.antt =====
-- The row that src/modules/auth/auth.service.ts finds for a token once rows are revoked or added.
use gov_jobs_backend.Base.{
  ℕ, ◌≡◌, inl, inr, Bool, true, false, ◌&&◌, some, List, [], ◌∷◌, ◌++◌, ◌==◌, if◌then◌else◌,
  Bool-cases, String, str_eq, arith,
}
use gov_jobs_backend.Models.{User, RefreshToken, RevokedReason}
use gov_jobs_backend.Crawler.{update_where}
use gov_jobs_backend.Sessions.{find_token, find_user, revoked}

unfoldable pub revoked_if : (RefreshToken → Bool) → ℕ → RevokedReason → RefreshToken → RefreshToken
revoked_if p now reason t = if p t then revoked now reason t else t

pub find_token-update_where :
    (hash : String) (p : RefreshToken → Bool) (now : ℕ) (reason : RevokedReason)
    (ts : List RefreshToken) (t : RefreshToken)
    → find_token hash ts ≡ some t
    → find_token hash (update_where p (revoked now reason) ts) ≡ some (revoked_if p now reason t)
unfolding find_token update_where revoked_if
find_token-update_where hash p now reason [] t h = ground arith
find_token-update_where hash p now reason (x ∷ ts) t h =
    elim (Bool-cases (str_eq x.token_hash hash)) [
      | inl hit ↦ elim (Bool-cases (p x)) [ inl e ↦ ground arith | inr e ↦ ground arith ]
      | inr miss ↦
          let later = find_token-update_where hash p now reason ts t (ground arith) in
          elim (Bool-cases (p x)) [ inl e ↦ rw (e, miss) later | inr e ↦ rw (e, miss) later ]
    ]

pub find_token-append :
    (hash : String) (ts us : List RefreshToken) (t : RefreshToken)
    → find_token hash ts ≡ some t
    → find_token hash (ts ++ us) ≡ some t
unfolding find_token
find_token-append hash [] us t h = ground arith
find_token-append hash (x ∷ ts) us t h = elim (Bool-cases (str_eq x.token_hash hash)) [
  | inl hit ↦ ground arith
  | inr miss ↦ rw miss (find_token-append hash ts us t (ground arith))
]

pub find_user-id : (id : ℕ) (us : List User) (u : User) → find_user id us ≡ some u → u.id ≡ id
unfolding find_user
find_user-id id [] u h = ground arith
find_user-id id (x ∷ us) u h = elim (Bool-cases (x.id == id)) [
  | inl hit ↦ ground arith
  | inr miss ↦ find_user-id id us u (ground arith)
]

pub find_token-hash :
    (hash : String) (ts : List RefreshToken) (t : RefreshToken)
    → find_token hash ts ≡ some t
    → str_eq t.token_hash hash ≡ true
unfolding find_token
find_token-hash hash [] t h = ground arith
find_token-hash hash (x ∷ ts) t h = elim (Bool-cases (str_eq x.token_hash hash)) [
  | inl hit ↦ ground arith
  | inr miss ↦ find_token-hash hash ts t (ground arith)
]

pub and_false : (b : Bool) → false ≡ b && false
and_false b = ground arith

pub and_true : (b : Bool) → b ≡ b && true
and_true b = ground arith
