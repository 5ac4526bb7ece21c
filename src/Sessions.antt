-- ===== src/Sessions.antt =====
-- The refresh tokens of a session: `refresh`, `logout`, `changePassword` and `issueSession` of
-- src/modules/auth/auth.service.ts. SHA-256, bcrypt, the random tokens, by the number of the draw,
-- and the signing of access tokens are parameters.
pub mod Accounts
pub mod Admins
pub mod Lookup
pub mod Revoked
mod Tests
use gov_jobs_backend.Base.{
  ℕ, suc, ◌+◌, ◌-◌, Bool, true, false, ◌&&◌, ◌||◌, not, Option, none, some, List, [], ◌∷◌, ◌++◌,
  ◌==◌, leb, ltb, take, if◌then◌else◌, String, str_eq, Text,
}
use mathlib.Core.Option
use gov_jobs_backend.Models.{User, RefreshToken, RevokedReason, rotated, logout, password}
use gov_jobs_backend.Crawler.{update_where}

pub record AuthStore : Type 0 where
  pub users : List User
  pub tokens : List RefreshToken
  pub drawn : ℕ

pub record AuthSession : Type 0 where
  pub access_token : String
  pub refresh_token : String
  pub user_id : ℕ

pub data AuthAnswer : Type 0 where
  signed_in : AuthSession → AuthAnswer
  unauthorized : AuthAnswer
  bad_request : AuthAnswer
  email_taken : AuthAnswer
  threw : AuthAnswer

unfoldable pub find_token : String → List RefreshToken → Option RefreshToken
find_token hash [] = none
find_token hash (t ∷ ts) = if str_eq t.token_hash hash then some t else find_token hash ts

unfoldable pub find_user : ℕ → List User → Option User
find_user id [] = none
find_user id (u ∷ us) = if u.id == id then some u else find_user id us

abbrev pub is_live : RefreshToken → Bool
is_live t = elim t.revoked_at [ none ↦ true | some at ↦ false ]

abbrev pub is_rotated : Option RevokedReason → Bool
is_rotated none = false
is_rotated (some rotated) = true
is_rotated (some logout) = false
is_rotated (some password) = false

abbrev pub revoked : ℕ → RevokedReason → RefreshToken → RefreshToken
revoked now reason t = record t { revoked_at = some now; revoked_reason = some reason }

module _ (sha256 : String → String) (random_token : ℕ → String) (compare : String → String → Bool)
    (bcrypt : String → String) (sign : User → String) (ttl_ms rotation_grace_ms : ℕ) where
  unfoldable pub issue_session : ℕ → User → Option Text → AuthStore → AuthStore × AuthAnswer
  issue_session now user user_agent s = (
    record s {
      tokens =
          s.tokens
          ++ record {
            id = s.drawn;
            token_hash = sha256 (random_token s.drawn);
            user_id = user.id;
            expires_at = now + ttl_ms;
            revoked_at = none;
            revoked_reason = none;
            user_agent = Option.map (take 255) user_agent;
          }
            ∷ [];
      drawn = suc s.drawn;
    },
    signed_in (record {
      access_token = sign user;
      refresh_token = random_token s.drawn;
      user_id = user.id;
    }),
  )

  unfoldable pub is_within_rotation_grace : ℕ → RefreshToken → Bool
  is_within_rotation_grace now stored = elim stored.revoked_at [
    | none ↦ false
    | some at ↦ is_rotated stored.revoked_reason && leb (now - at) rotation_grace_ms
  ]

  -- The two guards of `refresh`.
  unfoldable pub is_accepted : ℕ → RefreshToken → Bool
  unfolding is_within_rotation_grace
  is_accepted now stored =
      not (leb stored.expires_at now) && (is_live stored || is_within_rotation_grace now stored)

  -- The foreign key provides the token's user; `threw` stands for its absence.
  unfoldable pub issue_for : ℕ → ℕ → Option Text → AuthStore → AuthStore × AuthAnswer
  unfolding issue_session
  issue_for now user_id user_agent s = elim (find_user user_id s.users) [
    | none ↦ (s, threw)
    | some user ↦ issue_session now user user_agent s
  ]

  unfoldable pub refresh : ℕ → String → Option Text → AuthStore → AuthStore × AuthAnswer
  unfolding issue_for
  refresh now token user_agent s = elim (find_token (sha256 token) s.tokens) [
    | none ↦ (s, unauthorized)
    | some stored ↦
        if is_accepted now stored
        then issue_for now stored.user_id user_agent (
            if is_live stored
            then record s {
              tokens = update_where (λ t. t.id == stored.id) (revoked now rotated) s.tokens;
            }
            else s)
        else (s, unauthorized)
  ]

  unfoldable pub sign_out : ℕ → String → AuthStore → AuthStore
  sign_out now token s = record s {
    tokens =
        update_where (λ t. str_eq t.token_hash (sha256 token) && is_live t) (revoked now logout)
          s.tokens;
  }

  unfoldable pub change_password :
      ℕ → ℕ → String → String → Option Text → AuthStore → AuthStore × AuthAnswer
  unfolding issue_session
  change_password now user_id current_password new_password user_agent s =
      elim (find_user user_id s.users) [
        | none ↦ (s, unauthorized)
        | some user ↦
            if not (compare current_password user.password_hash)
            then (s, unauthorized)
            else if compare new_password user.password_hash
            then (s, bad_request)
            else issue_session now user user_agent (record s {
              users =
                  update_where (λ u. u.id == user.id)
                    (λ u. record u { password_hash = bcrypt new_password }) s.users;
              tokens =
                  update_where (λ t. t.user_id == user.id && is_live t) (revoked now password)
                    s.tokens;
            })
      ]
