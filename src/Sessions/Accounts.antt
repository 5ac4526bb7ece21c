-- ===== src/Sessions/Accounts.antt =====
-- Accounts: `register`, `login`, `me`, `updateProfile`, `deleteAccount` and `pruneExpiredTokens` of
-- src/modules/auth/auth.service.ts, src/modules/auth/dto/auth.dto.ts and the email log of
-- src/models/email/entities/email-log.entity.ts, which `deleteAccount` clears.
use gov_jobs_backend.Base.{
  ℕ, suc, Bool, true, false, ◌&&◌, not, Option, none, some, List, [], ◌∷◌, ◌++◌, any, filter,
  length, ◌==◌, leb, ltb, if◌then◌else◌, String, str_eq, Text,
}
use gov_jobs_backend.Models.{User, UserRole, user, admin}
use gov_jobs_backend.Crawler.{update_where}
use gov_jobs_backend.Sessions.{
  AuthStore, AuthAnswer, unauthorized, email_taken, find_user, issue_session,
}

pub data EmailLogStatus : Type 0 where
  queued sent failed : EmailLogStatus

pub record EmailLog : Type 0 where
  pub id : ℕ
  pub to_email : String
  pub subject : Text
  pub template : String
  pub status : EmailLogStatus
  pub provider : String
  pub provider_message_id : Option String
  pub job_alert_id : Option ℕ
  pub user_id : Option ℕ
  pub sent_at : Option ℕ
  pub error_message : Option Text

pub record RegisterDto : Type 0 where
  pub email : String
  pub password : String
  pub name : String
  pub locale : Option String

pub record UpdateProfileDto : Type 0 where
  pub name : Option String
  pub locale : Option String

pub record AuthUserResponse : Type 0 where
  pub id : ℕ
  pub email : String
  pub name : String
  pub role : UserRole
  pub is_verified : Bool
  pub locale : String

pub data Deletion : Type 0 where
  deleted refused last_admin : Deletion

abbrev pub or_else : Option String → String → String
or_else none d = d
or_else (some x) d = x

abbrev pub is_admin : User → Bool
is_admin u = elim u.role [ user ↦ false | admin ↦ true ]

abbrev pub admins : List User → ℕ
admins us = length (filter is_admin us)

unfoldable pub find_email : String → List User → Option User
find_email email [] = none
find_email email (u ∷ us) = if str_eq u.email email then some u else find_email email us

unfoldable pub to_user_response : User → AuthUserResponse
to_user_response u = record {
  id = u.id;
  email = u.email;
  name = u.name;
  role = u.role;
  is_verified = u.is_verified;
  locale = u.locale;
}

unfoldable pub me : ℕ → AuthStore → Option AuthUserResponse
unfolding to_user_response
me user_id s = elim (find_user user_id s.users) [ none ↦ none | some u ↦ some (to_user_response u) ]

-- Only the keys that were sent; the answer shows the changed row.
unfoldable pub update_profile :
    ℕ → UpdateProfileDto → AuthStore → AuthStore × Option AuthUserResponse
unfolding to_user_response
update_profile user_id dto s = elim (find_user user_id s.users) [
  | none ↦ (s, none)
  | some u ↦
      let change = λ (x : User). record x {
        name = or_else dto.name x.name;
        locale = or_else dto.locale x.locale;
      } in
      (
        record s { users = update_where (λ x. x.id == u.id) change s.users },
        some (to_user_response (change u)),
      )
]

-- The account's sessions go with it by the cascade.
unfoldable pub delete_account :
    (String → String → Bool)
    → ℕ
    → String
    → List EmailLog
    → AuthStore
    → (AuthStore × List EmailLog) × Deletion
delete_account compare user_id password logs s = elim (find_user user_id s.users) [
  | none ↦ ((s, logs), refused)
  | some u ↦
      if not (compare password u.password_hash)
      then ((s, logs), refused)
      else if is_admin u && leb (admins s.users) 1
      then ((s, logs), last_admin)
      else (
        (
          record s {
            users = filter (λ x. not (x.id == u.id)) s.users;
            tokens = filter (λ t. not (t.user_id == u.id)) s.tokens;
          },
          filter (λ l. elim l.user_id [ none ↦ true | some i ↦ not (i == u.id) ]) logs,
        ),
        deleted,
      )
]

unfoldable pub prune_expired_tokens : ℕ → AuthStore → AuthStore × ℕ
prune_expired_tokens now s = (
  record s { tokens = filter (λ t. not (ltb t.expires_at now)) s.tokens },
  length (filter (λ t. ltb t.expires_at now) s.tokens),
)

module _ (sha256 : String → String) (random_token : ℕ → String) (compare : String → String → Bool)
    (bcrypt : String → String) (sign : User → String) (ttl_ms rotation_grace_ms : ℕ) where
  -- `uq_user_email` refuses a second account of one address.
  unfoldable pub register : ℕ → RegisterDto → Option Text → AuthStore → AuthStore × AuthAnswer
  register now dto user_agent s =
      let u : User = record {
        id = s.drawn;
        email = dto.email;
        password_hash = bcrypt dto.password;
        name = dto.name;
        role = user;
        is_verified = false;
        locale = or_else dto.locale "th";
      } in
      if any (λ x. str_eq x.email dto.email) s.users
      then (s, email_taken)
      else issue_session sha256 random_token compare bcrypt sign ttl_ms rotation_grace_ms now u
          user_agent (record s { users = s.users ++ u ∷ []; drawn = suc s.drawn })

  unfoldable pub login : ℕ → String → String → Option Text → AuthStore → AuthStore × AuthAnswer
  login now email password user_agent s = elim (find_email email s.users) [
    | none ↦ (s, unauthorized)
    | some u ↦
        if compare password u.password_hash
        then issue_session sha256 random_token compare bcrypt sign ttl_ms rotation_grace_ms now u
            user_agent s
        else (s, unauthorized)
  ]
