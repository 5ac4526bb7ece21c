-- ===== src/Sessions/Tests.antt =====
-- A user with one live refresh token.
use gov_jobs_backend.Base.{
  ℕ, ◌-◌, ◌≡◌, ◌↔◌, refl, false, ◌&&◌, not, none, some, [], ◌∷◌, leb, ◌≤◌, String, str_eq, arith,
}
use gov_jobs_backend.Models.{User, user, admin, RefreshToken}
use gov_jobs_backend.Crawler.{update_where}
use gov_jobs_backend.Sessions.{
  AuthStore, AuthSession, signed_in, unauthorized, find_token, find_user, issue_session, issue_for,
  is_accepted, is_live, is_within_rotation_grace, refresh, change_password,
}
use gov_jobs_backend.Sessions.Accounts.{admins, delete_account}
use gov_jobs_backend.Sessions.Admins.{delete_account_keeps_admin}
use gov_jobs_backend.Sessions.Revoked.{change_password-unauthorized_iff, refresh_again_iff}

abbrev same : String → String
same x = x

abbrev drawn_token : ℕ → String
drawn_token n = "fresh"

abbrev signed : User → String
signed u = u.email

abbrev somchai : User
somchai = record {
  id = 3;
  email = "somchai@example.com";
  password_hash = "old";
  name = "Somchai";
  role = user;
  is_verified = false;
  locale = "th";
}

abbrev owner : User
owner = record somchai { id = 4; email = "root@example.com"; password_hash = "root"; role = admin }

abbrev stored : RefreshToken
stored = record {
  id = 8;
  token_hash = "abc";
  user_id = 3;
  expires_at = 90000;
  revoked_at = none;
  revoked_reason = none;
  user_agent = none;
}

abbrev store : AuthStore
store = record { users = somchai ∷ []; tokens = stored ∷ []; drawn = 9 }

abbrev fresh : AuthSession
fresh = record { access_token = "somchai@example.com"; refresh_token = "fresh"; user_id = 3 }

store-abc : find_token "abc" store.tokens ≡ some stored
unfolding find_token
store-abc = refl

exchanged :
    (refresh same drawn_token str_eq same signed 30000 15000 100 "abc" none store).1
    ≡ signed_in fresh
unfolding refresh find_token find_user issue_for issue_session is_accepted is_within_rotation_grace
    update_where
exchanged = refl

renewed :
    (change_password same drawn_token str_eq same signed 30000 15000 100 3 "old" "new" none store).1
    ≡ signed_in fresh
unfolding change_password find_user issue_session update_where
renewed = refl

change_password-unauthorized_iff_example :
    ((refresh same drawn_token str_eq same signed 30000 15000 200 "abc" none
        (change_password same drawn_token str_eq same signed 30000 15000 100 3 "old" "new" none
          store).0).1
      ≡ unauthorized)
    ↔ (is_accepted same drawn_token str_eq same signed 30000 15000 200 stored
          && not (is_live stored)
        ≡ false)
change_password-unauthorized_iff_example =
    change_password-unauthorized_iff same drawn_token str_eq same signed 30000 15000 100 200 3 "old"
      "new" "abc" none none store fresh stored renewed store-abc refl

refresh_again_iff_example :
    ((refresh same drawn_token str_eq same signed 30000 15000 200 "abc" none
        (refresh same drawn_token str_eq same signed 30000 15000 100 "abc" none store).0).1
      ≡ unauthorized)
    ↔ (not (leb 90000 200) && leb (200 - 100) 15000 ≡ false)
refresh_again_iff_example =
    refresh_again_iff same drawn_token str_eq same signed 30000 15000 100 200 "abc" none none store
      fresh stored store-abc refl exchanged

delete_account_keeps_admin_example :
    1
    ≤ admins
        (delete_account str_eq 4 "root" []
          (record store { users = owner ∷ somchai ∷ [] })).0.0.users
delete_account_keeps_admin_example =
    delete_account_keeps_admin str_eq 4 "root" [] (record store { users = owner ∷ somchai ∷ [] })
      (refl, (refl, tt)) (omega arith)
