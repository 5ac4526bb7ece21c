-- ===== src/Sessions/Revoked.antt =====
-- Which refresh tokens still open a session after `refresh`, `logout` and `changePassword` of
-- src/modules/auth/auth.service.ts.
use gov_jobs_backend.Base.{
  ℕ, ◌-◌, ◌≡◌, ◌↔◌, refl, sym, ap, ◌∙◌, inl, inr, Bool, true, false, ◌&&◌, not, Option, some, ◌==◌,
  ==_refl, leb, if◌then◌else◌, Bool-cases, Option-cases, String, str_eq, Text, arith,
}
use mathlib.Core.Bool.{false≢true}
use gov_jobs_backend.Models.{User, RefreshToken, RevokedReason, rotated, logout, password}
use gov_jobs_backend.Crawler.{update_where}
use gov_jobs_backend.Sessions.{
  AuthStore, AuthSession, AuthAnswer, signed_in, unauthorized, find_token, find_user, is_live,
  is_rotated, revoked, issue_session, is_within_rotation_grace, is_accepted, issue_for, refresh,
  sign_out, change_password,
}
use gov_jobs_backend.Sessions.Lookup.{
  revoked_if, find_token-update_where, find_token-append, find_user-id, find_token-hash, and_false,
  and_true,
}

module _ (sha256 : String → String) (random_token : ℕ → String) (compare : String → String → Bool)
    (bcrypt : String → String) (sign : User → String) (ttl_ms rotation_grace_ms : ℕ) where
  abbrev accepts : ℕ → RefreshToken → Bool
  accepts = is_accepted sha256 random_token compare bcrypt sign ttl_ms rotation_grace_ms

  abbrev asks : ℕ → String → Option Text → AuthStore → AuthStore × AuthAnswer
  asks = refresh sha256 random_token compare bcrypt sign ttl_ms rotation_grace_ms

  issue_for-ne-unauthorized :
      (now id : ℕ) (agent : Option Text) (s : AuthStore)
      → ¬ (
          (issue_for sha256 random_token compare bcrypt sign ttl_ms rotation_grace_ms now id agent
            s).1
          ≡ unauthorized)
  unfolding issue_for issue_session
  issue_for-ne-unauthorized now id agent s h = elim (Option-cases (find_user id s.users)) [
    | inl e ↦ ground arith
    | inr (u, e) ↦ ground arith
  ]

  refresh-accepted :
      (now : ℕ) (token : String) (agent : Option Text) (s : AuthStore) (t : RefreshToken)
      → find_token (sha256 token) s.tokens ≡ some t
      → accepts now t ≡ true
      → asks now token agent s
        ≡ issue_for sha256 random_token compare bcrypt sign ttl_ms rotation_grace_ms now t.user_id
            agent
            (if is_live t
              then record s {
                tokens = update_where (λ x. x.id == t.id) (revoked now rotated) s.tokens;
              }
              else s)
  unfolding refresh
  refresh-accepted now token agent s t h e = rw (h, refresh) (rw e)

  -- A token that is found is refused exactly when the guards refuse its row.
  refresh_unauthorized_iff :
      (now : ℕ) (token : String) (agent : Option Text) (s : AuthStore) (t : RefreshToken)
      → find_token (sha256 token) s.tokens ≡ some t
      → ((asks now token agent s).1 ≡ unauthorized) ↔ (accepts now t ≡ false)
  unfolding refresh
  refresh_unauthorized_iff now token agent s t h = elim (Bool-cases (accepts now t)) [
    | inl e ↦ (
      λ r. absurd (
          issue_for-ne-unauthorized now t.user_id agent _
            (ap (λ y. y.1) (sym (refresh-accepted now token agent s t h e)) ∙ r)),
      λ no. absurd (false≢true (sym no ∙ e)),
    )
    | inr e ↦ (λ r. e, λ no. rw (h, refresh) (rw e))
  ]

  accepts-revoked :
      (now at : ℕ) (reason : RevokedReason) (t : RefreshToken)
      → is_rotated (some reason) ≡ false
      → accepts now (revoked at reason t) ≡ false
  unfolding is_accepted is_within_rotation_grace
  accepts-revoked now at reason t h = ground arith

  -- A row revoked for good is refused, another one as before.
  accepts-revoked_if :
      (now at : ℕ) (reason : RevokedReason) (p : RefreshToken → Bool) (t : RefreshToken)
      → is_rotated (some reason) ≡ false
      → p t ≡ is_live t
      → accepts now (revoked_if p at reason t) ≡ accepts now t && not (is_live t)
  unfolding revoked_if
  accepts-revoked_if now at reason p t h e = elim (Bool-cases (is_live t)) [
    | inl live ↦ rw (e, live, accepts-revoked now at reason t h) (and_false (accepts now t))
    | inr dead ↦ rw (e, dead) (and_true (accepts now t))
  ]

  -- After a sign-out, a token that had a row under its hash is refused at a later time exactly
  -- unless the guards accept its row as it was before and that row was not live: a token that a
  -- rotation has just revoked still opens a session.
  pub sign_out-unauthorized_iff :
      (now later : ℕ) (token : String) (agent : Option Text) (s : AuthStore) (t : RefreshToken)
      → find_token (sha256 token) s.tokens ≡ some t
      → ((asks later token agent (
            sign_out sha256 random_token compare bcrypt sign ttl_ms rotation_grace_ms now token
              s)).1
          ≡ unauthorized)
        ↔ (accepts later t && not (is_live t) ≡ false)
  unfolding sign_out
  sign_out-unauthorized_iff now later token agent s t h =
      let mine = λ (x : RefreshToken). str_eq x.token_hash (sha256 token) && is_live x in
      let row = find_token-update_where (sha256 token) mine now logout s.tokens t h in
      let guards =
        accepts-revoked_if later now logout mine t refl
          (rw (find_token-hash (sha256 token) s.tokens t h)) in
      let (to, from) =
        refresh_unauthorized_iff later token agent _ (revoked_if mine now logout t) row in
      (λ r. sym guards ∙ to r, λ r. from (guards ∙ r))

  change_password-row :
      (now user_id : ℕ) (current_password new_password token : String) (agent : Option Text)
      (s : AuthStore) (x : AuthSession) (t : RefreshToken)
      → let r =
          change_password sha256 random_token compare bcrypt sign ttl_ms rotation_grace_ms now
            user_id current_password new_password agent s in
        r.1 ≡ signed_in x
        → find_token (sha256 token) s.tokens ≡ some t
        → t.user_id ≡ user_id
        → find_token (sha256 token) r.0.tokens
          ≡ some (revoked_if (λ y. (y.user_id == user_id) && is_live y) now password t)
  unfolding change_password issue_session
  change_password-row now user_id current_password new_password token agent s x t done h mine =
      elim (Option-cases (find_user user_id s.users)) [
        | inl e ↦ ground arith
        | inr (u, e) ↦ elim (Bool-cases (compare current_password u.password_hash)) [
          | inr wrong ↦ ground arith
          | inl right ↦ elim (Bool-cases (compare new_password u.password_hash)) [
            | inl old ↦ ground arith
            | inr fresh ↦
                rw (e, change_password)
                  (rw (right, fresh, find_user-id user_id s.users u e)
                    (find_token-append (sha256 token) _ _ _ (
                      find_token-update_where (sha256 token)
                        (λ y. (y.user_id == user_id) && is_live y) now password s.tokens t h)))
          ]
        ]
      ]

  -- After a completed change of the password, a token of the user that had a row before it is
  -- refused at a later time exactly unless the guards accept its row as it was and that row was not
  -- live: a token that a rotation has just revoked still opens a session.
  pub change_password-unauthorized_iff :
      (now later user_id : ℕ) (current_password new_password token : String)
      (agent agent' : Option Text) (s : AuthStore) (x : AuthSession) (t : RefreshToken)
      → let r =
          change_password sha256 random_token compare bcrypt sign ttl_ms rotation_grace_ms now
            user_id current_password new_password agent s in
        r.1 ≡ signed_in x
        → find_token (sha256 token) s.tokens ≡ some t
        → t.user_id ≡ user_id
        → ((asks later token agent' r.0).1 ≡ unauthorized)
          ↔ (accepts later t && not (is_live t) ≡ false)
  change_password-unauthorized_iff now later user_id current_password new_password token agent
        agent' s x t done h mine =
      let row =
        change_password-row now user_id current_password new_password token agent s x t done h
          mine in
      let own = λ (y : RefreshToken). (y.user_id == user_id) && is_live y in
      let guards = accepts-revoked_if later now password own t refl (rw (mine, ==_refl user_id)) in
      let (to, from) =
        refresh_unauthorized_iff later token agent' _ (revoked_if own now password t) row in
      (λ r. sym guards ∙ to r, λ r. from (guards ∙ r))

  issue_for-row :
      (now id : ℕ) (token : String) (agent : Option Text) (s : AuthStore) (x : AuthSession)
      (t : RefreshToken)
      → let r =
          issue_for sha256 random_token compare bcrypt sign ttl_ms rotation_grace_ms now id agent
            s in
        r.1 ≡ signed_in x
        → find_token (sha256 token) s.tokens ≡ some t
        → find_token (sha256 token) r.0.tokens ≡ some t
  unfolding issue_for issue_session
  issue_for-row now id token agent s x t done h = elim (Option-cases (find_user id s.users)) [
    | inl e ↦ ground arith
    | inr (u, e) ↦ rw (e, issue_for) (find_token-append (sha256 token) s.tokens _ t h)
  ]

  refresh-refused :
      (now : ℕ) (token : String) (agent : Option Text) (s : AuthStore) (t : RefreshToken)
      → find_token (sha256 token) s.tokens ≡ some t
      → accepts now t ≡ false
      → asks now token agent s ≡ (s, unauthorized)
  unfolding refresh
  refresh-refused now token agent s t h e = rw (h, refresh) (rw e)

  unauthorized-ne-signed_in : (x : AuthSession) → ¬ Path AuthAnswer unauthorized (signed_in x)
  unauthorized-ne-signed_in x h = ground arith

  refresh-row :
      (now : ℕ) (token : String) (agent : Option Text) (s : AuthStore) (x : AuthSession)
      (t : RefreshToken)
      → (asks now token agent s).1 ≡ signed_in x
      → find_token (sha256 token) s.tokens ≡ some t
      → is_live t ≡ true
      → find_token (sha256 token) (asks now token agent s).0.tokens ≡ some (revoked now rotated t)
  unfolding revoked_if
  refresh-row now token agent s x t done h live = elim (Bool-cases (accepts now t)) [
    | inl e ↦
        let after = record s {
          tokens = update_where (λ y. y.id == t.id) (revoked now rotated) s.tokens;
        } in
        let same =
          refresh-accepted now token agent s t h e
          ∙ ap
              (λ (b : Bool).
                issue_for sha256 random_token compare bcrypt sign ttl_ms rotation_grace_ms now
                  t.user_id agent (if b then after else s))
              live in
        let row : find_token (sha256 token) after.tokens ≡ some (revoked now rotated t) =
          find_token-update_where (sha256 token) (λ y. y.id == t.id) now rotated s.tokens t h
          ∙ rw (==_refl t.id) in
        rw same (
          issue_for-row now t.user_id token agent after x (revoked now rotated t)
            (ap (λ y. y.1) (sym same) ∙ done) row)
    | inr e ↦ absurd (
        unauthorized-ne-signed_in x
          (ap (λ y. y.1) (sym (refresh-refused now token agent s t h e)) ∙ done))
  ]

  accepts-rotated :
      (now later : ℕ) (t : RefreshToken)
      → accepts later (revoked now rotated t)
        ≡ not (leb t.expires_at later) && leb (later - now) rotation_grace_ms
  unfolding is_accepted is_within_rotation_grace
  accepts-rotated now later t = ground arith

  -- A live token that a refresh has exchanged for a session is refused at a later time exactly when
  -- it has expired or the grace of the rotation is over.
  pub refresh_again_iff :
      (now later : ℕ) (token : String) (agent agent' : Option Text) (s : AuthStore)
      (x : AuthSession) (t : RefreshToken)
      → find_token (sha256 token) s.tokens ≡ some t
      → is_live t ≡ true
      → (asks now token agent s).1 ≡ signed_in x
      → ((asks later token agent' (asks now token agent s).0).1 ≡ unauthorized)
        ↔ (not (leb t.expires_at later) && leb (later - now) rotation_grace_ms ≡ false)
  refresh_again_iff now later token agent agent' s x t h live done =
      let row = refresh-row now token agent s x t done h live in
      let (to, from) =
        refresh_unauthorized_iff later token agent' (asks now token agent s).0
          (revoked now rotated t) row in
      let guards = accepts-rotated now later t in (λ r. sym guards ∙ to r, λ r. from (guards ∙ r))
