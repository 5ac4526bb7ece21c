-- ===== src/Alerts/Floors.antt =====
-- The floor of an alert and its recipient, through the requests of
-- src/modules/job-alerts/job-alerts.service.ts and the matcher.
use mathlib.Core.Path.{subst}
use gov_jobs_backend.Base.{
  ℕ, ◌≤◌, ◌≡◌, refl, sym, ap, ◌∙◌, inl, inr, Bool, true, ◌&&◌, Bool-cases, some, List, [], ◌∷◌,
  filter, All, ◌==◌, ==_iff, leb, leb_iff, String, str_eq, Text, arith,
}
use gov_jobs_backend.Models.{User, Job, JobAttachment, JobAlert}
use gov_jobs_backend.Crawler.{update_where}
use gov_jobs_backend.Sessions.{find_user}
use gov_jobs_backend.Sessions.Lookup.{find_user-id}
use gov_jobs_backend.Matching.{alert_matches, build_haystack, find_matching_alerts}
use gov_jobs_backend.Matching.Records.{and-eq-true}
use gov_jobs_backend.Pagination.{Selection}
use gov_jobs_backend.Alerts.{
  AlertStore, get_owned, belongs_to, resume, save_owned, alert_of, ensure_unsubscribe_token,
}
use gov_jobs_backend.Alerts.Requests.{AlertRequest, handle, All-handle}

-- A request of a user at an instant.
pub record Asked : Type 0 where
  pub at : ℕ
  pub user_id : ℕ
  pub request : AlertRequest

module _ (run : List JobAlert → Selection → List JobAlert × ℕ) (uuid : ℕ → ℕ)
    (new_unsubscribe_token : ℕ → String) where
  unfoldable pub serve : List Asked → AlertStore → AlertStore
  unfolding handle
  serve [] s = s
  serve (r ∷ rs) s = serve rs (handle run r.at uuid new_unsubscribe_token r.user_id r.request s).0

  -- The row goes to the address of its owner.
  abbrev pub GoesToOwner : List User → JobAlert → Type 0
  GoesToOwner users a =
      (u : User) × (find_user a.user_id users ≡ some u) × (a.notification_email ≡ u.email)

  ensure_unsubscribe_token-GoesToOwner :
      (users : List User) (token : String) (a : JobAlert)
      → GoesToOwner users a
      → GoesToOwner users (ensure_unsubscribe_token token a)
  ensure_unsubscribe_token-GoesToOwner users token a h =
      elim (Bool-cases (str_eq a.unsubscribe_token "")) [ inl e ↦ rw e h | inr e ↦ rw e h ]

  -- Whatever any user requests, with any content: where every alert is mailed to the address of the
  -- account that owns it, every alert is afterwards.
  pub handle-GoesToOwner :
      (r : Asked) (s : AlertStore)
      → All (GoesToOwner s.users) s.alerts
      → All
          (GoesToOwner s.users)
          (handle run r.at uuid new_unsubscribe_token r.user_id r.request s).0.alerts
  handle-GoesToOwner r s h =
      All-handle run r.at uuid new_unsubscribe_token (GoesToOwner s.users) r.user_id r.request s
        (record {
          edited = λ dto a k. k;
          paused = λ a k. k;
          resumed = λ a k. k;
          made = λ user_id u dto drawn found.
              ensure_unsubscribe_token-GoesToOwner s.users (new_unsubscribe_token drawn)
                (alert_of r.at uuid new_unsubscribe_token u dto drawn)
                (
                  u,
                  ap (λ id. find_user id s.users) (find_user-id user_id s.users u found) ∙ found,
                  refl,
                );
        })
        h

  -- The row, if it is the alert's, is not below the floor.
  abbrev pub Above : ℕ → ℕ → JobAlert → Type 0
  Above floor id a = a.id ≡ id → floor ≤ a.match_from

  ensure_unsubscribe_token-match_from :
      (token : String) (a : JobAlert) → (ensure_unsubscribe_token token a).match_from ≡ a.match_from
  ensure_unsubscribe_token-match_from token a = elim (Bool-cases (str_eq a.unsubscribe_token "")) [
    | inl e ↦ rw e
    | inr e ↦ rw e
  ]

  serve-Above :
      (floor id : ℕ) (later : List Asked) (s : AlertStore)
      → All (λ r. floor ≤ r.at) later
      → All (Above floor id) s.alerts
      → All (Above floor id) (serve later s).alerts
  unfolding serve
  serve-Above floor id [] s times h = h
  serve-Above floor id (r ∷ rs) s (time, times) h =
      serve-Above floor id rs (handle run r.at uuid new_unsubscribe_token r.user_id r.request s).0
        times
        (All-handle run r.at uuid new_unsubscribe_token (Above floor id) r.user_id r.request s
          (record {
            edited = λ dto a k. k;
            paused = λ a k. k;
            resumed = λ a k same. time;
            made = λ user_id u dto drawn found same.
                subst (λ n. floor ≤ n)
                  (sym (
                    ensure_unsubscribe_token-match_from (new_unsubscribe_token drawn)
                      (alert_of r.at uuid new_unsubscribe_token u dto drawn)))
                  time;
          })
          h)

  raised-Above :
      (floor id : ℕ) (rows : List JobAlert)
      → All (Above floor id) (
          update_where
            (λ b. b.id == id)
            (λ a. record a { is_active = true; match_from = floor })
            rows)
  unfolding update_where
  raised-Above floor id [] = tt
  raised-Above floor id (a ∷ rows) = (
    elim (Bool-cases (a.id == id)) [
      | inl e ↦ rw e (λ same. omega arith)
      | inr e ↦ rw e (λ same. ground arith)
    ],
    raised-Above floor id rows,
  )

pub get_owned-id :
    (user_id id : ℕ) (alerts : List JobAlert) (a : JobAlert)
    → get_owned user_id id alerts ≡ some a
    → a.id ≡ id
unfolding get_owned
get_owned-id user_id id [] a e = ground arith
get_owned-id user_id id (x ∷ alerts) a e = elim (Bool-cases (x.id == id && belongs_to user_id x)) [
  | inl hit ↦
      let same : x ≡ a = ground arith in
      subst (λ (y : JobAlert). y.id ≡ id) same
        ((==_iff x.id id).0 (and-eq-true (x.id == id) _ hit).0)
  | inr miss ↦ get_owned-id user_id id alerts a (ground arith)
]

pub All-filter_to :
    (P Q : JobAlert → Type 0) (p : JobAlert → Bool) (rows : List JobAlert)
    → ((a : JobAlert) → P a → p a ≡ true → Q a)
    → All P rows
    → All Q (filter p rows)
All-filter_to P Q p [] f h = tt
All-filter_to P Q p (a ∷ rows) f (here, later) = elim (Bool-cases (p a)) [
  | inl e ↦ rw e (f a here e, All-filter_to P Q p rows f later)
  | inr e ↦ rw e (All-filter_to P Q p rows f later)
]

alert_matches_from :
    (ilike : Text → Text → Bool) (job : Job) (haystack : Text) (a : JobAlert)
    → alert_matches ilike job haystack a ≡ true
    → a.match_from ≤ job.first_seen_at
unfolding alert_matches
alert_matches_from ilike job haystack a h =
    let (on, rest) = and-eq-true a.is_active _ h in
    (leb_iff a.match_from job.first_seen_at).0
      (and-eq-true (leb a.match_from job.first_seen_at) _ rest).0

-- Once a user has resumed an own alert, whatever is requested later by anyone, edits included: the
-- matcher finds that alert only for announcements that were first seen from the resumption on.
pub resume_never_replays :
    (run : List JobAlert → Selection → List JobAlert × ℕ) (uuid : ℕ → ℕ)
    (new_unsubscribe_token : ℕ → String) (ilike : Text → Text → Bool) (now user_id id : ℕ)
    (s : AlertStore) (a : JobAlert)
    → get_owned user_id id s.alerts ≡ some a
    → (later : List Asked) → All (λ r. now ≤ r.at) later
    → (job : Job) (attachments : List JobAttachment) (include_documents : Bool)
    → All
        (λ b. b.id ≡ id → now ≤ job.first_seen_at)
        (find_matching_alerts ilike
          (serve run uuid new_unsubscribe_token later (resume now user_id id s).0).alerts
          job
          attachments
          include_documents)
unfolding find_matching_alerts resume
resume_never_replays run uuid new_unsubscribe_token ilike now user_id id s a found later times job
      attachments include_documents =
    All-filter_to (Above run uuid new_unsubscribe_token now id) _ _ _
      (λ b above matches same.
        let reached =
          alert_matches_from ilike job (build_haystack job attachments include_documents) b
            matches in
        let above' = above same in omega (arith, reached, above'))
      (serve-Above run uuid new_unsubscribe_token now id later _ times (
        subst
          (λ o.
            All (Above run uuid new_unsubscribe_token now id)
              (save_owned o (λ b. record b { is_active = true; match_from = now }) s).0.alerts)
          (sym found)
          (subst
            (λ i. All (Above run uuid new_unsubscribe_token now id) (
              update_where (λ b. b.id == i) (λ b. record b { is_active = true; match_from = now })
                s.alerts))
            (sym (get_owned-id user_id id s.alerts a found))
            (raised-Above run uuid new_unsubscribe_token now id s.alerts))))
