-- ===== src/Alerts/Apart.antt =====
-- A request to src/modules/job-alerts/job-alerts.service.ts beside the alerts of other users.
use mathlib.Core.Path.{subst}
use mathlib.Core.List.{append-nil}
use gov_jobs_backend.Base.{
  ℕ, ◌≡◌, refl, sym, ap, ◌∙◌, inl, inr, true, false, not, Bool-cases, Option, none, some, List, [],
  ◌∷◌, ◌++◌, ==_iff, if◌then◌else◌, String, str_eq,
}
use gov_jobs_backend.Models.{User, JobAlert}
use gov_jobs_backend.Sessions.{find_user}
use gov_jobs_backend.Sessions.Lookup.{find_user-id}
use gov_jobs_backend.Pagination.{PaginationQuery, Selection}
use gov_jobs_backend.Alerts.{
  CreateJobAlertDto, AlertStore, AlertAnswer, listed, get_owned, belongs_to, find_one, find_all,
  create, update, remove, pause, resume, show_owned, save_owned, save_new, delete_owned, new_alert,
  alert_of, assign,
}
use gov_jobs_backend.Alerts.Requests.{
  AlertRequest, ask_one, ask_all, ask_create, ask_update, ask_remove, ask_pause, ask_resume, handle,
}
use gov_jobs_backend.Alerts.Floors.{get_owned-id}
use gov_jobs_backend.Alerts.Owners.{
  own, foreign, only_own, UniqueIds, Owned, get_owned-Owned, get_owned-own, own-update,
  foreign-update, own-delete, foreign-delete, filter-append_one,
}

-- What a step does where the alerts of others are there, and where they are not.
pub record Alone (user_id : ℕ) (s : AlertStore) (with_others without : AlertStore × AlertAnswer)
    : Type 0 where
  pub answer : with_others.1 ≡ without.1
  pub own_alerts : own user_id with_others.0.alerts ≡ without.0.alerts
  pub matches : with_others.0.matches ≡ without.0.matches
  pub foreign_alerts : foreign user_id with_others.0.alerts ≡ foreign user_id s.alerts

module _ (user_id : ℕ) (s : AlertStore) where
  -- The row that was found is written.
  save_owned-Alone :
      (o : Option JobAlert) (f : JobAlert → JobAlert)
      → ((a : JobAlert) → (f a).user_id ≡ a.user_id)
      → ((a : JobAlert) → o ≡ some a → Owned user_id a.id s.alerts)
      → Alone user_id s (save_owned o f s) (save_owned o f (only_own user_id s))
  save_owned-Alone none f keeps h = record {
    answer = refl;
    own_alerts = refl;
    matches = refl;
    foreign_alerts = refl;
  }
  save_owned-Alone (some a) f keeps h = record {
    answer = refl;
    own_alerts = own-update user_id a.id f keeps s.alerts;
    matches = refl;
    foreign_alerts = foreign-update user_id a.id f keeps s.alerts (h a refl);
  }

  delete_owned-Alone :
      (o : Option JobAlert)
      → ((a : JobAlert) → o ≡ some a → Owned user_id a.id s.alerts)
      → Alone user_id s (delete_owned o s) (delete_owned o (only_own user_id s))
  delete_owned-Alone none h = record {
    answer = refl;
    own_alerts = refl;
    matches = refl;
    foreign_alerts = refl;
  }
  delete_owned-Alone (some a) h = record {
    answer = refl;
    own_alerts = own-delete user_id a.id s.alerts;
    matches = refl;
    foreign_alerts = foreign-delete user_id a.id s.alerts (h a refl);
  }

  found-Owned :
      (id : ℕ)
      → UniqueIds s.alerts
      → (a : JobAlert) → get_owned user_id id s.alerts ≡ some a
      → Owned user_id a.id s.alerts
  found-Owned id u a e =
      subst (λ i. Owned user_id i s.alerts) (sym (get_owned-id user_id id s.alerts a e))
        (get_owned-Owned user_id id s.alerts a u e)

  show_owned-Alone :
      (o : Option JobAlert)
      → Alone user_id s (s, show_owned o s) (only_own user_id s, show_owned o (only_own user_id s))
  show_owned-Alone none = record {
    answer = refl;
    own_alerts = refl;
    matches = refl;
    foreign_alerts = refl;
  }
  show_owned-Alone (some a) = record {
    answer = refl;
    own_alerts = refl;
    matches = refl;
    foreign_alerts = refl;
  }

  -- The row of an id is looked up and written.
  saved :
      (id : ℕ)
      → UniqueIds s.alerts
      → (f : JobAlert → JobAlert) → ((a : JobAlert) → (f a).user_id ≡ a.user_id)
      → Alone user_id s
          (save_owned (get_owned user_id id s.alerts) f s)
          (save_owned (get_owned user_id id (own user_id s.alerts)) f (only_own user_id s))
  saved id u f keeps =
      subst
        (λ o.
          Alone user_id s (save_owned (get_owned user_id id s.alerts) f s)
            (save_owned o f (only_own user_id s)))
        (sym (get_owned-own user_id id s.alerts))
        (save_owned-Alone (get_owned user_id id s.alerts) f keeps (found-Owned id u))

  module _ (run : List JobAlert → Selection → List JobAlert × ℕ) (now : ℕ) (uuid : ℕ → ℕ)
      (new_unsubscribe_token : ℕ → String) where
    new_alert-user_id :
        (u : User) (dto : CreateJobAlertDto) (drawn : ℕ)
        → (new_alert now uuid new_unsubscribe_token u dto drawn).user_id ≡ u.id
    new_alert-user_id u dto drawn =
        elim (Bool-cases
          (str_eq (alert_of now uuid new_unsubscribe_token u dto drawn).unsubscribe_token "")) [
            | inl e ↦ refl
            | inr e ↦ refl
          ]

    save_new-Alone :
        (o : Option User) (dto : CreateJobAlertDto)
        → find_user user_id s.users ≡ o
        → Alone user_id s
            (save_new now uuid new_unsubscribe_token o dto s)
            (save_new now uuid new_unsubscribe_token o dto (only_own user_id s))
    save_new-Alone none dto e = record {
      answer = refl;
      own_alerts = refl;
      matches = refl;
      foreign_alerts = refl;
    }
    save_new-Alone (some u) dto e =
        let a = new_alert now uuid new_unsubscribe_token u dto s.drawn in
        let mine : belongs_to user_id a ≡ true =
          (==_iff a.user_id user_id).1
            (new_alert-user_id u dto s.drawn ∙ find_user-id user_id s.users u e) in
        record {
          answer = refl;
          own_alerts =
              filter-append_one (belongs_to user_id) s.alerts a
              ∙ ap (λ (xs : List JobAlert). own user_id s.alerts ++ xs)
                  (ap (λ b. if b then a ∷ [] else []) mine);
          matches = refl;
          foreign_alerts =
              filter-append_one (λ b. not (belongs_to user_id b)) s.alerts a
              ∙ (ap (λ b. foreign user_id s.alerts ++ (if not b then a ∷ [] else [])) mine
                  ∙ append-nil (foreign user_id s.alerts));
        }

    own_again : (rows : List JobAlert) → own user_id (own user_id rows) ≡ own user_id rows
    own_again [] = refl
    own_again (a ∷ rows) = elim (Bool-cases (belongs_to user_id a)) [
      | inl e ↦ rw (e, e) (ap (◌∷◌ a) (own_again rows))
      | inr e ↦ rw e (own_again rows)
    ]

    find_all-own :
        (query : PaginationQuery)
        → find_all run user_id query s ≡ find_all run user_id query (only_own user_id s)
    unfolding find_all
    find_all-own query = rw (own_again s.alerts) refl

    -- For alerts with different ids, and however selections are executed: a request, the list of
    -- all alerts and one that is refused included, gives the answer it gives in a store that holds
    -- no alert of another user, does to the own alerts and to the matches what it does there, and
    -- leaves the alerts of every other user as they are.
    pub handle-Alone :
        (r : AlertRequest)
        → UniqueIds s.alerts
        → Alone user_id s
            (handle run now uuid new_unsubscribe_token user_id r s)
            (handle run now uuid new_unsubscribe_token user_id r (only_own user_id s))
    unfolding handle find_one create update remove pause resume
    handle-Alone (ask_one id) u =
        subst
          (λ o.
            Alone user_id s (s, show_owned (get_owned user_id id s.alerts) s)
              (only_own user_id s, show_owned o (only_own user_id s)))
          (sym (get_owned-own user_id id s.alerts))
          (show_owned-Alone (get_owned user_id id s.alerts))
    handle-Alone (ask_all query) u = record {
      answer = ap listed (find_all-own query);
      own_alerts = refl;
      matches = refl;
      foreign_alerts = refl;
    }
    handle-Alone (ask_create dto) u = save_new-Alone (find_user user_id s.users) dto refl
    handle-Alone (ask_update id dto) u = saved id u (assign dto) (λ a. refl)
    handle-Alone (ask_remove id) u =
        subst
          (λ o.
            Alone user_id s (delete_owned (get_owned user_id id s.alerts) s)
              (delete_owned o (only_own user_id s)))
          (sym (get_owned-own user_id id s.alerts))
          (delete_owned-Alone (get_owned user_id id s.alerts) (found-Owned id u))
    handle-Alone (ask_pause id) u = saved id u (λ a. record a { is_active = false }) (λ a. refl)
    handle-Alone (ask_resume id) u =
        saved id u (λ a. record a { is_active = true; match_from = now }) (λ a. refl)
