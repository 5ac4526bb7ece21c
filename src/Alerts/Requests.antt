-- ===== src/Alerts/Requests.antt =====
-- The requests to src/modules/job-alerts/job-alerts.service.ts, and what they keep.
use gov_jobs_backend.Base.{
  ℕ, ◌≡◌, refl, inl, inr, Bool, true, false, Bool-cases, Option, none, some, List, [], ◌∷◌, ◌++◌,
  filter, All, String,
}
use gov_jobs_backend.Models.{User, JobAlert}
use gov_jobs_backend.Crawler.{update_where}
use gov_jobs_backend.Sessions.{find_user}
use gov_jobs_backend.Pagination.{PaginationQuery, Selection}
use gov_jobs_backend.Alerts.{
  CreateJobAlertDto, UpdateJobAlertDto, AlertStore, AlertAnswer, listed, find_one, find_all, create,
  update, remove, pause, resume, save_owned, save_new, delete_owned, new_alert, assign, get_owned,
}

pub data AlertRequest : Type 0 where
  ask_one ask_remove ask_pause ask_resume : ℕ → AlertRequest
  ask_create : CreateJobAlertDto → AlertRequest
  ask_update : ℕ → UpdateJobAlertDto → AlertRequest
  ask_all : PaginationQuery → AlertRequest

module _ (P : JobAlert → Type 0) where
  pub All-update_where :
      (p : JobAlert → Bool) (f : JobAlert → JobAlert)
      → ((a : JobAlert) → P a → P (f a))
      → (xs : List JobAlert) → All P xs
      → All P (update_where p f xs)
  unfolding update_where
  All-update_where p f keeps [] h = tt
  All-update_where p f keeps (x ∷ xs) (here, later) = (
    elim (Bool-cases (p x)) [ inl e ↦ rw e (keeps x here) | inr e ↦ rw e here ],
    All-update_where p f keeps xs later,
  )

  pub All-filter : (p : JobAlert → Bool) (xs : List JobAlert) → All P xs → All P (filter p xs)
  All-filter p [] h = tt
  All-filter p (x ∷ xs) (here, later) = elim (Bool-cases (p x)) [
    | inl e ↦ rw e (here, All-filter p xs later)
    | inr e ↦ rw e (All-filter p xs later)
  ]

  pub All-append_one : (xs : List JobAlert) (x : JobAlert) → All P xs → P x → All P (xs ++ x ∷ [])
  All-append_one [] x h hx = (hx, tt)
  All-append_one (y ∷ xs) x (here, later) hx = (here, All-append_one xs x later hx)

-- `run` executes a selection, for `findAll`.
module _ (run : List JobAlert → Selection → List JobAlert × ℕ) (now : ℕ) (uuid : ℕ → ℕ)
    (new_unsubscribe_token : ℕ → String) where
  unfoldable pub handle : ℕ → AlertRequest → AlertStore → AlertStore × AlertAnswer
  unfolding find_one find_all create update remove pause resume
  handle user_id (ask_one id) s = (s, find_one user_id id s)
  handle user_id (ask_all query) s = (s, listed (find_all run user_id query s))
  handle user_id (ask_create dto) s = create now uuid new_unsubscribe_token user_id dto s
  handle user_id (ask_update id dto) s = update user_id id dto s
  handle user_id (ask_remove id) s = remove user_id id s
  handle user_id (ask_pause id) s = pause user_id id s
  handle user_id (ask_resume id) s = resume now user_id id s

  -- A property of rows that edits, pauses, resumptions and new rows keep.
  pub record Kept (users : List User) (P : JobAlert → Type 0) : Type 0 where
    pub edited : (dto : UpdateJobAlertDto) (a : JobAlert) → P a → P (assign dto a)
    pub paused : (a : JobAlert) → P a → P (record a { is_active = false })
    pub resumed : (a : JobAlert) → P a → P (record a { is_active = true; match_from = now })
    pub made :
        (user_id : ℕ) (u : User) (dto : CreateJobAlertDto) (drawn : ℕ)
        → find_user user_id users ≡ some u
        → P (new_alert now uuid new_unsubscribe_token u dto drawn)

  module _ (P : JobAlert → Type 0) where
    All-save_owned :
        (o : Option JobAlert) (f : JobAlert → JobAlert) (s : AlertStore)
        → ((a : JobAlert) → P a → P (f a))
        → All P s.alerts
        → All P (save_owned o f s).0.alerts
    All-save_owned none f s keeps h = h
    All-save_owned (some a) f s keeps h = All-update_where P _ f keeps s.alerts h

    All-delete_owned :
        (o : Option JobAlert) (s : AlertStore) → All P s.alerts → All P (delete_owned o s).0.alerts
    All-delete_owned none s h = h
    All-delete_owned (some a) s h = All-filter P _ s.alerts h

    All-save_new :
        (user_id : ℕ) (o : Option User) (dto : CreateJobAlertDto) (s : AlertStore)
        → Kept s.users P
        → find_user user_id s.users ≡ o
        → All P s.alerts
        → All P (save_new now uuid new_unsubscribe_token o dto s).0.alerts
    All-save_new user_id none dto s keeps e h = h
    All-save_new user_id (some u) dto s keeps e h =
        All-append_one P s.alerts _ h (keeps.made user_id u dto s.drawn e)

    -- Every request keeps it for all rows.
    pub All-handle :
        (user_id : ℕ) (r : AlertRequest) (s : AlertStore)
        → Kept s.users P
        → All P s.alerts
        → All P (handle user_id r s).0.alerts
    unfolding handle create update remove pause resume
    All-handle user_id (ask_one id) s keeps h = h
    All-handle user_id (ask_all query) s keeps h = h
    All-handle user_id (ask_create dto) s keeps h =
        All-save_new user_id (find_user user_id s.users) dto s keeps refl h
    All-handle user_id (ask_update id dto) s keeps h =
        All-save_owned (get_owned user_id id s.alerts) (assign dto) s (keeps.edited dto) h
    All-handle user_id (ask_remove id) s keeps h =
        All-delete_owned (get_owned user_id id s.alerts) s h
    All-handle user_id (ask_pause id) s keeps h =
        All-save_owned (get_owned user_id id s.alerts) _ s keeps.paused h
    All-handle user_id (ask_resume id) s keeps h =
        All-save_owned (get_owned user_id id s.alerts) _ s keeps.resumed h
