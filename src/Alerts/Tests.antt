-- ===== src/Alerts/Tests.antt =====
-- Two users with an alert each.
use gov_jobs_backend.Base.{
  ℕ, ◌≤◌, ◌≡◌, ◌≢◌, refl, Bool, List, true, false, none, some, [], ◌∷◌, All, String, includes,
  arith,
}
use gov_jobs_backend.Models.{Job, JobAttachment, User, JobAlert, daily}
use gov_jobs_backend.Matching.{find_matching_alerts}
use gov_jobs_backend.Samples.{job, somchai, alert}
use gov_jobs_backend.Sessions.{find_user}
use gov_jobs_backend.Pagination.{Selection}
use gov_jobs_backend.Base.{length}
use gov_jobs_backend.Alerts.{AlertStore, UpdateJobAlertDto, get_owned, resume}
use gov_jobs_backend.Alerts.Links.{find_by_token, unsubscribe}
use gov_jobs_backend.Alerts.Requests.{ask_update, ask_remove, handle}
use gov_jobs_backend.Alerts.Floors.{
  Asked, GoesToOwner, handle-GoesToOwner, serve, resume_never_replays,
}
use gov_jobs_backend.Alerts.Owners.{UniqueIds, only_own}
use gov_jobs_backend.Alerts.Apart.{Alone, handle-Alone}
use gov_jobs_backend.Alerts.Silenced.{Switched, unsubscribe_silences}

abbrev malee : User
malee = record somchai { id = 8; email = "malee@example.com" }

abbrev paused : JobAlert
paused = record alert {
  id = 21;
  user_id = 8;
  notification_email = "malee@example.com";
  unsubscribe_token = "t21";
  is_active = false;
}

abbrev store : AlertStore
store = record {
  users = somchai ∷ malee ∷ [];
  alerts = alert ∷ paused ∷ [];
  matches = [];
  drawn = 30;
}

abbrev drawn_id : ℕ → ℕ
drawn_id n = n

abbrev drawn_token : ℕ → String
drawn_token n = "fresh"

abbrev every_row : List JobAlert → Selection → List JobAlert × ℕ
every_row rows s = (rows, length rows)

abbrev to_daily : UpdateJobAlertDto
to_daily = record {
  name = none;
  keywords = none;
  job_types = none;
  educations = none;
  provinces = none;
  frequency = some daily;
  is_active = some true;
}

store-UniqueIds : UniqueIds store.alerts
store-UniqueIds = (refl, (refl, tt))

handle-Alone_example :
    Alone 8 store
      (handle every_row 500 drawn_id drawn_token 8 (ask_remove 20) store)
      (handle every_row 500 drawn_id drawn_token 8 (ask_remove 20) (only_own 8 store))
handle-Alone_example =
    handle-Alone 8 store every_row 500 drawn_id drawn_token (ask_remove 20) store-UniqueIds

abbrev edit : Asked
edit = record { at = 2500; user_id = 8; request = ask_update 21 to_daily }

store-GoesToOwner : All (GoesToOwner every_row drawn_id drawn_token store.users) store.alerts
unfolding find_user
store-GoesToOwner = ((somchai, refl, refl), ((malee, refl, refl), tt))

handle-GoesToOwner_example :
    All
      (GoesToOwner every_row drawn_id drawn_token store.users)
      (handle every_row 2500 drawn_id drawn_token 8 (ask_update 21 to_daily) store).0.alerts
handle-GoesToOwner_example =
    handle-GoesToOwner every_row drawn_id drawn_token edit store store-GoesToOwner

owns : get_owned 8 21 store.alerts ≡ some paused
unfolding get_owned
owns = refl

resume_never_replays_example :
    All
      (λ b. b.id ≡ 21 → 2400 ≤ job.first_seen_at)
      (find_matching_alerts includes
        (serve every_row drawn_id drawn_token (edit ∷ []) (resume 2400 8 21 store).0).alerts
        job
        []
        true)
resume_never_replays_example =
    resume_never_replays every_row drawn_id drawn_token includes 2400 8 21 store paused owns
      (edit ∷ []) (omega arith, tt) job [] true

finds : find_by_token "t20" store.alerts ≡ some alert
unfolding find_by_token
finds = refl

unsubscribe_silences_example :
    Switched "t20" alert store.alerts (unsubscribe "t20" store.alerts)
    × ((j : Job) (attachments : List JobAttachment) (include_documents : Bool)
        → All
            (λ b. b.id ≢ 20)
            (find_matching_alerts includes
              (unsubscribe "t20" store.alerts).0
              j
              attachments
              include_documents))
unsubscribe_silences_example =
    unsubscribe_silences includes "t20" store.alerts alert store-UniqueIds finds
