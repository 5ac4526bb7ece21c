-- ===== src/Alerts.antt =====
-- The alerts of a user: src/modules/job-alerts/job-alerts.service.ts with the DTOs of
-- src/modules/job-alerts/dto/job-alert.dto.ts. The random token is a parameter, by the number of the
-- draw, and instants are shown as they are stored.
pub mod Links
pub mod Pages
pub mod Requests
pub mod Floors
pub mod Owners
pub mod Apart
pub mod Silenced
pub mod Confirmed
mod Tests
use gov_jobs_backend.Base.{
  ℕ, zero, suc, ◌+◌, Bool, true, false, not, ◌&&◌, Option, none, some, List, [], ◌∷◌, ◌++◌, map,
  filter, length, ◌==◌, if◌then◌else◌, String, str_eq, Text,
}
use gov_jobs_backend.Models.{User, JobAlert, JobAlertMatch, AlertFrequency, immediate}
use gov_jobs_backend.Crawler.{update_where}
use gov_jobs_backend.Pagination.{
  PaginationQuery, PaginatedResponse, Paginated, page_of, bad_request, Selection, DefaultSort, desc,
  map_page, paginate,
}
use gov_jobs_backend.Sessions.{find_user}

pub record CreateJobAlertDto : Type 0 where
  pub name : String
  pub keywords : Option (List Text)
  pub job_types : Option (List ℕ)
  pub educations : Option (List ℕ)
  pub provinces : Option (List ℕ)
  pub frequency : Option AlertFrequency

pub record UpdateJobAlertDto : Type 0 where
  pub name : Option String
  pub keywords : Option (List Text)
  pub job_types : Option (List ℕ)
  pub educations : Option (List ℕ)
  pub provinces : Option (List ℕ)
  pub frequency : Option AlertFrequency
  pub is_active : Option Bool

pub record JobAlertResponse : Type 0 where
  pub id : ℕ
  pub name : String
  pub keywords : List Text
  pub job_types : List ℕ
  pub educations : List ℕ
  pub provinces : List ℕ
  pub notification_email : String
  pub frequency : AlertFrequency
  pub is_active : Bool
  pub match_from : ℕ
  pub last_sent_at : Option ℕ
  pub created_at : ℕ
  pub match_count : ℕ

pub record AlertStore : Type 0 where
  pub users : List User
  pub alerts : List JobAlert
  pub matches : List JobAlertMatch
  pub drawn : ℕ

-- What an operation answers, the exceptions included.
pub data AlertAnswer : Type 0 where
  shown : JobAlertResponse → AlertAnswer
  listed : Paginated JobAlertResponse → AlertAnswer
  removed not_found no_account : AlertAnswer

-- `value ?? fallback`.
abbrev pub given {ℓ} : {A : Type ℓ} → Option A → A → A
given none d = d
given (some x) d = x

unfoldable pub to_response : JobAlert → ℕ → JobAlertResponse
to_response a match_count = record {
  id = a.id;
  name = a.name;
  keywords = a.keywords;
  job_types = a.job_types;
  educations = a.educations;
  provinces = a.provinces;
  notification_email = a.notification_email;
  frequency = a.frequency;
  is_active = a.is_active;
  match_from = a.match_from;
  last_sent_at = a.last_sent_at;
  created_at = a.created_at;
  match_count = match_count;
}

-- One group of the query: an alert without a match has no group.
abbrev pub group_of : ℕ → ℕ → List (ℕ × ℕ)
group_of alert_id zero = []
group_of alert_id (suc n) = (alert_id, suc n) ∷ []

unfoldable pub count_matches : List ℕ → List JobAlertMatch → List (ℕ × ℕ)
count_matches [] matches = []
count_matches (id ∷ ids) matches =
    group_of id (length (filter (λ m. m.job_alert_id == id) matches)) ++ count_matches ids matches

unfoldable pub count_of : ℕ → List (ℕ × ℕ) → ℕ
count_of id [] = 0
count_of id ((alert_id, count) ∷ counts) = if alert_id == id then count else count_of id counts

abbrev pub belongs_to : ℕ → JobAlert → Bool
belongs_to user_id a = a.user_id == user_id

-- By id and owner.
unfoldable pub get_owned : ℕ → ℕ → List JobAlert → Option JobAlert
get_owned user_id id [] = none
get_owned user_id id (a ∷ alerts) =
    if a.id == id && belongs_to user_id a then some a else get_owned user_id id alerts

-- `save` of an alert that was loaded, after `f` has changed it; the answer shows the changed alert.
abbrev pub show : JobAlert → AlertStore → AlertAnswer
show a s = shown (to_response a (count_of a.id (count_matches (a.id ∷ []) s.matches)))

abbrev pub show_owned : Option JobAlert → AlertStore → AlertAnswer
show_owned none s = not_found
show_owned (some a) s = show a s

abbrev pub save_owned :
    Option JobAlert → (JobAlert → JobAlert) → AlertStore → AlertStore × AlertAnswer
save_owned none f s = (s, not_found)
save_owned (some a) f s =
    (record s { alerts = update_where (λ b. b.id == a.id) f s.alerts }, show (f a) s)

unfoldable pub find_one : ℕ → ℕ → AlertStore → AlertAnswer
unfolding get_owned to_response count_of count_matches
find_one user_id id s = show_owned (get_owned user_id id s.alerts) s

abbrev pub sortable_alerts : List (String × String)
sortable_alerts =
    ("createdAt", "alert.created_at")
    ∷ ("name", "alert.name")
    ∷ ("lastSentAt", "alert.last_sent_at")
    ∷ []

abbrev pub newest_first : DefaultSort
newest_first = record { expression = "alert.created_at"; order = some desc }

abbrev pub map_paginated {ℓ κ} : {T : Type ℓ} {U : Type κ} → (T → U) → Paginated T → Paginated U
map_paginated f (page_of p) = page_of (map_page f p)
map_paginated f (bad_request key) = bad_request key

-- The ids of the rows of a page; a refused query has no page.
abbrev pub ids_of : Paginated JobAlert → List ℕ
ids_of (page_of p) = map (λ (a : JobAlert). a.id) p.data_rows
ids_of (bad_request key) = []

-- `run` executes a selection on the rows that the WHERE clause leaves.
module _ (run : List JobAlert → Selection → List JobAlert × ℕ) where
  unfoldable pub find_all : ℕ → PaginationQuery → AlertStore → Paginated JobAlertResponse
  unfolding to_response count_of count_matches
  find_all user_id query s =
      let page =
        paginate (run (filter (belongs_to user_id) s.alerts)) query (some sortable_alerts)
          (some newest_first) in
      let counts = count_matches (ids_of page) s.matches in
      map_paginated (λ (a : JobAlert). to_response a (count_of a.id counts)) page

-- `@BeforeInsert`: a missing token is drawn.
abbrev pub ensure_unsubscribe_token : String → JobAlert → JobAlert
ensure_unsubscribe_token token a =
    if str_eq a.unsubscribe_token "" then record a { unsubscribe_token = token } else a

-- The clock, and the generators of UUIDs and of tokens.
module _ (now : ℕ) (uuid : ℕ → ℕ) (new_unsubscribe_token : ℕ → String) where
  abbrev pub alert_of : User → CreateJobAlertDto → ℕ → JobAlert
  alert_of u dto drawn = record {
    id = uuid drawn;
    user_id = u.id;
    name = dto.name;
    keywords = given dto.keywords [];
    job_types = given dto.job_types [];
    educations = given dto.educations [];
    provinces = given dto.provinces [];
    notification_email = u.email;
    unsubscribe_token = "";
    frequency = given dto.frequency immediate;
    is_active = true;
    match_from = now;
    last_sent_at = none;
    created_at = now;
  }

  abbrev pub new_alert : User → CreateJobAlertDto → ℕ → JobAlert
  new_alert u dto drawn =
      ensure_unsubscribe_token (new_unsubscribe_token drawn) (alert_of u dto drawn)

  abbrev pub save_new : Option User → CreateJobAlertDto → AlertStore → AlertStore × AlertAnswer
  save_new none dto s = (s, no_account)
  save_new (some u) dto s =
      let alert = new_alert u dto s.drawn in
      (
        record s { alerts = s.alerts ++ alert ∷ []; drawn = suc s.drawn },
        shown (to_response alert 0),
      )

  unfoldable pub create : ℕ → CreateJobAlertDto → AlertStore → AlertStore × AlertAnswer
  unfolding to_response
  create user_id dto s = save_new (find_user user_id s.users) dto s

abbrev pub assign : UpdateJobAlertDto → JobAlert → JobAlert
assign dto a = record a {
  name = given dto.name a.name;
  keywords = given dto.keywords a.keywords;
  job_types = given dto.job_types a.job_types;
  educations = given dto.educations a.educations;
  provinces = given dto.provinces a.provinces;
  frequency = given dto.frequency a.frequency;
  is_active = given dto.is_active a.is_active;
}

unfoldable pub update : ℕ → ℕ → UpdateJobAlertDto → AlertStore → AlertStore × AlertAnswer
unfolding get_owned to_response count_of count_matches
update user_id id dto s = save_owned (get_owned user_id id s.alerts) (assign dto) s

-- A hard delete, and the matches of the alert with it.
abbrev pub delete_owned : Option JobAlert → AlertStore → AlertStore × AlertAnswer
delete_owned none s = (s, not_found)
delete_owned (some a) s = (
  record s {
    alerts = filter (λ b. not (b.id == a.id)) s.alerts;
    matches = filter (λ m. not (m.job_alert_id == a.id)) s.matches;
  },
  removed,
)

unfoldable pub remove : ℕ → ℕ → AlertStore → AlertStore × AlertAnswer
unfolding get_owned
remove user_id id s = delete_owned (get_owned user_id id s.alerts) s

unfoldable pub pause : ℕ → ℕ → AlertStore → AlertStore × AlertAnswer
unfolding get_owned to_response count_of count_matches
pause user_id id s =
    save_owned (get_owned user_id id s.alerts) (λ a. record a { is_active = false }) s

unfoldable pub resume : ℕ → ℕ → ℕ → AlertStore → AlertStore × AlertAnswer
unfolding get_owned to_response count_of count_matches
resume now user_id id s =
    save_owned (get_owned user_id id s.alerts)
      (λ a. record a { is_active = true; match_from = now }) s
