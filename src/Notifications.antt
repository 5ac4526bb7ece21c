-- ===== src/Notifications.antt =====
-- Which emails are queued: src/modules/notifications/notification-dispatch.service.ts and the ids of
-- src/constants/queue.constants.ts. The text of a UUID and SHA-256 are parameters.
pub mod Groups
pub mod Chosen
pub mod Immediate
pub mod Digests
pub mod Worker
mod Tests
use gov_jobs_backend.Base.{
  ℕ, ◌+◌, Bool, true, false, ◌&&◌, Option, none, some, List, [], ◌∷◌, ◌++◌, map, any, filter,
  length, take, ◌==◌, if◌then◌else◌, Text, codes, text_eq, text_lt,
}
use gov_jobs_backend.Models.{
  Job, JobAttachment, JobAlert, JobAlertMatch, AlertFrequency, immediate, daily, weekly,
}
use gov_jobs_backend.Matching.{Listings, attachments_of, is_among}
use gov_jobs_backend.Dates.Calendar.{local_date_string, iso_week_key}

pub data EmailKind : Type 0 where
  one_announcement digest : EmailKind

-- The payload, and the id under which the queue keeps it.
pub record EmailJob : Type 0 where
  pub kind : EmailKind
  pub job_alert_id : ℕ
  pub match_ids : List ℕ
  pub queue_id : Text

-- `sort()` on texts.
unfoldable pub insert_text : Text → List Text → List Text
insert_text t [] = t ∷ []
insert_text t (u ∷ us) = if text_lt u t then u ∷ insert_text t us else t ∷ u ∷ us

unfoldable pub sort_texts : List Text → List Text
unfolding insert_text
sort_texts [] = []
sort_texts (t ∷ ts) = insert_text t (sort_texts ts)

unfoldable pub join_with : Text → List Text → Text
join_with separator [] = []
join_with separator (t ∷ []) = t
join_with separator (t ∷ u ∷ ts) = t ++ (separator ++ join_with separator (u ∷ ts))

abbrev pub is_unnotified : JobAlertMatch → Bool
is_unnotified m = elim m.notified_at [ none ↦ true | some at ↦ false ]

abbrev pub same_frequency : AlertFrequency → AlertFrequency → Bool
same_frequency immediate immediate = true
same_frequency daily daily = true
same_frequency weekly weekly = true
same_frequency _ _ = false

-- `match.jobAlert`, and the tests on it.
unfoldable pub find_alert : ℕ → List JobAlert → Option JobAlert
find_alert id [] = none
find_alert id (a ∷ alerts) = if a.id == id then some a else find_alert id alerts

abbrev pub is_due : AlertFrequency → Option JobAlert → Bool
is_due frequency none = false
is_due frequency (some a) = a.is_active && same_frequency a.frequency frequency

-- The matches of one email: the first, and those after it.
pub record Group : Type 0 where
  pub key : Text
  pub first : JobAlertMatch
  pub rest : List JobAlertMatch

abbrev pub members : Group → List JobAlertMatch
members g = g.first ∷ g.rest

abbrev pub first_or : Text → List Text → Text
first_or fallback [] = fallback
first_or fallback (t ∷ ts) = t

-- One entry of the map, which keeps the order in which keys were set.
unfoldable pub add_to_groups : Text → JobAlertMatch → List Group → List Group
add_to_groups key m [] = record { key = key; first = m; rest = [] } ∷ []
add_to_groups key m (g ∷ groups) =
    if text_eq g.key key
    then record g { rest = g.rest ++ m ∷ [] } ∷ groups
    else g ∷ add_to_groups key m groups

-- The attachments of `match.job?.attachments`.
unfoldable pub announcement_attachments : Listings → ℕ → List JobAttachment
announcement_attachments db job_id =
    if any (λ j. j.id == job_id) db.jobs then attachments_of job_id db.attachments else []

module _ (uuid_text : ℕ → Text) (sha256_hex : Text → Text) where
  unfoldable pub immediate_email_job_id : List ℕ → Text
  unfolding join_with sort_texts
  immediate_email_job_id match_ids =
      codes "email--"
      ++ take 32 (sha256_hex (join_with (codes ",") (sort_texts (map uuid_text match_ids))))

  unfoldable pub digest_email_job_id : ℕ → Text → Text
  digest_email_job_id alert_id period_key =
      codes "digest--" ++ (uuid_text alert_id ++ (codes "--" ++ period_key))

  unfoldable pub announcement_key : Listings → JobAlertMatch → Text
  unfolding sort_texts announcement_attachments
  announcement_key db m =
      first_or (codes "job:" ++ uuid_text m.job_id)
        (sort_texts (map (λ a. codes a.url) (announcement_attachments db m.job_id)))

  unfoldable pub group_key : Listings → JobAlertMatch → Text
  unfolding announcement_key
  group_key db m = uuid_text m.job_alert_id ++ (b'|' ∷ announcement_key db m)

  unfoldable pub group_from : Listings → List Group → List JobAlertMatch → List Group
  unfolding add_to_groups group_key
  group_from db groups [] = groups
  group_from db groups (m ∷ matches) =
      group_from db (add_to_groups (group_key db m) m groups) matches

  unfoldable pub immediate_email : Group → EmailJob
  unfolding immediate_email_job_id
  immediate_email g = record {
    kind = one_announcement;
    job_alert_id = g.first.job_alert_id;
    match_ids = map (λ m. m.id) (members g);
    queue_id = immediate_email_job_id (map (λ m. m.id) (members g));
  }

  -- What `find` and the filter leave.
  unfoldable pub immediate_matches : Listings → List ℕ → List JobAlertMatch → List JobAlertMatch
  unfolding find_alert
  immediate_matches db match_ids matches =
      filter (λ m. is_due immediate (find_alert m.job_alert_id db.alerts))
        (filter (λ m. is_among match_ids m.id && is_unnotified m) matches)

  -- What is handed to the queue and the count that is returned.
  abbrev pub queue_groups : List Group → List EmailJob × ℕ
  queue_groups groups = (map immediate_email groups, length groups)

  abbrev pub unless_none : Listings → List JobAlertMatch → List EmailJob × ℕ
  unless_none db [] = ([], 0)
  unless_none db (m ∷ matches) = queue_groups (group_from db [] (m ∷ matches))

  unfoldable pub dispatch_immediate : Listings → List ℕ → List JobAlertMatch → List EmailJob × ℕ
  unfolding group_from immediate_email immediate_matches
  dispatch_immediate db [] matches = ([], 0)
  dispatch_immediate db (id ∷ match_ids) matches =
      unless_none db (immediate_matches db (id ∷ match_ids) matches)

  -- One row of the grouped query: the alert, with what is pending for it.
  unfoldable pub pending_of : ℕ → List JobAlertMatch → List JobAlertMatch
  pending_of alert_id matches = filter (λ m. m.job_alert_id == alert_id && is_unnotified m) matches

  abbrev pub digest_row : JobAlert → Text → List JobAlertMatch → List EmailJob
  digest_row a period_key [] = []
  digest_row a period_key (m ∷ matches) =
      record {
        kind = digest;
        job_alert_id = a.id;
        match_ids = map (λ (x : JobAlertMatch). x.id) (m ∷ matches);
        queue_id = digest_email_job_id a.id period_key;
      }
      ∷ []

  unfoldable pub digests_of :
      AlertFrequency → Text → List JobAlert → List JobAlertMatch → List EmailJob
  unfolding pending_of digest_email_job_id
  digests_of frequency period_key [] matches = []
  digests_of frequency period_key (a ∷ alerts) matches =
      (if a.is_active && same_frequency a.frequency frequency
        then digest_row a period_key (pending_of a.id matches)
        else [])
      ++ digests_of frequency period_key alerts matches

  abbrev pub counted : List EmailJob → List EmailJob × ℕ
  counted jobs = (jobs, length jobs)

  unfoldable pub dispatch_digests :
      AlertFrequency → ℕ → List JobAlert → List JobAlertMatch → List EmailJob × ℕ
  unfolding digests_of local_date_string iso_week_key
  dispatch_digests immediate now alerts matches = ([], 0)
  dispatch_digests daily now alerts matches =
      counted (digests_of daily (local_date_string now) alerts matches)
  dispatch_digests weekly now alerts matches =
      counted (digests_of weekly (iso_week_key now) alerts matches)
