-- ===== src/Matching.antt =====
-- Matching announcements against alerts: src/modules/job-alerts/alert-matching.service.ts.
-- PostgreSQL's ILIKE is the parameter `ilike haystack pattern`.
pub mod Like
pub mod Criteria
pub mod Records
pub mod Runs
mod LikeMatcher
mod Tests
use mathlib.Core.List.{flat_map}
use gov_jobs_backend.Base.{
  ℕ, suc, Bool, true, false, ◌&&◌, ◌||◌, Option, none, some, List, [], ◌∷◌, ◌++◌, map, ◌==◌, leb,
  any, filter, if◌then◌else◌, Text,
}
use gov_jobs_backend.Models.{
  Job, JobAttachment, JobAlert, JobAlertMatch, ExtractionStatus, pending, processing, completed,
  insufficient_text, extraction_failed,
}

-- `value.replace(/c/g, by)` for one code unit `c`.
unfoldable pub replace_all : ℕ → Text → Text → Text
replace_all c by [] = []
replace_all c by (d ∷ s) = (if d == c then by else d ∷ []) ++ replace_all c by s

-- The backslash first, then `%`, then `_`.
unfoldable pub escape_like : Text → Text
unfolding replace_all
escape_like value =
    replace_all b'_' (b'\\' ∷ b'_' ∷ [])
      (replace_all b'%' (b'\\' ∷ b'%' ∷ []) (replace_all b'\\' (b'\\' ∷ b'\\' ∷ []) value))

abbrev pub is_completed : ExtractionStatus → Bool
is_completed completed = true
is_completed _ = false

abbrev pub or_empty : Option Text → Text
or_empty none = []
or_empty (some s) = s

abbrev pub is_empty : Text → Bool
is_empty [] = true
is_empty (c ∷ s) = false

-- `parts.filter((part) => part !== "").join("\n")`.
abbrev pub non_empty_parts : List Text → List Text
non_empty_parts [] = []
non_empty_parts ([] ∷ parts) = non_empty_parts parts
non_empty_parts ((c ∷ s) ∷ parts) = (c ∷ s) ∷ non_empty_parts parts

unfoldable pub join_lines : List Text → Text
join_lines [] = []
join_lines (part ∷ []) = part
join_lines (part ∷ next ∷ parts) = part ++ (10 ∷ join_lines (next ∷ parts))

-- The texts of the documents that were read completely.
unfoldable pub document_texts : List JobAttachment → List Text
document_texts [] = []
document_texts (a ∷ rest) =
    if is_completed a.extraction_status
    then or_empty a.extracted_text ∷ document_texts rest
    else document_texts rest

-- `attachments` are those of the announcement, loaded with it.
unfoldable pub build_haystack : Job → List JobAttachment → Bool → Text
unfolding join_lines document_texts
build_haystack job attachments include_documents = join_lines (
    non_empty_parts (
      job.content.title
      ∷ job.content.agency
      ∷ or_empty job.content.description
      ∷ (if include_documents then document_texts attachments else [])))

-- PostgreSQL's `a && b` on arrays.
unfoldable pub overlap : List ℕ → List ℕ → Bool
overlap xs ys = any (λ x. any (◌==◌ x) ys) xs

abbrev pub is_nil {ℓ} : {A : Type ℓ} → List A → Bool
is_nil [] = true
is_nil (x ∷ xs) = false

-- `cardinality(job_types) = 0 OR :jobTypeId IS NULL OR job_types && ARRAY[:jobTypeId]`.
abbrev pub accepts_type : List ℕ → Option ℕ → Bool
accepts_type types none = true
accepts_type types (some t) = is_nil types || overlap types (t ∷ [])

module _ (ilike : Text → Text → Bool) where
  unfoldable pub keyword_hits : Text → Text → Bool
  unfolding escape_like
  keyword_hits haystack keyword = ilike haystack (b'%' ∷ (escape_like keyword ++ (b'%' ∷ [])))

  -- The WHERE clause of `findMatchingAlerts`.
  unfoldable pub alert_matches : Job → Text → JobAlert → Bool
  unfolding keyword_hits overlap
  alert_matches job haystack alert =
      alert.is_active
      && (leb alert.match_from job.first_seen_at
          && ((is_nil alert.keywords || any (keyword_hits haystack) alert.keywords)
              && (accepts_type alert.job_types job.content.job_type_id
                  && ((is_nil alert.educations
                        || overlap alert.educations job.content.education_level_ids)
                      && (is_nil alert.provinces
                          || (is_nil job.content.province_ids
                              || overlap alert.provinces job.content.province_ids))))))

  -- Of the alerts of the table, those that the announcement satisfies.
  unfoldable pub find_matching_alerts :
      List JobAlert → Job → List JobAttachment → Bool → List JobAlert
  unfolding alert_matches build_haystack
  find_matching_alerts alerts job attachments match_document_text =
      filter (alert_matches job (build_haystack job attachments match_document_text)) alerts

-- `(job_alert_id, job_id)` is unique.
unfoldable pub has_match : ℕ → ℕ → List JobAlertMatch → Bool
has_match alert_id job_id = any (λ m. m.job_alert_id == alert_id && m.job_id == job_id)

-- The match table, and how many UUIDs were drawn for its rows.
pub record MatchStore : Type 0 where
  pub matches : List JobAlertMatch
  pub drawn : ℕ

-- The database's clock and its generator of UUIDs, by the number of the draw.
module _ (now : ℕ) (uuid : ℕ → ℕ) where
  -- One row of `insert … on conflict do nothing`, with its id if it was inserted.
  unfoldable pub insert_or_ignore : ℕ → ℕ → MatchStore → MatchStore × List ℕ
  insert_or_ignore alert_id job_id s = if has_match alert_id job_id s.matches then (s, []) else (
    record {
      matches =
          s.matches
          ++ record {
            id = uuid s.drawn;
            job_alert_id = alert_id;
            job_id = job_id;
            matched_at = now;
            notified_at = none;
          }
            ∷ [];
      drawn = suc s.drawn;
    },
    uuid s.drawn ∷ [],
  )

  unfoldable pub insert_matches : List JobAlert → ℕ → MatchStore → MatchStore × List ℕ
  insert_matches [] job_id s = (s, [])
  insert_matches (alert ∷ alerts) job_id s =
      let (s', created) = insert_or_ignore alert.id job_id s in
      let (s'', later) = insert_matches alerts job_id s' in (s'', created ++ later)

-- What the service reads: the alerts, and the announcements with their attachments.
pub record Listings : Type 0 where
  pub alerts : List JobAlert
  pub jobs : List Job
  pub attachments : List JobAttachment

abbrev pub attachments_of : ℕ → List JobAttachment → List JobAttachment
attachments_of job_id = filter (λ a. a.job_id == job_id)

abbrev pub is_among : List ℕ → ℕ → Bool
is_among ids id = any (◌==◌ id) ids

module _ (ilike : Text → Text → Bool) (now : ℕ) (uuid : ℕ → ℕ) (match_document_text : Bool)
    (db : Listings) where
  -- The loop over the announcements that were found.
  unfoldable pub match_found : List Job → MatchStore → MatchStore × List ℕ
  match_found [] s = (s, [])
  match_found (job ∷ jobs) s =
      let alerts =
        find_matching_alerts ilike db.alerts job (attachments_of job.id db.attachments)
          match_document_text in
      let (s', created) = insert_matches now uuid alerts job.id s in
      let (s'', later) = match_found jobs s' in (s'', created ++ later)

  unfoldable pub match_jobs : List ℕ → MatchStore → MatchStore × List ℕ
  unfolding match_found
  match_jobs job_ids s = match_found (filter (λ j. is_among job_ids j.id) db.jobs) s
