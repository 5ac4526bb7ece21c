-- ===== src/Matching/Tests.antt =====
-- Concrete runs of the matching, and the theorems at them.
use gov_jobs_backend.Base.{ℕ, ◌+◌, ◌≡◌, refl, ◌↔◌, true, none, some, [], ◌∷◌, Memᴰ, Text, codes}
use gov_jobs_backend.Models.{JobAttachment, JobAlert, immediate, completed, announcement_pdf}
use gov_jobs_backend.Samples.{job}
use gov_jobs_backend.Matching.{
  MatchStore, Listings, has_match, build_haystack, find_matching_alerts, match_jobs, insert_matches,
  insert_or_ignore,
}
use gov_jobs_backend.Matching.LikeMatcher.{fold, ilike, ilike-IsLike}
use gov_jobs_backend.Matching.Criteria.{Satisfies, find_matching_alerts_iff}
use gov_jobs_backend.Matching.Records.{UniquePairs, Added}
use gov_jobs_backend.Matching.Runs.{match_jobs_again, match_jobs-Added}

abbrev attachment : JobAttachment
attachment = record {
  id = 9;
  job_id = 1;
  name = "announcement";
  url = "https://job.ocsc.go.th/1.pdf";
  type = announcement_pdf;
  extraction_status = completed;
  extraction_method = none;
  extracted_text = some (codes "Surveyor");
  extraction_error = none;
  file_hash = none;
  file_size = none;
  processed_at = none;
  created_at = 2000;
}

abbrev alert : ℕ → Text → JobAlert
alert id keyword = record {
  id = id;
  user_id = 7;
  name = "lands";
  keywords = keyword ∷ [];
  job_types = 3 ∷ [];
  educations = 4 ∷ 5 ∷ [];
  provinces = 10 ∷ [];
  notification_email = "reader@example.org";
  unsubscribe_token = "t";
  frequency = immediate;
  is_active = true;
  match_from = 1000;
  last_sent_at = none;
  created_at = 1000;
}

abbrev db : Listings
db = record {
  alerts =
      alert 1 (codes "50% FIELD") ∷ alert 2 (codes "survey_r") ∷ alert 3 (codes "surveyor") ∷ [];
  jobs = job ∷ [];
  attachments = attachment ∷ [];
}

abbrev draw : ℕ → ℕ
draw n = 100 + n

abbrev empty_store : MatchStore
empty_store = record { matches = []; drawn = 0 }

-- `%` is literal, `_` is no wildcard, and the text of the document counts.
two_hits : (match_jobs ilike 3000 draw true db (1 ∷ []) empty_store).1 ≡ 100 ∷ 101 ∷ []
unfolding match_jobs insert_matches insert_or_ignore has_match find_matching_alerts ilike
two_hits = refl

find_matching_alerts_iff_example :
    Memᴰ
      (alert 3 (codes "surveyor"))
      (find_matching_alerts ilike db.alerts job (attachment ∷ []) true)
    ↔ (Memᴰ (alert 3 (codes "surveyor")) db.alerts
        × Satisfies fold job
            (build_haystack job (attachment ∷ []) true)
            (alert 3 (codes "surveyor")))
find_matching_alerts_iff_example =
    find_matching_alerts_iff fold ilike ilike-IsLike db.alerts job (attachment ∷ []) true
      (alert 3 (codes "surveyor"))

match_jobs_again_example :
    let s' = (match_jobs ilike 3000 draw true db (1 ∷ []) empty_store).0 in
    match_jobs ilike 3600 draw true db (1 ∷ []) s' ≡ (s', [])
match_jobs_again_example = match_jobs_again ilike 3000 draw true db 3600 (1 ∷ []) empty_store

match_jobs-Added_example :
    Added empty_store (match_jobs ilike 3000 draw true db (1 ∷ []) empty_store)
    × UniquePairs (match_jobs ilike 3000 draw true db (1 ∷ []) empty_store).0.matches
match_jobs-Added_example = match_jobs-Added ilike 3000 draw true db (1 ∷ []) empty_store tt
