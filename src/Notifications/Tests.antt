-- ===== src/Notifications/Tests.antt =====
-- Two positions of one announcement, and a third that stands alone.
use gov_jobs_backend.Base.{
  ℕ, ◌+◌, ◌≡◌, ◌≢◌, refl, true, some, codes, includes, ok, none, List, [], ◌∷◌, length, Text,
  text_eq,
}
use gov_jobs_backend.Models.{
  JobAttachment, JobAlertMatch, immediate, daily, pending, announcement_pdf,
}
use gov_jobs_backend.Matching.{Listings}
use gov_jobs_backend.Samples.{job, alert}
use gov_jobs_backend.Alerts.Owners.{UniqueIds}
use gov_jobs_backend.Notifications.{dispatch_immediate, dispatch_digests}
use gov_jobs_backend.Notifications.Worker.{MatchJobPayload, WorkerStore, process, process_again}
use gov_jobs_backend.Notifications.Digests.{Digested, dispatch_digests-Digested}

-- 36 characters, of which the first is the number.
abbrev zeros : ℕ → Text
zeros n =
    n ∷ 0 ∷ 0 ∷ 0 ∷ 0 ∷ 0 ∷ 0 ∷ 0 ∷ 0 ∷ 0 ∷ 0 ∷ 0 ∷ 0 ∷ 0 ∷ 0 ∷ 0 ∷ 0 ∷ 0 ∷ 0 ∷ 0 ∷ 0 ∷ 0 ∷ 0 ∷ 0
    ∷ 0 ∷ 0 ∷ 0 ∷ 0 ∷ 0 ∷ 0 ∷ 0 ∷ 0 ∷ 0 ∷ 0 ∷ 0 ∷ 0 ∷ []

abbrev first_of : Text → ℕ
first_of [] = 0
first_of (c ∷ s) = c

abbrev found : ℕ → ℕ → JobAlertMatch
found id job_id = record {
  id = id;
  job_alert_id = 20;
  job_id = job_id;
  matched_at = 2100;
  notified_at = none;
}

abbrev document : ℕ → JobAttachment
document job_id = record {
  id = 40 + job_id;
  job_id = job_id;
  name = "announcement";
  url = "https://job.ocsc.go.th/1.pdf";
  type = announcement_pdf;
  extraction_status = pending;
  extraction_method = none;
  extracted_text = none;
  extraction_error = none;
  file_hash = none;
  file_size = none;
  processed_at = none;
  created_at = 2000;
}

abbrev same_digest : Text → Text
same_digest t = t

abbrev db : Listings
db = record {
  alerts = alert ∷ record alert { id = 21; frequency = daily } ∷ [];
  jobs = job ∷ record job { id = 2 } ∷ record job { id = 3 } ∷ [];
  attachments = document 1 ∷ document 2 ∷ [];
}

abbrev matches : List JobAlertMatch
matches = found 1 1 ∷ found 2 3 ∷ found 3 2 ∷ record (found 4 1) { job_alert_id = 21 } ∷ []

two_emails : (dispatch_immediate zeros same_digest db (1 ∷ 2 ∷ 3 ∷ 4 ∷ []) matches).1 ≡ 2
unfolding dispatch_immediate text_eq
two_emails = refl

alerts-UniqueIds : UniqueIds db.alerts
alerts-UniqueIds = (refl, (refl, tt))

dispatch_digests-Digested_example :
    let r = dispatch_digests zeros same_digest daily 1774569599000 db.alerts matches in
    (daily ≢ immediate → Digested zeros same_digest daily db.alerts matches r.0)
    × (daily ≡ immediate → r.0 ≡ [])
    × (r.1 ≡ length r.0)
dispatch_digests-Digested_example =
    dispatch_digests-Digested zeros same_digest daily 1774569599000 db.alerts matches
      alerts-UniqueIds

abbrev drawn : ℕ → ℕ
drawn n = n

abbrev before_run : WorkerStore
before_run = record { matching = record { matches = []; drawn = 60 }; runs = []; emails = [] }

abbrev payload : MatchJobPayload
payload = record { job_id = 1; crawler_run_id = some 5 }

process_again_example :
    let s' =
      (process zeros same_digest includes 2100 drawn true db
        (some (codes "down"))
        payload
        before_run).0 in
    process zeros same_digest includes 2700 drawn true db none payload s' ≡ (s', ok 0)
process_again_example =
    process_again zeros same_digest includes 2100 drawn true db 2700 (some (codes "down")) none
      payload before_run
