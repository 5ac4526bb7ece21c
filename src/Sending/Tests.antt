-- ===== src/Sending/Tests.antt =====
-- An email about one match, which the provider accepts.
use gov_jobs_backend.Base.{ℕ, ◌≡◌, refl, some, none, [], ◌∷◌, Option, Text, codes, print_number, ok}
use gov_jobs_backend.Models.{JobAlertMatch}
use gov_jobs_backend.Samples.{job, somchai, alert}
use gov_jobs_backend.Notifications.{EmailJob, one_announcement}
use gov_jobs_backend.Emails.{EmailLocale}
use gov_jobs_backend.Sending.{MailSettings, MailStore, Outside, process}
use gov_jobs_backend.Sending.Again.{Delivered, process-Delivered}

abbrev settings : MailSettings
settings = record {
  public_web_url = codes "https://example.org/";
  public_api_url = codes "https://api.example.org";
  api_prefix = codes "api";
  reply_to = none;
}

abbrev printed_date : EmailLocale → Text → Option Text
printed_date locale t = none

abbrev printed_number : EmailLocale → ℕ → Text
printed_number locale n = print_number n

abbrev outside : Outside
outside = record {
  provider_name = "console";
  provider = λ message. ok (some "m1");
  encode_uri_component = λ t. t;
  intl_date = printed_date;
  format_number = printed_number;
  uuid_text = print_number;
  uuid = λ n. n;
}

abbrev found : JobAlertMatch
found = record { id = 60; job_alert_id = 20; job_id = 1; matched_at = 2100; notified_at = none }

abbrev store : MailStore
store = record {
  users = somchai ∷ [];
  alerts = alert ∷ [];
  matches = found ∷ [];
  jobs = job ∷ [];
  items = [];
  logs = [];
  drawn = 70;
  accepted = [];
}

abbrev offer : EmailJob
offer = record {
  kind = one_announcement;
  job_alert_id = 20;
  match_ids = 60 ∷ [];
  queue_id = codes "email--1";
}

sends_one : (process settings outside 2200 offer store).1 ≡ ok 1
unfolding process
sends_one = refl

process-Delivered_example :
    Delivered settings outside 2200 offer store (process settings outside 2200 offer store)
process-Delivered_example = process-Delivered settings outside 2200 offer store
