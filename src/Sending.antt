-- ===== src/Sending.antt =====
-- The worker that sends an email: src/modules/notifications/email-notification.processor.ts, with
-- the log of src/modules/email/email.service.ts. What the provider answers, `encodeURIComponent`,
-- Intl and the text of a UUID are parameters.
pub mod Again
mod Tests
use gov_jobs_backend.Base.{
  ℕ, suc, ◌+◌, Bool, true, false, not, ◌&&◌, Option, none, some, List, [], ◌∷◌, ◌++◌, map, any,
  filter, length, ◌==◌, if◌then◌else◌, String, str_eq, Text, codes, text_lt, Attempt, ok, error,
}
use gov_jobs_backend.Models.{Job, JobAlert, JobAlertMatch, User}
use gov_jobs_backend.Crawler.{update_where}
use gov_jobs_backend.Matching.{is_among}
use gov_jobs_backend.Sessions.{find_user}
use gov_jobs_backend.Sessions.Accounts.{EmailLog, queued, sent, failed}
use gov_jobs_backend.Notifications.{
  EmailKind, one_announcement, digest, EmailJob, is_unnotified, find_alert,
}
use gov_jobs_backend.Emails.{
  EmailLocale, th, en, ReferenceItem, JobAlertEmailInput, build_subject, build_html, build_text,
}

pub record EmailMessage : Type 0 where
  pub to : String
  pub subject : Text
  pub html : Text
  pub text : Text
  pub headers : List (String × Text)

pub record SendEmailInput : Type 0 where
  pub message : EmailMessage
  pub template : String
  pub job_alert_id : Option ℕ
  pub user_id : Option ℕ

-- The settings of `app` and `mail` that the worker reads.
pub record MailSettings : Type 0 where
  pub public_web_url : Text
  pub public_api_url : Text
  pub api_prefix : Text
  pub reply_to : Option Text

-- The tables, and the messages that the provider has accepted.
pub record MailStore : Type 0 where
  pub users : List User
  pub alerts : List JobAlert
  pub matches : List JobAlertMatch
  pub jobs : List Job
  pub items : List ReferenceItem
  pub logs : List EmailLog
  pub drawn : ℕ
  pub accepted : List EmailMessage

-- What stands outside: the provider's name and its answer, a message id or an exception.
pub record Outside : Type 0 where
  pub provider_name : String
  pub provider : EmailMessage → Attempt Text (Option String)
  pub encode_uri_component : Text → Text
  pub intl_date : EmailLocale → Text → Option Text
  pub format_number : EmailLocale → ℕ → Text
  pub uuid_text : ℕ → Text
  pub uuid : ℕ → ℕ

abbrev pub template_of : EmailKind → String
template_of one_announcement = "job-alert-immediate"
template_of digest = "job-alert-digest"

-- `url.replace(/\/$/, "")`.
unfoldable pub without_slash : Text → Text
without_slash [] = []
without_slash (c ∷ []) = if c == b'/' then [] else c ∷ []
without_slash (c ∷ d ∷ s) = c ∷ without_slash (d ∷ s)

-- `order: { applicationEnd: "ASC" }`: the rows without a date come last.
abbrev pub ends_before : Option Text → Option Text → Bool
ends_before none d = false
ends_before (some e) none = true
ends_before (some e) (some d) = text_lt e d

unfoldable pub insert_by_end : Job → List Job → List Job
insert_by_end j [] = j ∷ []
insert_by_end j (k ∷ ks) =
    if ends_before k.content.application_end j.content.application_end
    then k ∷ insert_by_end j ks
    else j ∷ k ∷ ks

unfoldable pub by_end : List Job → List Job
unfolding insert_by_end
by_end [] = []
by_end (j ∷ js) = insert_by_end j (by_end js)

abbrev pub locale_of : Option User → EmailLocale
locale_of none = th
locale_of (some u) = if str_eq u.locale "en" then en else th

unfoldable pub unsubscribe_headers : Text → Option Text → List (String × Text)
unsubscribe_headers url none =
    ("List-Unsubscribe", codes "<" ++ (url ++ codes ">"))
    ∷ ("List-Unsubscribe-Post", codes "List-Unsubscribe=One-Click")
    ∷ []
unsubscribe_headers url (some []) =
    ("List-Unsubscribe", codes "<" ++ (url ++ codes ">"))
    ∷ ("List-Unsubscribe-Post", codes "List-Unsubscribe=One-Click")
    ∷ []
unsubscribe_headers url (some (c ∷ reply_to)) =
    (
      "List-Unsubscribe",
      codes "<"
          ++ (url ++ (codes ">, <mailto:" ++ ((c ∷ reply_to) ++ codes "?subject=unsubscribe>"))),
    )
    ∷ ("List-Unsubscribe-Post", codes "List-Unsubscribe=One-Click")
    ∷ []

module _ (settings : MailSettings) (outside : Outside) (now : ℕ) where
  abbrev pub queued_log : SendEmailInput → ℕ → EmailLog
  queued_log input drawn = record {
    id = outside.uuid drawn;
    to_email = input.message.to;
    subject = input.message.subject;
    template = input.template;
    status = queued;
    provider = outside.provider_name;
    provider_message_id = none;
    job_alert_id = input.job_alert_id;
    user_id = input.user_id;
    sent_at = none;
    error_message = none;
  }

  abbrev pub sent_log : Option String → EmailLog → EmailLog
  sent_log message_id l = record l {
    status = sent;
    provider_message_id = message_id;
    sent_at = some now;
  }

  abbrev pub failed_log : Text → EmailLog → EmailLog
  failed_log message l = record l { status = failed; error_message = some message }

  -- The row of the log, once the provider has answered.
  abbrev pub log_answer :
      ℕ
      → EmailMessage
      → Attempt Text (Option String)
      → MailStore
      → MailStore × Attempt Text (Option String)
  log_answer id message (ok message_id) s = (
    record s {
      logs = update_where (λ l. l.id == id) (sent_log message_id) s.logs;
      accepted = s.accepted ++ message ∷ [];
    },
    ok message_id,
  )
  log_answer id message (error e) s =
      (record s { logs = update_where (λ l. l.id == id) (failed_log e) s.logs }, error e)

  -- The row is written before the message is handed over; the answer of the provider is passed on.
  unfoldable pub send : SendEmailInput → MailStore → MailStore × Attempt Text (Option String)
  send input s =
      log_answer (outside.uuid s.drawn) input.message (outside.provider input.message)
        (record s { logs = s.logs ++ queued_log input s.drawn ∷ []; drawn = suc s.drawn })

  abbrev pub unsubscribe_url : JobAlert → Text
  unsubscribe_url a =
      without_slash settings.public_api_url
      ++ (codes "/"
          ++ (settings.api_prefix
              ++ (codes "/v1/alerts/unsubscribe?token="
                  ++ outside.encode_uri_component (codes a.unsubscribe_token))))

  abbrev pub email_input : JobAlert → List Job → MailStore → JobAlertEmailInput
  email_input a jobs s = record {
    locale = locale_of (find_user a.user_id s.users);
    alert_name = codes a.name;
    jobs = jobs;
    labels = s.items;
    web_url = without_slash settings.public_web_url;
    manage_url = without_slash settings.public_web_url ++ codes "/alerts";
    unsubscribe_url = unsubscribe_url a;
  }

  unfoldable pub send_input : EmailKind → JobAlert → List Job → MailStore → SendEmailInput
  unfolding build_subject build_html build_text without_slash unsubscribe_headers find_user
  send_input kind a jobs s =
      let input = email_input a jobs s in
      record {
        message = record {
          to = a.notification_email;
          subject = build_subject input;
          html = build_html outside.intl_date outside.format_number outside.uuid_text input;
          text = build_text outside.intl_date outside.format_number outside.uuid_text input;
          headers = unsubscribe_headers (unsubscribe_url a) settings.reply_to;
        };
        template = template_of kind;
        job_alert_id = some a.id;
        user_id = some a.user_id;
      }

  abbrev pub pending_ids : List JobAlertMatch → List ℕ
  pending_ids = map (λ m. m.id)

  abbrev pub marked : JobAlertMatch → JobAlertMatch
  marked m = record m { notified_at = some now }

  abbrev pub mailed : JobAlert → JobAlert
  mailed a = record a { last_sent_at = some now }

  -- The matches are marked only after the message was accepted.
  abbrev pub mark_sent :
      JobAlert
      → List JobAlertMatch
      → List Job
      → MailStore × Attempt Text (Option String)
      → MailStore × Attempt Text ℕ
  mark_sent a pending jobs (s, error e) = (s, error e)
  mark_sent a pending jobs (s, ok message_id) = (
    record s {
      matches = update_where (λ m. is_among (pending_ids pending) m.id) marked s.matches;
      alerts = update_where (λ b. b.id == a.id) mailed s.alerts;
    },
    ok (length jobs),
  )

  abbrev pub send_jobs :
      EmailKind → JobAlert → List JobAlertMatch → List Job → MailStore → MailStore × Attempt Text ℕ
  send_jobs kind a pending [] s = (s, ok 0)
  send_jobs kind a pending (j ∷ jobs) s =
      mark_sent a pending (j ∷ jobs) (send (send_input kind a (j ∷ jobs) s) s)

  abbrev pub jobs_of : List JobAlertMatch → List Job → List Job
  jobs_of pending jobs =
      by_end (filter (λ j. is_among (map (λ (m : JobAlertMatch). m.job_id) pending) j.id) jobs)

  abbrev pub send_pending :
      EmailKind → JobAlert → List JobAlertMatch → MailStore → MailStore × Attempt Text ℕ
  send_pending kind a [] s = (s, ok 0)
  send_pending kind a (m ∷ pending) s =
      send_jobs kind a (m ∷ pending) (jobs_of (m ∷ pending) s.jobs) s

  abbrev pub pending_among : List ℕ → List JobAlertMatch → List JobAlertMatch
  pending_among match_ids matches =
      filter is_unnotified (filter (λ m. is_among match_ids m.id) matches)

  abbrev pub process_alert : EmailJob → Option JobAlert → MailStore → MailStore × Attempt Text ℕ
  process_alert job none s = (s, ok 0)
  process_alert job (some a) s =
      if not a.is_active
      then (s, ok 0)
      else send_pending job.kind a (pending_among job.match_ids s.matches) s

  unfoldable pub process : EmailJob → MailStore → MailStore × Attempt Text ℕ
  unfolding send send_input by_end find_alert
  process job s = process_alert job (find_alert job.job_alert_id s.alerts) s
