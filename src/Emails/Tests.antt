-- ===== src/Emails/Tests.antt =====
-- An email about one announcement, and a title with markup in it.
use gov_jobs_backend.Base.{
  ℕ, ◌≡◌, refl, true, none, [], ◌∷◌, All, Option, Text, codes, print_number, includes,
}
use gov_jobs_backend.Samples.{job}
use gov_jobs_backend.Emails.{
  EmailLocale, en, JobAlertEmailInput, escape_html, build_subject, build_html,
}
use gov_jobs_backend.Emails.Escaping.{is_plain, unescape_html, unescape_html-escape_html}

abbrev titled : Text
titled = codes "<b>IT & \"data\"</b>"

unescape_html-escape_html_example :
    (unescape_html (escape_html titled) ≡ titled)
    × All (λ c. is_plain c ≡ true) (escape_html titled)
unescape_html-escape_html_example = unescape_html-escape_html titled

abbrev input : JobAlertEmailInput
input = record {
  locale = en;
  alert_name = codes "lands";
  jobs = job ∷ [];
  labels = [];
  web_url = codes "https://example.org";
  manage_url = codes "https://example.org/alerts";
  unsubscribe_url = codes "https://example.org/off";
}

abbrev printed_date : EmailLocale → Text → Option Text
printed_date locale t = none

abbrev printed_number : EmailLocale → ℕ → Text
printed_number locale n = print_number n

subject_of_one :
    build_subject input ≡ codes "Officer (50% field work) — a new matching announcement"
unfolding build_subject
subject_of_one = refl

html_has_title :
    includes
      (codes "https://example.org/jobs/1")
      (build_html printed_date printed_number print_number input)
    ≡ true
unfolding build_html print_number includes
html_has_title = refl
