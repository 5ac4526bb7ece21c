-- ===== src/Emails.antt =====
-- The emails of alerts: src/modules/email/templates/job-alert.template.ts. How Intl prints a date
-- and a number in a locale, and the text of a UUID, are parameters.
pub mod Escaping
mod Tests
use gov_jobs_backend.Base.{
  ℕ, ◌+◌, Bool, true, false, ◌&&◌, Option, none, some, List, [], ◌∷◌, ◌++◌, map, length, take, ◌==◌,
  if◌then◌else◌, Text, codes, print_number,
}
use gov_jobs_backend.Models.{Job, JobSource}
use gov_jobs_backend.Matching.{replace_all}
use gov_jobs_backend.Notifications.{join_with}

pub data EmailLocale : Type 0 where
  th en : EmailLocale

-- src/models/reference/entities/reference-item.entity.ts.
pub data ReferenceKind : Type 0 where
  province education_level job_type job_category job_level job_selection job_condition :
      ReferenceKind

pub record ReferenceItem : Type 0 where
  pub source : JobSource
  pub kind : ReferenceKind
  pub external_id : ℕ
  pub name_th : Text
  pub name_en : Option Text
  pub sort_order : ℕ

pub record JobAlertEmailInput : Type 0 where
  pub locale : EmailLocale
  pub alert_name : Text
  pub jobs : List Job
  pub labels : List ReferenceItem
  pub web_url : Text
  pub manage_url : Text
  pub unsubscribe_url : Text

pub record EmailCopy : Type 0 where
  pub subject_one : Text → Text
  pub subject_many : Text → ℕ → Text
  pub intro : Text → ℕ → Text
  pub agency : Text
  pub job_type : Text
  pub education : Text
  pub province : Text
  pub nationwide : Text
  pub period : Text
  pub salary : Text
  pub salary_unit : Text
  pub view_source : Text
  pub view_on_site : Text
  pub manage : Text
  pub unsubscribe : Text
  pub footer : Text
  pub unspecified : Text

unfoldable pub concat_texts : List Text → Text
concat_texts [] = []
concat_texts (t ∷ ts) = t ++ concat_texts ts

unfoldable pub copy_of : EmailLocale → EmailCopy
unfolding concat_texts
copy_of th = record {
  subject_one = λ title. concat_texts (title ∷ codes " — ประกาศใหม่ที่ตรงกับคุณ" ∷ []);
  subject_many = λ title rest. concat_texts (
      title
      ∷ codes " และอีก "
      ∷ print_number rest
      ∷ codes " ตำแหน่ง — ประกาศใหม่ที่ตรงกับคุณ"
      ∷ []);
  intro = λ alert_name count. concat_texts (
      codes "มีประกาศรับสมัครงานราชการ "
      ∷ print_number count
      ∷ codes " ตำแหน่งที่ตรงกับการแจ้งเตือน “"
      ∷ alert_name
      ∷ codes "” ของคุณ"
      ∷ []);
  agency = codes "หน่วยงาน";
  job_type = codes "ประเภทตำแหน่ง";
  education = codes "วุฒิการศึกษา";
  province = codes "จังหวัด";
  nationwide = codes "ทั่วประเทศ";
  period = codes "ช่วงรับสมัคร";
  salary = codes "เงินเดือน";
  salary_unit = codes "บาท/เดือน";
  view_source = codes "ดูประกาศต้นทาง";
  view_on_site = codes "ดูรายละเอียดบนเว็บไซต์";
  manage = codes "จัดการการแจ้งเตือน";
  unsubscribe = codes "ยกเลิกการแจ้งเตือนนี้";
  footer =
      codes
        "อีเมลนี้ส่งเพราะคุณตั้งการแจ้งเตือนไว้ในบัญชีของคุณ · GovScout เป็นระบบอิสระที่รวบรวมประกาศสาธารณะจากเว็บไซต์ของหน่วยงานราชการ ไม่ใช่ระบบของหน่วยงานราชการใด กรุณายึดประกาศต้นฉบับเป็นหลัก";
  unspecified = codes "ไม่ระบุ";
}
copy_of en = record {
  subject_one = λ title. concat_texts (title ∷ codes " — a new matching announcement" ∷ []);
  subject_many = λ title rest.
      concat_texts (
        title
        ∷ codes " and "
        ∷ print_number rest
        ∷ codes " more — new matching announcements"
        ∷ []);
  intro = λ alert_name count. concat_texts (
      print_number count
      ∷ codes " government job announcement(s) match your alert “"
      ∷ alert_name
      ∷ codes "”."
      ∷ []);
  agency = codes "Agency";
  job_type = codes "Position type";
  education = codes "Education";
  province = codes "Province";
  nationwide = codes "Nationwide";
  period = codes "Application period";
  salary = codes "Salary";
  salary_unit = codes "THB / month";
  view_source = codes "View the original announcement";
  view_on_site = codes "See details on the site";
  manage = codes "Manage your alerts";
  unsubscribe = codes "Unsubscribe from this alert";
  footer =
      codes
        "You are receiving this because you created an alert on your account. GovScout is an independent aggregator of public announcements from Thai government websites, not a government service. The original announcement is authoritative.";
  unspecified = codes "Not specified";
}

-- The replacements in the order of the code.
unfoldable pub escape_html : Text → Text
unfolding replace_all
escape_html value = replace_all b'"' (codes "&quot;") (
    replace_all b'>' (codes "&gt;")
      (replace_all b'<' (codes "&lt;") (replace_all b'&' (codes "&amp;") value)))

abbrev pub same_kind : ReferenceKind → ReferenceKind → Bool
same_kind province province = true
same_kind education_level education_level = true
same_kind job_type job_type = true
same_kind job_category job_category = true
same_kind job_level job_level = true
same_kind job_selection job_selection = true
same_kind job_condition job_condition = true
same_kind _ _ = false

-- `new Map(…)` keeps the last item of a key.
unfoldable pub find_item : ReferenceKind → ℕ → List ReferenceItem → Option ReferenceItem
find_item kind id [] = none
find_item kind id (item ∷ labels) = elim (find_item kind id labels) [
  | some later ↦ some later
  | none ↦ if item.external_id == id && same_kind item.kind kind then some item else none
]

abbrev pub or_text : Option Text → Text → Text
or_text none fallback = fallback
or_text (some t) fallback = t

abbrev pub name_in : EmailLocale → Option ReferenceItem → Option Text
name_in locale none = none
name_in th (some item) = some item.name_th
name_in en (some item) = some (or_text item.name_en item.name_th)

unfoldable pub label : List ReferenceItem → ReferenceKind → Option ℕ → EmailLocale → Option Text
unfolding find_item
label labels kind none locale = none
label labels kind (some id) locale =
    if id == 0 then none else name_in locale (find_item kind id labels)

-- `!value`: null and 0.
abbrev pub amount : Option ℕ → Option ℕ
amount none = none
amount (some n) = if n == 0 then none else some n

-- `a ?? b`.
abbrev pub either_number : Option ℕ → Option ℕ → ℕ
either_number (some n) other = n
either_number none (some n) = n
either_number none none = 0

-- `.filter(Boolean)`.
abbrev pub present : List (Option Text) → List Text
present [] = []
present (none ∷ ts) = present ts
present (some [] ∷ ts) = present ts
present (some (c ∷ t) ∷ ts) = (c ∷ t) ∷ present ts

-- `text || fallback`.
abbrev pub non_empty_or : Text → Text → Text
non_empty_or [] fallback = fallback
non_empty_or (c ∷ t) fallback = c ∷ t

pub record Field : Type 0 where
  pub label : Text
  pub value : Text

unfoldable pub build_subject : JobAlertEmailInput → Text
unfolding copy_of
build_subject input = subject_of input.jobs
  where
    subject_of : List Job → Text
    subject_of [] = input.alert_name
    subject_of (first ∷ []) = (copy_of input.locale).subject_one first.content.title
    subject_of (first ∷ next ∷ rest) =
        (copy_of input.locale).subject_many first.content.title (length (next ∷ rest))

abbrev pub locale_code : EmailLocale → Text
locale_code th = codes "th"
locale_code en = codes "en"

module _ (intl_date : EmailLocale → Text → Option Text) (format_number : EmailLocale → ℕ → Text)
    (uuid_text : ℕ → Text) where
  -- `formatDate` of src/shared/utils/date.util.ts on a text.
  unfoldable pub format_date : Option Text → EmailLocale → Text
  format_date none locale = codes "—"
  format_date (some []) locale = codes "—"
  format_date (some (c ∷ t)) locale = or_text (intl_date locale (take 10 (c ∷ t))) (codes "—")

  abbrev pub salary_between : EmailLocale → Job → Option ℕ → Option ℕ → Option Text
  salary_between locale job none none = none
  salary_between locale job (some low) (some high) =
      if low == high
      then some (format_number locale (either_number job.content.salary_min job.content.salary_max))
      else some (format_number locale low ++ (codes "–" ++ format_number locale high))
  salary_between locale job (some low) none =
      some (format_number locale (either_number job.content.salary_min job.content.salary_max))
  salary_between locale job none (some high) =
      some (format_number locale (either_number job.content.salary_min job.content.salary_max))

  unfoldable pub salary_range : Job → EmailLocale → Option Text
  salary_range job locale =
      salary_between locale job (amount job.content.salary_min) (amount job.content.salary_max)

  -- The labels of some ids, or the fallback where there are no ids.
  unfoldable pub labels_or : JobAlertEmailInput → ReferenceKind → Text → List ℕ → Text
  unfolding label join_with
  labels_or input kind fallback [] = fallback
  labels_or input kind fallback (id ∷ ids) =
      join_with (codes ", ")
        (present (map (λ i. label input.labels kind (some i) input.locale) (id ∷ ids)))

  abbrev pub salary_field : EmailLocale → Option Text → List Field
  salary_field locale none = []
  salary_field locale (some []) = []
  salary_field locale (some (c ∷ t)) =
      record {
        label = (copy_of locale).salary;
        value = (c ∷ t) ++ (codes " " ++ (copy_of locale).salary_unit);
      }
      ∷ []

  abbrev pub agency_line : Text → Option Text → Text
  agency_line agency none = agency
  agency_line agency (some []) = agency
  agency_line agency (some (c ∷ t)) = agency ++ (codes " · " ++ (c ∷ t))

  unfoldable pub job_fields : Job → JobAlertEmailInput → List Field
  unfolding copy_of label labels_or format_date salary_range
  job_fields job input =
      let copy = copy_of input.locale in
      let provinces = labels_or input province copy.nationwide job.content.province_ids in
      let educations =
        labels_or input education_level copy.unspecified job.content.education_level_ids in
      record { label = copy.agency; value = agency_line job.content.agency job.content.ministry }
      ∷ record {
        label = copy.job_type;
        value =
            or_text (label input.labels job_type job.content.job_type_id input.locale)
              copy.unspecified;
      }
      ∷ record { label = copy.education; value = non_empty_or educations copy.unspecified }
      ∷ record { label = copy.province; value = non_empty_or provinces copy.unspecified }
      ∷ record {
        label = copy.period;
        value =
            format_date job.content.application_start input.locale
            ++ (codes " – " ++ format_date job.content.application_end input.locale);
      }
      ∷ salary_field input.locale (salary_range job input.locale)

  abbrev pub job_url : Job → JobAlertEmailInput → Text
  job_url job input = input.web_url ++ (codes "/jobs/" ++ uuid_text job.id)

  unfoldable pub text_lines : JobAlertEmailInput → List Job → List Text
  unfolding job_fields copy_of
  text_lines input [] = []
  text_lines input (job ∷ jobs) =
      (codes "■ " ++ job.content.title)
      ∷ (map (λ (f : Field). codes "  " ++ (f.label ++ (codes ": " ++ f.value)))
            (job_fields job input)
          ++ ((codes "  "
                ++ ((copy_of input.locale).view_source
                    ++ (codes ": " ++ codes job.content.source_url)))
              ∷ (codes "  "
                  ++ ((copy_of input.locale).view_on_site ++ (codes ": " ++ job_url job input)))
              ∷ []
              ∷ text_lines input jobs))

  unfoldable pub build_text : JobAlertEmailInput → Text
  unfolding text_lines copy_of join_with
  build_text input =
      let copy = copy_of input.locale in
      join_with (codes "\n") (
        copy.intro input.alert_name (length input.jobs)
        ∷ []
        ∷ (text_lines input input.jobs
            ++ ((copy.manage ++ (codes ": " ++ input.manage_url))
                ∷ (copy.unsubscribe ++ (codes ": " ++ input.unsubscribe_url))
                ∷ []
                ∷ copy.footer
                ∷ [])))

  unfoldable pub html_row : Field → Text
  unfolding escape_html concat_texts
  html_row f = concat_texts (
      codes
        "<tr><td style=\"padding:2px 12px 2px 0;color:#6b7280;font-size:13px;white-space:nowrap;vertical-align:top\">"
      ∷ escape_html f.label
      ∷ codes "</td><td style=\"padding:2px 0;font-size:13px\">"
      ∷ escape_html f.value
      ∷ codes "</td></tr>"
      ∷ [])

  unfoldable pub html_card : Job → JobAlertEmailInput → Text
  unfolding html_row job_fields escape_html concat_texts copy_of
  html_card job input = concat_texts (
      codes
        "\n\t\t\t<div style=\"border:1px solid #e5e7eb;border-radius:12px;padding:16px;margin-bottom:12px\">\n\t\t\t\t<div style=\"font-weight:600;font-size:16px;line-height:1.5;margin-bottom:8px\">"
      ∷ escape_html job.content.title
      ∷ codes "</div>\n\t\t\t\t<table style=\"border-collapse:collapse\">"
      ∷ concat_texts (map html_row (job_fields job input))
      ∷ codes "</table>\n\t\t\t\t<div style=\"margin-top:12px\">\n\t\t\t\t\t<a href=\""
      ∷ escape_html (codes job.content.source_url)
      ∷ codes
          "\" style=\"display:inline-block;background:#4f46e5;color:#fff;text-decoration:none;padding:8px 14px;border-radius:8px;font-size:13px\">"
      ∷ escape_html (copy_of input.locale).view_source
      ∷ codes "</a>\n\t\t\t\t\t<a href=\""
      ∷ escape_html (job_url job input)
      ∷ codes
          "\" style=\"display:inline-block;color:#4f46e5;text-decoration:none;padding:8px 10px;font-size:13px\">"
      ∷ escape_html (copy_of input.locale).view_on_site
      ∷ codes "</a>\n\t\t\t\t</div>\n\t\t\t</div>"
      ∷ [])

  unfoldable pub build_html : JobAlertEmailInput → Text
  unfolding html_card escape_html concat_texts copy_of
  build_html input = concat_texts (
      codes "<!doctype html>\n<html lang=\""
      ∷ locale_code input.locale
      ∷ codes
          "\">\n<head><meta charset=\"utf-8\"><meta name=\"viewport\" content=\"width=device-width,initial-scale=1\"></head>\n<body style=\"margin:0;padding:24px 12px;background:#f9fafb;font-family:'Noto Sans Thai','Sarabun','Leelawadee UI','Tahoma',-apple-system,BlinkMacSystemFont,'Segoe UI',sans-serif;color:#111827\">\n\t<div style=\"max-width:620px;margin:0 auto\">\n\t\t<p style=\"font-size:15px;line-height:1.6;margin:0 0 16px\">"
      ∷ escape_html ((copy_of input.locale).intro input.alert_name (length input.jobs))
      ∷ codes "</p>\n\t\t"
      ∷ concat_texts (map (λ job. html_card job input) input.jobs)
      ∷ codes "\n\t\t<p style=\"margin:20px 0 0;font-size:13px\">\n\t\t\t<a href=\""
      ∷ escape_html input.manage_url
      ∷ codes "\" style=\"color:#4f46e5\">"
      ∷ escape_html (copy_of input.locale).manage
      ∷ codes "</a>\n\t\t\t<span style=\"color:#9ca3af\"> · </span>\n\t\t\t<a href=\""
      ∷ escape_html input.unsubscribe_url
      ∷ codes "\" style=\"color:#4f46e5\">"
      ∷ escape_html (copy_of input.locale).unsubscribe
      ∷ codes
          "</a>\n\t\t</p>\n\t\t<p style=\"margin:12px 0 0;color:#6b7280;font-size:12px;line-height:1.6\">"
      ∷ escape_html (copy_of input.locale).footer
      ∷ codes "</p>\n\t</div>\n</body>\n</html>"
      ∷ [])
