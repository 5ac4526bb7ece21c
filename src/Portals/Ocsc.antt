-- ===== src/Portals/Ocsc.antt =====
-- OCSC: src/modules/crawler/ocsc/ocsc.normalizer.ts with ocsc.types.ts, and `crawl` and `fetchJson`
-- of ocsc.crawler.ts. What a body is as JSON is the parameter `parse`, the text of the stored
-- payload is `payload`, and `new Date(text)` is `date_of`.
use gov_jobs_backend.Base.{
  ℕ, Bool, Option, none, some, List, [], ◌∷◌, ◌++◌, length, if◌then◌else◌, Attempt, ok, error,
  String, Text, codes, native_text, starts_with, print_number,
}
use mathlib.Core.List.{reverse, map}
use gov_jobs_backend.Dates.{string as date_text, missing, to_date_string, DateValue}
use gov_jobs_backend.Models.{JobContent, ocsc, announcement_pdf, other}
use gov_jobs_backend.Crawler.{NormalizedJob, NormalizedAttachment}
use gov_jobs_backend.CrawlRuns.{CrawlResult}
use gov_jobs_backend.Notifications.{join_with}
use gov_jobs_backend.Emails.{or_text}
use gov_jobs_backend.Patterns.{fold_case}
use gov_jobs_backend.Portals.{
  Fault, source_unavailable, job_validation, unexpected, FetchResponse, Wire, strip_slash,
  read_body, no_response, response, returned, fetch,
}
use gov_jobs_backend.Portals.Normal.{Draft, with_hash}
use gov_jobs_backend.Portals.Values.{
  Value, scalar, array, object, text, join_text, int, int_array, scalar_text,
  parse_bangkok_timestamp,
}
use gov_jobs_backend.Portals.Listings.{reason, with_job}

pub record OcscRawJob : Type 0 where
  pub id : Value
  pub seal : Value
  pub department_id : Value
  pub department : Value
  pub ministry : Value
  pub job_category_id : Value
  pub job_category_other : Value
  pub job_selection_id : Value
  pub job_selection_other : Value
  pub job_condition_id : Value
  pub job_condition_other : Value
  pub application_start : Value
  pub application_end : Value
  pub url : Value
  pub file_name : Value
  pub position : Value
  pub job_type_id : Value
  pub job_type_other : Value
  pub job_level_id : Value
  pub job_level_other : Value
  pub province_ids : Value
  pub salary_min : Value
  pub salary_max : Value
  pub position_amount : Value
  pub education_level_ids : Value
  pub education_level_other : Value
  pub civil_job_education : Value
  pub civil_job_description : Value
  pub civil_job_knowledge : Value
  pub civil_job_skill : Value
  pub employee_job_specification : Value
  pub employee_job_description : Value
  pub employee_job_knowledge1 : Value
  pub employee_job_knowledge2 : Value
  pub employee_job_skill1 : Value
  pub employee_job_skill2 : Value
  pub employee_job_competency1 : Value
  pub employee_job_competency2 : Value
  pub employee_job_criteria : Value
  pub create_date : Value
  pub exam_date : Value
  pub interview_date : Value

-- `a ?? b`
abbrev pub or_second : Option Text → Option Text → Option Text
or_second none b = b
or_second (some a) b = some a

abbrev pub native_or_none : Option Text → Option String
native_or_none none = none
native_or_none (some t) = some (native_text t)

abbrev pub date_of_text : Option Text → DateValue
date_of_text none = missing
date_of_text (some t) = date_text t

-- `fileName.toLowerCase().endsWith(".pdf")`
unfoldable pub is_pdf : Text → Bool
unfolding starts_with
is_pdf file_name = starts_with (codes "fdp.") (reverse (map fold_case file_name))

unfoldable pub ocsc_attachments : Option Text → List NormalizedAttachment
unfolding is_pdf native_text
ocsc_attachments none = []
ocsc_attachments (some file_name) =
    record {
      name = "ประกาศรับสมัคร";
      url = native_text file_name;
      type = if is_pdf file_name then announcement_pdf else other;
    }
    ∷ []

module _ (nfc : Text → Text) (sha256 : Text → String) (date_of : Text → Option ℕ)
    (payload : OcscRawJob → String) (portal_base_url : Text) where
  unfoldable pub ocsc_content : OcscRawJob → ℕ → Text → Text → JobContent
  unfolding text join_text int int_array to_date_string parse_bangkok_timestamp strip_slash
      native_text print_number
  ocsc_content raw external_id title agency = record {
    title = title;
    agency = agency;
    ministry = text raw.ministry;
    agency_external_id = int raw.department_id;
    agency_seal_url = native_or_none (text raw.seal);
    job_category_id = int raw.job_category_id;
    job_category_other = text raw.job_category_other;
    job_type_id = int raw.job_type_id;
    job_type_other = text raw.job_type_other;
    job_level_id = int raw.job_level_id;
    job_level_other = text raw.job_level_other;
    job_selection_id = int raw.job_selection_id;
    job_selection_other = text raw.job_selection_other;
    job_condition_id = int raw.job_condition_id;
    job_condition_other = text raw.job_condition_other;
    province_ids = int_array raw.province_ids;
    education_level_ids = int_array raw.education_level_ids;
    education_level_other = text raw.education_level_other;
    description = or_second (text raw.civil_job_description) (text raw.employee_job_description);
    education_requirements =
        or_second (text raw.civil_job_education) (text raw.employee_job_specification);
    knowledge =
        or_second (text raw.civil_job_knowledge)
          (join_text (raw.employee_job_knowledge1 ∷ raw.employee_job_knowledge2 ∷ []));
    skill =
        or_second (text raw.civil_job_skill)
          (join_text (raw.employee_job_skill1 ∷ raw.employee_job_skill2 ∷ []));
    competency = join_text (raw.employee_job_competency1 ∷ raw.employee_job_competency2 ∷ []);
    criteria = text raw.employee_job_criteria;
    salary_min = int raw.salary_min;
    salary_max = int raw.salary_max;
    position_amount = int raw.position_amount;
    application_start = to_date_string (date_of_text (text raw.application_start));
    application_end = to_date_string (date_of_text (text raw.application_end));
    exam_date = to_date_string (date_of_text (text raw.exam_date));
    interview_date = to_date_string (date_of_text (text raw.interview_date));
    published_at = parse_bangkok_timestamp date_of (text raw.create_date);
    source_url =
        native_text (strip_slash portal_base_url ++ (codes "/jobs/" ++ print_number external_id));
    apply_url = native_or_none (text raw.url);
    raw_payload = payload raw;
  }

  unfoldable pub ocsc_draft : OcscRawJob → ℕ → Text → Text → Draft
  unfolding ocsc_content text ocsc_attachments native_text print_number
  ocsc_draft raw external_id title agency = record {
    source = ocsc;
    external_id = native_text (print_number external_id);
    content = ocsc_content raw external_id title agency;
    attachments = ocsc_attachments (text raw.file_name);
  }

  unfoldable pub normalize_ocsc_job : OcscRawJob → Attempt Fault NormalizedJob
  unfolding int text ocsc_draft with_hash
  normalize_ocsc_job raw = elim (int raw.id) [
    | none ↦ error (job_validation (codes "missing id"))
    | some external_id ↦ elim (text raw.position) [
      | none ↦ error (job_validation (codes "missing position"))
      | some title ↦ elim (text raw.department) [
        | none ↦ error (job_validation (codes "missing department"))
        | some agency ↦ ok (with_hash nfc sha256 (ocsc_draft raw external_id title agency))
      ]
    ]
  ]

  -- An element of the list; null has no properties to read.
  unfoldable pub normalize_entry : Option OcscRawJob → Attempt Fault NormalizedJob
  unfolding normalize_ocsc_job
  normalize_entry none = error (unexpected (codes "Cannot read properties of null"))
  normalize_entry (some raw) = normalize_ocsc_job raw

  abbrev pub id_text : Value → Option Text
  id_text (scalar s) = scalar_text s
  id_text (array values) =
      some (join_with (codes ",") (map (λ s. or_text (scalar_text s) []) values))
  id_text object = some (codes "[object Object]")

  -- `entry?.id != null ? String(entry.id) : null`
  unfoldable pub entry_id : Option OcscRawJob → Option String
  unfolding scalar_text native_text join_with
  entry_id none = none
  entry_id (some raw) = native_or_none (id_text raw.id)

  abbrev pub add_normalized :
      Option String → Attempt Fault NormalizedJob → CrawlResult → CrawlResult
  add_normalized external_id (ok job) r = with_job job r
  add_normalized external_id (error e) r = record r {
    rejected = record { external_id = external_id; reason = reason e } ∷ r.rejected;
  }

  unfoldable pub normalize_all : List (Option OcscRawJob) → CrawlResult
  unfolding normalize_entry entry_id
  normalize_all [] = record { jobs = []; rejected = []; total_found = 0 }
  normalize_all (e ∷ es) = add_normalized (entry_id e) (normalize_entry e) (normalize_all es)

-- `fetchJson`: the messages name the path, the request goes to the whole URL.
module _ {ℓ} {A : Type ℓ} (parse : Text → Option A) where
  abbrev pub no_body : Text → FetchResponse → Fault
  no_body path (no_response e) = unexpected e
  no_body path (response is_ok status body) = returned path status (codes " with no body")

  unfoldable pub read_json : Text → FetchResponse → Attempt Fault A
  unfolding read_body
  read_json path r = elim (read_body path (no_body path r) r) [
    | error e ↦ error e
    | ok body ↦ elim (parse body) [
      | some v ↦ ok v
      | none ↦
          error (
            source_unavailable
              (codes "GET " ++ (path ++ codes " returned a body that is not JSON")))
    ]
  ]

  module _ (answer : ℕ → Text → FetchResponse) (api_base_url : Text) where
    unfoldable pub fetch_json : Text → Wire → Attempt Fault A × Wire
    unfolding fetch read_json strip_slash
    fetch_json path = fetch answer 0 path (strip_slash api_base_url ++ path) (read_json path)

-- What a body was as JSON: a list of announcements, or something else.
pub data Payload : Type 0 where
  jobs_listed : List (Option OcscRawJob) → Payload
  not_a_list : Payload

abbrev pub jobs_path : Text
jobs_path = codes "/portal/jobs"

module _ (nfc : Text → Text) (sha256 : Text → String) (date_of : Text → Option ℕ)
    (payload : OcscRawJob → String) (portal_base_url api_base_url : Text)
    (parse : Text → Option Payload) (answer : ℕ → Text → FetchResponse) where
  abbrev pub crawl_payload : Payload → Attempt Fault CrawlResult
  crawl_payload not_a_list =
      error (source_unavailable (codes "GET /portal/jobs did not return an array"))
  crawl_payload (jobs_listed []) =
      error (source_unavailable (codes "GET /portal/jobs returned an empty list"))
  crawl_payload (jobs_listed (e ∷ es)) =
      ok (record (normalize_all nfc sha256 date_of payload portal_base_url (e ∷ es)) {
        total_found = length (e ∷ es);
      })

  unfoldable pub crawl_ocsc : Wire → Attempt Fault CrawlResult × Wire
  unfolding fetch_json normalize_all
  crawl_ocsc w =
      let (raw, w') = fetch_json parse answer api_base_url jobs_path w in
      (elim raw [ error e ↦ error e | ok p ↦ crawl_payload p ], w')
