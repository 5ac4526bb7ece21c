-- ===== src/Portals/Normal.antt =====
-- What every portal's announcements go through before they are stored:
-- src/modules/crawler/normalization.ts. SHA-256 is a parameter; JSON texts are written as
-- `JSON.stringify` writes them.
use gov_jobs_backend.Base.{
  ℕ, ◌+◌, ◌/◌, ◌%◌, ◌||◌, Option, none, some, List, [], ◌∷◌, ◌++◌, map, ◌==◌, ltb, if◌then◌else◌,
  String, Text, text_lt, codes, native_text, print_number,
}
use gov_jobs_backend.ThaiText.{normalize_thai_text}
use gov_jobs_backend.Models.{JobSource, JobContent}
use gov_jobs_backend.Crawler.{NormalizedJob, NormalizedAttachment}

-- `Omit<NormalizedJob, "contentHash">`
pub record Draft : Type 0 where
  pub source : JobSource
  pub external_id : String
  pub content : JobContent
  pub attachments : List NormalizedAttachment

pub data Json : Type 0 where
  null : Json
  number : ℕ → Json
  string : Text → Json
  numbers : List ℕ → Json

abbrev pub json_number : Option ℕ → Json
json_number none = null
json_number (some n) = number n

abbrev pub json_text : Option Text → Json
json_text none = null
json_text (some t) = string t

abbrev pub json_string : Option String → Json
json_string none = null
json_string (some t) = string (codes t)

abbrev pub HashedField : Type 0
HashedField = Text × Json

-- `HASHED_FIELDS`, with the values of an announcement.
unfoldable pub hashed_fields : JobContent → List HashedField
hashed_fields c =
    (codes "title", string c.title)
    ∷ (codes "agency", string c.agency)
    ∷ (codes "ministry", json_text c.ministry)
    ∷ (codes "agencyExternalId", json_number c.agency_external_id)
    ∷ (codes "agencySealUrl", json_string c.agency_seal_url)
    ∷ (codes "jobCategoryId", json_number c.job_category_id)
    ∷ (codes "jobCategoryOther", json_text c.job_category_other)
    ∷ (codes "jobTypeId", json_number c.job_type_id)
    ∷ (codes "jobTypeOther", json_text c.job_type_other)
    ∷ (codes "jobLevelId", json_number c.job_level_id)
    ∷ (codes "jobLevelOther", json_text c.job_level_other)
    ∷ (codes "jobSelectionId", json_number c.job_selection_id)
    ∷ (codes "jobSelectionOther", json_text c.job_selection_other)
    ∷ (codes "jobConditionId", json_number c.job_condition_id)
    ∷ (codes "jobConditionOther", json_text c.job_condition_other)
    ∷ (codes "provinceIds", numbers c.province_ids)
    ∷ (codes "educationLevelIds", numbers c.education_level_ids)
    ∷ (codes "educationLevelOther", json_text c.education_level_other)
    ∷ (codes "description", json_text c.description)
    ∷ (codes "educationRequirements", json_text c.education_requirements)
    ∷ (codes "knowledge", json_text c.knowledge)
    ∷ (codes "skill", json_text c.skill)
    ∷ (codes "competency", json_text c.competency)
    ∷ (codes "criteria", json_text c.criteria)
    ∷ (codes "salaryMin", json_number c.salary_min)
    ∷ (codes "salaryMax", json_number c.salary_max)
    ∷ (codes "positionAmount", json_number c.position_amount)
    ∷ (codes "applicationStart", json_text c.application_start)
    ∷ (codes "applicationEnd", json_text c.application_end)
    ∷ (codes "examDate", json_text c.exam_date)
    ∷ (codes "interviewDate", json_text c.interview_date)
    ∷ (codes "applyUrl", json_string c.apply_url)
    ∷ []

-- `sort()` on the names.
unfoldable pub insert_field : HashedField → List HashedField → List HashedField
insert_field f [] = f ∷ []
insert_field f (g ∷ gs) = if text_lt g.0 f.0 then g ∷ insert_field f gs else f ∷ g ∷ gs

unfoldable pub sort_fields : List HashedField → List HashedField
unfolding insert_field
sort_fields [] = []
sort_fields (f ∷ fs) = insert_field f (sort_fields fs)

abbrev pub hex_digit : ℕ → ℕ
hex_digit n = if ltb n 10 then 48 + n else 87 + n

-- `\uXXXX`
abbrev pub escaped_unit : ℕ → Text
escaped_unit c =
    b'\\'
    ∷ b'u'
    ∷ hex_digit (c / 4096)
    ∷ hex_digit (c / 256 % 16)
    ∷ hex_digit (c / 16 % 16)
    ∷ hex_digit (c % 16)
    ∷ []

-- No text holds half of a surrogate pair. A unit below U+0020, a quotation mark or a reverse
-- solidus, in a JSON text.
unfoldable pub quoted_unit : ℕ → Text
quoted_unit c =
    if c == 34 || c == 92
    then 92 ∷ c ∷ []
    else if c == 8
    then codes "\\b"
    else if c == 9
    then codes "\\t"
    else if c == 10
    then codes "\\n"
    else if c == 12
    then codes "\\f"
    else if c == 13
    then codes "\\r"
    else if ltb c 32
    then escaped_unit c
    else c ∷ []

unfoldable pub quoted_units : Text → Text
unfolding quoted_unit
quoted_units [] = []
quoted_units (c ∷ s) = quoted_unit c ++ quoted_units s

unfoldable pub quoted : Text → Text
unfolding quoted_units
quoted s = 34 ∷ (quoted_units s ++ 34 ∷ [])

abbrev pub more_numbers : List ℕ → Text
more_numbers [] = []
more_numbers (n ∷ ns) = b',' ∷ (print_number n ++ more_numbers ns)

abbrev pub number_list : List ℕ → Text
number_list [] = []
number_list (n ∷ ns) = print_number n ++ more_numbers ns

unfoldable pub json_value : Json → Text
unfolding quoted
json_value null = codes "null"
json_value (number n) = print_number n
json_value (string s) = quoted s
json_value (numbers ns) = b'[' ∷ (number_list ns ++ b']' ∷ [])

abbrev pub json_pair : HashedField → Text
json_pair (name, value) = b'[' ∷ (quoted name ++ (b',' ∷ (json_value value ++ b']' ∷ [])))

abbrev pub more_pairs : List HashedField → Text
more_pairs [] = []
more_pairs (f ∷ fs) = b',' ∷ (json_pair f ++ more_pairs fs)

abbrev pub json_pairs : List HashedField → Text
json_pairs [] = codes "[]"
json_pairs (f ∷ fs) = b'[' ∷ (json_pair f ++ (more_pairs fs ++ b']' ∷ []))

abbrev pub canonical : JobContent → Text
canonical c = json_pairs (sort_fields (hashed_fields c))

module _ (sha256 : Text → String) where
  unfoldable pub compute_content_hash : Draft → String
  unfolding sort_fields hashed_fields json_value
  compute_content_hash job = sha256 (canonical job.content)

module _ (nfc : Text → Text) where
  abbrev pub normal : Option Text → Option Text
  normal none = none
  normal (some value) = some (normalize_thai_text nfc value)

  -- `TEXT_FIELDS`, and the names of the attachments.
  unfoldable pub normalize_job_text : Draft → Draft
  unfolding normalize_thai_text
  normalize_job_text job = record job {
    content = record (job.content) {
      title = normalize_thai_text nfc job.content.title;
      agency = normalize_thai_text nfc job.content.agency;
      ministry = normal job.content.ministry;
      job_category_other = normal job.content.job_category_other;
      job_type_other = normal job.content.job_type_other;
      job_level_other = normal job.content.job_level_other;
      job_selection_other = normal job.content.job_selection_other;
      job_condition_other = normal job.content.job_condition_other;
      education_level_other = normal job.content.education_level_other;
      description = normal job.content.description;
      education_requirements = normal job.content.education_requirements;
      knowledge = normal job.content.knowledge;
      skill = normal job.content.skill;
      competency = normal job.content.competency;
      criteria = normal job.content.criteria;
    };
    attachments =
        map
          (λ (a : NormalizedAttachment). record a {
            name = native_text (normalize_thai_text nfc (codes a.name));
          })
          job.attachments;
  }

-- `{ ...normalized, contentHash: computeContentHash(normalized) }`
unfoldable pub with_hash : (Text → Text) → (Text → String) → Draft → NormalizedJob
unfolding normalize_job_text compute_content_hash
with_hash nfc sha256 draft =
    let normalized = normalize_job_text nfc draft in
    record {
      source = normalized.source;
      external_id = normalized.external_id;
      content = normalized.content;
      content_hash = compute_content_hash sha256 normalized;
      attachments = normalized.attachments;
    }
