-- ===== src/Portals/Markup.antt =====
-- What dol/dol.parser.ts and mdes/mdes.parser.ts of src/modules/crawler both do with HTML.
use gov_jobs_backend.Base.{
  ℕ, ◌+◌, ◌-◌, ◌/◌, ◌%◌, Bool, true, false, not, ◌||◌, Option, none, some, List, [], ◌∷◌, ◌++◌,
  ◌==◌, ltb, if◌then◌else◌, Attempt, ok, error, Text, text_eq, codes, is_space, trim, read_digits,
  print_number, String, native_text,
}
use gov_jobs_backend.Dates.{is_digit}
use gov_jobs_backend.Documents.{collapse_whitespace}
use gov_jobs_backend.Patterns.{
  Atom, exactly, same_unit, one, many, fewest, edge, either, begins, ends, again, literal, Piece,
  group, match_all, replace_matches,
}
use gov_jobs_backend.Models.{JobContent, announcement_pdf}
use gov_jobs_backend.Crawler.{NormalizedAttachment, NormalizedJob}
use gov_jobs_backend.Portals.{Fault, unexpected, job_validation}

abbrev pub is_not : ℕ → ℕ → Bool
is_not c d = not (d == c)

abbrev pub anything : ℕ → Bool
anything c = true

-- `[^\s"'<>\\]`
abbrev pub in_url : ℕ → Bool
in_url c = not (is_space c || c == 34 || c == 39 || c == b'<' || c == b'>' || c == 92)

-- `/<(script|style)\b[^>]*>[\s\S]*?<\/\1>/gi`
abbrev pub script_pattern : List Atom
script_pattern =
    one (λ c. c == b'<')
    ∷ begins 1
    ∷ either same_unit (codes "script" ∷ codes "style" ∷ [])
    ∷ ends 1
    ∷ edge
    ∷ many (is_not b'>')
    ∷ one (λ c. c == b'>')
    ∷ fewest anything
    ∷ one (λ c. c == b'<')
    ∷ one (λ c. c == b'/')
    ∷ again same_unit 1
    ∷ one (λ c. c == b'>')
    ∷ []

-- `/<!--[\s\S]*?-->/g`
abbrev pub comment_pattern : List Atom
comment_pattern = literal (codes "<!--") ++ (fewest anything ∷ literal (codes "-->"))

abbrev pub nothing : Piece → Text
nothing p = []

unfoldable pub strip_non_content : Text → Text
unfolding replace_matches literal
strip_non_content html =
    replace_matches comment_pattern nothing (replace_matches script_pattern nothing html)

abbrev pub html_entities : List (Text × ℕ)
html_entities =
    (codes "amp", 38)
    ∷ (codes "lt", 60)
    ∷ (codes "gt", 62)
    ∷ (codes "quot", 34)
    ∷ (codes "#39", 39)
    ∷ (codes "apos", 39)
    ∷ (codes "nbsp", 32)
    ∷ []

-- `HTML_ENTITIES[name] ?? " "`
unfoldable pub entity : Text → List (Text × ℕ) → ℕ
unfolding text_eq
entity name [] = 32
entity name ((n, c) ∷ table) = if text_eq n name then c else entity name table

abbrev pub names : List (Text × ℕ) → List Text
names [] = []
names ((n, c) ∷ table) = n ∷ names table

-- `/&(amp|lt|gt|quot|#39|apos|nbsp);/g`
abbrev pub entity_pattern : List Atom
entity_pattern =
    one (λ c. c == b'&')
    ∷ begins 1
    ∷ either exactly (names html_entities)
    ∷ ends 1
    ∷ one (λ c. c == b';')
    ∷ []

-- `/&#(\d+);/g`
abbrev pub numeric_pattern : List Atom
numeric_pattern =
    one (λ c. c == b'&')
    ∷ one (λ c. c == b'#')
    ∷ begins 1
    ∷ one is_digit
    ∷ many is_digit
    ∷ ends 1
    ∷ one (λ c. c == b';')
    ∷ []

-- `String.fromCodePoint`: above U+10FFFF it is a RangeError.
unfoldable pub from_code_point : ℕ → Attempt Fault Text
from_code_point n =
    if ltb n 0x10000
    then ok (n ∷ [])
    else if ltb n 0x110000
    then ok ((0xd800 + (n - 0x10000) / 0x400) ∷ (0xdc00 + (n - 0x10000) % 0x400) ∷ [])
    else error (unexpected (codes "Invalid code point " ++ print_number n))

unfoldable pub join_decoded : List Piece → Text → Attempt Fault Text
unfolding from_code_point read_digits group
join_decoded [] tail = ok tail
join_decoded (p ∷ ps) tail = elim (from_code_point (read_digits 0 (group 1 p.groups))) [
  | error e ↦ error e
  | ok c ↦ elim (join_decoded ps tail) [
    | error e ↦ error e
    | ok rest ↦ ok (p.skipped ++ (c ++ rest))
  ]
]

unfoldable pub decode_entities : Text → Attempt Fault Text
unfolding replace_matches match_all join_decoded entity
decode_entities value =
    let named =
      replace_matches entity_pattern (λ p. entity (group 1 p.groups) html_entities ∷ []) value in
    let (found, tail) = match_all numeric_pattern named in join_decoded found tail

-- `/<[^>]+>/g`
abbrev pub tag_pattern : List Atom
tag_pattern =
    one (λ c. c == b'<') ∷ one (is_not b'>') ∷ many (is_not b'>') ∷ one (λ c. c == b'>') ∷ []

-- Without tags, decoded, with single spaces.
unfoldable pub to_text : Text → Attempt Fault Text
unfolding decode_entities collapse_whitespace
to_text html = elim (decode_entities (replace_matches tag_pattern (λ p. 32 ∷ []) html)) [
  | error e ↦ error e
  | ok value ↦ ok (collapse_whitespace value)
]

-- `toText(…) || null`
abbrev pub non_empty : Text → Option Text
non_empty [] = none
non_empty (c ∷ s) = some (c ∷ s)

-- The name under which an attachment is stored: the first one is the announcement.
abbrev pub attachment_name : ℕ → Text
attachment_name index =
    if index == 0 then codes "ประกาศรับสมัคร" else codes "เอกสารแนบ " ++ print_number (index + 1)

unfoldable pub attachments_from : ℕ → List Text → List NormalizedAttachment
unfolding native_text
attachments_from index [] = []
attachments_from index (url ∷ urls) =
    record {
      name = native_text (attachment_name index);
      url = native_text url;
      type = announcement_pdf;
    }
    ∷ attachments_from (index + 1) urls

-- The columns that only OCSC fills.
abbrev pub plain_content :
    Text → Text → Text → Option Text → Option Text → Option ℕ → Text → String → JobContent
plain_content title agency ministry job_category_other description published_at url raw_payload =
    record {
      title = title;
      agency = agency;
      ministry = some ministry;
      agency_external_id = none;
      agency_seal_url = none;
      job_category_id = none;
      job_category_other = job_category_other;
      job_type_id = none;
      job_type_other = none;
      job_level_id = none;
      job_level_other = none;
      job_selection_id = none;
      job_selection_other = none;
      job_condition_id = none;
      job_condition_other = none;
      province_ids = [];
      education_level_ids = [];
      education_level_other = none;
      description = description;
      education_requirements = none;
      knowledge = none;
      skill = none;
      competency = none;
      criteria = none;
      salary_min = none;
      salary_max = none;
      position_amount = none;
      application_start = none;
      application_end = none;
      exam_date = none;
      interview_date = none;
      published_at = published_at;
      source_url = native_text url;
      apply_url = none;
      raw_payload = raw_payload;
    }

-- `new Date(`${publishedOn}T00:00:00+07:00`)`, where there is a date.
abbrev pub bangkok_midnight : (Text → Option ℕ) → Option Text → Option ℕ
bangkok_midnight date_of none = none
bangkok_midnight date_of (some day) = date_of (day ++ codes "T00:00:00+07:00")

abbrev pub no_text : Text → Bool
no_text [] = true
no_text (c ∷ s) = false

abbrev pub missing_id : Fault
missing_id = job_validation (codes "missing announcement id")

abbrev pub missing_title : Fault
missing_title = job_validation (codes "missing title")

-- The two checks that the normalisers start with.
abbrev pub unless_blank : Text → Text → Attempt Fault NormalizedJob → Attempt Fault NormalizedJob
unless_blank external_id title job =
    if no_text (trim external_id)
    then error missing_id
    else if no_text (trim title)
    then error missing_title
    else job
