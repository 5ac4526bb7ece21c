-- ===== src/Models.antt =====
-- The rows of the tables and the values of the columns: src/models/*/entities/*.entity.ts and
-- src/shared/enums/*.enum.ts. A table is the list of its rows. UUIDs are numbers, instants are
-- milliseconds, and texts are UTF-16 code units where a text is searched, native texts where it
-- is only compared or stored.
use gov_jobs_backend.Base.{ℕ, Bool, Option, List, String, Text, ◌==◌}

pub data JobSource : Type 0 where
  ocsc dol admin_court doe mdes : JobSource

pub data ExtractionStatus : Type 0 where
  pending processing completed insufficient_text extraction_failed : ExtractionStatus

pub data ExtractionMethod : Type 0 where
  text ocr : ExtractionMethod

pub data CrawlerRunStatus : Type 0 where
  running success failed : CrawlerRunStatus

pub data AlertFrequency : Type 0 where
  immediate daily weekly : AlertFrequency

pub data UserRole : Type 0 where
  user admin : UserRole

pub data JobAttachmentType : Type 0 where
  announcement_pdf other : JobAttachmentType

-- The columns of an announcement that a crawl fills, but for its identity and its hash.
pub record JobContent : Type 0 where
  pub title : Text
  pub agency : Text
  pub ministry : Option Text
  pub agency_external_id : Option ℕ
  pub agency_seal_url : Option String
  pub job_category_id : Option ℕ
  pub job_category_other : Option Text
  pub job_type_id : Option ℕ
  pub job_type_other : Option Text
  pub job_level_id : Option ℕ
  pub job_level_other : Option Text
  pub job_selection_id : Option ℕ
  pub job_selection_other : Option Text
  pub job_condition_id : Option ℕ
  pub job_condition_other : Option Text
  pub province_ids : List ℕ
  pub education_level_ids : List ℕ
  pub education_level_other : Option Text
  pub description : Option Text
  pub education_requirements : Option Text
  pub knowledge : Option Text
  pub skill : Option Text
  pub competency : Option Text
  pub criteria : Option Text
  pub salary_min : Option ℕ
  pub salary_max : Option ℕ
  pub position_amount : Option ℕ
  pub application_start : Option Text
  pub application_end : Option Text
  pub exam_date : Option Text
  pub interview_date : Option Text
  pub published_at : Option ℕ
  pub source_url : String
  pub apply_url : Option String
  pub raw_payload : String

pub record Job : Type 0 where
  pub id : ℕ
  pub source : JobSource
  pub external_id : String
  pub content : JobContent
  pub content_hash : String
  pub first_seen_at : ℕ
  pub last_seen_at : ℕ

pub record JobAttachment : Type 0 where
  pub id : ℕ
  pub job_id : ℕ
  pub name : String
  pub url : String
  pub type : JobAttachmentType
  pub extraction_status : ExtractionStatus
  pub extraction_method : Option ExtractionMethod
  pub extracted_text : Option Text
  pub extraction_error : Option Text
  pub file_hash : Option String
  pub file_size : Option ℕ
  pub processed_at : Option ℕ
  pub created_at : ℕ

pub record JobAlert : Type 0 where
  pub id : ℕ
  pub user_id : ℕ
  pub name : String
  pub keywords : List Text
  pub job_types : List ℕ
  pub educations : List ℕ
  pub provinces : List ℕ
  pub notification_email : String
  pub unsubscribe_token : String
  pub frequency : AlertFrequency
  pub is_active : Bool
  pub match_from : ℕ
  pub last_sent_at : Option ℕ
  pub created_at : ℕ

pub record JobAlertMatch : Type 0 where
  pub id : ℕ
  pub job_alert_id : ℕ
  pub job_id : ℕ
  pub matched_at : ℕ
  pub notified_at : Option ℕ

pub record CrawlerRun : Type 0 where
  pub id : ℕ
  pub source : JobSource
  pub started_at : ℕ
  pub finished_at : Option ℕ
  pub status : CrawlerRunStatus
  pub total_found : ℕ
  pub new_jobs : ℕ
  pub updated_jobs : ℕ
  pub skipped_jobs : ℕ
  pub unchanged_jobs : ℕ
  pub alert_matches : ℕ
  pub error_message : Option String
  pub trigger : String

pub record User : Type 0 where
  pub id : ℕ
  pub email : String
  pub password_hash : String
  pub name : String
  pub role : UserRole
  pub is_verified : Bool
  pub locale : String

pub data RevokedReason : Type 0 where
  rotated logout password : RevokedReason

pub record RefreshToken : Type 0 where
  pub id : ℕ
  pub token_hash : String
  pub user_id : ℕ
  pub expires_at : ℕ
  pub revoked_at : Option ℕ
  pub revoked_reason : Option RevokedReason
  pub user_agent : Option Text

abbrev pub source_number : JobSource → ℕ
source_number ocsc = 0
source_number dol = 1
source_number admin_court = 2
source_number doe = 3
source_number mdes = 4

-- Equality of sources, as the queries compare the enum column.
abbrev pub same_source : JobSource → JobSource → Bool
same_source a b = source_number a == source_number b
