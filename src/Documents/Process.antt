-- ===== src/Documents/Process.antt =====
-- Reading one attachment: src/modules/documents/document-processing.service.ts and the worker of
-- src/modules/documents/document-processing.processor.ts. What the download, the PDF library and the
-- queue answer are parameters.
use gov_jobs_backend.Base.{
  ℕ, Bool, true, false, not, ◌&&◌, Option, none, some, List, [], ◌∷◌, ◌++◌, length, ◌==◌, leb,
  if◌then◌else◌, String, str_eq, Text, Attempt, ok, error,
}
use gov_jobs_backend.Models.{
  JobAttachment, ExtractionStatus, pending, processing, completed, insufficient_text,
  extraction_failed, text,
}
use gov_jobs_backend.Crawler.{update_where}
use gov_jobs_backend.Matching.{is_completed}
use gov_jobs_backend.Documents.{DocumentConfig, DownloadedDocument, PdfExtractionResult}

pub record ProcessDocumentResult : Type 0 where
  pub status : ExtractionStatus
  pub text_length : ℕ
  pub reused_by_hash : Bool

-- `{ jobId, crawlerRunId: null }` under the id `match-doc--<attachment>`.
pub record DocumentMatchOffer : Type 0 where
  pub attachment_id : ℕ
  pub job_id : ℕ

pub record DocumentStore : Type 0 where
  pub attachments : List JobAttachment
  pub matching : List DocumentMatchOffer

-- What the world answers while one attachment is read.
pub record Fetched : Type 0 where
  pub downloaded : Attempt Text DownloadedDocument
  pub extracted : List ℕ → Attempt Text PdfExtractionResult
  pub queue_error : Option Text

unfoldable pub find_attachment : ℕ → List JobAttachment → Option JobAttachment
find_attachment id [] = none
find_attachment id (a ∷ rows) = if a.id == id then some a else find_attachment id rows

abbrev pub update_attachment :
    ℕ → (JobAttachment → JobAttachment) → List JobAttachment → List JobAttachment
update_attachment id f rows = update_where (λ a. a.id == id) f rows

abbrev pub has_hash : Option String → String → Bool
has_hash none hash = false
has_hash (some h) hash = str_eq h hash

-- The two alternatives of the query: the same bytes, another row, a verdict that is not a failure.
abbrev pub is_read : ExtractionStatus → Bool
is_read pending = false
is_read processing = false
is_read completed = true
is_read insufficient_text = true
is_read extraction_failed = false

abbrev pub is_twin : String → ℕ → JobAttachment → Bool
is_twin hash exclude a =
    has_hash a.file_hash hash && (not (a.id == exclude) && is_read a.extraction_status)

unfoldable pub find_processed_twin : String → ℕ → List JobAttachment → Option JobAttachment
find_processed_twin hash exclude [] = none
find_processed_twin hash exclude (a ∷ rows) =
    if is_twin hash exclude a then some a else find_processed_twin hash exclude rows

abbrev pub text_length_of : Option Text → ℕ
text_length_of none = 0
text_length_of (some t) = length t

abbrev pub null_if_empty : Text → Option Text
null_if_empty [] = none
null_if_empty (c ∷ t) = some (c ∷ t)

abbrev pub verdict : ℕ → Text → ExtractionStatus
verdict min_text_length t = if leb min_text_length (length t) then completed else insufficient_text

abbrev pub failed_result : ProcessDocumentResult
failed_result = record { status = extraction_failed; text_length = 0; reused_by_hash = false }

-- One addition to the queue, which may refuse it.
abbrev pub add_offer :
    Bool → Option Text → JobAttachment → DocumentStore → DocumentStore × Option Text
add_offer false refused a s = (s, none)
add_offer true (some e) a s = (s, some e)
add_offer true none a s = (
  record s { matching = s.matching ++ record { attachment_id = a.id; job_id = a.job_id } ∷ [] },
  none,
)

module _ (config : DocumentConfig) (now : ℕ) (fetched : Fetched) where
  abbrev pub start_processing : JobAttachment → JobAttachment
  start_processing a = record a { extraction_status = processing; extraction_error = none }

  abbrev pub copy_twin : JobAttachment → DownloadedDocument → JobAttachment → JobAttachment
  copy_twin twin document a = record a {
    extraction_status = twin.extraction_status;
    extraction_method = twin.extraction_method;
    extracted_text = twin.extracted_text;
    extraction_error = none;
    file_hash = some document.hash;
    file_size = some document.byte_length;
    processed_at = some now;
  }

  abbrev pub record_text : Text → DownloadedDocument → JobAttachment → JobAttachment
  record_text t document a = record a {
    extraction_status = verdict config.min_text_length t;
    extraction_method = some text;
    extracted_text = null_if_empty t;
    extraction_error = none;
    file_hash = some document.hash;
    file_size = some document.byte_length;
    processed_at = some now;
  }

  abbrev pub record_failure : Text → JobAttachment → JobAttachment
  record_failure message a = record a {
    extraction_status = extraction_failed;
    extraction_error = some message;
    processed_at = some now;
  }

  -- Only after a COMPLETED read.
  unfoldable pub requeue_matching :
      JobAttachment → ExtractionStatus → DocumentStore → DocumentStore × Option Text
  requeue_matching a status s = add_offer (is_completed status) fetched.queue_error a s

  abbrev pub unless_refused :
      DocumentStore × Option Text
      → ProcessDocumentResult
      → DocumentStore × Attempt Text ProcessDocumentResult
  unless_refused (s, none) r = (s, ok r)
  unless_refused (s, some e) r = (s, error e)

  -- Without a twin: the text layer, and the verdict on its length.
  unfoldable pub read_text :
      JobAttachment
      → DownloadedDocument
      → Attempt Text PdfExtractionResult
      → DocumentStore
      → DocumentStore × Attempt Text ProcessDocumentResult
  read_text a document (error e) s = (s, error e)
  read_text a document (ok found) s =
      unless_refused
        (requeue_matching a (verdict config.min_text_length found.text) (record s {
          attachments = update_attachment a.id (record_text found.text document) s.attachments;
        }))
        (record {
          status = verdict config.min_text_length found.text;
          text_length = length found.text;
          reused_by_hash = false;
        })

  unfoldable pub read_document :
      JobAttachment
      → DownloadedDocument
      → Option JobAttachment
      → DocumentStore
      → DocumentStore × Attempt Text ProcessDocumentResult
  unfolding read_text
  read_document a document none s = read_text a document (fetched.extracted document.bytes) s
  read_document a document (some twin) s =
      unless_refused
        (requeue_matching a twin.extraction_status (record s {
          attachments = update_attachment a.id (copy_twin twin document) s.attachments;
        }))
        (record {
          status = twin.extraction_status;
          text_length = text_length_of twin.extracted_text;
          reused_by_hash = true;
        })

  unfoldable pub record_download :
      JobAttachment
      → Attempt Text DownloadedDocument
      → DocumentStore
      → DocumentStore × Attempt Text ProcessDocumentResult
  unfolding read_document
  record_download a (error e) s = (s, error e)
  record_download a (ok document) s =
      read_document a document (find_processed_twin document.hash a.id s.attachments) s

  unfoldable pub read_and_record :
      JobAttachment → DocumentStore → DocumentStore × Attempt Text ProcessDocumentResult
  unfolding record_download
  read_and_record a s = record_download a fetched.downloaded s

  -- The `catch` of `process`.
  abbrev pub or_failed :
      ℕ → DocumentStore × Attempt Text ProcessDocumentResult → DocumentStore × ProcessDocumentResult
  or_failed id (s, ok r) = (s, r)
  or_failed id (s, error message) = (
    record s { attachments = update_attachment id (record_failure message) s.attachments },
    failed_result,
  )

  unfoldable pub process_found :
      Option JobAttachment → DocumentStore → DocumentStore × ProcessDocumentResult
  process_found none s = (s, failed_result)
  process_found (some a) s = or_failed a.id (
      read_and_record a
        (record s { attachments = update_attachment a.id start_processing s.attachments }))

  unfoldable pub process : ℕ → DocumentStore → DocumentStore × ProcessDocumentResult
  unfolding process_found
  process attachment_id s = process_found (find_attachment attachment_id s.attachments) s
