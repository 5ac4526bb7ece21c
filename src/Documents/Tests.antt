-- ===== src/Documents/Tests.antt =====
-- A row that was read, and an unread one whose file turns out to have the same bytes.
use gov_jobs_backend.Base.{◌≡◌, refl, none, some, [], ◌∷◌, All, codes, error, ok, arith}
use gov_jobs_backend.Models.{JobAttachment, announcement_pdf, pending, completed, text}
use gov_jobs_backend.Documents.{DocumentConfig, Stream, done, no_value, chunk, read_capped}
use gov_jobs_backend.Documents.Buffers.{collect, reject_empty, read_capped-eq-collect}
use gov_jobs_backend.Documents.Process.{DocumentStore, Fetched, find_attachment, process}
use gov_jobs_backend.Documents.Rows.{others}
use gov_jobs_backend.Documents.Settled.{IsSettled}
use gov_jobs_backend.Documents.Alone.{process-IsSettled}
use gov_jobs_backend.Documents.Offers.{HasText, process-HasText}

abbrev stream : Stream
stream = chunk (37 ∷ 80 ∷ []) (no_value (chunk (68 ∷ []) done))

read_capped-eq-collect_example :
    read_capped 4 "https://example.org/a" stream
    ≡ reject_empty "https://example.org/a" (collect 4 stream [])
read_capped-eq-collect_example = read_capped-eq-collect 4 "https://example.org/a" stream

abbrev config : DocumentConfig
config = record { max_bytes = 1000; min_text_length = 2 }

abbrev read_row : JobAttachment
read_row = record {
  id = 1;
  job_id = 10;
  name = "a";
  url = "https://example.org/a";
  type = announcement_pdf;
  extraction_status = completed;
  extraction_method = some text;
  extracted_text = some (codes "abc");
  extraction_error = none;
  file_hash = some "f00d";
  file_size = some 5;
  processed_at = some 70;
  created_at = 60;
}

abbrev unread_row : JobAttachment
unread_row = record read_row {
  id = 2;
  job_id = 11;
  extraction_status = pending;
  extraction_method = none;
  extracted_text = none;
  file_hash = none;
  file_size = none;
  processed_at = none;
}

abbrev store : DocumentStore
store = record { attachments = read_row ∷ unread_row ∷ []; matching = [] }

abbrev same_bytes : Fetched
same_bytes = record {
  downloaded =
      ok (record { bytes = codes "%PDF-"; hash = "f00d"; byte_length = 5; content_type = none });
  extracted = λ bytes. error (codes "encrypted");
  queue_error = none;
}

finds : find_attachment 2 store.attachments ≡ some unread_row
unfolding find_attachment
finds = refl

process-IsSettled_example :
    IsSettled config 90 same_bytes 2 (process config 90 same_bytes 2 store)
    × (others 2 (process config 90 same_bytes 2 store).0.attachments ≡ others 2 store.attachments)
process-IsSettled_example = process-IsSettled config 90 same_bytes 2 store unread_row finds

store-HasText : All (HasText config) store.attachments
store-HasText = (λ e. omega arith, (λ e. ground arith, tt))

process-HasText_example : All (HasText config) (process config 90 same_bytes 2 store).0.attachments
process-HasText_example = process-HasText config 90 same_bytes 2 store store-HasText
