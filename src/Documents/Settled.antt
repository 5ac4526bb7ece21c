-- ===== src/Documents/Settled.antt =====
-- What `process` of src/modules/documents/document-processing.service.ts leaves on the row.
use gov_jobs_backend.Base.{
  ℕ, ◌≡◌, refl, ap, ◌∙◌, Bool, true, false, Option, none, some, List, Text, Attempt, ok, error,
}
use gov_jobs_backend.Models.{JobAttachment, ExtractionStatus}
use gov_jobs_backend.Matching.{is_completed}
use gov_jobs_backend.Documents.{DocumentConfig, DownloadedDocument, PdfExtractionResult}
use gov_jobs_backend.Documents.Process.{
  ProcessDocumentResult, DocumentStore, Fetched, find_attachment, update_attachment, is_read,
  find_processed_twin, start_processing, copy_twin, record_text, record_failure, add_offer,
  requeue_matching, unless_refused, read_text, read_document, record_download, read_and_record,
  or_failed, process_found,
}
use gov_jobs_backend.Documents.Rows.{
  find_attachment-update, find_processed_twin-is_read, is_settled, settled_of_read, settled-verdict,
}

add_offer-attachments :
    (b : Bool) (refused : Option Text) (a : JobAttachment) (s : DocumentStore)
    → (add_offer b refused a s).0.attachments ≡ s.attachments
add_offer-attachments false refused a s = refl
add_offer-attachments true (some e) a s = refl
add_offer-attachments true none a s = refl

module _ (config : DocumentConfig) (now : ℕ) (fetched : Fetched) where
  pub requeue_matching-attachments :
      (a : JobAttachment) (e : ExtractionStatus) (s : DocumentStore)
      → (requeue_matching config now fetched a e s).0.attachments ≡ s.attachments
  unfolding requeue_matching
  requeue_matching-attachments a e s =
      add_offer-attachments (is_completed e) fetched.queue_error a s

  -- The row under `id` agrees with the answer, or with the exception that was thrown.
  abbrev Row : ℕ → List JobAttachment → Attempt Text ProcessDocumentResult → Type 0
  Row id rows (ok r) =
      (row : JobAttachment) × (find_attachment id rows ≡ some row)
      × (row.extraction_status ≡ r.status)
      × (row.processed_at ≡ some now)
      × (is_settled r.status ≡ true)
  Row id rows (error e) = (row : JobAttachment) × (find_attachment id rows ≡ some row)

  Row-unless_refused :
      (id : ℕ) (row : JobAttachment) (p : DocumentStore × Option Text) (r : ProcessDocumentResult)
      → find_attachment id p.0.attachments ≡ some row
      → row.extraction_status ≡ r.status
      → row.processed_at ≡ some now
      → is_settled r.status ≡ true
      → let o = unless_refused config now fetched p r in Row id o.0.attachments o.1
  Row-unless_refused id row (s, none) r found status at settled = (row, found, status, at, settled)
  Row-unless_refused id row (s, some e) r found status at settled = (row, found)

  -- An answer that is given with the row updated by `f`.
  Row-answered :
      (a row : JobAttachment) (f : JobAttachment → JobAttachment) (s : DocumentStore)
      (r : ProcessDocumentResult)
      → ((b : JobAttachment) → (f b).id ≡ b.id)
      → find_attachment a.id s.attachments ≡ some row
      → (f row).extraction_status ≡ r.status
      → (f row).processed_at ≡ some now
      → is_settled r.status ≡ true
      → let s' = record s { attachments = update_attachment a.id f s.attachments } in
        let o =
          unless_refused config now fetched (requeue_matching config now fetched a r.status s') r in
        Row a.id o.0.attachments o.1
  Row-answered a row f s r keeps found status at settled =
      let s' = record s { attachments = update_attachment a.id f s.attachments } in
      Row-unless_refused a.id (f row) (requeue_matching config now fetched a r.status s') r
        (ap (find_attachment a.id) (requeue_matching-attachments a r.status s')
          ∙ find_attachment-update a.id f keeps s.attachments row found)
        status at settled

  Row-read_text :
      (a row : JobAttachment) (d : DownloadedDocument) (e : Attempt Text PdfExtractionResult)
      (s : DocumentStore)
      → find_attachment a.id s.attachments ≡ some row
      → let o = read_text config now fetched a d e s in Row a.id o.0.attachments o.1
  unfolding read_text
  Row-read_text a row d (error e) s found = (row, found)
  Row-read_text a row d (ok t) s found =
      Row-answered a row (record_text config now fetched t.text d) s _ (λ b. refl) found refl refl
        (settled-verdict config.min_text_length t.text)

  Row-read_document :
      (a row : JobAttachment) (d : DownloadedDocument) (twin : Option JobAttachment)
      (s : DocumentStore)
      → ((b : JobAttachment) → twin ≡ some b → is_read b.extraction_status ≡ true)
      → find_attachment a.id s.attachments ≡ some row
      → let o = read_document config now fetched a d twin s in Row a.id o.0.attachments o.1
  unfolding read_document
  Row-read_document a row d none s read found =
      Row-read_text a row d (fetched.extracted d.bytes) s found
  Row-read_document a row d (some twin) s read found =
      Row-answered a row (copy_twin config now fetched twin d) s _ (λ b. refl) found refl refl
        (settled_of_read twin.extraction_status (read twin refl))

  Row-record_download :
      (a row : JobAttachment) (d : Attempt Text DownloadedDocument) (s : DocumentStore)
      → find_attachment a.id s.attachments ≡ some row
      → let o = record_download config now fetched a d s in Row a.id o.0.attachments o.1
  unfolding record_download
  Row-record_download a row (error e) s found = (row, found)
  Row-record_download a row (ok d) s found =
      Row-read_document a row d (find_processed_twin d.hash a.id s.attachments) s
        (find_processed_twin-is_read d.hash a.id s.attachments) found

  -- What the worker reads off the row is what it answered.
  abbrev pub IsSettled : ℕ → DocumentStore × ProcessDocumentResult → Type 0
  IsSettled id (s, r) =
      (row : JobAttachment) × (find_attachment id s.attachments ≡ some row)
      × (row.extraction_status ≡ r.status)
      × (row.processed_at ≡ some now)
      × (is_settled r.status ≡ true)

  IsSettled-or_failed :
      (id : ℕ) (o : DocumentStore × Attempt Text ProcessDocumentResult)
      → Row id o.0.attachments o.1
      → IsSettled id (or_failed config now fetched id o)
  IsSettled-or_failed id (s, ok r) h = h
  IsSettled-or_failed id (s, error e) (row, found) = (
    record_failure config now fetched e row,
    find_attachment-update id (record_failure config now fetched e) (λ b. refl) s.attachments row
        found,
    refl,
    refl,
    refl,
  )

  pub process_found-IsSettled :
      (a : JobAttachment) (s : DocumentStore)
      → find_attachment a.id s.attachments ≡ some a
      → IsSettled a.id (process_found config now fetched (some a) s)
  unfolding process_found read_and_record
  process_found-IsSettled a s found =
      let start = start_processing config now fetched in
      let s' = record s { attachments = update_attachment a.id start s.attachments } in
      IsSettled-or_failed a.id (record_download config now fetched a fetched.downloaded s') (
        Row-record_download a (start a) fetched.downloaded s'
          (find_attachment-update a.id start (λ b. refl) s.attachments a found))
