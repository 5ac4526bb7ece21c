-- ===== src/Documents/Alone.antt =====
-- That `process` of src/modules/documents/document-processing.service.ts touches one row.
use mathlib.Core.Path.{subst}
use gov_jobs_backend.Base.{ℕ, ◌≡◌, refl, sym, ap, ◌∙◌, Option, none, some, Text, Attempt, ok, error}
use gov_jobs_backend.Models.{JobAttachment, ExtractionStatus}
use gov_jobs_backend.Documents.{DocumentConfig, DownloadedDocument, PdfExtractionResult}
use gov_jobs_backend.Documents.Process.{
  ProcessDocumentResult, DocumentStore, Fetched, find_attachment, update_attachment,
  find_processed_twin, start_processing, copy_twin, record_text, record_failure, requeue_matching,
  unless_refused, read_text, read_document, record_download, read_and_record, or_failed,
  process_found, process,
}
use gov_jobs_backend.Documents.Rows.{find_attachment-id, others, others-update}
use gov_jobs_backend.Documents.Settled.{
  requeue_matching-attachments, IsSettled, process_found-IsSettled,
}

module _ (config : DocumentConfig) (now : ℕ) (fetched : Fetched) where
  unless_refused-store :
      (p : DocumentStore × Option Text) (r : ProcessDocumentResult)
      → (unless_refused config now fetched p r).0 ≡ p.0
  unless_refused-store (s, none) r = refl
  unless_refused-store (s, some e) r = refl

  -- The rows but one are as they were.
  abbrev Leaves : ℕ → DocumentStore → DocumentStore → Type 0
  Leaves id s s' = others id s'.attachments ≡ others id s.attachments

  Leaves-answered :
      (a : JobAttachment) (f : JobAttachment → JobAttachment) (s : DocumentStore)
      (e : ExtractionStatus) (r : ProcessDocumentResult)
      → ((b : JobAttachment) → (f b).id ≡ b.id)
      → Leaves a.id s
          (unless_refused config now fetched
            (requeue_matching config now fetched a e
              (record s { attachments = update_attachment a.id f s.attachments }))
            r).0
  Leaves-answered a f s e r keeps =
      let s' = record s { attachments = update_attachment a.id f s.attachments } in
      ap (λ (x : DocumentStore). others a.id x.attachments)
        (unless_refused-store (requeue_matching config now fetched a e s') r)
      ∙ (ap (others a.id) (requeue_matching-attachments config now fetched a e s')
          ∙ others-update a.id f keeps s.attachments)

  Leaves-read_text :
      (a : JobAttachment) (d : DownloadedDocument) (e : Attempt Text PdfExtractionResult)
      (s : DocumentStore)
      → Leaves a.id s (read_text config now fetched a d e s).0
  unfolding read_text
  Leaves-read_text a d (error e) s = refl
  Leaves-read_text a d (ok t) s =
      Leaves-answered a (record_text config now fetched t.text d) s _ _ (λ b. refl)

  Leaves-read_document :
      (a : JobAttachment) (d : DownloadedDocument) (twin : Option JobAttachment) (s : DocumentStore)
      → Leaves a.id s (read_document config now fetched a d twin s).0
  unfolding read_document
  Leaves-read_document a d none s = Leaves-read_text a d (fetched.extracted d.bytes) s
  Leaves-read_document a d (some twin) s =
      Leaves-answered a (copy_twin config now fetched twin d) s _ _ (λ b. refl)

  Leaves-record_download :
      (a : JobAttachment) (d : Attempt Text DownloadedDocument) (s : DocumentStore)
      → Leaves a.id s (record_download config now fetched a d s).0
  unfolding record_download
  Leaves-record_download a (error e) s = refl
  Leaves-record_download a (ok d) s =
      Leaves-read_document a d (find_processed_twin d.hash a.id s.attachments) s

  Leaves-or_failed :
      (id : ℕ) (s : DocumentStore) (o : DocumentStore × Attempt Text ProcessDocumentResult)
      → Leaves id s o.0
      → Leaves id s (or_failed config now fetched id o).0
  Leaves-or_failed id s (s', ok r) h = h
  Leaves-or_failed id s (s', error e) h =
      others-update id (record_failure config now fetched e) (λ b. refl) s'.attachments ∙ h

  process_found-Leaves :
      (a : JobAttachment) (s : DocumentStore)
      → Leaves a.id s (process_found config now fetched (some a) s).0
  unfolding process_found read_and_record
  process_found-Leaves a s =
      let start = start_processing config now fetched in
      let s' = record s { attachments = update_attachment a.id start s.attachments } in
      Leaves-or_failed a.id s (record_download config now fetched a fetched.downloaded s') (
        Leaves-record_download a fetched.downloaded s'
        ∙ others-update a.id start (λ b. refl) s.attachments)

  -- Whatever the network, the PDF library and the queue do: an attachment that exists is not left
  -- PROCESSING. Its row has a verdict, the one that is answered, and the time of it, and every other
  -- row is as it was.
  pub process-IsSettled :
      (id : ℕ) (s : DocumentStore) (a : JobAttachment)
      → find_attachment id s.attachments ≡ some a
      → IsSettled config now fetched id (process config now fetched id s)
        × (others id (process config now fetched id s).0.attachments ≡ others id s.attachments)
  unfolding process
  process-IsSettled id s a found =
      let same = find_attachment-id id s.attachments a found in
      let found' : find_attachment a.id s.attachments ≡ some a =
        ap (λ i. find_attachment i s.attachments) same ∙ found in
      subst
        (λ o.
          IsSettled config now fetched id (process_found config now fetched o s)
          × Leaves id s (process_found config now fetched o s).0)
        (sym found)
        (subst
          (λ i.
            IsSettled config now fetched i (process_found config now fetched (some a) s)
            × Leaves i s (process_found config now fetched (some a) s).0)
          same (process_found-IsSettled config now fetched a s found', process_found-Leaves a s))
