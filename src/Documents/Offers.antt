-- ===== src/Documents/Offers.antt =====
-- The offers to the matching queue and the texts of COMPLETED rows, through `process` of
-- src/modules/documents/document-processing.service.ts.
use mathlib.Core.Path.{subst}
use mathlib.Core.List.{append-nil}
use gov_jobs_backend.Base.{
  ℕ, ◌≤◌, ◌≡◌, refl, sym, ap, ◌∙◌, inl, inr, Bool, true, false, Bool-cases, Option, Option-cases,
  none, some, List, [], ◌∷◌, ◌++◌, length, leb, leb_iff, if◌then◌else◌, All, Text, Attempt, ok,
  error, arith, String,
}
use gov_jobs_backend.Models.{JobAttachment, ExtractionStatus, completed, insufficient_text}
use gov_jobs_backend.Crawler.{update_where}
use gov_jobs_backend.Matching.{is_completed}
use gov_jobs_backend.Documents.{DocumentConfig, DownloadedDocument, PdfExtractionResult}
use gov_jobs_backend.Documents.Process.{
  ProcessDocumentResult, DocumentMatchOffer, DocumentStore, Fetched, find_attachment,
  update_attachment, is_twin, find_processed_twin, text_length_of, null_if_empty, start_processing,
  copy_twin, record_text, record_failure, add_offer, requeue_matching, unless_refused, read_text,
  read_document, record_download, read_and_record, or_failed, process_found, process,
}
use gov_jobs_backend.Documents.Settled.{requeue_matching-attachments}

-- What is offered for a verdict.
abbrev pub offer_for : JobAttachment → ExtractionStatus → List DocumentMatchOffer
offer_for a e =
    if is_completed e then record { attachment_id = a.id; job_id = a.job_id } ∷ [] else []

-- A COMPLETED row has a text of the least length.
abbrev pub HasText : DocumentConfig → JobAttachment → Type 0
HasText config a =
    is_completed a.extraction_status ≡ true
    → config.min_text_length ≤ text_length_of a.extracted_text

All-update_where :
    (config : DocumentConfig) (p : JobAttachment → Bool) (f : JobAttachment → JobAttachment)
    → ((a : JobAttachment) → HasText config (f a))
    → (rows : List JobAttachment) → All (HasText config) rows
    → All (HasText config) (update_where p f rows)
unfolding update_where
All-update_where config p f keeps [] h = tt
All-update_where config p f keeps (a ∷ rows) (here, later) = (
  elim (Bool-cases (p a)) [
    | inl e ↦ subst (λ b. HasText config (if b then f a else a)) (sym e) (keeps a)
    | inr e ↦ subst (λ b. HasText config (if b then f a else a)) (sym e) here
  ],
  All-update_where config p f keeps rows later,
)

twin-HasText :
    (config : DocumentConfig) (hash : String) (id : ℕ) (rows : List JobAttachment)
    (twin : JobAttachment)
    → All (HasText config) rows
    → find_processed_twin hash id rows ≡ some twin
    → HasText config twin
unfolding find_processed_twin
twin-HasText config hash id [] twin h e = ground arith
twin-HasText config hash id (a ∷ rows) twin (here, later) e =
    elim (Bool-cases (is_twin hash id a)) [
      | inl hit ↦ let same : a ≡ twin = ground arith in subst (HasText config) same here
      | inr miss ↦ twin-HasText config hash id rows twin later (ground arith)
    ]

length-null_if_empty : (t : Text) → text_length_of (null_if_empty t) ≡ length t
length-null_if_empty [] = refl
length-null_if_empty (c ∷ t) = refl

module _ (config : DocumentConfig) (now : ℕ) (fetched : Fetched) where
  record_text-HasText :
      (t : Text) (d : DownloadedDocument) (a : JobAttachment)
      → HasText config (record_text config now fetched t d a)
  record_text-HasText t d a h =
      rw (length-null_if_empty t) (enough (leb config.min_text_length (length t)) refl h)
    where
      enough :
          (b : Bool)
          → leb config.min_text_length (length t) ≡ b
          → is_completed (if b then completed else insufficient_text) ≡ true
          → config.min_text_length ≤ length t
      enough true e h = (leb_iff config.min_text_length (length t)).0 e
      enough false e h = cc

  -- What a call leaves: `offered` is new in the queue, and the texts are there.
  record Left (s s' : DocumentStore) (offered : List DocumentMatchOffer) : Type 0 where
    queue : s'.matching ≡ s.matching ++ offered
    texts : All (HasText config) s.attachments → All (HasText config) s'.attachments

  unless_refused-store :
      (p : DocumentStore × Option Text) (r : ProcessDocumentResult)
      → (unless_refused config now fetched p r).0 ≡ p.0
  unless_refused-store (s, none) r = refl
  unless_refused-store (s, some e) r = refl

  -- Offers come with answers only.
  abbrev answer_of : JobAttachment → Attempt Text ProcessDocumentResult → List DocumentMatchOffer
  answer_of a (ok r) = offer_for a r.status
  answer_of a (error e) = []

  offered :
      (b : Bool) (refused : Option Text) (a : JobAttachment) (s : DocumentStore)
      (r : ProcessDocumentResult)
      → is_completed r.status ≡ b
      → let o = unless_refused config now fetched (add_offer b refused a s) r in
        o.0.matching ≡ s.matching ++ answer_of a o.1
  offered false refused a s r h = rw h (sym (append-nil s.matching))
  offered true none a s r h = rw h
  offered true (some e) a s r h = sym (append-nil s.matching)

  Left-answered :
      (a : JobAttachment) (f : JobAttachment → JobAttachment) (s : DocumentStore)
      (r : ProcessDocumentResult)
      → (All (HasText config) s.attachments → (b : JobAttachment) → HasText config (f b))
      → let s' = record s { attachments = update_attachment a.id f s.attachments } in
        let o =
          unless_refused config now fetched (requeue_matching config now fetched a r.status s') r in
        Left s o.0 (answer_of a o.1)
  unfolding requeue_matching
  Left-answered a f s r keeps =
      let s' = record s { attachments = update_attachment a.id f s.attachments } in
      record {
        queue = offered (is_completed r.status) fetched.queue_error a s' r refl;
        texts = λ h.
            subst (All (HasText config))
              (sym (
                ap (λ (x : DocumentStore). x.attachments)
                  (unless_refused-store (requeue_matching config now fetched a r.status s') r)
                ∙ requeue_matching-attachments config now fetched a r.status s'))
              (All-update_where config _ f (keeps h) s.attachments h);
      }

  Left-nothing : (s : DocumentStore) → Left s s []
  Left-nothing s = record { queue = sym (append-nil s.matching); texts = λ h. h }

  Left-read_text :
      (a : JobAttachment) (d : DownloadedDocument) (e : Attempt Text PdfExtractionResult)
      (s : DocumentStore)
      → let o = read_text config now fetched a d e s in Left s o.0 (answer_of a o.1)
  unfolding read_text
  Left-read_text a d (error e) s = Left-nothing s
  Left-read_text a d (ok t) s =
      Left-answered a (record_text config now fetched t.text d) s _
        (λ h b. record_text-HasText t.text d b)

  Left-read_document :
      (a : JobAttachment) (d : DownloadedDocument) (twin : Option JobAttachment) (s : DocumentStore)
      → ((b : JobAttachment)
          → twin ≡ some b
          → All (HasText config) s.attachments
          → HasText config b)
      → let o = read_document config now fetched a d twin s in Left s o.0 (answer_of a o.1)
  unfolding read_document
  Left-read_document a d none s known = Left-read_text a d (fetched.extracted d.bytes) s
  Left-read_document a d (some twin) s known =
      Left-answered a (copy_twin config now fetched twin d) s _ (λ h b. known twin refl h)

  Left-record_download :
      (a : JobAttachment) (d : Attempt Text DownloadedDocument) (s : DocumentStore)
      → let o = record_download config now fetched a d s in Left s o.0 (answer_of a o.1)
  unfolding record_download
  Left-record_download a (error e) s = Left-nothing s
  Left-record_download a (ok d) s =
      Left-read_document a d (find_processed_twin d.hash a.id s.attachments) s
        (λ b e h. twin-HasText config d.hash a.id s.attachments b h e)

  Left-or_failed :
      (a : JobAttachment) (s : DocumentStore)
      (o : DocumentStore × Attempt Text ProcessDocumentResult)
      → Left s o.0 (answer_of a o.1)
      → let r = or_failed config now fetched a.id o in Left s r.0 (offer_for a r.1.status)
  Left-or_failed a s (s', ok r) l = l
  Left-or_failed a s (s', error e) l = record {
    queue = l.queue;
    texts = λ h.
        All-update_where config _ (record_failure config now fetched e) (λ b c. cc) s'.attachments
          (l.texts h);
  }

  Left-process_found :
      (a : JobAttachment) (s : DocumentStore)
      → let r = process_found config now fetched (some a) s in Left s r.0 (offer_for a r.1.status)
  unfolding process_found read_and_record
  Left-process_found a s =
      let start = start_processing config now fetched in
      let s' = record s { attachments = update_attachment a.id start s.attachments } in
      let l =
        Left-or_failed a s' (record_download config now fetched a fetched.downloaded s')
          (Left-record_download a fetched.downloaded s') in
      record {
        queue = l.queue;
        texts = λ h. l.texts (All-update_where config _ start (λ b c. cc) s.attachments h);
      }

  -- A call puts one offer into the matching queue, for the announcement of the attachment, exactly
  -- when it answers COMPLETED, and no offer otherwise.
  pub matching-process :
      (id : ℕ) (s : DocumentStore) (a : JobAttachment)
      → find_attachment id s.attachments ≡ some a
      → let r = process config now fetched id s in
        r.0.matching ≡ s.matching ++ offer_for a r.1.status
  unfolding process
  matching-process id s a found =
      subst
        (λ o.
          let r = process_found config now fetched o s in
          r.0.matching ≡ s.matching ++ offer_for a r.1.status)
        (sym found) (Left-process_found a s).queue

  -- Where every COMPLETED row has a text of at least the configured length, the same holds after a
  -- call, also where a verdict is copied from another row with the same bytes.
  pub process-HasText :
      (id : ℕ) (s : DocumentStore)
      → All (HasText config) s.attachments
      → All (HasText config) (process config now fetched id s).0.attachments
  unfolding process
  process-HasText id s h = elim (Option-cases (find_attachment id s.attachments)) [
    | inl e ↦
        subst (λ o. All (HasText config) (process_found config now fetched o s).0.attachments)
          (sym e) (unfold process_found in h)
    | inr (a, e) ↦
        subst (λ o. All (HasText config) (process_found config now fetched o s).0.attachments)
          (sym e) ((Left-process_found a s).texts h)
  ]
