-- ===== src/Documents/Rows.antt =====
-- Finding and updating the row of an attachment in
-- src/modules/documents/document-processing.service.ts.
use gov_jobs_backend.Base.{
  ℕ, ◌≡◌, refl, ap, ◌∙◌, inl, inr, Bool, true, false, not, Bool-cases, some, List, [], ◌∷◌, filter,
  ◌==◌, String, Text, arith,
}
use gov_jobs_backend.Models.{
  JobAttachment, ExtractionStatus, pending, processing, completed, insufficient_text,
  extraction_failed,
}
use gov_jobs_backend.Crawler.{update_where}
use gov_jobs_backend.Documents.Process.{
  find_attachment, update_attachment, is_read, is_twin, find_processed_twin, verdict,
}

pub find_attachment-update :
    (id : ℕ) (f : JobAttachment → JobAttachment)
    → ((a : JobAttachment) → (f a).id ≡ a.id)
    → (rows : List JobAttachment) (a : JobAttachment) → find_attachment id rows ≡ some a
    → find_attachment id (update_attachment id f rows) ≡ some (f a)
unfolding find_attachment update_where
find_attachment-update id f keeps [] a h = ground arith
find_attachment-update id f keeps (b ∷ rows) a h = elim (Bool-cases (b.id == id)) [
  | inl hit ↦
      let same : b ≡ a = ground arith in
      let hit' : ((f b).id == id) ≡ true = ap (λ i. i == id) (keeps b) ∙ hit in
      rw hit (rw hit' (ap some (ap f same)))
  | inr miss ↦ rw (miss, miss) (find_attachment-update id f keeps rows a (ground arith))
]

pub find_attachment-id :
    (id : ℕ) (rows : List JobAttachment) (a : JobAttachment)
    → find_attachment id rows ≡ some a
    → a.id ≡ id
unfolding find_attachment
find_attachment-id id [] a h = ground arith
find_attachment-id id (b ∷ rows) a h = elim (Bool-cases (b.id == id)) [
  | inl hit ↦ ground arith
  | inr miss ↦ find_attachment-id id rows a (ground arith)
]

pub find_processed_twin-is_read :
    (hash : String) (id : ℕ) (rows : List JobAttachment) (a : JobAttachment)
    → find_processed_twin hash id rows ≡ some a
    → is_read a.extraction_status ≡ true
unfolding find_processed_twin
find_processed_twin-is_read hash id [] a h = ground arith
find_processed_twin-is_read hash id (b ∷ rows) a h = elim (Bool-cases (is_twin hash id b)) [
  | inl hit ↦ ground arith
  | inr miss ↦ find_processed_twin-is_read hash id rows a (ground arith)
]

-- The rows but one.
abbrev pub others : ℕ → List JobAttachment → List JobAttachment
others id = filter (λ a. not (a.id == id))

pub others-update :
    (id : ℕ) (f : JobAttachment → JobAttachment)
    → ((a : JobAttachment) → (f a).id ≡ a.id)
    → (rows : List JobAttachment) → others id (update_attachment id f rows) ≡ others id rows
unfolding update_where
others-update id f keeps [] = refl
others-update id f keeps (b ∷ rows) = elim (Bool-cases (b.id == id)) [
  | inl hit ↦
      let hit' : ((f b).id == id) ≡ true = ap (λ i. i == id) (keeps b) ∙ hit in
      rw hit (rw hit' (others-update id f keeps rows))
  | inr miss ↦ rw (miss, miss) (ap (◌∷◌ b) (others-update id f keeps rows))
]

-- The verdicts that a row can be left with.
abbrev pub is_settled : ExtractionStatus → Bool
is_settled pending = false
is_settled processing = false
is_settled completed = true
is_settled insufficient_text = true
is_settled extraction_failed = true

pub settled_of_read : (e : ExtractionStatus) → is_read e ≡ true → is_settled e ≡ true
settled_of_read e h = ground arith

pub settled-verdict : (n : ℕ) (t : Text) → is_settled (verdict n t) ≡ true
settled-verdict n t = ground arith
