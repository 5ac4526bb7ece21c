-- ===== src/Crawler.antt =====
-- Storing what a crawl found: `persist` and `replaceAttachments` of
-- src/modules/crawler/crawler.service.ts, over the normalised announcements of
-- src/modules/crawler/interfaces/job-source-crawler.interface.ts. The primary keys that the
-- database draws are numbered by their draw.
pub mod Stored
pub mod Again
pub mod Persist
pub mod Rounds
pub mod Hashes
mod Tests
use gov_jobs_backend.Base.{
  ℕ, suc, ◌+◌, Bool, true, false, ◌&&◌, not, Option, none, some, List, [], ◌∷◌, ◌++◌, map, any,
  filter, length, ◌==◌, if◌then◌else◌, String, str_eq,
}
use gov_jobs_backend.Models.{
  JobSource, same_source, JobContent, Job, JobAttachment, JobAttachmentType, announcement_pdf,
  other, pending,
}

pub record NormalizedAttachment : Type 0 where
  pub name : String
  pub url : String
  pub type : JobAttachmentType

pub record NormalizedJob : Type 0 where
  pub source : JobSource
  pub external_id : String
  pub content : JobContent
  pub content_hash : String
  pub attachments : List NormalizedAttachment

-- The two tables, and the number of the next key.
pub record JobStore : Type 0 where
  pub jobs : List Job
  pub attachments : List JobAttachment
  pub drawn : ℕ

-- `update … where` on a table.
unfoldable pub update_where {ℓ} : {A : Type ℓ} → (A → Bool) → (A → A) → List A → List A
update_where p f [] = []
update_where p f (x ∷ xs) = (if p x then f x else x) ∷ update_where p f xs

abbrev pub has_key : JobSource → String → Job → Bool
has_key source external_id j = same_source j.source source && str_eq j.external_id external_id

-- `findOne` by source and external id.
unfoldable pub find_job : JobSource → String → List Job → Option Job
find_job source external_id [] = none
find_job source external_id (j ∷ js) =
    if has_key source external_id j then some j else find_job source external_id js

abbrev pub same_type : JobAttachmentType → JobAttachmentType → Bool
same_type announcement_pdf announcement_pdf = true
same_type other other = true
same_type _ _ = false

abbrev pub attachments_of : ℕ → List JobAttachment → List JobAttachment
attachments_of job_id = filter (λ a. a.job_id == job_id)

abbrev pub wants_url : List NormalizedAttachment → String → Bool
wants_url wanted url = any (λ w. str_eq w.url url) wanted

abbrev pub has_url : List JobAttachment → String → Bool
has_url rows url = any (λ a. str_eq a.url url) rows

-- The entry of `new Map(existing.map((a) => [a.url, a]))`: the last row of that URL.
unfoldable pub by_url : List JobAttachment → String → Option JobAttachment
by_url [] url = none
by_url (a ∷ rows) url = elim (by_url rows url) [
  | none ↦ if str_eq a.url url then some a else none
  | some later ↦ some later
]

-- The rows whose ids are those of stale attachments are deleted.
unfoldable pub delete_stale :
    ℕ → List NormalizedAttachment → List JobAttachment → List JobAttachment
delete_stale job_id wanted rows =
    filter
      (λ a. not (
        any (λ s. s.id == a.id)
          (filter (λ e. not (wants_url wanted e.url)) (attachments_of job_id rows))))
      rows

-- The loop that renames: `existing` is the listing from before it.
unfoldable pub rename_kept :
    List JobAttachment → List NormalizedAttachment → List JobAttachment → List JobAttachment
unfolding update_where
rename_kept existing [] rows = rows
rename_kept existing (w ∷ wanted) rows = elim (by_url existing w.url) [
  | none ↦ rename_kept existing wanted rows
  | some current ↦ rename_kept existing wanted (
      if str_eq current.name w.name && same_type current.type w.type
      then rows
      else update_where (λ a. a.id == current.id) (λ a. record a { name = w.name; type = w.type })
          rows)
]

-- One multi-row insert of unread attachments, keys drawn in order.
unfoldable pub insert_rows : ℕ → ℕ → ℕ → List NormalizedAttachment → List JobAttachment
insert_rows now job_id drawn [] = []
insert_rows now job_id drawn (w ∷ ws) =
    record {
      id = drawn;
      job_id = job_id;
      name = w.name;
      url = w.url;
      type = w.type;
      extraction_status = pending;
      extraction_method = none;
      extracted_text = none;
      extraction_error = none;
      file_hash = none;
      file_size = none;
      processed_at = none;
      created_at = now;
    }
    ∷ insert_rows now job_id (suc drawn) ws

-- The unique constraint on (job_id, url) lets the new rows in.
unfoldable pub distinct_urls : List NormalizedAttachment → Bool
distinct_urls [] = true
distinct_urls (w ∷ ws) = not (wants_url ws w.url) && distinct_urls ws

-- With whether it completed: an insert that breaks the constraint throws and inserts nothing.
unfoldable pub replace_attachments : ℕ → ℕ → List NormalizedAttachment → JobStore → JobStore × Bool
unfolding delete_stale rename_kept insert_rows distinct_urls by_url
replace_attachments now job_id wanted s =
    let existing = attachments_of job_id s.attachments in
    let kept = rename_kept existing wanted (delete_stale job_id wanted s.attachments) in
    let to_insert = filter (λ w. not (has_url existing w.url)) wanted in
    if distinct_urls to_insert
    then (
      record s {
        attachments = kept ++ insert_rows now job_id s.drawn to_insert;
        drawn = s.drawn + length to_insert;
      },
      true,
    )
    else (record s { attachments = kept }, false)

-- What one announcement came to.
pub data Persisted : Type 0 where
  created : ℕ → Persisted
  updated : ℕ → Persisted
  unchanged : Persisted
  threw : Persisted

abbrev pub or_threw : JobStore × Bool → Persisted → JobStore × Persisted
or_threw (s, true) p = (s, p)
or_threw (s, false) p = (s, threw)

module _ (seen_at : ℕ) where
  unfoldable pub new_row : ℕ → NormalizedJob → Job
  new_row id job = record {
    id = id;
    source = job.source;
    external_id = job.external_id;
    content = job.content;
    content_hash = job.content_hash;
    first_seen_at = seen_at;
    last_seen_at = seen_at;
  }

  -- One round of the loop of `persist`.
  unfoldable pub persist_one : NormalizedJob → JobStore → JobStore × Persisted
  unfolding new_row replace_attachments
  persist_one job s = elim (find_job job.source job.external_id s.jobs) [
    | none ↦
        or_threw
          (replace_attachments seen_at s.drawn job.attachments
            (record s { jobs = s.jobs ++ new_row s.drawn job ∷ []; drawn = suc s.drawn }))
          (created s.drawn)
    | some existing ↦
        if str_eq existing.content_hash job.content_hash
        then (
          record s {
            jobs =
                update_where (λ j. j.id == existing.id) (λ j. record j { last_seen_at = seen_at })
                  s.jobs;
          },
          unchanged,
        )
        else or_threw
            (replace_attachments seen_at existing.id job.attachments (record s {
              jobs =
                  update_where (λ j. j.id == existing.id)
                    (λ j. record j {
                      source = job.source;
                      external_id = job.external_id;
                      content = job.content;
                      content_hash = job.content_hash;
                      last_seen_at = seen_at;
                    })
                    s.jobs;
            }))
            (updated existing.id)
  ]

pub record Tally : Type 0 where
  pub new_jobs : ℕ
  pub updated_jobs : ℕ
  pub unchanged_jobs : ℕ
  pub changed_job_ids : List ℕ

abbrev pub no_tally : Tally
no_tally = record { new_jobs = 0; updated_jobs = 0; unchanged_jobs = 0; changed_job_ids = [] }

-- The counters after one more announcement.
abbrev pub count_one : Persisted → Tally → Option Tally
count_one (created id) t =
    some (record t { new_jobs = t.new_jobs + 1; changed_job_ids = t.changed_job_ids ++ id ∷ [] })
count_one (updated id) t =
    some (record t {
      updated_jobs = t.updated_jobs + 1;
      changed_job_ids = t.changed_job_ids ++ id ∷ [];
    })
count_one unchanged t = some (record t { unchanged_jobs = t.unchanged_jobs + 1 })
count_one threw t = none

-- The loop; `none` for an exception, which leaves what was written before it.
unfoldable pub persist_from : ℕ → List NormalizedJob → Tally → JobStore → JobStore × Option Tally
persist_from seen_at [] t s = (s, some t)
persist_from seen_at (job ∷ jobs) t s =
    let (s', p) = persist_one seen_at job s in
    elim (count_one p t) [ none ↦ (s', none) | some t' ↦ persist_from seen_at jobs t' s' ]

unfoldable pub persist : ℕ → List NormalizedJob → JobStore → JobStore × Option Tally
persist seen_at jobs s = persist_from seen_at jobs no_tally s
