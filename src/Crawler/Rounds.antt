-- ===== src/Crawler/Rounds.antt =====
-- One round of the loop of `persist` in src/modules/crawler/crawler.service.ts: the announcements
-- it leaves.
use mathlib.Core.Bool.{false≢true}
use gov_jobs_backend.Base.{
  ℕ, suc, ◌≤◌, ◌<◌, ◌≡◌, refl, sym, ◌∙◌, inl, inr, Bool, true, false, none, some, List, [], ◌∷◌,
  ◌++◌, any, ◌==◌, if◌then◌else◌, Bool-cases, Option-cases, All, str_eq, str_eq_iff, arith,
}
use gov_jobs_backend.Models.{Job}
use gov_jobs_backend.Crawler.{
  NormalizedJob, NormalizedAttachment, JobStore, update_where, has_key, find_job,
  replace_attachments, or_threw, persist_one, new_row, Persisted,
}
use gov_jobs_backend.Crawler.Stored.{
  UniqueIds, UniqueKeys, IsJobTable, find_job-some, refreshes_one, or-eq-false, has_key_eq,
  has_key_of_eq,
}

abbrev pub Kept : JobStore → JobStore → Type 0
Kept s r = (r.jobs ≡ s.jobs) × (s.drawn ≤ r.drawn)

replace_attachments-Kept :
    (now id : ℕ) (ws : List NormalizedAttachment) (s : JobStore)
    → Kept s (replace_attachments now id ws s).0
unfolding replace_attachments
replace_attachments-Kept now id ws s = ground arith

below_more : (n m : ℕ) → n ≤ m → (js : List Job) → All (λ j. j.id < n) js → All (λ j. j.id < m) js
below_more n m h [] b = tt
below_more n m h (j ∷ js) (low, b) = (omega arith, below_more n m h js b)

replace_attachments-jobs :
    (now id : ℕ) (ws : List NormalizedAttachment) (s : JobStore)
    → (replace_attachments now id ws s).0.jobs ≡ s.jobs
replace_attachments-jobs now id ws s = (replace_attachments-Kept now id ws s).0

pub IsJobTable-Kept : (s r : JobStore) → Kept s r → IsJobTable s → IsJobTable r
IsJobTable-Kept s r (same, more) t = record {
  unique_ids = rw same t.unique_ids;
  unique_keys = rw same t.unique_keys;
  below = rw same (below_more s.drawn r.drawn more s.jobs t.below);
}

or_threw-store : (r : JobStore × Bool) (p : Persisted) → (or_threw r p).0 ≡ r.0
or_threw-store (s, true) p = refl
or_threw-store (s, false) p = refl

any-append :
    (p : Job → Bool) (js : List Job) (r : Job)
    → any p js ≡ false
    → p r ≡ false
    → any p (js ++ r ∷ []) ≡ false
any-append p [] r h e = rw e
any-append p (j ∷ js) r h e =
    let (here, later) = or-eq-false (p j) (any p js) h in rw (here, any-append p js r later e)

has_key_sym :
    (j r : Job)
    → has_key r.source r.external_id j ≡ false
    → has_key j.source j.external_id r ≡ false
has_key_sym j r h = elim (Bool-cases (has_key j.source j.external_id r)) [
  | inl hit ↦
      let (a, b) = has_key_eq j.source j.external_id r hit in
      absurd (false≢true (sym h ∙ has_key_of_eq r.source r.external_id j (sym a) (sym b)))
  | inr miss ↦ miss
]

-- A new row: its id is larger than every id, its key is in no row.
pub append-UniqueIds :
    (n : ℕ) (r : Job)
    → r.id ≡ n
    → (js : List Job) → All (λ j. j.id < n) js
    → UniqueIds js
    → UniqueIds (js ++ r ∷ [])
append-UniqueIds n r e [] b u = (refl, tt)
append-UniqueIds n r e (j ∷ js) (h, b) (new, u) =
    (any-append (λ k. k.id == j.id) js r new (ground arith), append-UniqueIds n r e js b u)

pub append-UniqueKeys :
    (r : Job) (js : List Job)
    → find_job r.source r.external_id js ≡ none
    → UniqueKeys js
    → UniqueKeys (js ++ r ∷ [])
unfolding find_job
append-UniqueKeys r [] h u = (refl, tt)
append-UniqueKeys r (j ∷ js) h (new, u) = elim (Bool-cases (has_key r.source r.external_id j)) [
  | inl hit ↦ ground arith
  | inr miss ↦ (
    any-append (has_key j.source j.external_id) js r new (has_key_sym j r miss),
    append-UniqueKeys r js (ground arith) u,
  )
]

pub append-below :
    (n : ℕ) (r : Job)
    → r.id ≡ n
    → (js : List Job) → All (λ j. j.id < n) js
    → All (λ j. j.id < suc n) (js ++ r ∷ [])
append-below n r e [] b = (omega arith, tt)
append-below n r e (j ∷ js) (h, b) = (omega arith, append-below n r e js b)

-- What a round does to a row it finds.
unfoldable pub refreshed : ℕ → NormalizedJob → Job → Job → Job
refreshed now job r j =
    if str_eq r.content_hash job.content_hash
    then record j { last_seen_at = now }
    else record j { content = job.content; content_hash = job.content_hash; last_seen_at = now }

pub refreshed-id : (now : ℕ) (job : NormalizedJob) (r j : Job) → (refreshed now job r j).id ≡ j.id
unfolding refreshed
refreshed-id now job r j = ground arith

pub refreshed-source :
    (now : ℕ) (job : NormalizedJob) (r j : Job) → (refreshed now job r j).source ≡ j.source
unfolding refreshed
refreshed-source now job r j = ground arith

pub refreshed-external_id :
    (now : ℕ) (job : NormalizedJob) (r j : Job)
    → (refreshed now job r j).external_id ≡ j.external_id
unfolding refreshed
refreshed-external_id now job r j = ground arith

pub refreshed-hash :
    (now : ℕ) (job : NormalizedJob) (r : Job)
    → (refreshed now job r r).content_hash ≡ job.content_hash
unfolding refreshed
refreshed-hash now job r = elim (Bool-cases (str_eq r.content_hash job.content_hash)) [
  | inl e ↦ rw e ((str_eq_iff _ _).0 e)
  | inr e ↦ rw e
]

abbrev rewrite : ℕ → NormalizedJob → Job → Job
rewrite now job j = record j {
  source = job.source;
  external_id = job.external_id;
  content = job.content;
  content_hash = job.content_hash;
  last_seen_at = now;
}

-- The announcements after one round.
unfoldable pub jobs_after : ℕ → NormalizedJob → JobStore → List Job
jobs_after now job s = elim (find_job job.source job.external_id s.jobs) [
  | none ↦ s.jobs ++ new_row now s.drawn job ∷ []
  | some r ↦ update_where (λ j. j.id == r.id) (refreshed now job r) s.jobs
]

rewritten :
    (now : ℕ) (job : NormalizedJob) (r : Job)
    → r.source ≡ job.source
    → r.external_id ≡ job.external_id
    → str_eq r.content_hash job.content_hash ≡ false
    → rewrite now job r ≡ refreshed now job r r
unfolding refreshed
rewritten now job r a b e = rw (e, ← a, ← b)

touched :
    (now : ℕ) (job : NormalizedJob) (r : Job)
    → str_eq r.content_hash job.content_hash ≡ true
    → Path Job (record r { last_seen_at = now }) (refreshed now job r r)
unfolding refreshed
touched now job r e = rw e

pub persist_one-jobs :
    (now : ℕ) (job : NormalizedJob) (s : JobStore)
    → IsJobTable s
    → (persist_one now job s).0.jobs ≡ jobs_after now job s
unfolding persist_one jobs_after
persist_one-jobs now job s t = elim (Option-cases (find_job job.source job.external_id s.jobs)) [
  | inl e ↦ rw (e, persist_one, jobs_after) (rw (or_threw-store, replace_attachments-jobs))
  | inr (r, e) ↦
      let (m, a, b) = find_job-some job.source job.external_id s.jobs r e in
      elim (Bool-cases (str_eq r.content_hash job.content_hash)) [
        | inl same ↦
            rw (e, persist_one, jobs_after)
              (rw same (refreshes_one s.jobs r _ _ t.unique_ids m (touched now job r same)))
        | inr differs ↦
            rw (e, persist_one, jobs_after)
              (rw (differs, or_threw-store, replace_attachments-jobs)
                (refreshes_one s.jobs r (rewrite now job) _ t.unique_ids m
                  (rewritten now job r a b differs)))
      ]
]

-- The store before the attachments are replaced.
abbrev inserted : ℕ → NormalizedJob → JobStore → JobStore
inserted now job s = record s { jobs = s.jobs ++ new_row now s.drawn job ∷ []; drawn = suc s.drawn }

abbrev overwritten : ℕ → NormalizedJob → Job → JobStore → JobStore
overwritten now job r s = record s {
  jobs = update_where (λ j. j.id == r.id) (rewrite now job) s.jobs;
}

-- The numbers drawn cover a row that the round adds.
unfoldable pub drawn_after : NormalizedJob → JobStore → ℕ
drawn_after job s = elim (find_job job.source job.external_id s.jobs) [
  | none ↦ suc s.drawn
  | some r ↦ s.drawn
]

pub persist_one-drawn :
    (now : ℕ) (job : NormalizedJob) (s : JobStore)
    → drawn_after job s ≤ (persist_one now job s).0.drawn
unfolding persist_one drawn_after
persist_one-drawn now job s = elim (Option-cases (find_job job.source job.external_id s.jobs)) [
  | inl e ↦
      rw (e, persist_one, drawn_after)
        (rw or_threw-store
          ((replace_attachments-Kept now s.drawn job.attachments (inserted now job s)).1))
  | inr (r, e) ↦ elim (Bool-cases (str_eq r.content_hash job.content_hash)) [
    | inl same ↦ rw (e, persist_one, drawn_after) (rw same (omega arith))
    | inr differs ↦
        rw (e, persist_one, drawn_after)
          (rw (differs, or_threw-store)
            ((replace_attachments-Kept now r.id job.attachments (overwritten now job r s)).1))
  ]
]
