-- ===== src/Notifications/Worker.antt =====
-- The worker that matches one announcement and hands its emails over:
-- src/modules/job-alerts/job-matching.processor.ts. Whether the queue takes the emails is a
-- parameter.
use gov_jobs_backend.Base.{
  ℕ, ◌+◌, ◌≡◌, refl, sym, ap, ◌∙◌, Option, none, some, List, [], ◌∷◌, ◌++◌, length, ◌==◌, Bool,
  Text, Attempt, ok, error,
}
use gov_jobs_backend.Models.{CrawlerRun}
use gov_jobs_backend.Crawler.{update_where}
use gov_jobs_backend.Matching.{Listings, MatchStore, match_jobs}
use gov_jobs_backend.Matching.Runs.{match_jobs_again}
use gov_jobs_backend.Notifications.{EmailJob, dispatch_immediate}

pub record MatchJobPayload : Type 0 where
  pub job_id : ℕ
  pub crawler_run_id : Option ℕ

pub record WorkerStore : Type 0 where
  pub matching : MatchStore
  pub runs : List CrawlerRun
  pub emails : List EmailJob

-- `increment({ id }, "alertMatches", matches)`, if there is a run.
unfoldable pub add_to_run : Option ℕ → ℕ → List CrawlerRun → List CrawlerRun
unfolding update_where
add_to_run none matches runs = runs
add_to_run (some id) matches runs =
    update_where (λ r. r.id == id) (λ r. record r { alert_matches = r.alert_matches + matches })
      runs

-- `addBulk`, which the queue may refuse; without an email it is not called.
abbrev pub add_bulk : Option Text → List EmailJob → ℕ → WorkerStore → WorkerStore × Attempt Text ℕ
add_bulk refused [] matches s = (s, ok matches)
add_bulk none (job ∷ jobs) matches s = (record s { emails = s.emails ++ job ∷ jobs }, ok matches)
add_bulk (some e) (job ∷ jobs) matches s = (s, error e)

module _ (uuid_text : ℕ → Text) (sha256_hex : Text → Text) (ilike : Text → Text → Bool) (now : ℕ)
    (uuid : ℕ → ℕ) (match_document_text : Bool) (db : Listings) where
  -- The rest of `process`, with the matches that were created.
  unfoldable pub after_matching :
      Option Text → Option ℕ → MatchStore × List ℕ → WorkerStore → WorkerStore × Attempt Text ℕ
  unfolding add_to_run dispatch_immediate
  after_matching refused crawler_run_id (matching, []) s = (record s { matching = matching }, ok 0)
  after_matching refused crawler_run_id (matching, id ∷ created) s =
      add_bulk refused
        (dispatch_immediate uuid_text sha256_hex db (id ∷ created) matching.matches).0
        (length (id ∷ created))
        (record s {
          matching = matching;
          runs = add_to_run crawler_run_id (length (id ∷ created)) s.runs;
        })

  unfoldable pub process :
      Option Text → MatchJobPayload → WorkerStore → WorkerStore × Attempt Text ℕ
  unfolding after_matching match_jobs
  process refused payload s =
      after_matching refused payload.crawler_run_id
        (match_jobs ilike now uuid match_document_text db (payload.job_id ∷ []) s.matching) s

  add_bulk-matching :
      (refused : Option Text) (jobs : List EmailJob) (matches : ℕ) (s : WorkerStore)
      → (add_bulk refused jobs matches s).0.matching ≡ s.matching
  add_bulk-matching none [] matches s = refl
  add_bulk-matching (some e) [] matches s = refl
  add_bulk-matching none (job ∷ jobs) matches s = refl
  add_bulk-matching (some e) (job ∷ jobs) matches s = refl

  after_matching-matching :
      (refused : Option Text) (run : Option ℕ) (r : MatchStore × List ℕ) (s : WorkerStore)
      → (after_matching refused run r s).0.matching ≡ r.0
  unfolding after_matching
  after_matching-matching refused run (matching, []) s = refl
  after_matching-matching refused run (matching, id ∷ created) s = add_bulk-matching refused _ _ _

module _ (uuid_text : ℕ → Text) (sha256_hex : Text → Text) (ilike : Text → Text → Bool) (now : ℕ)
    (uuid : ℕ → ℕ) (match_document_text : Bool) (db : Listings) where
  -- `process`, at an instant.
  abbrev process_at : ℕ → Option Text → MatchJobPayload → WorkerStore → WorkerStore × Attempt Text ℕ
  process_at later = process uuid_text sha256_hex ilike later uuid match_document_text db

  process_idle :
      (later : ℕ) (refused : Option Text) (payload : MatchJobPayload) (s : WorkerStore)
      (m : MatchStore)
      → s.matching ≡ m
      → match_jobs ilike later uuid match_document_text db (payload.job_id ∷ []) m ≡ (m, [])
      → process_at later refused payload s ≡ (s, ok 0)
  unfolding process after_matching
  process_idle later refused payload s m same idle =
      ap
        (λ r.
          after_matching uuid_text sha256_hex ilike later uuid match_document_text db refused
            payload.crawler_run_id r s)
        (ap (match_jobs ilike later uuid match_document_text db (payload.job_id ∷ [])) same ∙ idle)
      ∙ ap (λ (x : MatchStore). (record s { matching = x }, ok 0)) (sym same)

  -- With the same alerts and announcements, a second run of a job, at any time, records no match,
  -- adds nothing to the crawl's count, queues no email and answers 0, whatever the queue answers;
  -- this holds after a first run whose emails the queue refused, too.
  pub process_again :
      (later : ℕ) (refused refused_again : Option Text) (payload : MatchJobPayload)
      (s : WorkerStore)
      → let s' = (process_at now refused payload s).0 in
        process_at later refused_again payload s' ≡ (s', ok 0)
  unfolding process
  process_again later refused refused_again payload s =
      let r = match_jobs ilike now uuid match_document_text db (payload.job_id ∷ []) s.matching in
      process_idle later refused_again payload (process_at now refused payload s).0 r.0
        (after_matching-matching uuid_text sha256_hex ilike now uuid match_document_text db refused
          payload.crawler_run_id r s)
        (match_jobs_again ilike now uuid match_document_text db later (payload.job_id ∷ [])
          s.matching)
