-- ===== src/CrawlRuns.antt =====
-- The runs of the crawlers: `run`, `runAll` and what they call in
-- src/modules/crawler/crawler.service.ts, src/modules/crawler/crawler.registry.ts, and the partial
-- unique index of src/models/crawler/entities/crawler-run.entity.ts.
pub mod Run
pub mod Slots
pub mod Outcomes
pub mod Batches
pub mod Rows
mod Tests
use gov_jobs_backend.Base.{
  Attempt, ok, error, ℕ, suc, ◌+◌, ◌-◌, ◌*◌, Bool, true, false, ◌&&◌, not, Option, none, some, List,
  [], ◌∷◌, ◌++◌, map, any, filter, take, length, ◌==◌, leb, ltb, if◌then◌else◌, String, Text,
}
use gov_jobs_backend.Models.{
  JobSource, ocsc, dol, admin_court, doe, mdes, same_source, Job, JobAttachment, ExtractionStatus,
  pending, processing, completed, insufficient_text, extraction_failed, CrawlerRun,
  CrawlerRunStatus, running, success, failed,
}
use gov_jobs_backend.Crawler.{NormalizedJob, JobStore, update_where, Tally, persist}

pub record RejectedJob : Type 0 where
  pub external_id : Option String
  pub reason : Text

pub record CrawlResult : Type 0 where
  pub jobs : List NormalizedJob
  pub rejected : List RejectedJob
  pub total_found : ℕ

-- What the portal, the cache, the database and the queues answer during one run.
pub record Answers : Type 0 where
  pub synced : Option String
  pub invalidated : Option String
  pub crawled : Attempt String CrawlResult
  pub insert_error : String
  pub matching_error : Option String
  pub documents_error : Option String

-- The readings of the clock in one run.
pub record Clock : Type 0 where
  pub released_at : ℕ
  pub created_at : ℕ
  pub started_at : ℕ
  pub seen_at : ℕ
  pub measured_at : ℕ
  pub finished_at : ℕ

pub record MatchOffer : Type 0 where
  pub job_id : ℕ
  pub content_hash : String
  pub crawler_run_id : ℕ

-- The tables, and what was offered to the two queues. `runs_drawn` is the next run's id.
pub record CrawlStore : Type 0 where
  pub runs : List CrawlerRun
  pub runs_drawn : ℕ
  pub listed : JobStore
  pub matching : List MatchOffer
  pub documents : List ℕ

pub record CrawlSummary : Type 0 where
  pub run_id : ℕ
  pub source : JobSource
  pub status : CrawlerRunStatus
  pub total_found : ℕ
  pub new_jobs : ℕ
  pub updated_jobs : ℕ
  pub unchanged_jobs : ℕ
  pub skipped_jobs : ℕ
  pub matching_enqueued : ℕ
  pub documents_enqueued : ℕ
  pub duration_ms : ℕ
  pub error_message : Option String
  pub changed_job_ids : List ℕ

pub data RunOutcome : Type 0 where
  finished : CrawlSummary → RunOutcome
  not_found : RunOutcome
  conflict : RunOutcome

abbrev pub stale_run_minutes : ℕ
stale_run_minutes = 30

abbrev pub is_running : CrawlerRun → Bool
is_running r = elim r.status [ running ↦ true | success ↦ false | failed ↦ false ]

-- `where: { source, status: RUNNING }`, which the partial unique index is on.
abbrev pub holds_slot : JobSource → CrawlerRun → Bool
holds_slot source r = same_source r.source source && is_running r

abbrev pub abandoned : ℕ → CrawlerRun → CrawlerRun
abandoned now r = record r {
  status = failed;
  finished_at = some now;
  error_message = some "Abandoned: still RUNNING after 30 minutes";
}

unfoldable pub release_stale_runs : ℕ → JobSource → List CrawlerRun → List CrawlerRun
release_stale_runs now source =
    update_where (λ r. holds_slot source r && ltb r.started_at (now - stale_run_minutes * 60000))
      (abandoned now)

abbrev pub run_row : ℕ → JobSource → String → ℕ → CrawlerRun
run_row id source trigger now = record {
  id = id;
  source = source;
  started_at = now;
  finished_at = none;
  status = running;
  total_found = 0;
  new_jobs = 0;
  updated_jobs = 0;
  skipped_jobs = 0;
  unchanged_jobs = 0;
  alert_matches = 0;
  error_message = none;
  trigger = trigger;
}

-- The insert; `none` where the index refuses it.
unfoldable pub start_run : ℕ → JobSource → String → ℕ → List CrawlerRun → Option (List CrawlerRun)
start_run id source trigger now runs =
    if any (holds_slot source) runs then none else some (runs ++ run_row id source trigger now ∷ [])

-- The announcements of those ids go to the matching queue, under the run's id.
unfoldable pub offers : ℕ → List ℕ → List Job → List MatchOffer
offers run_id ids jobs =
    map (λ j. record { job_id = j.id; content_hash = j.content_hash; crawler_run_id = run_id })
      (filter (λ j. any (λ i. i == j.id) ids) jobs)

abbrev pub is_pending : ExtractionStatus → Bool
is_pending pending = true
is_pending processing = false
is_pending completed = false
is_pending insufficient_text = false
is_pending extraction_failed = false

unfoldable pub insert_by_age : JobAttachment → List JobAttachment → List JobAttachment
insert_by_age a [] = a ∷ []
insert_by_age a (b ∷ bs) =
    if leb a.created_at b.created_at then a ∷ b ∷ bs else b ∷ insert_by_age a bs

-- `order: { createdAt: "ASC" }`
unfoldable pub oldest_first : List JobAttachment → List JobAttachment
oldest_first [] = []
oldest_first (a ∷ rows) = insert_by_age a (oldest_first rows)

unfoldable pub unread : ℕ → List JobAttachment → List ℕ
unread batch_size rows =
    map (λ a. a.id)
      (take batch_size (oldest_first (filter (λ a. is_pending a.extraction_status) rows)))

-- What a run found out when nothing was thrown.
pub record Figures : Type 0 where
  pub found : CrawlResult
  pub tally : Tally
  pub matching_enqueued : ℕ
  pub documents_enqueued : ℕ

-- Nothing is offered, and nothing can fail, for an empty list.
abbrev pub unless_empty : List ℕ → Option String → Option String
unless_empty [] e = none
unless_empty (i ∷ is) e = e

module _ (batch_size : ℕ) (answers : Answers) (clock : Clock) where
  -- From `enqueueMatching` on.
  unfoldable pub enqueue :
      ℕ → CrawlResult → Tally → CrawlStore → CrawlStore × Attempt String Figures
  enqueue run_id found tally s =
      let offered = offers run_id tally.changed_job_ids s.listed.jobs in
      let waiting = unread batch_size s.listed.attachments in
      elim (unless_empty tally.changed_job_ids answers.matching_error) [
        | some e ↦ (s, error e)
        | none ↦
            let s' = record s { matching = s.matching ++ offered } in
            elim (unless_empty waiting answers.documents_error) [
              | some e ↦ (s', error e)
              | none ↦ (
                record s' { documents = s'.documents ++ waiting },
                ok (record {
                  found = found;
                  tally = tally;
                  matching_enqueued = length offered;
                  documents_enqueued = length waiting;
                }),
              )
            ]
      ]

  -- The `try` block up to the summary.
  unfoldable pub crawl_and_persist : ℕ → CrawlStore → CrawlStore × Attempt String Figures
  unfolding enqueue
  crawl_and_persist run_id s = elim answers.synced [
    | some e ↦ (s, error e)
    | none ↦ elim answers.invalidated [
      | some e ↦ (s, error e)
      | none ↦ elim answers.crawled [
        | error e ↦ (s, error e)
        | ok found ↦
            let (listed', t) = persist clock.seen_at found.jobs s.listed in
            let s' = record s { listed = listed' } in
            elim t [
              | none ↦ (s', error answers.insert_error)
              | some tally ↦ enqueue run_id found tally s'
            ]
      ]
    ]
  ]
