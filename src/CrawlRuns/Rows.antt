-- ===== src/CrawlRuns/Rows.antt =====
-- What one `run` of src/modules/crawler/crawler.service.ts does to every row of the table of runs.
use gov_jobs_backend.Base.{
  Attempt, ok, error, ℕ, ◌+◌, ◌*◌, ◌<◌, ◌≡◌, ◌≢◌, some, List, [], ◌∷◌, ◌++◌, All, Memᴰ, String,
}
use gov_jobs_backend.Models.{JobSource, CrawlerRun, running, failed}
use gov_jobs_backend.CrawlRuns.{
  Answers, Clock, CrawlStore, RunOutcome, finished, not_found, conflict, Figures, CrawlSummary,
}
use gov_jobs_backend.CrawlRuns.Run.{succeeded_row, failed_row}

-- A row of the source that is RUNNING, and one for more than thirty minutes.
abbrev pub IsLive : JobSource → CrawlerRun → Type 0
IsLive source r = (r.source ≡ source) × (r.status ≡ running)

abbrev pub IsStale : ℕ → JobSource → CrawlerRun → Type 0
IsStale now source r = IsLive source r × (r.started_at + 30 * 60 * 1000 < now)

-- The rows that are stale are FAILED; every other row is as it was.
pub data Released (now : ℕ) (source : JobSource) : List CrawlerRun → List CrawlerRun → Type 0 where
  no_rows : Released now source [] []
  given_up :
      {rows rows' : List CrawlerRun}
      → (r : CrawlerRun) → IsStale now source r
      → Released now source rows rows'
      → Released now source (r ∷ rows) (
          record r {
            status = failed;
            finished_at = some now;
            error_message = some "Abandoned: still RUNNING after 30 minutes";
          }
          ∷ rows')
  untouched :
      {rows rows' : List CrawlerRun}
      → (r : CrawlerRun) → (IsStale now source r → ⊥)
      → Released now source rows rows'
      → Released now source (r ∷ rows) (r ∷ rows')

-- The row of the run itself, which is over.
pub record IsOwnRow (id : ℕ) (source : JobSource) (trigger : String) (c : Clock) (r : CrawlerRun)
    : Type 0 where
  pub its_id : r.id ≡ id
  pub its_source : r.source ≡ source
  pub its_trigger : r.trigger ≡ trigger
  pub began : r.started_at ≡ c.created_at
  pub ended : r.finished_at ≡ some c.finished_at
  pub over : r.status ≢ running

-- The rows before a run, its outcome and the rows after it.
pub data Acted (id : ℕ) (source : JobSource) (trigger : String) (c : Clock) (rows : List CrawlerRun)
    : RunOutcome → List CrawlerRun → Type 0 where
  unregistered : Acted id source trigger c rows not_found rows
  turned_away :
      {rows' : List CrawlerRun}
      → (r : CrawlerRun) → Memᴰ r rows'
      → IsLive source r
      → Released c.released_at source rows rows'
      → Acted id source trigger c rows conflict rows'
  ran :
      {rows' : List CrawlerRun}
      → (x : CrawlSummary) (r : CrawlerRun) → Released c.released_at source rows rows'
      → ((q : CrawlerRun) → Memᴰ q rows' → IsLive source q → ⊥)
      → IsOwnRow id source trigger c r
      → Acted id source trigger c rows (finished x) (rows' ++ r ∷ [])

-- No row has the id that is drawn next.
abbrev pub AllBefore : ℕ → List CrawlerRun → Type 0
AllBefore id rows = All (λ r. r.id ≢ id) rows

abbrev closed : ℕ → Attempt String Figures → CrawlerRun → CrawlerRun
closed now (ok f) r = succeeded_row now f r
closed now (error e) r = failed_row now e r

module _ (batch_size : ℕ) (registered : List JobSource) (answers : JobSource → Answers)
    (clock : JobSource → Clock) (trigger : String) where
  abbrev ActedBy : JobSource → CrawlStore → CrawlStore × RunOutcome → Type 0
  ActedBy source s (s', outcome) =
      Acted s.runs_drawn source trigger (clock source) s.runs outcome s'.runs
