-- ===== src/Configuration/Scheduled.antt =====
-- The crawls that the process itself starts: src/modules/crawler/crawler.scheduler.ts. When cron
-- fires on a pattern is left to its library.
use gov_jobs_backend.Base.{
  ℕ, ◌≡◌, max, ℤ, pos, negsuc, false, Option, none, some, ◌++◌, if◌then◌else◌, String, Text, codes,
  print_number, refl,
}
use gov_jobs_backend.Configuration.{Environment, CrawlerConfig, crawler_config, to_bool}

pub record CronJob : Type 0 where
  pub name : String
  pub pattern : Text
  -- what `runAll` is given each time the pattern fires
  pub trigger : String

-- `Math.max(1, …)`
abbrev pub at_least_one : ℤ → ℕ
at_least_one (pos n) = max 1 n
at_least_one (negsuc n) = 1

-- No job where the scheduler is not enabled.
unfoldable pub on_module_init : CrawlerConfig → Option CronJob
unfolding print_number
on_module_init config =
    if config.scheduler_enabled
    then some (record {
      name = "source-crawl";
      pattern =
          codes "0 */" ++ (print_number (at_least_one config.interval_minutes) ++ codes " * * * *");
      trigger = "scheduler";
    })
    else none

init_disabled :
    (config : CrawlerConfig) → config.scheduler_enabled ≡ false → on_module_init config ≡ none
unfolding on_module_init
init_disabled config off = rw off refl

-- Where the variable CRAWLER_SCHEDULER_ENABLED reads as false, the process starts no crawl.
pub on_module_init_off :
    (env : Environment)
    → to_bool (env "CRAWLER_SCHEDULER_ENABLED") false ≡ false
    → on_module_init (crawler_config env) ≡ none
unfolding crawler_config
on_module_init_off env off = init_disabled (crawler_config env) off
