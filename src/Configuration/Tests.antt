-- ===== src/Configuration/Tests.antt =====
-- An empty environment, and one with two blank variables.
use gov_jobs_backend.Base.{
  ◌≡◌, refl, none, some, [], ◌∷◌, error, pos, String, str_eq, if◌then◌else◌, codes,
}
use gov_jobs_backend.Configuration.{Environment, configuration, crawler_config, missing}

abbrev nothing : Environment
nothing name = none

what_is_missing : missing (configuration nothing) ≡ codes "DATABASE_URL" ∷ codes "JWT_SECRET" ∷ []
unfolding configuration missing
what_is_missing = refl

abbrev blank_interval : Environment
blank_interval name =
    if str_eq name "CRAWLER_INTERVAL_MINUTES"
    then some []
    else if str_eq name "OCSC_CRAWL_INTERVAL_MINUTES"
    then some (codes " 15 minutes")
    else none

old_name : (crawler_config blank_interval).interval_minutes ≡ pos 15
unfolding crawler_config gov_jobs_backend.Base.is_space
old_name = refl
