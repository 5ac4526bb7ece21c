-- ===== src/Configuration.antt =====
-- The configuration, read from the environment: src/config/configuration.ts. An environment gives
-- the text of a variable, or none. The file that `dotenv` adds to it is read before.
pub mod Usable
pub mod Scheduled
mod Tests
use gov_jobs_backend.Base.{
  ℕ, ℤ, pos, Bool, true, false, ◌&&◌, ◌||◌, not, Option, none, some, List, [], ◌∷◌, ◌++◌, map,
  filter, if◌then◌else◌, String, Text, text_eq, codes, trim, trim_start, ◌*◌,
}
use gov_jobs_backend.Notifications.{join_with}
use gov_jobs_backend.Web.Queries.{split_commas, parse_int}

abbrev pub Environment : Type 0
Environment = String → Option Text

pub record AppConfig : Type 0 where
  pub env : Text
  pub port : ℤ
  pub api_prefix : Text
  pub cors_origins : List Text
  pub timezone : Text
  pub public_web_url : Text
  pub public_api_url : Text

pub record DatabaseConfig : Type 0 where
  pub url : Text
  pub synchronize : Bool
  pub logging : Bool
  -- `rejectUnauthorized`, where TLS is used
  pub ssl : Option Bool

pub data CacheProvider : Type 0 where
  upstash memory : CacheProvider

pub record CacheConfig : Type 0 where
  pub provider : CacheProvider
  pub rest_url : Option Text
  pub rest_token : Option Text
  pub prefix : Text
  pub ttl_seconds : ℤ

pub record QueueConfig : Type 0 where
  pub schema : Text
  pub prefix : Text

pub record SecurityConfig : Type 0 where
  pub jwt_secret : Text
  pub jwt_expires_in : Text
  pub refresh_ttl_days : ℤ
  pub bcrypt_rounds : ℤ
  pub throttle_ttl_seconds : ℤ
  pub throttle_limit : ℤ
  pub internal_api_key : Text

pub record OcscConfig : Type 0 where
  pub api_base_url : Text
  pub portal_base_url : Text
  pub timeout_ms : ℤ
  pub user_agent : Text

pub record DolConfig : Type 0 where
  pub listing_url : Text
  pub listing_pages : ℤ
  pub timeout_ms : ℤ

pub record MdesConfig : Type 0 where
  pub listing_url : Text
  pub listing_pages : ℤ
  pub timeout_ms : ℤ
  pub request_delay_ms : ℤ

pub record CrawlerConfig : Type 0 where
  pub user_agent : Text
  pub ocsc : OcscConfig
  pub dol : DolConfig
  pub mdes : MdesConfig
  pub scheduler_enabled : Bool
  pub interval_minutes : ℤ

pub record DocumentConfig : Type 0 where
  pub max_bytes : ℤ
  pub min_text_length : ℤ
  pub timeout_ms : ℤ
  pub batch_size : ℤ
  pub match_document_text : Bool

pub record MailConfig : Type 0 where
  pub provider : Text
  pub api_key : Option Text
  pub from : Text
  pub reply_to : Option Text

pub record Configuration : Type 0 where
  pub app : AppConfig
  pub document : DocumentConfig
  pub database : DatabaseConfig
  pub cache : CacheConfig
  pub queue : QueueConfig
  pub security : SecurityConfig
  pub crawler : CrawlerConfig
  pub mail : MailConfig

-- `value ?? fallback`
abbrev pub or_default : Option Text → Text → Text
or_default none fallback = fallback
or_default (some value) fallback = value

abbrev pub int_or : Option ℤ → ℤ → ℤ
int_or none fallback = fallback
int_or (some n) fallback = n

unfoldable pub to_int : Option Text → ℕ → ℤ
unfolding parse_int trim_start
to_int value fallback = int_or (parse_int (trim_start (or_default value []))) (pos fallback)

unfoldable pub to_bool : Option Text → Bool → Bool
unfolding text_eq
to_bool none fallback = fallback
to_bool (some []) fallback = fallback
to_bool (some (c ∷ s)) fallback = text_eq (c ∷ s) (codes "true") || text_eq (c ∷ s) (codes "1")

-- A text that counts as true.
abbrev pub is_set : Text → Bool
is_set [] = false
is_set (c ∷ s) = true

-- `a || b`
abbrev pub first_set : Option Text → Option Text → Option Text
first_set none b = b
first_set (some []) b = b
first_set (some (c ∷ s)) b = some (c ∷ s)

abbrev pub or_other : Option Text → Option Text → Option Text
or_other none b = b
or_other (some a) b = some a

abbrev pub given : Option Text → Bool
given none = false
given (some t) = is_set t

abbrev pub default_user_agent : Text
default_user_agent =
    codes "gov-jobs-alert/1.0 (+https://github.com/gov-jobs; public job announcement aggregator)"

unfoldable pub crawler_config : Environment → CrawlerConfig
unfolding to_int to_bool
crawler_config env = record {
  user_agent =
      or_default (or_other (env "CRAWLER_USER_AGENT") (env "OCSC_USER_AGENT")) default_user_agent;
  dol = record {
    listing_url = or_default (env "DOL_LISTING_URL") (
        codes
          "https://www.dol.go.th/department-news/activity-updates/personnel-divisions-news/examination");
    listing_pages = to_int (env "DOL_LISTING_PAGES") 2;
    timeout_ms = to_int (env "DOL_TIMEOUT_MS") 30000;
  };
  mdes = record {
    listing_url = or_default (env "MDES_LISTING_URL") (codes "https://mdes.go.th/news/7");
    listing_pages = to_int (env "MDES_LISTING_PAGES") 2;
    timeout_ms = to_int (env "MDES_TIMEOUT_MS") 30000;
    request_delay_ms = to_int (env "MDES_REQUEST_DELAY_MS") 800;
  };
  ocsc = record {
    api_base_url = or_default (env "OCSC_API_BASE_URL") (codes "https://jobapp.ocsc.go.th/jobapi");
    portal_base_url =
        or_default (env "OCSC_PORTAL_BASE_URL") (codes "https://job.ocsc.go.th/portal");
    timeout_ms = to_int (env "OCSC_TIMEOUT_MS") 30000;
    user_agent = or_default (env "OCSC_USER_AGENT") default_user_agent;
  };
  scheduler_enabled = to_bool (env "CRAWLER_SCHEDULER_ENABLED") false;
  interval_minutes =
      to_int (first_set (env "CRAWLER_INTERVAL_MINUTES") (env "OCSC_CRAWL_INTERVAL_MINUTES")) 60;
}

unfoldable pub configuration : Environment → Configuration
unfolding to_int to_bool crawler_config split_commas trim
configuration env = record {
  app = record {
    env = or_default (env "NODE_ENV") (codes "local");
    port = to_int (env "PORT") 3001;
    api_prefix = or_default (env "API_PREFIX") (codes "api");
    cors_origins =
        filter is_set (
          map trim
            (split_commas (or_default (env "CORS_ORIGINS") (codes "http://localhost:3000"))));
    timezone = or_default (env "APP_TIMEZONE") (codes "Asia/Bangkok");
    public_web_url = or_default (env "PUBLIC_WEB_URL") (codes "http://localhost:3000");
    public_api_url = or_default (env "PUBLIC_API_URL") (codes "http://localhost:3001");
  };
  database = record {
    url = or_default (env "DATABASE_URL") [];
    synchronize = false;
    logging = to_bool (env "DB_LOGGING") false;
    ssl = if to_bool (env "DB_SSL") true then some false else none;
  };
  cache = record {
    provider =
        if given (env "UPSTASH_REDIS_REST_URL") && given (env "UPSTASH_REDIS_REST_TOKEN")
        then upstash
        else memory;
    rest_url = env "UPSTASH_REDIS_REST_URL";
    rest_token = env "UPSTASH_REDIS_REST_TOKEN";
    prefix = or_default (env "CACHE_PREFIX") (codes "gov-jobs");
    ttl_seconds = to_int (env "CACHE_TTL_SECONDS") 300;
  };
  queue = record {
    schema = or_default (env "QUEUE_SCHEMA") (codes "bullmq");
    prefix = or_default (env "QUEUE_PREFIX") (codes "gov-jobs");
  };
  security = record {
    jwt_secret = or_default (env "JWT_SECRET") [];
    jwt_expires_in = or_default (env "JWT_EXPIRES_IN") (codes "15m");
    refresh_ttl_days = to_int (env "REFRESH_TTL_DAYS") 30;
    bcrypt_rounds = to_int (env "BCRYPT_ROUNDS") 10;
    throttle_ttl_seconds = to_int (env "THROTTLE_TTL_SECONDS") 60;
    throttle_limit = to_int (env "THROTTLE_LIMIT") 120;
    internal_api_key = or_default (env "INTERNAL_API_KEY") [];
  };
  crawler = crawler_config env;
  document = record {
    max_bytes = to_int (env "DOCUMENT_MAX_BYTES") (16 * 1024 * 1024);
    min_text_length = to_int (env "DOCUMENT_MIN_TEXT_LENGTH") 200;
    timeout_ms = to_int (env "DOCUMENT_TIMEOUT_MS") 60000;
    batch_size = to_int (env "DOCUMENT_BATCH_SIZE") 50;
    match_document_text = to_bool (env "DOCUMENT_MATCH_TEXT") false;
  };
  mail = record {
    provider = or_default (env "MAIL_PROVIDER") (codes "console");
    api_key = env "RESEND_API_KEY";
    from = or_default (env "MAIL_FROM") (codes "Gov Jobs Alert <onboarding@resend.dev>");
    reply_to = env "MAIL_REPLY_TO";
  };
}

abbrev pub when : Bool → Text → List Text
when true name = name ∷ []
when false name = []

unfoldable pub missing : Configuration → List Text
unfolding text_eq
missing config =
    when (not (is_set config.database.url)) (codes "DATABASE_URL")
    ++ (when (not (is_set config.security.jwt_secret)) (codes "JWT_SECRET")
        ++ when (text_eq config.mail.provider (codes "resend") && not (given config.mail.api_key))
            (codes "RESEND_API_KEY"))

abbrev pub env_file_path : Environment → Text
env_file_path env =
    if text_eq (or_default (env "NODE_ENV") []) (codes "development")
    then codes ".env.development.local"
    else codes ".env"

-- Whether the program may start, or the message of the error that is thrown.
pub data Startup : Type 0 where
  started : Startup
  refused : Text → Startup

abbrev pub refuse : Environment → List Text → Startup
refuse env [] = started
refuse env (name ∷ names) = refused (
    codes "Missing required configuration: "
    ++ (join_with (codes ", ") (name ∷ names)
        ++ (codes ".\nExpected them in "
            ++ (env_file_path env
                ++ (codes " (NODE_ENV="
                    ++ (or_default (env "NODE_ENV") (codes "(unset)")
                        ++ codes "). See .env.example."))))))

unfoldable pub assert_usable_configuration : Environment → Configuration → Startup
unfolding missing join_with text_eq
assert_usable_configuration env config = refuse env (missing config)
