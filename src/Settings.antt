-- ===== src/Settings.antt =====
-- app/config.py: the settings, read from the environment, and the guard of a production deployment.
-- `env name` is `os.getenv(name)`; `lower` is `str.lower`, and `int_of` is `int` of a text, none where it
-- raises ValueError.
pub mod Production
pub mod Tests
use Prim.Native.String
use beacn.Base.{
  ℕ, ◌*◌, Bool, true, false, ◌||◌, not, String, List, [], ◌∷◌, ◌++◌, map, keep, Option, none, some,
  or_default, is_empty, elem, ◌==◌, if◌then◌else◌,
}
use beacn.Base.Int.{ℤ, pos}
use beacn.Base.Strip.{strip}
use beacn.Events.{has_prefix}
use beacn.Realtime.Stream.{split_commas, is_full}

abbrev pub insecure_secret : String
insecure_secret = "dev-only-insecure-secret-key"

abbrev pub true_words : List String
true_words = "1" ∷ "true" ∷ "yes" ∷ "on" ∷ []

pub record Config : Type 0 where
  pub app_env : String
  pub app_url : String
  pub debug : Bool
  pub secret_key : String
  pub database_url : String
  pub bus_backend : String
  pub queue_backend : String
  pub ingest_rate_per_minute : ℤ
  pub ingest_burst : ℤ
  pub max_request_bytes : ℤ
  pub idempotency_ttl_hours : ℤ
  pub event_retention_hours : ℤ
  pub task_retention_hours : ℤ
  pub notification_retention_hours : ℤ
  pub connection_retention_hours : ℤ
  pub heartbeat_ms : ℤ
  pub per_connection_queue : ℤ
  pub realtime_token_ttl_seconds : ℤ
  pub replay_max_events : ℤ
  pub cookie_secure : Bool

module _ (lower : String → String) (int_of : String → Option ℤ) (default_database : String)
    (env : String → Option String) where
  -- `_bool(name, default)`
  unfoldable pub bool_at : String → Bool → Bool
  bool_at name default = elim (env name) [
    | none ↦ default
    | some raw ↦ elem (lower (strip raw)) true_words
  ]

  abbrev int_or : Option ℤ → ℤ → ℤ
  int_or none default = default
  int_or (some n) default = n

  -- `_int(name, default)`
  unfoldable pub int_at : String → ℤ → ℤ
  int_at name default =
      let raw = or_default (env name) "" in
      if is_empty (strip raw) then default else int_or (int_of raw) default

  -- `os.getenv(name, default)`
  unfoldable pub text_at : String → String → String
  text_at name default = or_default (env name) default

  -- `Config()`
  unfoldable pub config : Config
  config = record {
    app_env = text_at "APP_ENV" "local";
    app_url = text_at "APP_URL" "http://localhost:8000";
    debug = bool_at "APP_DEBUG" true;
    secret_key = text_at "SECRET_KEY" insecure_secret;
    database_url = text_at "DATABASE_URL" default_database;
    bus_backend = text_at "BEACN_BUS" "memory";
    queue_backend = text_at "QUEUE_BACKEND" "memory";
    ingest_rate_per_minute = int_at "INGEST_RATE_PER_MINUTE" (pos 6000);
    ingest_burst = int_at "INGEST_BURST" (pos 600);
    max_request_bytes = int_at "MAX_REQUEST_BYTES" (pos 4194304);
    idempotency_ttl_hours = int_at "IDEMPOTENCY_TTL_HOURS" (pos 24);
    event_retention_hours = int_at "EVENT_RETENTION_HOURS" (pos 168);
    task_retention_hours = int_at "TASK_RETENTION_HOURS" (pos 720);
    notification_retention_hours = int_at "NOTIFICATION_RETENTION_HOURS" (pos 720);
    connection_retention_hours = int_at "CONNECTION_RETENTION_HOURS" (pos 72);
    heartbeat_ms = int_at "REALTIME_HEARTBEAT_MS" (pos 25000);
    per_connection_queue = int_at "REALTIME_QUEUE" (pos 512);
    realtime_token_ttl_seconds = int_at "REALTIME_TOKEN_TTL_SECONDS" (pos 3600);
    replay_max_events = int_at "REPLAY_MAX_EVENTS" (pos 1000);
    cookie_secure = bool_at "COOKIE_SECURE" (text_at "APP_ENV" "local" == "production");
  }

  -- `cors_origins()`
  unfoldable pub cors_origins : List String
  cors_origins =
      let raw = text_at "CORS_ORIGINS" "" in
      if is_empty (strip raw)
      then text_at "APP_URL" "http://localhost:8000" ∷ []
      else keep is_full (map strip (split_commas raw))

-- `scheme` and `uses_redis`
unfoldable pub scheme : Config → String
scheme c = if has_prefix "https://" c.app_url then "https" else "http"

unfoldable pub uses_redis : Config → Bool
uses_redis c = c.bus_backend == "redis" || c.queue_backend == "redis"

abbrev warn : Bool → String → List String → List String
warn b text rest = if b then text ∷ rest else rest

-- `check_production()`
unfoldable pub check_production : Config → List String
check_production c =
    if not (c.app_env == "production")
    then []
    else warn (c.secret_key == insecure_secret) "SECRET_KEY is the development default." (
        warn c.debug "APP_DEBUG is on." (
          warn (not c.cookie_secure) "COOKIE_SECURE is off; session cookies would ride plain HTTP."
            (warn (has_prefix "sqlite://" c.database_url)
              "DATABASE_URL is SQLite; use Postgres in production."
              (warn (not (c.bus_backend == "redis"))
                "BEACN_BUS is not 'redis'; multi-instance fanout will not work across processes."
                []))))
