-- ===== src/Startup.antt =====
-- app/bootstrap/validation.py: the checks of a configuration before the application starts.
-- The result is the warnings that are logged, in order, and whether the call returns or raises.
mod Checks
pub mod Sound
pub mod Strict
pub mod Accepts
pub mod Tests
use Prim.Native.String.{len}
use civic_archive_api.Prelude.{
  ℕ, String, Bool, true, false, not, ◌&&◌, ◌||◌, List, [], ◌∷◌, ◌++◌, any, ◌==◌, ltb, if◌then◌else◌,
}
use civic_archive_api.Prelude.Int.{pos, ltb_ℤ, leb_ℤ}
use civic_archive_api.Text.{is_empty, or_empty, strip}
use civic_archive_api.Errors.{Result, ok, raise, runtime_error}
use civic_archive_api.Config.{
  Config, allowed_hosts_list, cors_allow_origins_list, rate_limit_backend, app_env,
  strict_security_mode,
}

abbrev pub jwt_secret_min_bytes : ℕ
jwt_secret_min_bytes = 32

abbrev pub default_db_password : String
default_db_password = "change_me"

pub data Warning : Type 0 where
  rate_limit_memory_backend_multi_worker_risk : Warning
  auth_disabled_in_non_development : Warning
  default_db_password_detected : Warning

-- `if condition: raise RuntimeError(message)`
abbrev pub Check : Type 0
Check = Bool × String

unfoldable pub run_checks : List Check → Result (Unit {0})
run_checks [] = ok tt
run_checks ((condition, message) ∷ checks) =
    if condition then raise (runtime_error message) else run_checks checks

-- The checks before the strict ones.
unfoldable pub basic_checks : Config → List Check
basic_checks c =
    (
      c.bootstrap_tables_on_startup,
      "BOOTSTRAP_TABLES_ON_STARTUP is disabled. Run 'alembic upgrade head' before startup.",
    )
    ∷ (
      c.require_api_key && is_empty (strip (or_empty c.api_key)),
      "REQUIRE_API_KEY=1 requires API_KEY to be set.",
    )
    ∷ (
      c.require_jwt && is_empty (strip (or_empty c.jwt_secret)),
      "REQUIRE_JWT=1 requires JWT_SECRET to be set.",
    )
    ∷ (
      c.require_jwt && ltb (len (strip (or_empty c.jwt_secret))) jwt_secret_min_bytes,
      "JWT_SECRET must be at least 32 bytes.",
    )
    ∷ (ltb_ℤ c.jwt_leeway_seconds (pos 0), "JWT_LEEWAY_SECONDS must be greater than or equal to 0.")
    ∷ (
      not (rate_limit_backend c == "memory" || rate_limit_backend c == "redis"),
      "RATE_LIMIT_BACKEND must be one of: memory, redis.",
    )
    ∷ (
      rate_limit_backend c == "redis" && is_empty (strip (or_empty c.redis_url)),
      "RATE_LIMIT_BACKEND=redis requires REDIS_URL to be set.",
    )
    ∷ (
      leb_ℤ c.rate_limit_redis_failure_cooldown_seconds (pos 0),
      "RATE_LIMIT_REDIS_FAILURE_COOLDOWN_SECONDS must be greater than 0.",
    )
    ∷ (leb_ℤ c.db_pool_size (pos 0), "DB_POOL_SIZE must be greater than 0.")
    ∷ (ltb_ℤ c.db_max_overflow (pos 0), "DB_MAX_OVERFLOW must be greater than or equal to 0.")
    ∷ (leb_ℤ c.db_pool_timeout_seconds (pos 0), "DB_POOL_TIMEOUT_SECONDS must be greater than 0.")
    ∷ (leb_ℤ c.db_pool_recycle_seconds (pos 0), "DB_POOL_RECYCLE_SECONDS must be greater than 0.")
    ∷ (
      leb_ℤ c.db_connect_timeout_seconds (pos 0),
      "DB_CONNECT_TIMEOUT_SECONDS must be greater than 0.",
    )
    ∷ (leb_ℤ c.db_statement_timeout_ms (pos 0), "DB_STATEMENT_TIMEOUT_MS must be greater than 0.")
    ∷ (leb_ℤ c.ingest_max_batch_items (pos 0), "INGEST_MAX_BATCH_ITEMS must be greater than 0.")
    ∷ (leb_ℤ c.max_request_body_bytes (pos 0), "MAX_REQUEST_BODY_BYTES must be greater than 0.")
    ∷ []

abbrev pub has_wildcard : List String → Bool
has_wildcard values = any (λ value. value == "*") values

-- The checks under `if config.strict_security_mode`.
unfoldable pub strict_checks : Config → List Check
strict_checks c =
    (
      not (c.require_api_key || c.require_jwt),
      "Strict security mode requires REQUIRE_API_KEY=1 or REQUIRE_JWT=1.",
    )
    ∷ (
      has_wildcard (allowed_hosts_list c),
      "Strict security mode requires explicit ALLOWED_HOSTS (wildcard is not allowed).",
    )
    ∷ (
      has_wildcard (cors_allow_origins_list c),
      "Strict security mode requires explicit CORS_ALLOW_ORIGINS (wildcard is not allowed).",
    )
    ∷ (
      leb_ℤ c.rate_limit_per_minute (pos 0),
      "Strict security mode requires RATE_LIMIT_PER_MINUTE > 0.",
    )
    ∷ (
      rate_limit_backend c == "memory" && ltb_ℤ (pos 0) c.rate_limit_per_minute,
      "Strict security mode requires RATE_LIMIT_BACKEND=redis. InMemoryRateLimiter is process-local and does not enforce limits across multiple workers.",
    )
    ∷ []

abbrev warn_if : Bool → Warning → List Warning
warn_if condition warning = if condition then warning ∷ [] else []

unfoldable pub is_development : Config → Bool
is_development c = app_env c == "development" || app_env c == "test"

unfoldable pub first_warnings : Config → List Warning
unfolding is_development
first_warnings c =
    warn_if (rate_limit_backend c == "memory" && ltb_ℤ (pos 0) c.rate_limit_per_minute)
      rate_limit_memory_backend_multi_worker_risk
    ++ warn_if (not (is_development c) && (not c.require_api_key && not c.require_jwt))
        auth_disabled_in_non_development

-- What follows the checks: two warnings, and the test of the database's password.
unfoldable pub after_checks : Config → List Warning × Result (Unit {0})
after_checks c =
    if c.postgres_password == default_db_password
    then (if strict_security_mode c
        then (
          first_warnings c,
          raise (
              runtime_error
                "Strict security mode requires POSTGRES_PASSWORD to be changed from the default value."),
        )
        else (
          first_warnings c ++ warn_if (not (is_development c)) default_db_password_detected,
          ok tt,
        ))
    else (first_warnings c, ok tt)

-- An exception ends the call, before any warning.
unfoldable pub unless_raised :
    Result (Unit {0}) → List Warning × Result (Unit {0}) → List Warning × Result (Unit {0})
unless_raised (raise e) rest = ([], raise e)
unless_raised (ok _) rest = rest

unfoldable pub validate_startup_config : Config → List Warning × Result (Unit {0})
validate_startup_config c =
    unless_raised
      (run_checks (basic_checks c ++ (if strict_security_mode c then strict_checks c else [])))
      (after_checks c)
