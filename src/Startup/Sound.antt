-- ===== src/Startup/Sound.antt =====
-- The checks that every configuration passes, and what they ask.
use Prim.Native.String.{len}
use civic_archive_api.Prelude.{◌≤◌, ◌≡◌, ◌⊎◌, inl, inr, true, false, not, ◌||◌, arith, ◌==◌, eq_iff}
use civic_archive_api.Text.{is_empty, or_empty, strip}
use civic_archive_api.Config.{Config, rate_limit_backend}
use civic_archive_api.Startup.{jwt_secret_min_bytes, basic_checks}
use civic_archive_api.Startup.Checks.{
  AllPass, ◌▸◌, IsPositive, IsNonnegative, IsNonnegative-iff, IsPositive-iff, guard_iff,
  name_guard_iff, length_iff,
}

-- What every configuration that starts satisfies.
pub record IsSound (c : Config) : Type 0 where
  pub migrations_only : c.bootstrap_tables_on_startup ≡ false
  pub api_key_set : c.require_api_key ≡ true → is_empty (strip (or_empty c.api_key)) ≡ false
  pub jwt_secret_set : c.require_jwt ≡ true → is_empty (strip (or_empty c.jwt_secret)) ≡ false
  pub jwt_secret_long :
      c.require_jwt ≡ true → jwt_secret_min_bytes ≤ len (strip (or_empty c.jwt_secret))
  pub leeway : IsNonnegative c.jwt_leeway_seconds
  pub backend : (rate_limit_backend c ≡ "memory") ⊎ (rate_limit_backend c ≡ "redis")
  pub redis_url_set :
      rate_limit_backend c ≡ "redis" → is_empty (strip (or_empty c.redis_url)) ≡ false
  pub cooldown : IsPositive c.rate_limit_redis_failure_cooldown_seconds
  pub pool_size : IsPositive c.db_pool_size
  pub overflow : IsNonnegative c.db_max_overflow
  pub pool_timeout : IsPositive c.db_pool_timeout_seconds
  pub pool_recycle : IsPositive c.db_pool_recycle_seconds
  pub connect_timeout : IsPositive c.db_connect_timeout_seconds
  pub statement_timeout : IsPositive c.db_statement_timeout_ms
  pub batch_items : IsPositive c.ingest_max_batch_items
  pub body_bytes : IsPositive c.max_request_body_bytes

known_backend :
    (c : Config)
    → (rate_limit_backend c ≡ "memory") ⊎ (rate_limit_backend c ≡ "redis")
    → not (rate_limit_backend c == "memory" || rate_limit_backend c == "redis") ≡ false
known_backend c (inl e) = ground (arith, eq_iff (rate_limit_backend c) "memory")
known_backend c (inr e) = ground (arith, eq_iff (rate_limit_backend c) "redis")

pub basic_checks-IsSound : (c : Config) → AllPass (basic_checks c) → IsSound c
unfolding basic_checks
basic_checks-IsSound c
      (
        bootstrap,
        (
          api_key,
          (
            secret,
            (
              long,
              (
                leeway,
                (
                  backend,
                  (
                    redis,
                    (
                      cooldown,
                      (
                        size,
                        (overflow, (wait, (recycle, (connect, (statement, (batch, (body, _))))))),
                      ),
                    ),
                  ),
                ),
              ),
            ),
          ),
        ),
      ) =
    record {
      migrations_only = bootstrap;
      api_key_set = (guard_iff c.require_api_key _).0 api_key;
      jwt_secret_set = (guard_iff c.require_jwt _).0 secret;
      jwt_secret_long = λ e. (length_iff _ _).0 ((guard_iff c.require_jwt _).0 long e);
      leeway = (IsNonnegative-iff c.jwt_leeway_seconds).0 leeway;
      backend =
          ground
            (arith, eq_iff (rate_limit_backend c) "memory", eq_iff (rate_limit_backend c) "redis");
      redis_url_set = (name_guard_iff (rate_limit_backend c) "redis" _).0 redis;
      cooldown = (IsPositive-iff c.rate_limit_redis_failure_cooldown_seconds).0 cooldown;
      pool_size = (IsPositive-iff c.db_pool_size).0 size;
      overflow = (IsNonnegative-iff c.db_max_overflow).0 overflow;
      pool_timeout = (IsPositive-iff c.db_pool_timeout_seconds).0 wait;
      pool_recycle = (IsPositive-iff c.db_pool_recycle_seconds).0 recycle;
      connect_timeout = (IsPositive-iff c.db_connect_timeout_seconds).0 connect;
      statement_timeout = (IsPositive-iff c.db_statement_timeout_ms).0 statement;
      batch_items = (IsPositive-iff c.ingest_max_batch_items).0 batch;
      body_bytes = (IsPositive-iff c.max_request_body_bytes).0 body;
    }

pub IsSound-basic_checks : (c : Config) → IsSound c → AllPass (basic_checks c)
unfolding basic_checks
IsSound-basic_checks c s =
    s.migrations_only
    ▸ (guard_iff c.require_api_key _).1 s.api_key_set
    ▸ (guard_iff c.require_jwt _).1 s.jwt_secret_set
    ▸ (guard_iff c.require_jwt _).1 (λ e. (length_iff _ _).1 (s.jwt_secret_long e))
    ▸ (IsNonnegative-iff c.jwt_leeway_seconds).1 s.leeway
    ▸ known_backend c s.backend
    ▸ (name_guard_iff (rate_limit_backend c) "redis" _).1 s.redis_url_set
    ▸ (IsPositive-iff c.rate_limit_redis_failure_cooldown_seconds).1 s.cooldown
    ▸ (IsPositive-iff c.db_pool_size).1 s.pool_size
    ▸ (IsNonnegative-iff c.db_max_overflow).1 s.overflow
    ▸ (IsPositive-iff c.db_pool_timeout_seconds).1 s.pool_timeout
    ▸ (IsPositive-iff c.db_pool_recycle_seconds).1 s.pool_recycle
    ▸ (IsPositive-iff c.db_connect_timeout_seconds).1 s.connect_timeout
    ▸ (IsPositive-iff c.db_statement_timeout_ms).1 s.statement_timeout
    ▸ (IsPositive-iff c.ingest_max_batch_items).1 s.batch_items
    ▸ (IsPositive-iff c.max_request_body_bytes).1 s.body_bytes
    ▸ tt
