-- ===== src/Samples.antt =====
-- Configurations for the tests: the defaults of app/config.py, and one for production.
use civic_archive_api.Prelude.{true, false, none, some}
use civic_archive_api.Prelude.Int.{pos}
use civic_archive_api.Config.{Config}

abbrev pub defaults : Config
defaults = record {
  postgres_password = "change_me";
  db_pool_size = pos 10;
  db_max_overflow = pos 20;
  db_pool_timeout_seconds = pos 30;
  db_pool_recycle_seconds = pos 3600;
  db_connect_timeout_seconds = pos 3;
  db_statement_timeout_ms = pos 5000;
  ingest_max_batch_items = pos 200;
  max_request_body_bytes = pos 1_048_576;
  app_env_raw = "development";
  security_strict_mode = false;
  bootstrap_tables_on_startup = false;
  require_api_key = false;
  api_key = none;
  require_jwt = false;
  jwt_secret = none;
  jwt_leeway_seconds = pos 0;
  jwt_audience = none;
  jwt_issuer = none;
  jwt_scope_read = "archive:read";
  jwt_scope_write = "archive:write";
  jwt_scope_delete = "archive:delete";
  jwt_admin_role = "admin";
  rate_limit_per_minute = pos 0;
  rate_limit_backend_raw = "memory";
  redis_url = none;
  rate_limit_redis_prefix = "civic_archive:rate_limit";
  rate_limit_redis_window_seconds = pos 65;
  rate_limit_redis_failure_cooldown_seconds = pos 5;
  rate_limit_fail_open = true;
  trusted_proxy_cidrs = "";
  cors_allow_origins = "*";
  cors_allow_methods = "GET,POST,DELETE,OPTIONS";
  cors_allow_headers = "*";
  allowed_hosts = "*";
}

abbrev pub production : Config
production = record defaults {
  postgres_password = "s3cret";
  app_env_raw = " Production ";
  require_api_key = true;
  api_key = some "k1";
  require_jwt = true;
  jwt_secret = some "0123456789abcdef0123456789abcdef";
  rate_limit_per_minute = pos 60;
  rate_limit_backend_raw = "Redis";
  redis_url = some "redis://cache";
  cors_allow_origins = "https://a.example, https://b.example";
  allowed_hosts = "api.example";
}
