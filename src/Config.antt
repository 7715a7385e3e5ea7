-- ===== src/Config.antt =====
-- app/config.py: the settings, and the properties that read them.
use civic_archive_api.Prelude.{
  String, Bool, true, not, ◌||◌, Option, List, [], ◌∷◌, map, keep, ◌==◌, eqb, if◌then◌else◌,
}
use civic_archive_api.Prelude.Int.{ℤ}
use civic_archive_api.Text.{is_empty, strip, lower, split_by}

pub record Config : Type 0 where
  pub postgres_password : String
  pub db_pool_size : ℤ
  pub db_max_overflow : ℤ
  pub db_pool_timeout_seconds : ℤ
  pub db_pool_recycle_seconds : ℤ
  pub db_connect_timeout_seconds : ℤ
  pub db_statement_timeout_ms : ℤ
  pub ingest_max_batch_items : ℤ
  pub max_request_body_bytes : ℤ
  pub app_env_raw : String
  pub security_strict_mode : Bool
  pub bootstrap_tables_on_startup : Bool
  pub require_api_key : Bool
  pub api_key : Option String
  pub require_jwt : Bool
  pub jwt_secret : Option String
  pub jwt_leeway_seconds : ℤ
  pub jwt_audience : Option String
  pub jwt_issuer : Option String
  pub jwt_scope_read : String
  pub jwt_scope_write : String
  pub jwt_scope_delete : String
  pub jwt_admin_role : String
  pub rate_limit_per_minute : ℤ
  pub rate_limit_backend_raw : String
  pub redis_url : Option String
  pub rate_limit_redis_prefix : String
  pub rate_limit_redis_window_seconds : ℤ
  pub rate_limit_redis_failure_cooldown_seconds : ℤ
  pub rate_limit_fail_open : Bool
  pub trusted_proxy_cidrs : String
  pub cors_allow_origins : String
  pub cors_allow_methods : String
  pub cors_allow_headers : String
  pub allowed_hosts : String

-- `_parse_csv`
unfoldable pub parse_csv : String → List String
unfolding is_empty strip split_by
parse_csv value =
    map strip (keep (λ item. not (is_empty (strip item))) (split_by (λ c. eqb c b',') value))

-- `values or default`
unfoldable pub or_default : List String → List String → List String
or_default [] default = default
or_default (x ∷ xs) default = x ∷ xs

unfoldable pub cors_allow_origins_list : Config → List String
unfolding parse_csv or_default
cors_allow_origins_list c = or_default (parse_csv c.cors_allow_origins) ("*" ∷ [])

unfoldable pub cors_allow_methods_list : Config → List String
unfolding parse_csv or_default
cors_allow_methods_list c =
    or_default (parse_csv c.cors_allow_methods) ("GET" ∷ "POST" ∷ "DELETE" ∷ "OPTIONS" ∷ [])

unfoldable pub cors_allow_headers_list : Config → List String
unfolding parse_csv or_default
cors_allow_headers_list c = or_default (parse_csv c.cors_allow_headers) ("*" ∷ [])

unfoldable pub allowed_hosts_list : Config → List String
unfolding parse_csv or_default
allowed_hosts_list c = or_default (parse_csv c.allowed_hosts) ("*" ∷ [])

unfoldable pub trusted_proxy_cidrs_list : Config → List String
unfolding parse_csv
trusted_proxy_cidrs_list c = parse_csv c.trusted_proxy_cidrs

-- `value or default` on texts
unfoldable pub text_or : String → String → String
unfolding is_empty
text_or s default = if is_empty s then default else s

unfoldable pub rate_limit_backend : Config → String
unfolding strip lower text_or
rate_limit_backend c = text_or (lower (strip c.rate_limit_backend_raw)) "memory"

unfoldable pub app_env : Config → String
unfolding strip lower text_or
app_env c = text_or (lower (strip c.app_env_raw)) "development"

unfoldable pub strict_security_mode : Config → Bool
unfolding app_env
strict_security_mode c =
    if c.security_strict_mode then true else app_env c == "prod" || app_env c == "production"
