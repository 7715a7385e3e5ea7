-- ===== src/System.antt =====
-- app/bootstrap/system_routes.py: `health_ready`, over the two health checks that `create_app` of
-- app/__init__.py passes to it.
pub mod Ready
mod Tests
use civic_archive_api.Prelude.{
  ℕ, String, Bool, true, false, ◌&&◌, Option, none, some, if◌then◌else◌,
}
use civic_archive_api.Errors.{Result, ok, ◌>>=◌}
use civic_archive_api.Config.{Config}
use civic_archive_api.RateLimit.Build.{Ping, check_rate_limit_backend_health}

pub record ReadinessCheck : Type 0 where
  pub is_up : Bool
  pub detail : Option String

pub record ReadinessResponse : Type 0 where
  pub status : String
  pub database : ReadinessCheck
  pub rate_limit_backend : ReadinessCheck

-- `db_health_check`, on the text of the exception of `SELECT 1`, if it raises one
unfoldable pub db_health_check : Option String → Bool × Option String
db_health_check none = (true, none)
db_health_check (some failure) = (false, some failure)

-- The status code and the content of the answer.
unfoldable pub readiness : Bool × Option String → Bool × Option String → ℕ × ReadinessResponse
readiness (db_ok, db_detail) (rate_limit_ok, rate_limit_detail) = (
  if db_ok && rate_limit_ok then 200 else 503,
  record {
    status = if db_ok && rate_limit_ok then "ok" else "degraded";
    database = record { is_up = db_ok; detail = db_detail };
    rate_limit_backend = record { is_up = rate_limit_ok; detail = rate_limit_detail };
  },
)

unfoldable pub health_ready :
    Option String → Config → Option (String → Ping) → Result (ℕ × ReadinessResponse)
unfolding readiness db_health_check
health_ready select_one c dependency = do
  rate_limit ← check_rate_limit_backend_health c dependency
  ok (readiness (db_health_check select_one) rate_limit)
