-- ===== src/Startup/Tests.antt =====
-- The start-up checks on sample configurations.
use civic_archive_api.Prelude.{◌≡◌, ap, refl, ◌↔◌, true, [], ◌∷◌}
use civic_archive_api.Prelude.Int.{pos}
use civic_archive_api.Errors.{ok, raise, runtime_error}
use civic_archive_api.Config.{
  parse_csv, cors_allow_origins_list, allowed_hosts_list, rate_limit_backend, app_env,
  strict_security_mode,
}
use civic_archive_api.Text.{is_empty, strip}
use civic_archive_api.Samples.{defaults, production}
use civic_archive_api.Startup.{
  auth_disabled_in_non_development, default_db_password_detected, run_checks, basic_checks,
  first_warnings, is_development, strict_checks, after_checks, unless_raised,
  validate_startup_config,
}
use civic_archive_api.Startup.Sound.{IsSound}
use civic_archive_api.Startup.Strict.{IsHardened}
use civic_archive_api.Startup.Accepts.{validate_iff}

startup : Unit {0}
unfolding validate_startup_config first_warnings is_development is_empty strip unless_raised
    run_checks basic_checks strict_checks after_checks rate_limit_backend app_env
    strict_security_mode allowed_hosts_list cors_allow_origins_list parse_csv
startup = tt

csv : parse_csv " a, b ,," ≡ "a" ∷ "b" ∷ []
unfolding startup
csv = refl

defaults_start : validate_startup_config defaults ≡ ([], ok tt)
unfolding startup
defaults_start = refl

production_starts : validate_startup_config production ≡ ([], ok tt)
unfolding startup
production_starts = refl

staging_warns :
    validate_startup_config (record defaults { app_env_raw = "staging" })
    ≡ (auth_disabled_in_non_development ∷ default_db_password_detected ∷ [], ok tt)
unfolding startup
staging_warns = refl

pub production_valid : (validate_startup_config production).1 ≡ ok tt
production_valid = ap (λ r. r.1) production_starts

pub production_strict : strict_security_mode production ≡ true
unfolding startup
production_strict = refl

production_needs_a_limit :
    (validate_startup_config (record production { rate_limit_per_minute = pos 0 })).1
    ≡ raise (runtime_error "Strict security mode requires RATE_LIMIT_PER_MINUTE > 0.")
unfolding startup
production_needs_a_limit = refl

validate_iff_example :
    ((validate_startup_config production).1 ≡ ok tt)
    ↔ (IsSound production × (strict_security_mode production ≡ true → IsHardened production))
validate_iff_example = validate_iff production
