-- ===== src/Startup/Accepts.antt =====
-- Which configurations the start-up checks accept.
use civic_archive_api.Prelude.{
  ◌≡◌, refl, ◌≢◌, ◌↔◌, inl, inr, Bool, true, false, List, [], ◌++◌, arith, eq_iff, Bool-cases,
  if◌then◌else◌,
}
use civic_archive_api.Errors.{Result, ok, raise}
use civic_archive_api.Config.{Config, strict_security_mode}
use civic_archive_api.Startup.{
  default_db_password, Check, run_checks, basic_checks, strict_checks, Warning, after_checks,
  unless_raised, validate_startup_config,
}
use civic_archive_api.Startup.Checks.{AllPass, run_checks_iff, AllPass-append_iff}
use civic_archive_api.Startup.Sound.{IsSound, basic_checks-IsSound, IsSound-basic_checks}
use civic_archive_api.Startup.Strict.{IsHardened, strict_checks_iff}

Passes-if_iff :
    (strict : Bool) (checks : List Check)
    → AllPass (if strict then checks else []) ↔ (strict ≡ true → AllPass checks)
Passes-if_iff true checks = (λ h _. h, λ h. h refl)
Passes-if_iff false checks = (λ _ e. cc, λ _. tt)

password_iff :
    (c : Config)
    → ((after_checks c).1 ≡ ok tt)
      ↔ (strict_security_mode c ≡ true → c.postgres_password ≢ default_db_password)
unfolding after_checks
password_iff c = (
  λ h strict e. ground (arith, eq_iff c.postgres_password default_db_password),
  λ h. elim (Bool-cases (strict_security_mode c)) [
    | inl strict ↦ ground (arith, eq_iff c.postgres_password default_db_password, h strict)
    | inr lax ↦ ground arith
  ],
)

unless_raised_iff :
    (r : Result (Unit {0})) (rest : List Warning × Result (Unit {0}))
    → ((unless_raised r rest).1 ≡ ok tt) ↔ ((r ≡ ok tt) × (rest.1 ≡ ok tt))
unfolding unless_raised
unless_raised_iff (raise e) rest = (λ h. cc, λ h. h.0)
unless_raised_iff (ok u) rest = (λ h. (refl, h), λ h. h.1)

-- The start-up checks accept a configuration exactly if it satisfies `IsSound`, and `IsHardened`
-- too where strict mode is on.
pub validate_iff :
    (c : Config)
    → ((validate_startup_config c).1 ≡ ok tt)
      ↔ (IsSound c × (strict_security_mode c ≡ true → IsHardened c))
unfolding validate_startup_config
validate_iff c =
    let strict_part = if strict_security_mode c then strict_checks c else [] in
    let all = basic_checks c ++ strict_part in
    let outer = unless_raised_iff (run_checks all) (after_checks c) in
    let ran = run_checks_iff all in
    let split = AllPass-append_iff (basic_checks c) strict_part in
    let inner = Passes-if_iff (strict_security_mode c) (strict_checks c) in
    (
      λ h.
          let parts = split.0 (ran.0 (outer.0 h).0) in
          (
            basic_checks-IsSound c parts.0,
            λ strict.
                let (auth, hosts, origins, limited, shared) =
                  (strict_checks_iff c).0 (inner.0 parts.1 strict) in
                record {
                  authenticated = auth;
                  hosts = hosts;
                  origins = origins;
                  limited = limited;
                  shared = shared;
                  password = (password_iff c).0 (outer.0 h).1 strict;
                },
          ),
      λ h. outer.1 (
        ran.1 (
            split.1 (
              IsSound-basic_checks c h.0,
              inner.1 (λ strict.
                  let p = h.1 strict in
                  (strict_checks_iff c).1
                    (p.authenticated, p.hosts, p.origins, p.limited, p.shared)),
            )),
        (password_iff c).1 (λ strict. (h.1 strict).password),
      ),
    )
