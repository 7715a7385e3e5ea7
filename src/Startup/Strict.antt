-- ===== src/Startup/Strict.antt =====
-- The checks of strict mode, and what they ask.
use civic_archive_api.Prelude.{
  String, ◌≡◌, refl, ◌≢◌, ◌↔◌, ◌⊎◌, Bool, true, false, not, ◌&&◌, ◌||◌, List, [], ◌∷◌, arith, ◌==◌,
  eq_iff,
}
use civic_archive_api.Prelude.Int.{ℤ, pos, ltb_ℤ}
use civic_archive_api.Config.{
  Config, allowed_hosts_list, cors_allow_origins_list, rate_limit_backend,
}
use civic_archive_api.Startup.{default_db_password, has_wildcard, strict_checks}
use civic_archive_api.Startup.Checks.{AllPass, IsPositive, IsPositive-iff}

-- No value is the wildcard.
abbrev pub IsExplicit : List String → Type 0
IsExplicit [] = Unit
IsExplicit (value ∷ values) = (value ≢ "*") × IsExplicit values

has_wildcard_iff : (values : List String) → (has_wildcard values ≡ false) ↔ IsExplicit values
has_wildcard_iff [] = (λ _. tt, λ _. refl)
has_wildcard_iff (value ∷ values) =
    let ih = has_wildcard_iff values in
    (
      λ h. (ground (arith, eq_iff value "*"), ih.0 (ground (arith, eq_iff value "*"))),
      λ h. ground (arith, eq_iff value "*", h.0, ih.1 h.1),
    )

-- What a configuration that starts in strict mode satisfies besides.
pub record IsHardened (c : Config) : Type 0 where
  pub authenticated : (c.require_api_key ≡ true) ⊎ (c.require_jwt ≡ true)
  pub hosts : IsExplicit (allowed_hosts_list c)
  pub origins : IsExplicit (cors_allow_origins_list c)
  pub limited : IsPositive c.rate_limit_per_minute
  pub shared : rate_limit_backend c ≢ "memory"
  pub password : c.postgres_password ≢ default_db_password

-- The part of `IsHardened` that the list of strict checks tests.
abbrev pub PassesStrict : Config → Type 0
PassesStrict c =
    ((c.require_api_key ≡ true) ⊎ (c.require_jwt ≡ true))
    × IsExplicit (allowed_hosts_list c)
    × IsExplicit (cors_allow_origins_list c)
    × IsPositive c.rate_limit_per_minute
    × (rate_limit_backend c ≢ "memory")

or_iff : (a b : Bool) → (not (a || b) ≡ false) ↔ ((a ≡ true) ⊎ (b ≡ true))
or_iff a b = ground arith

-- With a limit set, the last strict check is about the backend alone.
shared_iff :
    (backend : String) (limit : ℤ)
    → IsPositive limit
    → ((backend == "memory" && ltb_ℤ (pos 0) limit) ≡ false) ↔ (backend ≢ "memory")
shared_iff backend limit h = ground (arith, eq_iff backend "memory")

pub strict_checks_iff : (c : Config) → AllPass (strict_checks c) ↔ PassesStrict c
unfolding strict_checks
strict_checks_iff c = (
  λ h.
      let limited = (IsPositive-iff c.rate_limit_per_minute).0 h.1.1.1.0 in
      (
        (or_iff c.require_api_key c.require_jwt).0 h.0,
        (has_wildcard_iff (allowed_hosts_list c)).0 h.1.0,
        (has_wildcard_iff (cors_allow_origins_list c)).0 h.1.1.0,
        limited,
        (shared_iff (rate_limit_backend c) c.rate_limit_per_minute limited).0 h.1.1.1.1.0,
      ),
  λ h. (
    (or_iff c.require_api_key c.require_jwt).1 h.0,
    (
      (has_wildcard_iff (allowed_hosts_list c)).1 h.1,
      (
        (has_wildcard_iff (cors_allow_origins_list c)).1 h.2,
        (
          (IsPositive-iff c.rate_limit_per_minute).1 h.3,
          ((shared_iff (rate_limit_backend c) c.rate_limit_per_minute h.3).1 h.4, tt),
        ),
      ),
    ),
  ),
)
