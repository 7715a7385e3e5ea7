-- ===== src/System/Ready.antt =====
-- When the service is ready.
use civic_archive_api.Prelude.{
  ℕ, String, ◌≡◌, ◌↔◌, ◌⊎◌, inl, inr, refl, ap, eqb, Bool, true, false, Option, none, some, ◌==◌,
  eq_iff, if◌then◌else◌,
}
use civic_archive_api.Prelude.Int.{pos, leb_ℤ}
use civic_archive_api.Text.{is_empty, or_empty, strip}
use civic_archive_api.Errors.{Result, ok, raise, ◌>>=◌}
use civic_archive_api.Config.{Config, rate_limit_backend}
use civic_archive_api.RateLimit.Build.{
  Ping, pong, failed, raised, ping_health, redis_health, check_rate_limit_backend_health,
}
use civic_archive_api.System.{db_health_check, readiness, health_ready, ReadinessResponse}

-- A Redis that answers the ping at a URL.
abbrev pub Answers : Option (String → Ping) → String → Type 0
Answers none url = false ≡ true
Answers (some ping) url = ping url ≡ pong

-- The limiter needs no Redis, or it has a URL at which one answers.
abbrev pub IsBackendUp : Config → Option (String → Ping) → Type 0
IsBackendUp c dependency =
    (rate_limit_backend c ≡ "memory")
    ⊎ ((leb_ℤ c.rate_limit_per_minute (pos 0) ≡ true)
        ⊎ ((is_empty (strip (or_empty c.redis_url)) ≡ false)
            × Answers dependency (strip (or_empty c.redis_url))))

abbrev IsUp : Result (Bool × Option String) → Type 0
IsUp r = (detail : Option String) × (r ≡ ok (true, detail))

ping_iff : (p : Ping) → IsUp (ping_health p) ↔ (p ≡ pong)
unfolding ping_health
ping_iff pong = (λ h. refl, λ h. (none, refl))
ping_iff (failed detail) = (λ h. cc (h.1), λ h. cc)
ping_iff (raised e) = (λ h. cc (h.1), λ h. cc)

redis_iff :
    (dependency : Option (String → Ping)) (url : String)
    → IsUp (redis_health dependency url) ↔ Answers dependency url
unfolding redis_health
redis_iff none url = (λ h. cc (h.1), λ h. cc)
redis_iff (some ping) url = ping_iff (ping url)

-- The tests before the ping.
gates_iff :
    (memory off blank : Bool) (r : Result (Bool × Option String))
    → IsUp (
        if memory
        then ok (true, some "memory backend")
        else if off
        then ok (true, some "rate limit disabled")
        else if blank
        then ok (false, some "REDIS_URL is not set")
        else r)
      ↔ ((memory ≡ true) ⊎ ((off ≡ true) ⊎ ((blank ≡ false) × IsUp r)))
gates_iff true off blank r = (λ h. inl refl, λ h. (_, refl))
gates_iff false true blank r = (λ h. inr (inl refl), λ h. (_, refl))
gates_iff false false true r =
    (λ h. cc (h.1), λ h. elim h [ inl e ↦ cc | inr (inl e) ↦ cc | inr (inr (e, up)) ↦ cc ])
gates_iff false false false r = (
  λ h. inr (inr (refl, h)),
  λ h. elim h [ inl e ↦ cc | inr (inl e) ↦ cc | inr (inr (e, up)) ↦ up ],
)

backend_iff :
    (c : Config) (dependency : Option (String → Ping))
    → IsUp (check_rate_limit_backend_health c dependency) ↔ IsBackendUp c dependency
unfolding check_rate_limit_backend_health
backend_iff c dependency =
    let url = strip (or_empty c.redis_url) in
    let (to, from) =
      gates_iff (rate_limit_backend c == "memory") (leb_ℤ c.rate_limit_per_minute (pos 0))
        (is_empty url) (redis_health dependency url) in
    let (answers, asked) = redis_iff dependency url in
    let (named, same) = eq_iff (rate_limit_backend c) "memory" in
    (
      λ h. elim (to h) [
        | inl memory ↦ inl (named memory)
        | inr (inl off) ↦ inr (inl off)
        | inr (inr (full, up)) ↦ inr (inr (full, answers up))
      ],
      λ h. elim h [
        | inl memory ↦ from (inl (same memory))
        | inr (inl off) ↦ from (inr (inl off))
        | inr (inr (full, up)) ↦ from (inr (inr (full, asked up)))
      ],
    )

abbrev is_200 : {A : Type 0} → Result (ℕ × A) → Bool
is_200 (ok (status_code, content)) = eqb status_code 200
is_200 (raise e) = false

ready_iff :
    (select_one : Option String) (r : Result (Bool × Option String))
    → ((payload : ReadinessResponse) × ((do
      rate_limit ← r
      ok (readiness (db_health_check select_one) rate_limit))
          ≡ ok (200, payload)))
      ↔ ((select_one ≡ none) × IsUp r)
unfolding readiness db_health_check
ready_iff none (raise e) = (λ h. cc (h.1), λ h. cc (h.1.1))
ready_iff (some failure) (raise e) = (λ h. cc (h.1), λ h. cc (h.0))
ready_iff none (ok (true, detail)) = (λ h. (refl, (detail, refl)), λ h. (_, refl))
ready_iff none (ok (false, detail)) = (λ h. let e = ap is_200 (h.1) in cc, λ h. cc (h.1.1))
ready_iff (some failure) (ok (up, detail)) = (λ h. let e = ap is_200 (h.1) in cc, λ h. cc (h.0))

-- The service answers that it is ready exactly if the database answers and the backend of the rate
-- limit is up.
pub health_ready_iff :
    (select_one : Option String) (c : Config) (dependency : Option (String → Ping))
    → ((payload : ReadinessResponse) × (health_ready select_one c dependency ≡ ok (200, payload)))
      ↔ ((select_one ≡ none) × IsBackendUp c dependency)
unfolding health_ready
health_ready_iff select_one c dependency =
    let (to, from) = ready_iff select_one (check_rate_limit_backend_health c dependency) in
    let (up, down) = backend_iff c dependency in
    (λ h. let (a, b) = to h in (a, up b), λ h. from (h.0, down h.1))
