-- ===== src/RateLimit/Build.antt =====
-- `build_rate_limiter` and `check_rate_limit_backend_health` of app/security_rate_limit.py.
use civic_archive_api.Prelude.{
  ◌<◌, String, ◌≡◌, refl, Bool, true, false, Option, none, some, ◌==◌, eq_iff, inl, inr, lt→ltb,
  if◌then◌else◌,
}
use civic_archive_api.Prelude.Int.{ℤ, pos, pos_part, leb_ℤ}
use civic_archive_api.Text.{is_empty, or_empty, strip}
use civic_archive_api.Errors.{Exception, runtime_error, Result, ok, raise, ◌>>=◌}
use civic_archive_api.Config.{Config, rate_limit_backend, strict_security_mode}
use civic_archive_api.RateLimit.Memory
use civic_archive_api.RateLimit.Memory.{InMemoryRateLimiter}
use civic_archive_api.RateLimit.Redis
use civic_archive_api.RateLimit.Redis.{RedisRateLimiter, RedisPackage, connect}
use civic_archive_api.Startup.{validate_startup_config}
use civic_archive_api.Startup.Accepts.{validate_iff}

pub data Limiter : Type 0 where
  memory : InMemoryRateLimiter → Limiter
  redis : RedisRateLimiter → Limiter

unfoldable pub build_redis : Config → String → RedisPackage → Result Limiter
unfolding is_empty
build_redis c redis_url dependency =
    if is_empty redis_url
    then raise (runtime_error "RATE_LIMIT_BACKEND=redis requires REDIS_URL to be set.")
    else do
      l ←
          Redis.init c.rate_limit_per_minute redis_url c.rate_limit_redis_prefix
            c.rate_limit_redis_window_seconds c.rate_limit_redis_failure_cooldown_seconds
            c.rate_limit_fail_open dependency
      ok (redis l)

unfoldable pub build_rate_limiter : Config → RedisPackage → Result Limiter
unfolding build_redis
build_rate_limiter c dependency =
    if rate_limit_backend c == "redis"
    then build_redis c (strip (or_empty c.redis_url)) dependency
    else if rate_limit_backend c == "memory"
    then ok (memory (Memory.init c.rate_limit_per_minute))
    else raise (runtime_error "RATE_LIMIT_BACKEND must be one of: memory, redis.")

-- What `from_url` and `ping` give: an answer, a `RedisError` with its text, or another exception.
pub data Ping : Type 0 where
  pong : Ping
  failed : String → Ping
  raised : Exception → Ping

unfoldable pub ping_health : Ping → Result (Bool × Option String)
ping_health pong = ok (true, none)
ping_health (failed detail) = ok (false, some detail)
ping_health (raised e) = raise e

-- `none` is a redis package that is not there.
unfoldable pub redis_health : Option (String → Ping) → String → Result (Bool × Option String)
unfolding ping_health
redis_health none redis_url = ok (false, some "redis package is not available")
redis_health (some ping) redis_url = ping_health (ping redis_url)

unfoldable pub check_rate_limit_backend_health :
    Config → Option (String → Ping) → Result (Bool × Option String)
unfolding redis_health
check_rate_limit_backend_health c dependency =
    let redis_url = strip (or_empty c.redis_url) in
    if rate_limit_backend c == "memory"
    then ok (true, some "memory backend")
    else if leb_ℤ c.rate_limit_per_minute (pos 0)
    then ok (true, some "rate limit disabled")
    else if is_empty redis_url
    then ok (false, some "REDIS_URL is not set")
    else redis_health dependency redis_url

-- With the package there, and a URL that it takes, a limiter that is on gets a client.
Redis-init_connects :
    (limit window cooldown : ℤ) (url prefix : String) (fail_open : Bool)
    (from_url : String → Result (Unit {0}))
    → from_url url ≡ ok tt
    → 0 < pos_part limit
    → Redis.init limit url prefix window cooldown fail_open (some from_url)
      ≡ ok (record (Redis.fresh limit prefix window cooldown fail_open) { has_client = true })
unfolding Redis.init
Redis-init_connects limit window cooldown url prefix fail_open from_url opened on =
    rw (lt→ltb _ _ on, opened) refl

-- A configuration that starts in strict mode gets the Redis limiter, on and with a client, where the
-- redis package takes its URL.
pub build-hardened :
    (c : Config) (from_url : String → Result (Unit {0}))
    → (validate_startup_config c).1 ≡ ok tt
    → strict_security_mode c ≡ true
    → from_url (strip (or_empty c.redis_url)) ≡ ok tt
    → (l : RedisRateLimiter) × (build_rate_limiter c (some from_url) ≡ ok (redis l))
      × (Redis.enabled l ≡ true)
      × (l.has_client ≡ true)
      × (l.fail_open ≡ c.rate_limit_fail_open)
unfolding build_rate_limiter Redis.fresh Redis.enabled
build-hardened c from_url valid strict opened =
    let (sound, hard) = (validate_iff c).0 valid in
    let h = hard strict in
    let shared : rate_limit_backend c ≡ "redis" = elim sound.backend [
      | inl e ↦ absurd (h.shared e)
      | inr e ↦ e
    ] in
    let l : RedisRateLimiter =
      record (Redis.fresh c.rate_limit_per_minute c.rate_limit_redis_prefix
        c.rate_limit_redis_window_seconds c.rate_limit_redis_failure_cooldown_seconds
        c.rate_limit_fail_open) { has_client = true } in
    (
      l,
      rw
          (
            (eq_iff (rate_limit_backend c) "redis").1 shared,
            sound.redis_url_set shared,
            Redis-init_connects c.rate_limit_per_minute c.rate_limit_redis_window_seconds
                c.rate_limit_redis_failure_cooldown_seconds (strip (or_empty c.redis_url))
                c.rate_limit_redis_prefix c.rate_limit_fail_open from_url opened h.limited,
          )
          refl,
      lt→ltb _ _ h.limited,
      refl,
      refl,
    )
