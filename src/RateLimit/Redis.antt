-- ===== src/RateLimit/Redis.antt =====
-- `RedisRateLimiter` of app/security_rate_limit.py. The Redis client is a parameter. The monotonic
-- clock counts nanoseconds; a wall time is the whole seconds of `time.time()`.
pub mod Breaker
pub mod Shared
mod Tests
use Prim.Native.String
use civic_archive_api.Prelude.{
  ℕ, suc, ◌+◌, ◌*◌, ◌/◌, max, String, Bool, true, false, not, Option, none, some, ltb, leb,
  if◌then◌else◌,
}
use civic_archive_api.Prelude.Int.{ℤ, pos, max_zero, leb_ℤ}
use civic_archive_api.Prelude.Decimal.{decimal}
use civic_archive_api.Errors.{Exception, runtime_error, Result, ok, raise, ◌>>=◌}

-- What a call of the client gives: a value, `NoScriptError` (a `RedisError` too), another
-- `RedisError`, or an exception that is no `RedisError`.
pub data Reply (A : Type 0) : Type 0 where
  value : A → Reply A
  no_script : Reply A
  redis_error : Reply A
  other : Exception → Reply A

-- `evalsha` and `eval` take the script or its digest, the key and the window's seconds.
pub record RedisClient (Server : Type 0) : Type 0 where
  pub script_load : String → Server → Reply String × Server
  pub evalsha : String → String → ℕ → Server → Reply ℤ × Server
  pub eval : String → String → ℕ → Server → Reply ℤ × Server

pub record RedisRateLimiter : Type 0 where
  pub requests_per_minute : ℕ
  pub key_prefix : String
  pub window_seconds : ℕ
  pub failure_cooldown_seconds : ℕ
  pub fail_open : Bool
  pub script_sha : Option String
  pub has_client : Bool
  pub degraded_until : ℕ

abbrev pub nanoseconds : ℕ
nanoseconds = 1_000_000_000

abbrev pub window_script : String
window_script =
    "\nlocal current = redis.call(\"INCR\", KEYS[1])\nif current == 1 then\n  redis.call(\"EXPIRE\", KEYS[1], tonumber(ARGV[1]))\nend\nreturn current\n"

-- The redis package, or none: `Redis.from_url` makes a client for a URL, or raises.
abbrev pub RedisPackage : Type 0
RedisPackage = Option (String → Result (Unit {0}))

-- The end of `__init__` for a limiter that is enabled.
unfoldable pub connect : RedisPackage → String → RedisRateLimiter → Result RedisRateLimiter
connect none redis_url l =
    raise (runtime_error "redis package is required for RATE_LIMIT_BACKEND=redis.")
connect (some from_url) redis_url l = do
  client ← from_url redis_url
  ok (record l { has_client = true })

-- The attributes that `__init__` sets first.
unfoldable pub fresh : ℤ → String → ℤ → ℤ → Bool → RedisRateLimiter
fresh requests_per_minute key_prefix window_seconds failure_cooldown_seconds fail_open = record {
  requests_per_minute = max_zero requests_per_minute;
  key_prefix = key_prefix;
  window_seconds = max 1 (max_zero window_seconds);
  failure_cooldown_seconds = max 1 (max_zero failure_cooldown_seconds);
  fail_open = fail_open;
  script_sha = none;
  has_client = false;
  degraded_until = 0;
}

unfoldable pub enabled : RedisRateLimiter → Bool
enabled l = ltb 0 l.requests_per_minute

-- `__init__`
unfoldable pub init : ℤ → String → String → ℤ → ℤ → Bool → RedisPackage → Result RedisRateLimiter
unfolding fresh connect enabled
init requests_per_minute redis_url key_prefix window_seconds cooldown_seconds fail_open dependency =
    let l = fresh requests_per_minute key_prefix window_seconds cooldown_seconds fail_open in
    if not (enabled l) then ok l else connect dependency redis_url l

-- f"{self.key_prefix}:{bucket}:{key}"
unfoldable pub redis_key : String → ℕ → String → String
redis_key prefix time key =
    String.◌++◌ prefix (String.◌++◌ ":" (String.◌++◌ (decimal (time / 60)) (String.◌++◌ ":" key)))

module _ {Server : Type 0} (client : RedisClient Server) where
  -- `except NoScriptError: eval`
  unfoldable pub or_eval : RedisRateLimiter → String → Reply ℤ × Server → Reply ℤ × Server
  or_eval l key (value n, s) = (value n, s)
  or_eval l key (no_script, s) = client.eval window_script key l.window_seconds s
  or_eval l key (redis_error, s) = (redis_error, s)
  or_eval l key (other e, s) = (other e, s)

  -- The second part of `_eval_counter`, once the digest is known.
  unfoldable pub eval_script :
      RedisRateLimiter → String → String → Server → Reply ℤ × RedisRateLimiter × Server
  unfolding or_eval
  eval_script l sha key s =
      let (reply, s') = or_eval l key (client.evalsha sha key l.window_seconds s) in (reply, l, s')

  -- The limiter keeps the digest that `script_load` returned; its failure is that of the call.
  unfoldable pub after_load :
      RedisRateLimiter → String → Reply String × Server → Reply ℤ × RedisRateLimiter × Server
  unfolding eval_script
  after_load l key (value sha, s) = eval_script (record l { script_sha = some sha }) sha key s
  after_load l key (no_script, s) = (no_script, l, s)
  after_load l key (redis_error, s) = (redis_error, l, s)
  after_load l key (other e, s) = (other e, l, s)

  -- The digest is loaded only if it is not known.
  unfoldable pub eval_with :
      Option String → RedisRateLimiter → String → Server → Reply ℤ × RedisRateLimiter × Server
  unfolding after_load
  eval_with none l key s = after_load l key (client.script_load window_script s)
  eval_with (some sha) l key s = eval_script l sha key s

  -- `_eval_counter`
  unfoldable pub eval_counter :
      RedisRateLimiter → String → Server → Reply ℤ × RedisRateLimiter × Server
  unfolding eval_with
  eval_counter l key s = eval_with l.script_sha l key s

  -- `allow` after the call of `_eval_counter`
  unfoldable pub decide_reply :
      ℕ → Reply ℤ × RedisRateLimiter × Server → Result Bool × RedisRateLimiter × Server
  decide_reply now (value current, l, s) =
      (ok (leb_ℤ current (pos l.requests_per_minute)), record l { degraded_until = 0 }, s)
  decide_reply now (no_script, l, s) = (
    ok l.fail_open,
    record l { degraded_until = now + l.failure_cooldown_seconds * nanoseconds },
    s,
  )
  decide_reply now (redis_error, l, s) = (
    ok l.fail_open,
    record l { degraded_until = now + l.failure_cooldown_seconds * nanoseconds },
    s,
  )
  decide_reply now (other e, l, s) = (raise e, l, s)

  unfoldable pub allow :
      RedisRateLimiter → ℕ → ℕ → String → Server → Result Bool × RedisRateLimiter × Server
  allow l now time key s =
      if not (enabled l)
      then (ok true, l, s)
      else if not l.has_client
      then (ok true, l, s)
      else if ltb now l.degraded_until
      then (ok l.fail_open, l, s)
      else decide_reply now (eval_counter l (redis_key l.key_prefix time key) s)
