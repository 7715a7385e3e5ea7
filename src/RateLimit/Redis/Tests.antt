-- ===== src/RateLimit/Redis/Tests.antt =====
-- A server that counts, one that is down, and the theorems of the Redis limiter there.
use civic_archive_api.Prelude.{
  ℕ, ◌*◌, ◌≤◌, String, ◌≡◌, refl, inl, Bool, none, some, true, false, List, [], ◌∷◌, map, arith,
  ◌==◌, if◌then◌else◌,
}
use civic_archive_api.Prelude.Int.{ℤ, pos}
use civic_archive_api.Prelude.Decimal.{decimal}
use civic_archive_api.Errors.{ok}
use civic_archive_api.RateLimit.Redis.{
  Reply, value, no_script, redis_error, RedisClient, RedisRateLimiter, nanoseconds, init, enabled,
  redis_key, eval_counter, decide_reply, allow,
}
use civic_archive_api.RateLimit.Redis.Breaker.{Call, serve, serve-failure}
use civic_archive_api.RateLimit.Redis.Shared.{
  Store, advance, count_up, counted, counting_script, IsRedis, Event, World, step, run, allowed_on,
  IsClosed,
}
use civic_archive_api.RateLimit.Redis.Shared.Limit.{allowed_on-le-limit}

-- A server that is what it holds, and that knows one script.
run_script : String → ℕ → Store → Reply ℤ × Store
run_script key ttl s = (value (pos (count_up s.clock ttl (s.entries key)).count), counted key ttl s)

abbrev if_known : Bool → Reply ℤ × Store → Store → Reply ℤ × Store
if_known known ran s = if known then ran else (no_script, s)

abbrev counting : RedisClient Store
counting = record {
  script_load = λ script s. (value (if script == counting_script then "sha" else "other"), s);
  evalsha = λ sha key ttl s. if_known (sha == "sha") (run_script key ttl s) s;
  eval = λ script key ttl s. if_known (script == counting_script) (run_script key ttl s) s;
}

abbrev empty : Store
empty = record { clock = 0; entries = λ key. none }

counting-IsRedis : IsRedis counting advance (λ s. s) "sha"
unfolding run_script
counting-IsRedis = record {
  wait_advances = λ clock s. refl;
  load_gives = λ s. (refl, refl);
  evalsha_runs = λ key ttl s. (refl, refl);
  eval_runs = λ key ttl s. (refl, refl);
}

abbrev down : RedisClient Store
down = record counting { evalsha = λ sha key ttl s. (redis_error, s) }

redis : Unit {0}
unfolding init enabled redis_key eval_counter decide_reply allow serve step run allowed_on
    run_script decimal
redis = tt

abbrev closed : RedisRateLimiter
closed = record {
  requests_per_minute = 1;
  key_prefix = "p";
  window_seconds = 65;
  failure_cooldown_seconds = 30;
  fail_open = false;
  script_sha = none;
  has_client = true;
  degraded_until = 0;
}

init_closed : init (pos 1) "redis://r" "p" (pos 65) (pos 30) false (some (λ url. ok tt)) ≡ ok closed
unfolding redis
init_closed = refl

abbrev at : ℕ → String → Call
at now key = record { now = now; time = 125; key = key }

second_is_refused :
    (serve counting (at 1 "a" ∷ at 2 "a" ∷ at 3 "b" ∷ []) closed empty).0
    ≡ ok true ∷ ok false ∷ ok true ∷ []
unfolding redis
second_is_refused = refl

names_the_minute : redis_key "p" 125 "a" ≡ "p:2:a"
unfolding redis
names_the_minute = refl

abbrev failing : List Call
failing = at 2 "a" ∷ at (29 * nanoseconds) "b" ∷ []

serve-failure_example :
    ((serve down (at 1 "a" ∷ failing) closed empty).0 ≡ ok false ∷ map (λ _. ok false) failing)
    × ((serve down (at 1 "a" ∷ failing) closed empty).2
        ≡ (eval_counter down closed (redis_key "p" 125 "a") empty).2)
unfolding redis
serve-failure_example =
    serve-failure down closed (at 1 "a") failing empty refl refl (omega arith) tt (omega arith)

abbrev world : World Store
world = record { limiters = λ p. closed; server = empty }

abbrev history : List Event
history =
    record { process = 2; now = 9; time = 179; served = 184; key = "a" }
    ∷ record { process = 1; now = 5; time = 125; served = 125; key = "a" }
    ∷ []

closed-IsClosed : IsClosed 1 "p" 65 "sha" closed
unfolding redis
closed-IsClosed = record {
  on = refl;
  connected = refl;
  limited = refl;
  prefixed = refl;
  lasting = refl;
  closed = refl;
  knows = inl refl;
}

one_is_allowed : allowed_on counting advance world "p" "p:2:a" history ≡ 1
unfolding redis
one_is_allowed = refl

-- Counters that last one second: the second request of the minute finds none, and is allowed.
two_are_allowed :
    allowed_on counting advance
      (record world { limiters = λ p. record closed { window_seconds = 1 } })
      "p"
      "p:2:a"
      history
    ≡ 2
unfolding redis
two_are_allowed = refl

allowed_on-le-limit_example :
    allowed_on counting advance world "p" (redis_key "p" 125 "a") history ≤ 1
allowed_on-le-limit_example =
    allowed_on-le-limit counting advance (λ s. s) "sha" counting-IsRedis 1 "p" 65 world 125 "a"
      history (λ p. closed-IsClosed)
      ((omega arith, omega arith), omega arith, ((omega arith, omega arith), omega arith, tt)) refl
