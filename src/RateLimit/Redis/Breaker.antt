-- ===== src/RateLimit/Redis/Breaker.antt =====
-- The cooldown after a failure of Redis: until it is over the server is not called.
use civic_archive_api.Prelude.{
  ℕ, ◌+◌, ◌*◌, ◌≤◌, ◌<◌, String, ◌≡◌, refl, ◌∙◌, Option, none, some, Bool, true, List, [], ◌∷◌, map,
  arith,
}
use civic_archive_api.Prelude.Int.{ℤ}
use civic_archive_api.Errors.{Result, ok}
use civic_archive_api.RateLimit.Redis.{
  Reply, value, no_script, redis_error, other, RedisClient, RedisRateLimiter, nanoseconds,
  window_script, enabled, redis_key, after_load, eval_with, eval_counter, decide_reply, allow,
}

-- A call of `allow`: the monotonic clock, the wall clock and the client's key.
pub record Call : Type 0 where
  pub now : ℕ
  pub time : ℕ
  pub key : String

abbrev pub AllBefore : ℕ → List Call → Type 0
AllBefore t [] = Unit
AllBefore t (c ∷ calls) = (c.now < t) × AllBefore t calls

-- The reply is one that `allow` catches.
abbrev pub IsFailure : Reply ℤ → Type 0
IsFailure (value n) = ⊥
IsFailure no_script = Unit
IsFailure redis_error = Unit
IsFailure (other e) = ⊥

-- Two limiters that differ at most in the digest of the script and in the end of the cooldown.
abbrev pub IsSameLimiter : RedisRateLimiter → RedisRateLimiter → Type 0
IsSameLimiter l m =
    (m.requests_per_minute ≡ l.requests_per_minute)
    × (m.key_prefix ≡ l.key_prefix)
    × (m.fail_open ≡ l.fail_open)
    × (m.has_client ≡ l.has_client)
    × (m.failure_cooldown_seconds ≡ l.failure_cooldown_seconds)

module _ {Server : Type 0} (client : RedisClient Server) where
  -- The calls in turn, with their answers, and the limiter and the server after them.
  unfoldable pub serve :
      List Call → RedisRateLimiter → Server → List (Result Bool) × RedisRateLimiter × Server
  serve [] l s = ([], l, s)
  serve (c ∷ calls) l s =
      let (answer, l', s') = allow client l c.now c.time c.key s in
      let (answers, l'', s'') = serve calls l' s' in (answer ∷ answers, l'', s'')

  pub enabled_of :
      (l m : RedisRateLimiter) → IsSameLimiter l m → enabled l ≡ true → enabled m ≡ true
  unfolding enabled
  enabled_of l m same on = ground arith

  pub allow-degraded :
      (l : RedisRateLimiter) (c : Call) (s : Server)
      → enabled l ≡ true
      → l.has_client ≡ true
      → c.now < l.degraded_until
      → allow client l c.now c.time c.key s ≡ (ok l.fail_open, l, s)
  unfolding allow
  allow-degraded l c s on connected before = ground arith

  serve-degraded :
      (calls : List Call) (l : RedisRateLimiter) (s : Server)
      → enabled l ≡ true
      → l.has_client ≡ true
      → AllBefore l.degraded_until calls
      → serve calls l s ≡ (map (λ _. ok l.fail_open) calls, l, s)
  unfolding serve
  serve-degraded [] l s on connected before = refl
  serve-degraded (c ∷ calls) l s on connected (now, before) =
      rw (allow-degraded l c s on connected now, serve-degraded calls l s on connected before)

  after_load-fields :
      (l : RedisRateLimiter) (key : String) (r : Reply String × Server)
      → IsSameLimiter l (after_load client l key r).1
  unfolding after_load
  after_load-fields l key (value sha, s) = ground arith
  after_load-fields l key (no_script, s) = ground arith
  after_load-fields l key (redis_error, s) = ground arith
  after_load-fields l key (other e, s) = ground arith

  eval_with-fields :
      (sha : Option String) (l : RedisRateLimiter) (key : String) (s : Server)
      → IsSameLimiter l (eval_with client sha l key s).1
  unfolding eval_with
  eval_with-fields none l key s = after_load-fields l key (client.script_load window_script s)
  eval_with-fields (some sha) l key s = ground arith

  pub eval_counter-fields :
      (l : RedisRateLimiter) (key : String) (s : Server)
      → IsSameLimiter l (eval_counter client l key s).1
  unfolding eval_counter
  eval_counter-fields l key s = eval_with-fields l.script_sha l key s

  decide_reply-failure :
      (now : ℕ) (r : Reply ℤ × RedisRateLimiter × Server)
      → IsFailure r.0
      → decide_reply client now r ≡ (
        ok r.1.fail_open,
        record r.1 { degraded_until = now + r.1.failure_cooldown_seconds * nanoseconds },
        r.2,
      )
  unfolding decide_reply
  decide_reply-failure now (value n, l, s) h = elim h [ ]
  decide_reply-failure now (no_script, l, s) h = refl
  decide_reply-failure now (redis_error, l, s) h = refl
  decide_reply-failure now (other e, l, s) h = elim h [ ]

  pub allow-eval :
      (l : RedisRateLimiter) (c : Call) (s : Server)
      → enabled l ≡ true
      → l.has_client ≡ true
      → l.degraded_until ≤ c.now
      → allow client l c.now c.time c.key s
        ≡ decide_reply client c.now (eval_counter client l (redis_key l.key_prefix c.time c.key) s)
  unfolding allow
  allow-eval l c s on connected ready = ground arith

  -- When Redis fails at a call, that call and all calls before the end of the cooldown answer
  -- `fail_open`, and none of the later ones reaches the server: it stays as the failing call left it.
  pub serve-failure :
      (l : RedisRateLimiter) (c : Call) (calls : List Call) (s : Server)
      → enabled l ≡ true
      → l.has_client ≡ true
      → l.degraded_until ≤ c.now
      → IsFailure (eval_counter client l (redis_key l.key_prefix c.time c.key) s).0
      → AllBefore (c.now + l.failure_cooldown_seconds * nanoseconds) calls
      → ((serve (c ∷ calls) l s).0 ≡ ok l.fail_open ∷ map (λ _. ok l.fail_open) calls)
        × ((serve (c ∷ calls) l s).2
            ≡ (eval_counter client l (redis_key l.key_prefix c.time c.key) s).2)
  unfolding serve
  serve-failure l c calls s on connected ready failure before =
      let r = eval_counter client l (redis_key l.key_prefix c.time c.key) s in
      let same = eval_counter-fields l (redis_key l.key_prefix c.time c.key) s in
      let first = allow-eval l c s on connected ready ∙ decide_reply-failure c.now r failure in
      let t = c.now + r.1.failure_cooldown_seconds * nanoseconds in
      let later =
        serve-degraded calls (record r.1 { degraded_until = t }) r.2
          (enabled_of l (record r.1 { degraded_until = t }) same on) (same.3 ∙ connected)
          (rw same.4 before) in
      rw (first, later) (rw same.2 refl, refl)
