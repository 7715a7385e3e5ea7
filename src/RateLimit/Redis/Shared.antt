-- ===== src/RateLimit/Redis/Shared.antt =====
-- Processes that share one Redis server, each with a limiter of its own that fails closed.
pub mod Keys
pub mod Outcome
pub mod Limit
use mathlib.Core.Path.{subst}
use civic_archive_api.Prelude.{
  ℕ, suc, ◌+◌, ◌*◌, ◌/◌, ◌≤◌, ◌<◌, ◌⊎◌, String, ◌≡◌, refl, ◌∙◌, Option, none, some, Bool, true,
  false, ◌&&◌, List, [], ◌∷◌, arith, ◌==◌, eq_iff, eqb, leb, ltb, Bool-cases, inl, inr,
  if◌then◌else◌,
}
use civic_archive_api.Prelude.Int.{ℤ, pos, leb_ℤ}
use civic_archive_api.Errors.{Result, ok, raise}
use civic_archive_api.RateLimit.Redis.{
  Reply, value, no_script, redis_error, other, RedisClient, RedisRateLimiter, window_script,
  nanoseconds, enabled, redis_key, or_eval, eval_script, after_load, eval_with, eval_counter,
  decide_reply, allow,
}
use civic_archive_api.RateLimit.Redis.Breaker.{IsSameLimiter, eval_counter-fields}

-- A counter of Redis, and the second in which it is deleted.
pub record Entry : Type 0 where
  pub count : ℕ
  pub expires_at : ℕ

-- What the server holds: its clock, in seconds, and the counters by their keys.
pub record Store : Type 0 where
  pub clock : ℕ
  pub entries : String → Option Entry

abbrev pub unless_expired : ℕ → Option Entry → Option Entry
unless_expired clock none = none
unless_expired clock (some e) = if ltb clock e.expires_at then some e else none

-- The store when the clock has come to a second.
abbrev pub advance : ℕ → Store → Store
advance clock store = record {
  clock = clock;
  entries = λ key. unless_expired clock (store.entries key);
}

-- `INCR`, and `EXPIRE` where the counter begins.
abbrev pub count_up : ℕ → ℕ → Option Entry → Entry
count_up clock ttl none = record { count = 1; expires_at = clock + ttl }
count_up clock ttl (some e) = record e { count = suc e.count }

abbrev pub counted : String → ℕ → Store → Store
counted key ttl store = record store {
  entries = λ j.
      if j == key then some (count_up store.clock ttl (store.entries key)) else store.entries j;
}

-- The text of the script that counts: what Redis makes of a script is stated of this one.
abbrev pub counting_script : String
counting_script =
    "\nlocal current = redis.call(\"INCR\", KEYS[1])\nif current == 1 then\n  redis.call(\"EXPIRE\", KEYS[1], tonumber(ARGV[1]))\nend\nreturn current\n"

module _ {Server : Type 0} (view : Server → Store) where
  -- A call that runs the script on a store. Where the client reports an error, other than that the
  -- script is not loaded, the server may have run it or not.
  abbrev pub Runs : String → ℕ → Store → Reply ℤ × Server → Type 0
  Runs key ttl store (value n, s) =
      (view s ≡ counted key ttl store)
      × (n ≡ pos (count_up store.clock ttl (store.entries key)).count)
  Runs key ttl store (no_script, s) = view s ≡ store
  Runs key ttl store (redis_error, s) = (view s ≡ store) ⊎ (view s ≡ counted key ttl store)
  Runs key ttl store (other e, s) = (view s ≡ store) ⊎ (view s ≡ counted key ttl store)

  -- A call that loads the script gives its digest, or an error.
  abbrev pub Loads : String → Store → Reply String × Server → Type 0
  Loads digest store (value sha, s) = (sha ≡ digest) × (view s ≡ store)
  Loads digest store (no_script, s) = view s ≡ store
  Loads digest store (redis_error, s) = view s ≡ store
  Loads digest store (other e, s) = view s ≡ store

-- What is assumed of the client and the server, which Redis documents: time deletes the keys that
-- expire, and the script, by its text or by its digest, runs as one step.
pub record IsRedis {Server : Type 0} (client : RedisClient Server) (wait : ℕ → Server → Server)
    (view : Server → Store) (digest : String) : Type 0 where
  pub wait_advances : (clock : ℕ) (s : Server) → view (wait clock s) ≡ advance clock (view s)
  pub load_gives : (s : Server) → Loads view digest (view s) (client.script_load counting_script s)
  pub evalsha_runs :
      (key : String) (ttl : ℕ) (s : Server)
      → Runs view key ttl (view s) (client.evalsha digest key ttl s)
  pub eval_runs :
      (key : String) (ttl : ℕ) (s : Server)
      → Runs view key ttl (view s) (client.eval counting_script key ttl s)

-- The limiter has no digest, or that of the script.
abbrev pub KnowsAtMost : String → RedisRateLimiter → Type 0
KnowsAtMost digest l = (l.script_sha ≡ none) ⊎ (l.script_sha ≡ some digest)

module _ {Server : Type 0} (client : RedisClient Server) (wait : ℕ → Server → Server)
    (view : Server → Store) (digest : String) (law : IsRedis client wait view digest) where
  -- A first step that leaves the store may stand before a call that runs the script.
  Runs-after :
      (key : String) (ttl : ℕ) (store : Store) (t : Server) (r : Reply ℤ × Server)
      → view t ≡ store
      → Runs view key ttl (view t) r
      → Runs view key ttl store r
  Runs-after key ttl store t r e h = subst (λ st. Runs view key ttl st r) e h

  or_eval-Runs :
      (l : RedisRateLimiter) (key : String) (store : Store) (r : Reply ℤ × Server)
      → Runs view key l.window_seconds store r
      → Runs view key l.window_seconds store (or_eval client l key r)
  unfolding or_eval
  or_eval-Runs l key store (value n, s) h = h
  or_eval-Runs l key store (no_script, s) h =
      Runs-after key l.window_seconds store s (client.eval window_script key l.window_seconds s) h
        (law.eval_runs key l.window_seconds s)
  or_eval-Runs l key store (redis_error, s) h = h
  or_eval-Runs l key store (other e, s) h = h

  eval_script-Runs :
      (l : RedisRateLimiter) (key : String) (s : Server)
      → let c = eval_script client l digest key s in
        Runs view key l.window_seconds (view s) (c.0, c.2)
  unfolding eval_script
  eval_script-Runs l key s =
      or_eval-Runs l key (view s) (client.evalsha digest key l.window_seconds s)
        (law.evalsha_runs key l.window_seconds s)

  -- The reply with what the limiter has become.
  abbrev pub RunsFor :
      String → RedisRateLimiter → Store → Reply ℤ × RedisRateLimiter × Server → Type 0
  RunsFor key l store c =
      Runs view key l.window_seconds store (c.0, c.2)
      × (c.1.window_seconds ≡ l.window_seconds)
      × KnowsAtMost digest c.1

  after_load-Runs :
      (l : RedisRateLimiter) (key : String) (store : Store) (r : Reply String × Server)
      → KnowsAtMost digest l
      → Loads view digest store r
      → RunsFor key l store (after_load client l key r)
  unfolding after_load eval_script
  after_load-Runs l key store (value sha, s) knows (same, e) =
      let l' = record l { script_sha = some digest } in
      let c = eval_script client l' digest key s in
      rw same (
        Runs-after key l.window_seconds store s (c.0, c.2) e (eval_script-Runs l' key s),
        refl,
        inr refl,
      )
  after_load-Runs l key store (no_script, s) knows e = (e, refl, knows)
  after_load-Runs l key store (redis_error, s) knows e = (inl e, refl, knows)
  after_load-Runs l key store (other x, s) knows e = (inl e, refl, knows)

  eval_with-Runs :
      (sha : Option String) (l : RedisRateLimiter) (key : String) (s : Server)
      → (sha ≡ none) ⊎ (sha ≡ some digest)
      → KnowsAtMost digest l
      → RunsFor key l (view s) (eval_with client sha l key s)
  unfolding eval_with eval_script
  eval_with-Runs none l key s known knows =
      after_load-Runs l key (view s) (client.script_load window_script s) knows (law.load_gives s)
  eval_with-Runs (some sha) l key s (inl absent) knows = cc
  eval_with-Runs (some sha) l key s (inr known) knows =
      let e : sha ≡ digest = cc in rw e (eval_script-Runs l key s, refl, knows)

  pub eval_counter-Runs :
      (l : RedisRateLimiter) (key : String) (s : Server)
      → KnowsAtMost digest l
      → RunsFor key l (view s) (eval_counter client l key s)
  unfolding eval_counter
  eval_counter-Runs l key s knows = eval_with-Runs l.script_sha l key s knows knows

-- A process's call of `allow`: the process's monotonic and wall clock, and the second of the server's
-- clock in which the server runs the call.
pub record Event : Type 0 where
  pub process : ℕ
  pub now : ℕ
  pub time : ℕ
  pub served : ℕ
  pub key : String

abbrev pub is_allowed : Result Bool → Bool
is_allowed (ok b) = b
is_allowed (raise e) = false

-- Each process's limiter, and the server.
pub record World (Server : Type 0) : Type 0 where
  pub limiters : ℕ → RedisRateLimiter
  pub server : Server

module _ {Server : Type 0} (client : RedisClient Server) (wait : ℕ → Server → Server) where
  -- The server's clock comes to the second of the call, and the process calls.
  unfoldable pub step : World Server → Event → Result Bool × World Server
  step w e =
      let (answer, l, s) =
        allow client (w.limiters e.process) e.now e.time e.key (wait e.served w.server) in
      (answer, record { limiters = λ p. if eqb p e.process then l else w.limiters p; server = s })

  -- The world after a history, whose last event stands first.
  unfoldable pub run : World Server → List Event → World Server
  run w [] = w
  run w (e ∷ past) = (step (run w past) e).1

  -- The requests that were allowed on a Redis key, by whichever process.
  unfoldable pub allowed_on : World Server → String → String → List Event → ℕ
  allowed_on w prefix key [] = 0
  allowed_on w prefix key (e ∷ past) =
      let n = allowed_on w prefix key past in
      if redis_key prefix e.time e.key == key && is_allowed (step (run w past) e).0
      then suc n
      else n

-- A limiter that is on, with this limit, prefix and window, and that fails closed.
pub record IsClosed (limit : ℕ) (prefix : String) (window : ℕ) (digest : String)
    (l : RedisRateLimiter) : Type 0 where
  pub on : enabled l ≡ true
  pub connected : l.has_client ≡ true
  pub limited : l.requests_per_minute ≡ limit
  pub prefixed : l.key_prefix ≡ prefix
  pub lasting : l.window_seconds ≡ window
  pub closed : l.fail_open ≡ false
  pub knows : KnowsAtMost digest l

-- The server runs a call in the window that begins with its minute.
abbrev pub IsTimely : ℕ → Event → Type 0
IsTimely window e = ((e.time / 60) * 60 ≤ e.served) × (e.served < (e.time / 60) * 60 + window)

-- The server's clock after a history that begins at a second.
abbrev pub clock_after : ℕ → List Event → ℕ
clock_after start [] = start
clock_after start (e ∷ past) = e.served

-- A history, latest event first, in which every call is timely and the server's clock does not step
-- back.
abbrev pub AllTimely : ℕ → ℕ → List Event → Type 0
AllTimely window start [] = Unit
AllTimely window start (e ∷ past) =
    IsTimely window e × (clock_after start past ≤ e.served) × AllTimely window start past

abbrev pub AllClosed : {Server : Type 0} → ℕ → String → ℕ → String → World Server → Type 0
AllClosed limit prefix window digest w =
    (p : ℕ) → IsClosed limit prefix window digest (w.limiters p)
