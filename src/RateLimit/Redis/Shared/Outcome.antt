-- ===== src/RateLimit/Redis/Shared/Outcome.antt =====
-- What one call of a limiter that fails closed does to a shared server.
use mathlib.Core.Path.{subst}
use civic_archive_api.Prelude.{
  ℕ, ◌≤◌, String, ◌≡◌, ◌⊎◌, refl, ◌∙◌, Bool, true, false, List, [], ◌∷◌, arith, eqb, ltb, ltb→lt,
  Bool-cases, inl, inr,
}
use civic_archive_api.Prelude.Int.{ℤ}
use civic_archive_api.Errors.{Result, ok, raise}
use civic_archive_api.RateLimit.Redis.{
  Reply, value, no_script, redis_error, other, RedisClient, RedisRateLimiter, enabled, redis_key,
  eval_counter, decide_reply, allow,
}
use civic_archive_api.RateLimit.Redis.Breaker.{
  Call, IsSameLimiter, eval_counter-fields, allow-degraded, allow-eval,
}
use civic_archive_api.RateLimit.Redis.Shared.{
  Store, count_up, counted, Runs, IsRedis, KnowsAtMost, eval_counter-Runs, Event, World, step, run,
  is_allowed, IsClosed, AllClosed,
}

IsClosed-same :
    (limit : ℕ) (prefix : String) (window : ℕ) (digest : String) (l m : RedisRateLimiter)
    → IsSameLimiter l m
    → m.window_seconds ≡ l.window_seconds
    → KnowsAtMost digest m
    → IsClosed limit prefix window digest l
    → IsClosed limit prefix window digest m
IsClosed-same limit prefix window digest l m same lasting knows c = record {
  on = unfold enabled in ground (arith, c.on);
  connected = same.3 ∙ c.connected;
  limited = same.0 ∙ c.limited;
  prefixed = same.1 ∙ c.prefixed;
  lasting = lasting ∙ c.lasting;
  closed = same.2 ∙ c.closed;
  knows = knows;
}

abbrev pub event_call : Event → Call
event_call e = record { now = e.now; time = e.time; key = e.key }

module _ {Server : Type 0} (client : RedisClient Server) (wait : ℕ → Server → Server)
    (view : Server → Store) (digest : String) (law : IsRedis client wait view digest) (limit : ℕ)
    (prefix : String) (window : ℕ) where
  -- What one call of `allow` on `key` does to the limiter and to the store: if it runs the script, the
  -- counter covers what it allows, and if not, it allows nothing.
  pub record Outcome (key : String) (store : Store) (a : Result Bool × RedisRateLimiter × Server)
      : Type 0 where
    pub still : IsClosed limit prefix window digest a.1
    pub effect :
        ((view a.2 ≡ store) × (is_allowed a.0 ≡ false))
        ⊎ ((view a.2 ≡ counted key window store)
            × (is_allowed a.0 ≡ true
                → (count_up store.clock window (store.entries key)).count ≤ limit))

  failed_effect :
      (key : String) (store : Store) (s : Server) (answer : Result Bool)
      → is_allowed answer ≡ false
      → (view s ≡ store) ⊎ (view s ≡ counted key window store)
      → ((view s ≡ store) × (is_allowed answer ≡ false))
        ⊎ ((view s ≡ counted key window store)
            × (is_allowed answer ≡ true
                → (count_up store.clock window (store.entries key)).count ≤ limit))
  failed_effect key store s answer refused (inl same) = inl (same, refused)
  failed_effect key store s answer refused (inr ran) = inr (ran, λ e. cc (refused, e))

  decide_reply-Outcome :
      (now : ℕ) (key : String) (store : Store) (r : Reply ℤ × RedisRateLimiter × Server)
      → Runs view key window store (r.0, r.2)
      → IsClosed limit prefix window digest r.1
      → Outcome key store (decide_reply client now r)
  unfolding decide_reply
  decide_reply-Outcome now key store (value n, l, t) h c = record {
    still =
        IsClosed-same limit prefix window digest l _ (refl, refl, refl, refl, refl) refl c.knows c;
    effect = inr (h.0, λ e. ground (arith, h.1, c.limited));
  }
  decide_reply-Outcome now key store (no_script, l, t) h c = record {
    still =
        IsClosed-same limit prefix window digest l _ (refl, refl, refl, refl, refl) refl c.knows c;
    effect = inl (h, c.closed);
  }
  decide_reply-Outcome now key store (redis_error, l, t) h c = record {
    still =
        IsClosed-same limit prefix window digest l _ (refl, refl, refl, refl, refl) refl c.knows c;
    effect = failed_effect key store t (ok l.fail_open) c.closed h;
  }
  decide_reply-Outcome now key store (other e, l, t) h c = record {
    still = c;
    effect = failed_effect key store t (raise e) refl h;
  }

  pub allow-Outcome :
      (l : RedisRateLimiter) (call : Call) (s : Server)
      → IsClosed limit prefix window digest l
      → Outcome
          (redis_key prefix call.time call.key)
          (view s)
          (allow client l call.now call.time call.key s)
  allow-Outcome l call s c =
      let k = redis_key l.key_prefix call.time call.key in
      let r = eval_counter client l k s in
      let (runs, lasting, knows) = eval_counter-Runs client wait view digest law l k s c.knows in
      let still =
        IsClosed-same limit prefix window digest l r.1 (eval_counter-fields client l k s) lasting
          knows c in
      let counts : Runs view k window (view s) (r.0, r.2) =
        subst (λ w. Runs view k w (view s) (r.0, r.2)) c.lasting runs in
      let both : Outcome k (view s) (allow client l call.now call.time call.key s) =
        elim (Bool-cases (ltb call.now l.degraded_until)) [
          | inl early ↦
              rw (allow-degraded client l call s c.on c.connected (ltb→lt _ _ early))
                (record { still = c; effect = inl (refl, c.closed) })
          | inr ready ↦
              rw (allow-eval client l call s c.on c.connected (ground arith))
                (decide_reply-Outcome call.now k (view s) r counts still)
        ] in
      subst
        (λ p.
          Outcome (redis_key p call.time call.key) (view s)
            (allow client l call.now call.time call.key s))
        c.prefixed both

  step-AllClosed :
      (w : World Server) (e : Event)
      → AllClosed limit prefix window digest w
      → AllClosed limit prefix window digest (step client wait w e).1
  unfolding step
  step-AllClosed w e all p = elim (Bool-cases (eqb p e.process)) [
    | inl mine ↦
        rw mine
          (allow-Outcome (w.limiters e.process) (event_call e) (wait e.served w.server)
            (all e.process)).still
    | inr theirs ↦ rw theirs (all p)
  ]

  pub run-AllClosed :
      (w : World Server) (past : List Event)
      → AllClosed limit prefix window digest w
      → AllClosed limit prefix window digest (run client wait w past)
  unfolding run
  run-AllClosed w [] all = all
  run-AllClosed w (e ∷ past) all =
      step-AllClosed (run client wait w past) e (run-AllClosed w past all)
