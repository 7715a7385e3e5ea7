-- ===== src/RateLimit/Redis/Shared/Limit.antt =====
-- No client is allowed more than the limit in a minute on a shared server, whatever fails.
use mathlib.Core.Path.{subst}
use civic_archive_api.Prelude.{
  ℕ, suc, ◌+◌, ◌*◌, ◌/◌, ◌≤◌, ◌<◌, String, ◌≡◌, ◌⊎◌, refl, ap, sym, Option, none, some, Bool, true,
  false, List, [], ◌∷◌, ◌==◌, ◌&&◌, arith, eq_iff, ltb, Bool-cases, inl, inr, if◌then◌else◌,
}
use civic_archive_api.Errors.{Result}
use civic_archive_api.RateLimit.Redis.{RedisClient, redis_key, allow}
use civic_archive_api.RateLimit.Redis.Shared.{
  Entry, Store, unless_expired, advance, count_up, counted, IsRedis, Event, World, step, run,
  is_allowed, allowed_on, IsClosed, IsTimely, clock_after, AllTimely, AllClosed,
}
use civic_archive_api.RateLimit.Redis.Shared.Outcome.{event_call, allow-Outcome, run-AllClosed}
use civic_archive_api.RateLimit.Redis.Shared.Keys.{redis_key-minute}

module _ {Server : Type 0} (client : RedisClient Server) (wait : ℕ → Server → Server)
    (view : Server → Store) (digest : String) (law : IsRedis client wait view digest) (limit : ℕ)
    (prefix : String) (window : ℕ) where
  -- The counter of a key covers what was allowed on it, and lasts to the end of its window.
  abbrev CoveredBy : ℕ → ℕ → Option Entry → Type 0
  CoveredBy end allowed none = allowed ≡ 0
  CoveredBy end allowed (some e) = (allowed ≤ e.count) × (end ≤ e.expires_at)

  -- What was allowed is within the limit, and it is covered, or the window is over.
  abbrev Covered : String → ℕ → Store → ℕ → Type 0
  Covered key end store allowed =
      (allowed ≤ limit) × ((end ≤ store.clock) ⊎ CoveredBy end allowed (store.entries key))

  unless_expired-CoveredBy :
      (end clock allowed : ℕ) (o : Option Entry)
      → CoveredBy end allowed o
      → (end ≤ clock) ⊎ CoveredBy end allowed (unless_expired clock o)
  unless_expired-CoveredBy end clock allowed none h = inr h
  unless_expired-CoveredBy end clock allowed (some e) h =
      elim (Bool-cases (ltb clock e.expires_at)) [
        | inl alive ↦ rw alive (inr h)
        | inr expired ↦ inl (ground (arith, h.1))
      ]

  advance-Covered :
      (key : String) (end clock : ℕ) (store : Store) (allowed : ℕ)
      → store.clock ≤ clock
      → Covered key end store allowed
      → Covered key end (advance clock store) allowed
  advance-Covered key end clock store allowed later (few, inl over) = (few, inl (omega arith))
  advance-Covered key end clock store allowed later (few, inr covered) =
      (few, unless_expired-CoveredBy end clock allowed (store.entries key) covered)

  count_up-CoveredBy :
      (end clock allowed more : ℕ) (o : Option Entry)
      → end ≤ clock + window
      → more ≤ suc allowed
      → CoveredBy end allowed o
      → CoveredBy end more (some (count_up clock window o))
  count_up-CoveredBy end clock allowed more none lasts step h = (omega (arith, h), lasts)
  count_up-CoveredBy end clock allowed more (some e) lasts step h = (omega (arith, h.0), h.1)

  still_covered :
      (key : String) (end : ℕ) (store : Store) (allowed : ℕ)
      → store.clock < end
      → (end ≤ store.clock) ⊎ CoveredBy end allowed (store.entries key)
      → CoveredBy end allowed (store.entries key)
  still_covered key end store allowed early (inl over) =
      let absurd : false ≡ true = ground arith in cc
  still_covered key end store allowed early (inr covered) = covered

  -- A call by another key, or one that ran the script on the key in its window.
  effect-Covered :
      (time : ℕ) (name : String) (e : Event) (store store' : Store) (answer : Result Bool)
      (allowed : ℕ)
      → let key = redis_key prefix time name in
        let called = redis_key prefix e.time e.key in
        let end = (time / 60) * 60 + window in
        store.clock ≡ e.served
        → IsTimely window e
        → Covered key end store allowed
        → ((store' ≡ store) × (is_allowed answer ≡ false))
          ⊎ ((store' ≡ counted called window store)
              × (is_allowed answer ≡ true
                  → (count_up store.clock window (store.entries called)).count ≤ limit))
        → (store'.clock ≡ e.served)
          × Covered key end store'
              (if called == key && is_allowed answer then suc allowed else allowed)
  effect-Covered time name e store store' answer allowed clock timely covered
        (inl (same, refused)) =
      let key = redis_key prefix time name in
      let called = redis_key prefix e.time e.key in
      rw (same, refused)
        (elim (Bool-cases (called == key)) [
          | inl hit ↦ rw hit (clock, covered)
          | inr miss ↦ rw miss (clock, covered)
        ])
  effect-Covered time name e store store' answer allowed clock timely covered (inr (ran, few)) =
      let key = redis_key prefix time name in
      let called = redis_key prefix e.time e.key in
      let end = (time / 60) * 60 + window in
      rw ran (elim (Bool-cases (called == key)) [
        | inr miss ↦
            let other : (key == called) ≡ false =
              ground (arith, eq_iff called key, eq_iff key called) in
            rw (miss, other) (clock, covered)
        | inl hit ↦
            let same : called ≡ key = (eq_iff called key).0 hit in
            let minute : e.time / 60 ≡ time / 60 =
              redis_key-minute prefix e.time time e.key name same in
            let self : (key == called) ≡ true = (eq_iff key called).1 (sym same) in
            let live =
              still_covered key end store allowed (omega (arith, clock, minute, timely.1))
                covered.1 in
            let there = subst (λ k. CoveredBy end allowed (store.entries k)) (sym same) live in
            let lasts : end ≤ store.clock + window = omega (arith, clock, minute, timely.0) in
            let more =
              count_up-CoveredBy end store.clock allowed (suc allowed) (store.entries called) lasts
                (omega arith) there in
            let same_number =
              count_up-CoveredBy end store.clock allowed allowed (store.entries called) lasts
                (omega arith) there in
            elim (Bool-cases (is_allowed answer)) [
              | inl yes_allowed ↦
                  rw (hit, yes_allowed, self)
                    (clock, (omega (arith, more.0, few yes_allowed), inr more))
              | inr refused ↦ rw (hit, refused, self) (clock, (covered.0, inr same_number))
            ]
      ])

  allowed_on-Covered :
      (w : World Server) (time : ℕ) (name : String) (past : List Event)
      → let key = redis_key prefix time name in
        let v = run client wait w past in
        AllClosed limit prefix window digest w
        → AllTimely window (view w.server).clock past
        → (view w.server).entries key ≡ none
        → ((view v.server).clock ≡ clock_after (view w.server).clock past)
          × Covered key
              ((time / 60) * 60 + window)
              (view v.server)
              (allowed_on client wait w prefix key past)
  unfolding allowed_on run step
  allowed_on-Covered w time name [] all timely empty = rw empty (refl, (omega arith, inr refl))
  allowed_on-Covered w time name (e ∷ past) all (timely, later, before) empty =
      let key = redis_key prefix time name in
      let end = (time / 60) * 60 + window in
      let v = run client wait w past in
      let s = wait e.served v.server in
      let advanced = law.wait_advances e.served v.server in
      let (clock, covered) = allowed_on-Covered w time name past all before empty in
      let allowed = allowed_on client wait w prefix key past in
      let covered_still =
        subst (λ st. Covered key end st allowed) (sym advanced)
          (advance-Covered key end e.served (view v.server) allowed (omega (arith, clock, later))
            covered) in
      let l = v.limiters e.process in
      let o =
        allow-Outcome client wait view digest law limit prefix window l (event_call e) s
          (run-AllClosed client wait view digest law limit prefix window w past all e.process) in
      let a = allow client l e.now e.time e.key s in
      effect-Covered time name e (view s) (view a.2) a.0 allowed (ap (λ st. st.clock) advanced)
        timely covered_still o.effect

  -- With a client and a server that do what Redis documents (`IsRedis`), however many processes
  -- share the server, in whatever order they call `allow`, and whichever calls fail: limiters that
  -- fail closed, with one window and prefix, and with no digest of the script or the right one,
  -- allow at most `limit` requests of a client in a minute. That is so from a server that has no
  -- counter for them, as long as its clock does not step back and it runs each call within the
  -- window's seconds from the beginning of the minute that the process has read.
  pub allowed_on-le-limit :
      (w : World Server) (time : ℕ) (name : String) (past : List Event)
      → ((p : ℕ) → IsClosed limit prefix window digest (w.limiters p))
      → AllTimely window (view w.server).clock past
      → (view w.server).entries (redis_key prefix time name) ≡ none
      → allowed_on client wait w prefix (redis_key prefix time name) past ≤ limit
  allowed_on-le-limit w time name past all timely empty =
      (allowed_on-Covered w time name past all timely empty).1.0
