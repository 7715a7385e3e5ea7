-- ===== src/RateLimit/Memory/Window.antt =====
-- The in-memory limiter against a count over the history of requests.
use civic_archive_api.Prelude.{
  ℕ, suc, ◌-◌, ◌/◌, ◌≤◌, ◌<◌, min, String, ◌≡◌, refl, inl, inr, true, ◌&&◌, Option, none, some,
  List, [], ◌∷◌, arith, ◌==◌, eq_iff, length, leb, eqb, ltb, Bool-cases, if◌then◌else◌,
}
use civic_archive_api.Prelude.Int.{pos}
use civic_archive_api.Dict.{
  get, put, HasDistinctKeys, get-put, put-HasDistinctKeys, keep_if, get-keep_values,
  keep_values-HasDistinctKeys,
}
use civic_archive_api.RateLimit.Memory.{
  Windows, InMemoryRateLimiter, init, enabled, max_windows, prune, entry_for, count_request, allow,
}

-- A request: the key of its client and its time.
pub record Request : Type 0 where
  pub key : String
  pub time : ℕ

abbrev pub window : Request → ℕ
window r = r.time / 60

-- The limiter after a history, whose last request stands first.
unfoldable pub run : InMemoryRateLimiter → List Request → InMemoryRateLimiter
run l [] = l
run l (r ∷ past) = (allow (run l past) r.time r.key).0

-- The requests of a key in a window, allowed or not.
abbrev pub requests_in : String → ℕ → List Request → ℕ
requests_in k w [] = 0
requests_in k w (r ∷ past) =
    let n = requests_in k w past in if r.key == k && eqb (window r) w then suc n else n

-- The requests of a key in a window that the limiter has allowed.
unfoldable pub allowed_in : InMemoryRateLimiter → String → ℕ → List Request → ℕ
allowed_in l k w [] = 0
allowed_in l k w (r ∷ past) =
    let n = allowed_in l k w past in
    if r.key == k && (eqb (window r) w && (allow (run l past) r.time r.key).1) then suc n else n

-- No window lies after `w`.
abbrev pub IsUpTo : ℕ → List Request → Type 0
IsUpTo w [] = Unit
IsUpTo w (r ∷ past) = (window r ≤ w) × IsUpTo w past

-- The clock does not step back across a window.
abbrev pub IsChronological : List Request → Type 0
IsChronological [] = Unit
IsChronological (r ∷ past) = IsUpTo (window r) past × IsChronological past

requests_in-future :
    (k : String) (w v : ℕ) (past : List Request) → IsUpTo v past → v < w → requests_in k w past ≡ 0
requests_in-future k w v [] h lt = refl
requests_in-future k w v (r ∷ past) h lt = ground (arith, requests_in-future k w v past h.1 lt)

-- The count that the stored entry stands for in window `w`.
abbrev count_at : ℕ → Option (ℕ × ℕ) → ℕ
count_at w none = 0
count_at w (some e) = if eqb e.0 w then e.1 else 0

-- The stored counts are those of the history, in each window that is not over.
record Tracks (l : InMemoryRateLimiter) (past : List Request) : Type 0 where
  distinct : HasDistinctKeys l.windows
  counts :
      (k : String) (w : ℕ) → IsUpTo w past → count_at w (get k l.windows) ≡ requests_in k w past

count_at-keep_if :
    (v w : ℕ) (o : Option (ℕ × ℕ))
    → v ≤ w
    → count_at w (keep_if (λ e. leb (v - 1) e.0) o) ≡ count_at w o
count_at-keep_if v w none h = refl
count_at-keep_if v w (some e) h = ground arith

count_at-prune :
    (v w : ℕ) (k : String) (d : Windows)
    → HasDistinctKeys d
    → v ≤ w
    → count_at w (get k (prune v d)) ≡ count_at w (get k d)
unfolding prune
count_at-prune v w k d h le =
    ground (arith, get-keep_values (λ e. leb (v - 1) e.0) k d h, count_at-keep_if v w (get k d) le)

prune-HasDistinctKeys : (v : ℕ) (d : Windows) → HasDistinctKeys d → HasDistinctKeys (prune v d)
unfolding prune
prune-HasDistinctKeys v d h = elim (Bool-cases (ltb (length d) max_windows)) [
  | inl few ↦ rw few h
  | inr many ↦ rw many (keep_values-HasDistinctKeys (λ e. leb (v - 1) e.0) d h)
]

entry_for_lem : (v : ℕ) (o : Option (ℕ × ℕ)) → entry_for v o ≡ (v, count_at v o)
unfolding entry_for
entry_for_lem v none = refl
entry_for_lem v (some e) = ground arith

-- The entries after a counted request, before pruning.
abbrev counted : InMemoryRateLimiter → ℕ → String → Windows
counted l v k = put k (v, suc (count_at v (get k l.windows))) l.windows

count_request_lem :
    (l : InMemoryRateLimiter) (v : ℕ) (k : String)
    → count_request l v k ≡ (
      record l { windows = prune v (counted l v k) },
      leb (suc (count_at v (get k l.windows))) l.requests_per_minute,
    )
unfolding count_request
count_request_lem l v k = rw (entry_for_lem v (get k l.windows))

allow_lem :
    (l : InMemoryRateLimiter) (time : ℕ) (k : String)
    → enabled l ≡ true
    → allow l time k ≡ count_request l (time / 60) k
unfolding allow
allow_lem l time k h = rw h

count_at-counted :
    (l : InMemoryRateLimiter) (v w : ℕ) (k j : String)
    → v ≤ w
    → count_at w (get j (counted l v k)) ≡ (
        if k == j
        then (if eqb v w then suc (count_at v (get k l.windows)) else 0)
        else count_at w (get j l.windows))
count_at-counted l v w k j le =
    ground (arith, get-put k j (v, suc (count_at v (get k l.windows))) l.windows)

count_at-count_request :
    {l : InMemoryRateLimiter} {past : List Request} (r : Request)
    → Tracks l past
    → IsUpTo (window r) past
    → (j : String) (w : ℕ) → IsUpTo w (r ∷ past)
    → count_at w (get j (prune (window r) (counted l (window r) r.key)))
      ≡ requests_in j w (r ∷ past)
count_at-count_request {l} {past} r t h j w hw =
    let v : ℕ = window r in
    let d : HasDistinctKeys (counted l v r.key) =
      put-HasDistinctKeys r.key _ l.windows t.distinct in
    ground (
      arith,
      count_at-prune v w j (counted l v r.key) d hw.0,
      count_at-counted l v w r.key j hw.0,
      t.counts r.key v h,
      t.counts j w hw.1,
      requests_in-future j w v past h,
      eq_iff r.key j,
    )

count_request-Tracks :
    {l : InMemoryRateLimiter} {past : List Request} (r : Request)
    → Tracks l past
    → IsUpTo (window r) past
    → Tracks (count_request l (window r) r.key).0 (r ∷ past)
count_request-Tracks {l} {past} r t h = rw count_request_lem (record {
  distinct =
      prune-HasDistinctKeys (window r) (counted l (window r) r.key)
        (put-HasDistinctKeys r.key _ l.windows t.distinct);
  counts = count_at-count_request r t h;
})

run-requests_per_minute :
    (l : InMemoryRateLimiter) (past : List Request)
    → (run l past).requests_per_minute ≡ l.requests_per_minute
unfolding run allow
run-requests_per_minute l [] = refl
run-requests_per_minute l (r ∷ past) =
    ground (arith, run-requests_per_minute l past, count_request_lem (run l past) (window r) r.key)

module _ (limit : ℕ) (positive : 0 < limit) where
  run-enabled : (past : List Request) → enabled (run (init (pos limit)) past) ≡ true
  unfolding enabled init
  run-enabled past = ground (arith, run-requests_per_minute (init (pos limit)) past)

  run-Tracks :
      (past : List Request) → IsChronological past → Tracks (run (init (pos limit)) past) past
  unfolding run
  run-Tracks [] h = unfold init get in record { distinct = tt; counts = λ k w _. refl }
  run-Tracks (r ∷ past) h =
      rw (run, allow_lem (run (init (pos limit)) past) r.time r.key (run-enabled past))
        (count_request-Tracks r (run-Tracks past h.1) h.0)

  -- While the clock does not step back across a window, an enabled limiter allows a request exactly
  -- if it is among the first `limit` requests of its key in its window.
  pub allow_exact :
      (past : List Request) (r : Request)
      → IsChronological (r ∷ past)
      → (allow (run (init (pos limit)) past) r.time r.key).1
        ≡ leb (suc (requests_in r.key (window r) past)) limit
  unfolding init
  allow_exact past r h = ground (
    arith,
    allow_lem (run (init (pos limit)) past) r.time r.key (run-enabled past),
    count_request_lem (run (init (pos limit)) past) (window r) r.key,
    run-requests_per_minute (init (pos limit)) past,
    (run-Tracks past h.1).counts r.key (window r) h.0,
  )

  -- Over a whole history, the limiter has allowed each key in each window as many requests as it
  -- made there, up to `limit` and no more.
  pub allowed_in-eq-min :
      (k : String) (w : ℕ) (past : List Request)
      → IsChronological past
      → allowed_in (init (pos limit)) k w past ≡ min (requests_in k w past) limit
  unfolding allowed_in
  allowed_in-eq-min k w [] h = omega arith
  allowed_in-eq-min k w (r ∷ past) h =
      ground (arith, allowed_in-eq-min k w past h.1, allow_exact past r h, eq_iff r.key k)
