-- ===== src/RateLimit/Memory/Pruning.antt =====
-- What `_prune` bounds: the entries that an `allow` leaves behind.
use civic_archive_api.Prelude.{
  ℕ, ◌+◌, ◌-◌, ◌/◌, ◌≤◌, ◌<◌, String, ◌≡◌, ◌⊎◌, inl, inr, true, [], ◌∷◌, arith, length, leb, leb→le,
  ltb, ltb→lt, Bool-cases,
}
use civic_archive_api.Dict.{put, keep_values}
use civic_archive_api.RateLimit.Memory.{
  Windows, InMemoryRateLimiter, enabled, max_windows, prune, count_request, allow,
}

-- Every entry is of window `w`, of the one before it, or of a later one.
abbrev pub IsRecent : ℕ → Windows → Type 0
IsRecent w [] = Unit
IsRecent w ((k, v) ∷ d) = (w ≤ v.0 + 1) × IsRecent w d

keep_values-IsRecent : (w : ℕ) (d : Windows) → IsRecent w (keep_values (λ v. leb (w - 1) v.0) d)
unfolding keep_values
keep_values-IsRecent w [] = tt
keep_values-IsRecent w ((k, v) ∷ d) = elim (Bool-cases (leb (w - 1) v.0)) [
  | inl kept ↦ rw kept (omega (arith, leb→le (w - 1) v.0 kept), keep_values-IsRecent w d)
  | inr dropped ↦ rw dropped (keep_values-IsRecent w d)
]

prune_bound : (w : ℕ) (d : Windows) → (length (prune w d) < max_windows) ⊎ IsRecent w (prune w d)
unfolding prune
prune_bound w d = elim (Bool-cases (ltb (length d) max_windows)) [
  | inl few ↦ rw few (inl (ltb→lt (length d) max_windows few))
  | inr many ↦ rw many (inr (keep_values-IsRecent w d))
]

-- After a request an enabled limiter stores fewer than `max_windows` entries, or all that it stores
-- are of the current window or of the one before it (or later).
pub allow_bound :
    (l : InMemoryRateLimiter) (time : ℕ) (k : String)
    → enabled l ≡ true
    → (length (allow l time k).0.windows < max_windows)
      ⊎ IsRecent (time / 60) (allow l time k).0.windows
unfolding allow
allow_bound l time k h = rw h (unfold count_request in prune_bound (time / 60) (put k _ l.windows))
