-- ===== src/RateLimit/Memory.antt =====
-- `InMemoryRateLimiter` of app/security_rate_limit.py. A time is the whole seconds of
-- `time.time()`; the lock makes each `allow` one step.
pub mod Window
pub mod Pruning
mod Tests
use civic_archive_api.Prelude.{
  ℕ, suc, ◌-◌, ◌/◌, String, Bool, true, not, Option, none, some, List, [], length, ltb, leb, eqb,
  if◌then◌else◌,
}
use civic_archive_api.Prelude.Int.{ℤ, max_zero}
use civic_archive_api.Dict.{get, put, keep_values}

-- Each client's window and its count there.
abbrev pub Windows : Type 0
Windows = List (String × (ℕ × ℕ))

pub record InMemoryRateLimiter : Type 0 where
  pub requests_per_minute : ℕ
  pub windows : Windows

-- `__init__`
unfoldable pub init : ℤ → InMemoryRateLimiter
init requests_per_minute = record {
  requests_per_minute = max_zero requests_per_minute;
  windows = [];
}

unfoldable pub enabled : InMemoryRateLimiter → Bool
enabled l = ltb 0 l.requests_per_minute

abbrev pub max_windows : ℕ
max_windows = 4096

-- `_prune`; `now_window - 1` is -1 in the first window, and no window is below 0 either.
unfoldable pub prune : ℕ → Windows → Windows
prune now_window windows =
    if ltb (length windows) max_windows
    then windows
    else keep_values (λ v. leb (now_window - 1) v.0) windows

-- The entry that `allow` counts up from: `get(key, (now_window, 0))`, and the reset.
unfoldable pub entry_for : ℕ → Option (ℕ × ℕ) → ℕ × ℕ
entry_for now_window none = (now_window, 0)
entry_for now_window (some (prev_window, count)) =
    if not (eqb prev_window now_window) then (now_window, 0) else (prev_window, count)

-- What `allow` does when the limiter is enabled.
unfoldable pub count_request : InMemoryRateLimiter → ℕ → String → InMemoryRateLimiter × Bool
unfolding entry_for prune
count_request l now_window key =
    let (prev_window, count) = entry_for now_window (get key l.windows) in
    let windows = put key (prev_window, suc count) l.windows in
    (record l { windows = prune now_window windows }, leb (suc count) l.requests_per_minute)

unfoldable pub allow : InMemoryRateLimiter → ℕ → String → InMemoryRateLimiter × Bool
allow l time key = if not (enabled l) then (l, true) else count_request l (time / 60) key
