-- ===== src/RateLimit/Memory/Tests.antt =====
-- Runs of the in-memory limiter, and its theorems at concrete histories.
use civic_archive_api.Prelude.{
  ℕ, suc, ◌<◌, String, ◌≡◌, refl, ◌⊎◌, true, false, List, [], ◌∷◌, arith, length, leb, min,
}
use civic_archive_api.Prelude.Int.{pos, negsuc}
use civic_archive_api.Dict.{get, put, keep_values}
use civic_archive_api.RateLimit.Memory.{init, enabled, max_windows, count_request, allow}
use civic_archive_api.RateLimit.Memory.Window.{
  Request, run, requests_in, allowed_in, allow_exact, allowed_in-eq-min,
}
use civic_archive_api.RateLimit.Memory.Pruning.{IsRecent, allow_bound}

limiter : Unit {0}
unfolding init allow enabled count_request get put keep_values run
limiter = tt

abbrev at : String → ℕ → Request
at k t = record { key = k; time = t }

-- The last request stands first.
abbrev past : List Request
past = at "b" 65 ∷ at "a" 62 ∷ at "a" 61 ∷ at "a" 3 ∷ []

third_is_refused : (allow (run (init (pos 2)) past) 70 "a").1 ≡ false
unfolding limiter
third_is_refused = refl

next_window : (allow (run (init (pos 2)) past) 130 "a").1 ≡ true
unfolding limiter
next_window = refl

disabled : (allow (init (negsuc 4)) 70 "a").1 ≡ true
unfolding limiter
disabled = refl

-- Where the clock steps back across a window, the count begins again.
clock_steps_back : (allow (run (init (pos 1)) (at "a" 59 ∷ at "a" 60 ∷ [])) 61 "a").1 ≡ true
unfolding limiter
clock_steps_back = refl

allow_exact_example :
    (allow (run (init (pos 2)) past) 70 "a").1 ≡ leb (suc (requests_in "a" 1 past)) 2
allow_exact_example = allow_exact 2 (omega arith) past (at "a" 70) (omega arith)

allowed_in-eq-min_example : allowed_in (init (pos 2)) "a" 1 (at "a" 70 ∷ past) ≡ min 3 2
allowed_in-eq-min_example = allowed_in-eq-min 2 (omega arith) "a" 1 (at "a" 70 ∷ past) (omega arith)

allow_bound_example :
    (length (allow (run (init (pos 2)) past) 70 "a").0.windows < max_windows)
    ⊎ IsRecent 1 (allow (run (init (pos 2)) past) 70 "a").0.windows
unfolding limiter
allow_bound_example = allow_bound (run (init (pos 2)) past) 70 "a" refl
