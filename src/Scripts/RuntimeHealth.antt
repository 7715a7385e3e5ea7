-- ===== src/Scripts/RuntimeHealth.antt =====
-- scripts/check_runtime_health.py: the checks of a deployment, with retries. What a request answers is
-- a function of the URL and of how many requests there have been before it.
pub mod Attempts
use Prim.Native.Char.{code}
use Prim.Native.String.{[], ◌∷◌, ◌++◌}
use civic_archive_api.Prelude.{
  ℕ, zero, suc, ◌+◌, ◌-◌, String, Bool, true, false, not, ◌&&◌, ◌||◌, Option, none, some, max, eqb,
  if◌then◌else◌, ◌==◌,
}
use civic_archive_api.Prelude.Int.{ℤ, pos, max_zero, succ}
use civic_archive_api.Text.{is_empty}

-- The status that `requests.get` gives, or none where it raises `RequestException`.
abbrev pub Server : Type 0
Server = String → ℕ → Option ℕ

-- The requests that have been made, the seconds slept counted in calls of `time.sleep`, and whether
-- the check has passed.
pub record Run : Type 0 where
  pub requests : ℕ
  pub sleeps : ℕ
  pub passed : Bool

abbrev pub status_or_zero : Option ℕ → ℕ
status_or_zero none = 0
status_or_zero (some status) = status

-- The status of `_http_get_json`; `scheme` is that of `urlparse`.
unfoldable pub http_get : (String → String) → Server → String → ℕ → ℕ × ℕ
http_get scheme server url n =
    if scheme url == "http" || scheme url == "https"
    then (status_or_zero (server url n), suc n)
    else (0, n)

-- `base_url.rstrip("/")`
unfoldable pub rstrip_slash : String → String
unfolding is_empty
rstrip_slash [] = []
rstrip_slash (c ∷ s) =
    let rest = rstrip_slash s in if eqb (code c) b'/' && is_empty rest then [] else c ∷ rest

module _ (scheme : String → String) (server : Server) where
  -- The loop of `_check_with_retry` from an attempt on: `left` more can follow it. The requests and
  -- sleeps that there have been are counted on.
  unfoldable pub attempt_from : String → ℕ → ℕ → ℕ → ℕ → Run
  unfolding http_get
  attempt_from url expected zero requests sleeps =
      let (status, requests') = http_get scheme server url requests in
      record { requests = requests'; sleeps = sleeps; passed = eqb status expected }
  attempt_from url expected (suc left) requests sleeps =
      let (status, requests') = http_get scheme server url requests in
      let later = attempt_from url expected left requests' (suc sleeps) in
      if eqb status expected
      then record { requests = requests'; sleeps = sleeps; passed = true }
      else later

  -- `attempts = max(1, retries + 1)`
  unfoldable pub check_with_retry : String → ℕ → ℤ → ℕ → ℕ → Run
  unfolding attempt_from
  check_with_retry url expected retries requests sleeps =
      attempt_from url expected (max 1 (max_zero (succ retries)) - 1) requests sleeps

  -- Both checks of `main`, the second after the first whatever it gives: the exit code, with the runs.
  unfoldable pub main : String → ℤ → ℕ × Run × Run
  unfolding check_with_retry rstrip_slash
  main base_url retries =
      let base = rstrip_slash base_url in
      let live = check_with_retry (base ++ "/health/live") 200 (pos (max_zero retries)) 0 0 in
      let ready =
        check_with_retry (base ++ "/health/ready") 200 (pos (max_zero retries)) live.requests
          live.sleeps in
      (if live.passed && ready.passed then 0 else 1, live, ready)
