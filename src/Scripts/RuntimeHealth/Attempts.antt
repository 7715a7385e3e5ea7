-- ===== src/Scripts/RuntimeHealth/Attempts.antt =====
-- How often a check asks, and when it passes.
use civic_archive_api.Prelude.{
  ℕ, zero, suc, ◌+◌, ◌-◌, ◌≤◌, ◌≡◌, inl, inr, refl, String, Bool, true, false, ◌||◌, max, eqb,
  arith, Bool-cases, ◌==◌,
}
use civic_archive_api.Prelude.Int.{pos}
use civic_archive_api.Scripts.RuntimeHealth.{
  Server, status_or_zero, http_get, attempt_from, check_with_retry,
}

module _ (scheme : String → String) (server : Server) where
  -- The status of the next request.
  abbrev status_of : String → ℕ → ℕ
  status_of url requests = status_or_zero (server url requests)

  http_get_lem :
      (url : String) (requests : ℕ)
      → (scheme url == "http" || scheme url == "https") ≡ true
      → http_get scheme server url requests ≡ (status_of url requests, suc requests)
  unfolding http_get
  http_get_lem url requests http = rw http refl

  -- One of the next `n` answers of the server for a URL has the status; a request that fails has 0.
  abbrev pub answers_within : String → ℕ → ℕ → ℕ → Bool
  answers_within url expected zero requests = false
  answers_within url expected (suc n) requests =
      eqb (status_of url requests) expected || answers_within url expected n (suc requests)

  attempt_from_lem :
      (url : String) (expected left requests sleeps : ℕ)
      → (scheme url == "http" || scheme url == "https") ≡ true
      → let r = attempt_from scheme server url expected left requests sleeps in
        (r.passed ≡ answers_within url expected (suc left) requests)
        × (suc requests ≤ r.requests)
        × (r.requests ≤ requests + suc left)
        × (r.sleeps + suc requests ≡ sleeps + r.requests)
  unfolding attempt_from
  attempt_from_lem url expected zero requests sleeps http =
      rw (http_get_lem url requests http) (ground arith, omega arith, omega arith, omega arith)
  attempt_from_lem url expected (suc left) requests sleeps http =
      let (passed, low, high, slept) =
        attempt_from_lem url expected left (suc requests) (suc sleeps) http in
      rw (http_get_lem url requests http)
        (elim (Bool-cases (eqb (status_of url requests) expected)) [
          | inl good ↦ rw good (refl, omega arith, omega arith, omega arith)
          | inr bad ↦ rw bad (passed, omega arith, omega arith, omega arith)
        ])

  -- A check of an http or https URL, with a number of retries that is not negative, ends: it asks
  -- at least once and at most `retries + 1` times, sleeps between two requests and at no other
  -- time, and passes exactly if one of these answers has the expected status.
  pub check_with_retry_lem :
      (url : String) (expected : ℕ) (retries : ℕ) (requests sleeps : ℕ)
      → (scheme url == "http" || scheme url == "https") ≡ true
      → let r = check_with_retry scheme server url expected (pos retries) requests sleeps in
        (r.passed ≡ answers_within url expected (suc retries) requests)
        × (suc requests ≤ r.requests)
        × (r.requests ≤ requests + suc retries)
        × (r.sleeps + suc requests ≡ sleeps + r.requests)
  unfolding check_with_retry
  check_with_retry_lem url expected retries requests sleeps http =
      let e : max 1 (suc retries) - 1 ≡ retries = omega arith in
      rw e (attempt_from_lem url expected retries requests sleeps http)
