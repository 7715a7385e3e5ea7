-- ===== src/Protected/ApiKey.antt =====
-- Which API keys pass.
use civic_archive_api.Prelude.{
  String, ◌≡◌, refl, ◌↔◌, inl, inr, Bool, true, false, ◌&&◌, Option, none, some, arith, ◌==◌,
  eq_iff, Bool-cases, if◌then◌else◌,
}
use civic_archive_api.Text.{is_empty, or_empty}
use civic_archive_api.Errors.{type_error, unauthorized, Result, ok, raise, ◌>>=◌}
use civic_archive_api.Config.{Config}
use civic_archive_api.Http.{Request}
use civic_archive_api.Protected.{is_ascii, require_true, check_api_key, verify_api_key}

-- The request brings the configured key, and that is ASCII.
pub record BringsKey (c : Config) (r : Request) : Type 0 where
  pub sent : r.header "X-API-Key" ≡ some (or_empty c.api_key)
  pub present : is_empty (or_empty c.api_key) ≡ false
  pub ascii : is_ascii (or_empty c.api_key) ≡ true

passes_iff :
    (empty key_ascii expected_ascii same : Bool)
    → ◌≡◌ {A = Result (Unit {0})}
        (if empty
          then raise unauthorized
          else (if key_ascii && expected_ascii then ok same else raise type_error) >>= require_true)
        (ok tt)
      ↔ ((empty ≡ false) × (key_ascii ≡ true) × (expected_ascii ≡ true) × (same ≡ true))
unfolding require_true
passes_iff empty key_ascii expected_ascii same = ground arith

check_api_key_iff :
    (expected : String) (o : Option String)
    → (check_api_key expected o ≡ ok tt)
      ↔ ((o ≡ some expected) × (is_empty expected ≡ false) × (is_ascii expected ≡ true))
unfolding check_api_key
check_api_key_iff expected none = (λ h. cc, λ h. cc (h.0))
check_api_key_iff expected (some key) =
    let (to, from) =
      passes_iff (is_empty key) (is_ascii key) (is_ascii expected) (key == expected) in
    (
      λ h.
          let (full, key_ascii, expected_ascii, same) = to h in
          let e = (eq_iff key expected).0 same in (cc e, cc (e, full), expected_ascii),
      λ (sent, full, ascii).
          let e : key ≡ expected = cc sent in
          from (cc (e, full), cc (e, ascii), ascii, (eq_iff key expected).1 e),
    )

-- With API keys required, a request passes exactly if it brings the configured key, which is neither
-- empty nor outside ASCII; without, every request passes.
pub verify_api_key_iff :
    (c : Config) (r : Request)
    → (verify_api_key c r ≡ ok tt) ↔ (c.require_api_key ≡ true → BringsKey c r)
unfolding verify_api_key
verify_api_key_iff c r =
    let (to, from) = check_api_key_iff (or_empty c.api_key) (r.header "X-API-Key") in
    elim (Bool-cases c.require_api_key) [
      | inl required ↦ rw required (
        λ h _. let (a, b, d) = to h in record { sent = a; present = b; ascii = d },
        λ h. let k = h refl in from (k.sent, k.present, k.ascii),
      )
      | inr free ↦ rw free (λ _ e. cc, λ _. refl)
    ]
