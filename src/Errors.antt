-- ===== src/Errors.antt =====
-- app/errors.py: HTTP errors, their payload and the handler of app/bootstrap/exception_handlers.py;
-- and the exceptions that the other modules raise.
use civic_archive_api.Prelude.{◌≡◌, ◌⊎◌, inl, inr, refl, ℕ, String, Option, none}
use civic_archive_api.Json.{Json}

-- The dict that `http_error` gives to `HTTPException` as its detail.
pub record HttpError : Type 0 where
  pub status_code : ℕ
  pub code : String
  pub message : String
  pub details : Option Json

pub data Exception : Type 0 where
  http_exception : HttpError → Exception
  runtime_error : String → Exception
  type_error value_error overflow_error database_error : Exception

pub data Result {ℓ} (A : Type ℓ) : Type ℓ where
  ok : A → Result A
  raise : Exception → Result A

-- A chain of calls: the first exception ends it.
module _ {ℓ κ} {A : Type ℓ} {B : Type κ} where
  infixl 5 ◌>>=◌ ◌>>◌
  abbrev pub ◌>>=◌ : Result A → (A → Result B) → Result B
  raise exc >>= next = raise exc
  ok value >>= next = next value

  abbrev pub ◌>>◌ : Result A → Result B → Result B
  call >> next = call >>= (λ _. next)

  -- A chain that returns has two calls that return.
  pub chain-eq-ok :
      {b : B} (next : A → Result B) (call : Result A)
      → (call >>= next) ≡ ok b
      → (a : A) × (next a ≡ ok b) × (call ≡ ok a)
  chain-eq-ok next (raise exc) h = cc
  chain-eq-ok next (ok value) h = (value, h, refl)

abbrev pub http_error : ℕ → String → String → Exception
http_error status_code code message =
    http_exception
      (record { status_code = status_code; code = code; message = message; details = none })

abbrev pub unauthorized : Exception
unauthorized = http_error 401 "UNAUTHORIZED" "Unauthorized"

-- `bad_request` of app/utils.py
abbrev pub bad_request : String → Exception
bad_request message = http_error 400 "BAD_REQUEST" message

pub Result-cases {ℓ} :
    {A : Type ℓ} (r : Result A) → ((e : Exception) × (r ≡ raise e)) ⊎ ((a : A) × (r ≡ ok a))
Result-cases (raise e) = inl (e, refl)
Result-cases (ok a) = inr (a, refl)
