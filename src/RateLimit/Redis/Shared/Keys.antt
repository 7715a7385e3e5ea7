-- ===== src/RateLimit/Redis/Shared/Keys.antt =====
-- The keys of `allow` tell minutes apart.

use Prim.Native.String.{◌∷◌, ◌++◌}
use text.Mathlib.TextLemmas.{append_cancel_left, cons-append, nil-append}
use civic_archive_api.Prelude.{
  ℕ, zero, suc, ◌/◌, ◌≡◌, refl, ap, sym, ◌∙◌, String, ltb, Bool-cases, inl, inr,
}
use civic_archive_api.Prelude.Decimal.{digits, decimal}
use civic_archive_api.Json.Dumps.Numbers.{IsDelimited, digits_injective}
use civic_archive_api.RateLimit.Redis.{redis_key}

digits-append : (fuel n : ℕ) (s rest : String) → digits fuel n s ++ rest ≡ digits fuel n (s ++ rest)
unfolding digits
digits-append zero n s rest = refl
digits-append (suc fuel) n s rest = elim (Bool-cases (ltb n 10)) [
  | inl small ↦ rw small (cons-append _ s rest)
  | inr large ↦
      rw large
        (digits-append fuel (n / 10) _ rest ∙ ap (digits fuel (n / 10)) (cons-append _ s rest))
]

decimal-append : (n : ℕ) (rest : String) → decimal n ++ rest ≡ digits (suc n) n rest
unfolding decimal
decimal-append n rest = digits-append (suc n) n "" rest ∙ ap (digits (suc n) n) (nil-append rest)

colon_delimits : (rest : String) → IsDelimited (":" ++ rest)
colon_delimits rest =
    let e : ":" ++ rest ≡ ":" ∷ rest =
      cons-append ":" "" rest ∙ ap (λ s. ":" ∷ s) (nil-append rest) in
    rw e refl

pub redis_key-minute :
    (prefix : String) (time other : ℕ) (key name : String)
    → redis_key prefix time key ≡ redis_key prefix other name
    → time / 60 ≡ other / 60
unfolding redis_key decimal
redis_key-minute prefix time other key name h =
    let written : decimal (time / 60) ++ (":" ++ key) ≡ decimal (other / 60) ++ (":" ++ name) =
      append_cancel_left ":" _ _ (append_cancel_left prefix _ _ h) in
    (digits_injective (time / 60) (other / 60) (":" ++ key) (":" ++ name) (colon_delimits key)
      (colon_delimits name)
      (sym (decimal-append (time / 60) (":" ++ key))
        ∙ written
        ∙ decimal-append (other / 60) (":" ++ name))).0
