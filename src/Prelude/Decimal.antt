-- ===== src/Prelude/Decimal.antt =====
-- `str(n)` of a natural number.
use Prim.Native.Char.{Char, code}
use Prim.Native.String.{[], ◌∷◌}
use civic_archive_api.Prelude.{
  ℕ, zero, suc, ◌+◌, ◌<◌, ◌≡◌, refl, arith, ◌/◌, ◌%◌, String, ltb, if◌then◌else◌,
}

-- The character at a place of a text.
unfoldable pub char_or : Char → ℕ → String → Char
char_or d n [] = d
char_or d zero (c ∷ s) = c
char_or d (suc n) (c ∷ s) = char_or d n s

-- The digits of `n` before `rest`; a number has at most as many digits as its successor says.
unfoldable pub digits : ℕ → ℕ → String → String
unfolding char_or
digits zero n rest = rest
digits (suc fuel) n rest =
    let shown = char_or "0" (n % 10) "0123456789" ∷ rest in
    let more = digits fuel (n / 10) shown in if ltb n 10 then shown else more

unfoldable pub decimal : ℕ → String
unfolding digits
decimal n = digits (suc n) n ""

pub code_of_digit : (n : ℕ) → n < 10 → code (char_or "0" n "0123456789") ≡ 48 + n
unfolding char_or
code_of_digit zero h = refl
code_of_digit (suc zero) h = refl
code_of_digit (suc (suc zero)) h = refl
code_of_digit (suc (suc (suc zero))) h = refl
code_of_digit (suc (suc (suc (suc zero)))) h = refl
code_of_digit (suc (suc (suc (suc (suc zero))))) h = refl
code_of_digit (suc (suc (suc (suc (suc (suc zero)))))) h = refl
code_of_digit (suc (suc (suc (suc (suc (suc (suc zero))))))) h = refl
code_of_digit (suc (suc (suc (suc (suc (suc (suc (suc zero)))))))) h = refl
code_of_digit (suc (suc (suc (suc (suc (suc (suc (suc (suc zero))))))))) h = refl
code_of_digit (suc (suc (suc (suc (suc (suc (suc (suc (suc (suc n)))))))))) h = omega arith
