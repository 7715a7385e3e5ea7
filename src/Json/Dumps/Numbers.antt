-- ===== src/Json/Dumps/Numbers.antt =====
-- A numeral is read off what is written, up to the first character that is no digit.
use Prim.Native.Char.{code}
use Prim.Native.String.{[], ◌∷◌}
use civic_archive_api.Prelude.{
  ℕ, zero, suc, ◌+◌, ◌*◌, ◌-◌, ◌/◌, ◌%◌, ◌<◌, ◌≡◌, refl, ap, sym, ◌∙◌, String, Bool, true, false,
  ◌&&◌, ltb, leb, arith, Bool-cases, inl, inr, if◌then◌else◌,
}
use civic_archive_api.Prelude.Decimal.{char_or, code_of_digit, digits}
use civic_archive_api.Json.Dumps.Texts.{first_code}

abbrev pub is_digit : ℕ → Bool
is_digit c = leb 48 c && ltb c 58

-- The text does not begin with a digit.
abbrev pub IsDelimited : String → Type 0
IsDelimited s = is_digit (first_code s) ≡ false

-- What the digits add to `n`, and what follows them.
unfoldable read_digits : ℕ → String → ℕ × String
read_digits n [] = (n, [])
read_digits n (c ∷ s) =
    let rest = read_digits (n * 10 + (code c - 48)) s in
    if is_digit (code c) then rest else (n, c ∷ s)

read_digits_delimited : (n : ℕ) (s : String) → IsDelimited s → read_digits n s ≡ (n, s)
unfolding read_digits
read_digits_delimited n [] h = refl
read_digits_delimited n (c ∷ s) h = rw h

read_digit :
    (m k : ℕ) (rest : String)
    → k < 10
    → read_digits m (char_or "0" k "0123456789" ∷ rest) ≡ read_digits (m * 10 + k) rest
unfolding read_digits
read_digit m k rest h =
    let d : is_digit (48 + k) ≡ true = ground arith in
    rw (code_of_digit k h, d) (ap (λ n. read_digits n rest) (omega arith))

read_digits-digits :
    (fuel n : ℕ) (rest : String)
    → n < fuel
    → read_digits 0 (digits fuel n rest) ≡ read_digits n rest
unfolding digits
read_digits-digits zero n rest h = ground arith
read_digits-digits (suc fuel) n rest h = elim (Bool-cases (ltb n 10)) [
  | inl small ↦
      rw small
        (read_digit 0 (n % 10) rest (omega arith) ∙ ap (λ m. read_digits m rest) (ground arith))
  | inr large ↦ rw large (
      read_digits-digits fuel (n / 10) _ (ground arith)
      ∙ read_digit (n / 10) (n % 10) rest (omega arith)
      ∙ ap (λ m. read_digits m rest) (omega arith))
]

-- Two numbers that are written alike before texts that do not begin with a digit are one number.
pub digits_injective :
    (m n : ℕ) (r s : String)
    → IsDelimited r
    → IsDelimited s
    → digits (suc m) m r ≡ digits (suc n) n s
    → (m ≡ n) × (r ≡ s)
digits_injective m n r s hr hs h =
    let e =
      sym (read_digits-digits (suc m) m r (omega arith) ∙ read_digits_delimited m r hr)
      ∙ ap (read_digits 0) h
      ∙ read_digits-digits (suc n) n s (omega arith)
      ∙ read_digits_delimited n s hs in
    (ap (λ p. p.0) e, ap (λ p. p.1) e)

-- A numeral begins with a digit.
pub digits_first :
    (fuel n : ℕ) (rest : String) → n < fuel → is_digit (first_code (digits fuel n rest)) ≡ true
unfolding digits
digits_first zero n rest h = ground arith
digits_first (suc fuel) n rest h = elim (Bool-cases (ltb n 10)) [
  | inl small ↦ rw (small, code_of_digit (n % 10) (omega arith)) (ground arith)
  | inr large ↦ rw large (digits_first fuel (n / 10) _ (ground arith))
]
