-- ===== src/Json/Dumps/Texts.antt =====
-- A text between quotes is read off what is written.
use Prim.Native.Char.{Char, code}
use Prim.Native.String.{[], ◌∷◌}
use text.Mathlib.TextEquality.{Char-path}
use civic_archive_api.Prelude.{
  ℕ, zero, suc, ◌+◌, ◌*◌, ◌-◌, ◌/◌, ◌%◌, ◌<◌, ◌≡◌, refl, ap, sym, ◌∙◌, String, true, false, eqb,
  ltb, arith, Bool-cases, inl, inr, if◌then◌else◌,
}
use civic_archive_api.Prelude.Decimal.{char_or}
use civic_archive_api.Json.Dumps.{write_char, write_chars, write_string}

-- The text without its first character.
abbrev pub tail : String → String
tail [] = []
tail (c ∷ s) = s

-- The number of the first character; no character has 0x110000.
abbrev pub first_code : String → ℕ
first_code [] = 0x110000
first_code (c ∷ s) = code c

abbrev hex_value : ℕ → ℕ
hex_value c = if ltb c 58 then c - 48 else c - 87

abbrev unescape : ℕ → ℕ
unescape c =
    if eqb c b'n'
    then 10
    else if eqb c b'r'
    then 13
    else if eqb c b't'
    then 9
    else if eqb c b'f'
    then 12
    else if eqb c b'b'
    then 8
    else c

abbrev read_hex : String → ℕ × String
read_hex (a ∷ (b ∷ (high ∷ (low ∷ s)))) = (hex_value (code high) * 16 + hex_value (code low), s)
read_hex s = (0, s)

abbrev read_escape : String → ℕ × String
read_escape [] = (0, [])
read_escape (c ∷ s) = if eqb (code c) b'u' then read_hex s else (unescape (code c), s)

-- The number of the character that is written first, and what follows it.
abbrev read_char : String → ℕ × String
read_char [] = (0, [])
read_char (c ∷ s) = if eqb (code c) b'\\' then read_escape s else (code c, s)

hex_digit : (n : ℕ) → n < 16 → hex_value (code (char_or "0" n "0123456789abcdef")) ≡ n
unfolding char_or
hex_digit zero h = refl
hex_digit (suc zero) h = refl
hex_digit (suc (suc zero)) h = refl
hex_digit (suc (suc (suc zero))) h = refl
hex_digit (suc (suc (suc (suc zero)))) h = refl
hex_digit (suc (suc (suc (suc (suc zero))))) h = refl
hex_digit (suc (suc (suc (suc (suc (suc zero)))))) h = refl
hex_digit (suc (suc (suc (suc (suc (suc (suc zero))))))) h = refl
hex_digit (suc (suc (suc (suc (suc (suc (suc (suc zero)))))))) h = refl
hex_digit (suc (suc (suc (suc (suc (suc (suc (suc (suc zero))))))))) h = refl
hex_digit (suc (suc (suc (suc (suc (suc (suc (suc (suc (suc zero)))))))))) h = refl
hex_digit (suc (suc (suc (suc (suc (suc (suc (suc (suc (suc (suc zero))))))))))) h = refl
hex_digit (suc (suc (suc (suc (suc (suc (suc (suc (suc (suc (suc (suc zero)))))))))))) h = refl
hex_digit (suc (suc (suc (suc (suc (suc (suc (suc (suc (suc (suc (suc (suc zero))))))))))))) h =
    refl
hex_digit (suc (suc (suc (suc (suc (suc (suc (suc (suc (suc (suc (suc (suc (suc zero))))))))))))))
      h =
    refl
hex_digit
      (suc (suc (suc (suc (suc (suc (suc (suc (suc (suc (suc (suc (suc (suc (suc zero)))))))))))))))
      h =
    refl
hex_digit
      (suc
        (suc (suc (suc (suc (suc (suc (suc (suc (suc (suc (suc (suc (suc (suc (suc n))))))))))))))))
      h =
    omega arith

same_code : (rest : String) (n k : ℕ) → eqb n k ≡ true → ◌≡◌ {A = ℕ × String} (k, rest) (n, rest)
same_code rest n k h = let e : k ≡ n = ground arith in ap (λ m. (m, rest)) e

control_code :
    (n : ℕ) (rest : String)
    → ltb n 32 ≡ true
    → read_hex (
        "0"
        ∷ ("0"
            ∷ (char_or "0" (n / 16) "0123456789abcdef"
                ∷ (char_or "0" (n % 16) "0123456789abcdef" ∷ rest))))
      ≡ (n, rest)
control_code n rest h =
    let high : n / 16 < 16 = ground arith in
    let low : n % 16 < 16 = omega arith in
    rw (hex_digit (n / 16) high, hex_digit (n % 16) low) (ap (λ m. (m, rest)) (omega arith))

read_char-write_char : (c : Char) (rest : String) → read_char (write_char c rest) ≡ (code c, rest)
unfolding write_char
read_char-write_char c rest = elim (Bool-cases (eqb (code c) b'"')) [
  | inl e34 ↦ rw e34 (same_code rest (code c) b'"' e34)
  | inr n34 ↦ rw n34 (elim (Bool-cases (eqb (code c) b'\\')) [
    | inl e92 ↦ rw e92 (same_code rest (code c) b'\\' e92)
    | inr n92 ↦ rw n92 (elim (Bool-cases (eqb (code c) 10)) [
      | inl e10 ↦ rw e10 (same_code rest (code c) 10 e10)
      | inr n10 ↦ rw n10 (elim (Bool-cases (eqb (code c) 13)) [
        | inl e13 ↦ rw e13 (same_code rest (code c) 13 e13)
        | inr n13 ↦ rw n13 (elim (Bool-cases (eqb (code c) 9)) [
          | inl e9 ↦ rw e9 (same_code rest (code c) 9 e9)
          | inr n9 ↦ rw n9 (elim (Bool-cases (eqb (code c) 12)) [
            | inl e12 ↦ rw e12 (same_code rest (code c) 12 e12)
            | inr n12 ↦ rw n12 (elim (Bool-cases (eqb (code c) 8)) [
              | inl e8 ↦ rw e8 (same_code rest (code c) 8 e8)
              | inr n8 ↦ rw n8 (elim (Bool-cases (ltb (code c) 32)) [
                | inl control ↦ rw control (control_code (code c) rest control)
                | inr plain ↦ rw (plain, n92) refl
              ])
            ])
          ])
        ])
      ])
    ])
  ])
]

write_char-first_code :
    (c : Char) (rest : String) → eqb (first_code (write_char c rest)) b'"' ≡ false
unfolding write_char
write_char-first_code c rest = ground arith

write_char_injective :
    (c d : Char) (r s : String) → write_char c r ≡ write_char d s → (c ≡ d) × (r ≡ s)
write_char_injective c d r s h =
    let e = sym (read_char-write_char c r) ∙ ap read_char h ∙ read_char-write_char d s in
    (Char-path c d (ap (λ p. p.0) e), ap (λ p. p.1) e)

write_chars_injective :
    (k l : String) (r s : String)
    → write_chars k ("\"" ∷ r) ≡ write_chars l ("\"" ∷ s)
    → (k ≡ l) × (r ≡ s)
unfolding write_chars
write_chars_injective [] [] r s h = (refl, ap tail h)
write_chars_injective [] (d ∷ l) r s h =
    let e = write_char-first_code d (write_chars l ("\"" ∷ s)) in
    let e' : eqb (first_code (write_char d (write_chars l ("\"" ∷ s)))) b'"' ≡ true =
      ap (λ t. eqb (first_code t) b'"') (sym h) in
    cc
write_chars_injective (c ∷ k) [] r s h =
    let e = write_char-first_code c (write_chars k ("\"" ∷ r)) in
    let e' : eqb (first_code (write_char c (write_chars k ("\"" ∷ r)))) b'"' ≡ true =
      ap (λ t. eqb (first_code t) b'"') h in
    cc
write_chars_injective (c ∷ k) (d ∷ l) r s h =
    let (first, rest) = write_char_injective c d _ _ h in
    let (later, after) = write_chars_injective k l r s rest in (cc (first, later), after)

-- Two texts that are written alike are one text, and what follows them is the same.
pub write_string_injective :
    (k l : String) (r s : String) → write_string k r ≡ write_string l s → (k ≡ l) × (r ≡ s)
unfolding write_string
write_string_injective k l r s h = write_chars_injective k l r s (ap tail h)
