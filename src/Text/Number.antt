-- ===== src/Text/Number.antt =====
-- Python's `int` of a text: white space around, a sign, decimal digits of any script with single
-- underscores between them, and at most 4300 of them.
mod Tests
use Prim.Native.Char.{Char, code}
use Prim.Native.String
use civic_archive_api.Prelude.{
  ℕ, zero, suc, ◌+◌, ◌-◌, ◌*◌, String, Bool, true, false, ◌&&◌, Option, none, some, List, [], ◌∷◌,
  leb, ltb, eqb, if◌then◌else◌,
}
use civic_archive_api.Prelude.Int.{ℤ, pos, negsuc}
use civic_archive_api.Text.{strip}

-- The characters whose value as a decimal digit is 0; those of 1 to 9 follow each.
abbrev pub zeros : List ℕ
zeros =
    0x30 ∷ 0x660 ∷ 0x6f0 ∷ 0x7c0 ∷ 0x966 ∷ 0x9e6 ∷ 0xa66 ∷ 0xae6 ∷ 0xb66 ∷ 0xbe6 ∷ 0xc66 ∷ 0xce6
    ∷ 0xd66 ∷ 0xde6 ∷ 0xe50 ∷ 0xed0 ∷ 0xf20 ∷ 0x1040 ∷ 0x1090 ∷ 0x17e0 ∷ 0x1810 ∷ 0x1946 ∷ 0x19d0
    ∷ 0x1a80 ∷ 0x1a90 ∷ 0x1b50 ∷ 0x1bb0 ∷ 0x1c40 ∷ 0x1c50 ∷ 0xa620 ∷ 0xa8d0 ∷ 0xa900 ∷ 0xa9d0
    ∷ 0xa9f0 ∷ 0xaa50 ∷ 0xabf0 ∷ 0xff10 ∷ 0x104a0 ∷ 0x10d30 ∷ 0x11066 ∷ 0x110f0 ∷ 0x11136 ∷ 0x111d0
    ∷ 0x112f0 ∷ 0x11450 ∷ 0x114d0 ∷ 0x11650 ∷ 0x116c0 ∷ 0x11730 ∷ 0x118e0 ∷ 0x11950 ∷ 0x11c50
    ∷ 0x11d50 ∷ 0x11da0 ∷ 0x16a60 ∷ 0x16ac0 ∷ 0x16b50 ∷ 0x1d7ce ∷ 0x1d7d8 ∷ 0x1d7e2 ∷ 0x1d7ec
    ∷ 0x1d7f6 ∷ 0x1e140 ∷ 0x1e2f0 ∷ 0x1e950 ∷ 0x1fbf0 ∷ []

unfoldable pub digit_value : ℕ → List ℕ → Option ℕ
digit_value c [] = none
digit_value c (first ∷ rest) =
    let other = digit_value c rest in
    if leb first c && ltb c (first + 10) then some (c - first) else other

abbrev pub max_digits : ℕ
max_digits = 4300

-- What is read of the digits: their value, how many they are, and whether the last character is one.
pub record Digits : Type 0 where
  pub amount : ℕ
  pub digits : ℕ
  pub after_digit : Bool

unfoldable pub add_digit : Digits → Option ℕ → Option Digits
add_digit d none = none
add_digit d (some n) =
    some (record { amount = d.amount * 10 + n; digits = suc d.digits; after_digit = true })

unfoldable pub add_char : Option Digits → Char → Option Digits
unfolding add_digit digit_value
add_char none c = none
add_char (some d) c =
    if eqb (code c) b'_'
    then (if d.after_digit then some (record d { after_digit = false }) else none)
    else add_digit d (digit_value (code c) zeros)

unfoldable pub add_text : Option Digits → String → Option Digits
unfolding add_char
add_text d String.[] = d
add_text d (String.◌∷◌ c s) = add_text (add_char d c) s

unfoldable pub finish : Option Digits → Option ℕ
finish none = none
finish (some d) = if d.after_digit && leb d.digits max_digits then some d.amount else none

unfoldable pub natural : String → Option ℕ
unfolding add_text finish
natural s = finish (add_text (some (record { amount = 0; digits = 0; after_digit = false })) s)

abbrev pub positive : Option ℕ → Option ℤ
positive none = none
positive (some n) = some (pos n)

abbrev pub negative : Option ℕ → Option ℤ
negative none = none
negative (some zero) = some (pos 0)
negative (some (suc n)) = some (negsuc n)

unfoldable pub signed : String → Option ℤ
signed String.[] = none
signed (String.◌∷◌ c s) =
    if eqb (code c) b'-'
    then negative (natural s)
    else if eqb (code c) b'+'
    then positive (natural s)
    else positive (natural (String.◌∷◌ c s))

-- `int(s)`; `none` is a `ValueError`
unfoldable pub parse_int : String → Option ℤ
unfolding strip signed
parse_int s = signed (strip s)
