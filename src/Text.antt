-- ===== src/Text.antt =====
-- The methods of Python's `str` that the program calls: `strip`, `lower`, `upper`, `split` and the
-- truth of a text.
pub mod Laws
pub mod Number
use Prim.Native.Char.{Char, code}
use Prim.Native.String
use Prim.Native.String.{[], ◌∷◌}
use mathlib.Core.List
use civic_archive_api.Prelude.{
  ℕ, suc, String, Bool, not, ◌&&◌, ◌||◌, Option, none, some, List, leb, eqb, ltb, keep, ◌==◌,
  if◌then◌else◌,
}

-- `bool(s)` is `not (is_empty s)`
unfoldable pub is_empty : String → Bool
is_empty [] = Bool.true
is_empty (c ∷ s) = Bool.false

-- `len(s)`
unfoldable pub text_length : String → ℕ
text_length [] = 0
text_length (c ∷ s) = suc (text_length s)

-- `value or ""`
abbrev pub or_empty : Option String → String
or_empty none = ""
or_empty (some s) = s

-- `s or None`
unfoldable pub or_none : String → Option String
or_none [] = none
or_none (c ∷ s) = some (c ∷ s)

-- `str.isspace` of one character
unfoldable pub is_space : ℕ → Bool
is_space c =
    (leb 9 c && leb c 13)
    || (leb 28 c && leb c 32)
    || eqb c 0x85
    || eqb c 0xa0
    || eqb c 0x1680
    || (leb 0x2000 c && leb c 0x200a)
    || eqb c 0x2028
    || eqb c 0x2029
    || eqb c 0x202f
    || eqb c 0x205f
    || eqb c 0x3000

unfoldable pub lstrip : String → String
lstrip [] = []
lstrip (c ∷ s) = let rest = lstrip s in if is_space (code c) then rest else c ∷ s

-- `c` before a text that is already stripped on the right
unfoldable pub before : Char → String → String
before c [] = if is_space (code c) then [] else c ∷ []
before c (d ∷ s) = c ∷ (d ∷ s)

unfoldable pub rstrip : String → String
rstrip [] = []
rstrip (c ∷ s) = before c (rstrip s)

unfoldable pub strip : String → String
unfolding is_space lstrip before rstrip
strip s = rstrip (lstrip s)

-- `c` before the first part
unfoldable pub widen : Char → List String → List String
widen c List.[] = List.◌∷◌ (c ∷ []) List.[]
widen c (List.◌∷◌ part parts) = List.◌∷◌ (c ∷ part) parts

-- The parts between the characters that pass the test, empty ones too.
unfoldable pub split_by : (ℕ → Bool) → String → List String
unfolding widen
split_by sep [] = List.◌∷◌ "" List.[]
split_by sep (c ∷ s) =
    let parts = split_by sep s in if sep (code c) then List.◌∷◌ "" parts else widen c parts

-- `s.split()`
unfoldable pub words : String → List String
unfolding is_empty is_space split_by
words s = keep (λ t. not (is_empty t)) (split_by is_space s)

-- The character at the place in `to` at which `c` stands in `from`, or `c`.
unfoldable pub translate : String → String → Char → Char
translate [] to c = c
translate (d ∷ from) [] c = c
translate (d ∷ from) (e ∷ to) c = if eqb (code d) (code c) then e else translate from to c

-- `str.lower` and `str.upper` on ASCII letters and on the other characters whose image is all
-- ASCII (the Kelvin sign; dotless i, long s, sharp s and the Latin ligatures). Every other
-- character has an image that is not all ASCII, and is kept: a comparison with an ASCII text has the
-- same result.
unfoldable pub lower : String → String
unfolding translate
lower [] = []
lower (c ∷ s) = translate "ABCDEFGHIJKLMNOPQRSTUVWXYZK" "abcdefghijklmnopqrstuvwxyzk" c ∷ lower s

unfoldable pub upper_special : List (ℕ × String) → Char → String
unfolding translate
upper_special List.[] c =
    translate "abcdefghijklmnopqrstuvwxyzıſ" "ABCDEFGHIJKLMNOPQRSTUVWXYZIS" c ∷ []
upper_special (List.◌∷◌ (n, image) rest) c = if eqb n (code c) then image else upper_special rest c

abbrev pub wide_letters : List (ℕ × String)
wide_letters =
    List.◌∷◌ (0xdf, "SS")
      (List.◌∷◌ (0xfb00, "FF")
        (List.◌∷◌ (0xfb01, "FI")
          (List.◌∷◌ (0xfb02, "FL")
            (List.◌∷◌ (0xfb03, "FFI")
              (List.◌∷◌ (0xfb04, "FFL")
                (List.◌∷◌ (0xfb05, "ST") (List.◌∷◌ (0xfb06, "ST") List.[])))))))

unfoldable pub upper : String → String
unfolding upper_special
upper [] = []
upper (c ∷ s) = String.◌++◌ (upper_special wide_letters c) (upper s)

-- `s.startswith(prefix)`
unfoldable pub starts_with : String → String → Bool
starts_with s [] = Bool.true
starts_with [] (d ∷ prefix) = Bool.false
starts_with (c ∷ s) (d ∷ prefix) = eqb (code c) (code d) && starts_with s prefix
