-- ===== src/Json/Dumps.antt =====
-- `json.dumps` with `ensure_ascii=False` and no spaces, as app/services/segments_service.py calls it, on
-- values whose keys are sorted. Each function writes before a text that follows.
pub mod Texts
pub mod Numbers
pub mod Shapes
pub mod Injective
use Prim.Native.Char.{Char, code}
use Prim.Native.String
use Prim.Native.String.{[], ◌∷◌}
use civic_archive_api.Prelude.{ℕ, suc, ◌/◌, ◌%◌, String, true, false, eqb, ltb, if◌then◌else◌}
use civic_archive_api.Prelude.Int.{pos, negsuc}
use civic_archive_api.Prelude.Decimal.{char_or, digits}
use civic_archive_api.Json.{
  Float, Json, null, bool, int, float, str, arr, obj, Items, nil, cons, Fields, end, field,
}

abbrev hex : ℕ → Char
hex n = char_or "0" n "0123456789abcdef"

-- A character of a text between quotes.
unfoldable pub write_char : Char → String → String
unfolding char_or
write_char c rest =
    if eqb (code c) b'"'
    then "\\" ∷ ("\"" ∷ rest)
    else if eqb (code c) b'\\'
    then "\\" ∷ ("\\" ∷ rest)
    else if eqb (code c) 10
    then "\\" ∷ ("n" ∷ rest)
    else if eqb (code c) 13
    then "\\" ∷ ("r" ∷ rest)
    else if eqb (code c) 9
    then "\\" ∷ ("t" ∷ rest)
    else if eqb (code c) 12
    then "\\" ∷ ("f" ∷ rest)
    else if eqb (code c) 8
    then "\\" ∷ ("b" ∷ rest)
    else if ltb (code c) 32
    then "\\" ∷ ("u" ∷ ("0" ∷ ("0" ∷ (hex (code c / 16) ∷ (hex (code c % 16) ∷ rest)))))
    else c ∷ rest

unfoldable pub write_chars : String → String → String
unfolding write_char
write_chars [] rest = rest
write_chars (c ∷ s) rest = write_char c (write_chars s rest)

unfoldable pub write_string : String → String → String
unfolding write_chars
write_string s rest = "\"" ∷ write_chars s ("\"" ∷ rest)

-- `float.__repr__` is a parameter.
module _ (show_float : Float → String) where
  unfoldable mutual
    unfolding write_string

    pub write_json : Json → String → String
    write_json null rest = "n" ∷ ("u" ∷ ("l" ∷ ("l" ∷ rest)))
    write_json (bool true) rest = "t" ∷ ("r" ∷ ("u" ∷ ("e" ∷ rest)))
    write_json (bool false) rest = "f" ∷ ("a" ∷ ("l" ∷ ("s" ∷ ("e" ∷ rest))))
    write_json (int (pos n)) rest = digits (suc n) n rest
    write_json (int (negsuc n)) rest = "-" ∷ digits (suc (suc n)) (suc n) rest
    write_json (float x) rest = String.◌++◌ (show_float x) rest
    write_json (str s) rest = write_string s rest
    write_json (arr nil) rest = "[" ∷ ("]" ∷ rest)
    write_json (arr (cons v items)) rest = "[" ∷ write_json v (write_items items ("]" ∷ rest))
    write_json (obj end) rest = "{" ∷ ("}" ∷ rest)
    write_json (obj (field k v fields)) rest =
        "{" ∷ write_string k (":" ∷ write_json v (write_fields fields ("}" ∷ rest)))

    -- Items after the first
    pub write_items : Items → String → String
    write_items nil rest = rest
    write_items (cons v items) rest = "," ∷ write_json v (write_items items rest)

    pub write_fields : Fields → String → String
    write_fields end rest = rest
    write_fields (field k v fields) rest =
        "," ∷ write_string k (":" ∷ write_json v (write_fields fields rest))

  unfoldable pub dumps : Json → String
  unfolding write_json
  dumps v = write_json v ""
