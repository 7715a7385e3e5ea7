-- ===== src/Json/Dumps/Shapes.antt =====
-- What the first character of a value tells of it.
use Prim.Native.String.{◌∷◌}
use mathlib.Core.Path.{subst}
use civic_archive_api.Prelude.{
  ℕ, suc, ◌≡◌, refl, ap, sym, ◌∙◌, String, Bool, true, false, ◌&&◌, eqb, arith, if◌then◌else◌,
}
use civic_archive_api.Prelude.Int.{pos, negsuc}
use civic_archive_api.Prelude.Decimal.{digits}
use civic_archive_api.Json.{
  Float, Json, null, bool, int, float, str, arr, obj, Items, nil, cons, Fields, end, field,
}
use civic_archive_api.Json.Dumps.{write_json, write_items, write_fields, write_string}
use civic_archive_api.Json.Dumps.Texts.{first_code}
use civic_archive_api.Json.Dumps.Numbers.{is_digit, IsDelimited, digits_first}

unfoldable mutual
  pub is_float_free : Json → Bool
  is_float_free (float x) = false
  is_float_free (arr items) = are_float_free items
  is_float_free (obj fields) = have_float_free fields
  is_float_free v = true

  pub are_float_free : Items → Bool
  are_float_free nil = true
  are_float_free (cons v items) = is_float_free v && are_float_free items

  pub have_float_free : Fields → Bool
  have_float_free end = true
  have_float_free (field k v fields) = is_float_free v && have_float_free fields

-- What the first character tells of a value.
pub data Shape : Type 0 where
  a_null a_true a_false a_natural a_negative a_text an_array an_object other : Shape

unfoldable pub shape_at : ℕ → Shape
shape_at c =
    if eqb c b'n'
    then a_null
    else if eqb c b't'
    then a_true
    else if eqb c b'f'
    then a_false
    else if eqb c b'-'
    then a_negative
    else if eqb c b'"'
    then a_text
    else if eqb c b'['
    then an_array
    else if eqb c b'{'
    then an_object
    else if is_digit c
    then a_natural
    else other

abbrev pub shape_of : Json → Shape
shape_of null = a_null
shape_of (bool true) = a_true
shape_of (bool false) = a_false
shape_of (int (pos n)) = a_natural
shape_of (int (negsuc n)) = a_negative
shape_of (float x) = other
shape_of (str s) = a_text
shape_of (arr items) = an_array
shape_of (obj fields) = an_object

shape_at_digit : (c : ℕ) → is_digit c ≡ true → shape_at c ≡ a_natural
unfolding shape_at
shape_at_digit c h = ground arith

-- What a value of a shape is.
abbrev pub Form : Shape → Json → Type 0
Form a_null v = v ≡ null
Form a_true v = v ≡ bool true
Form a_false v = v ≡ bool false
Form a_natural v = (n : ℕ) × (v ≡ int (pos n))
Form a_negative v = (n : ℕ) × (v ≡ int (negsuc n))
Form a_text v = (s : String) × (v ≡ str s)
Form an_array v = (items : Items) × (v ≡ arr items)
Form an_object v = (fields : Fields) × (v ≡ obj fields)
Form other v = (x : Float) × (v ≡ float x)

pub written_as : (v : Json) → Form (shape_of v) v
written_as null = refl
written_as (bool true) = refl
written_as (bool false) = refl
written_as (int (pos n)) = (n, refl)
written_as (int (negsuc n)) = (n, refl)
written_as (float x) = (x, refl)
written_as (str s) = (s, refl)
written_as (arr items) = (items, refl)
written_as (obj fields) = (fields, refl)

module _ (show_float : Float → String) where
  pub first_shape :
      (v : Json) (rest : String)
      → is_float_free v ≡ true
      → shape_at (first_code (write_json show_float v rest)) ≡ shape_of v
  unfolding write_json shape_at is_float_free write_string
  first_shape null rest h = refl
  first_shape (bool true) rest h = refl
  first_shape (bool false) rest h = refl
  first_shape (int (pos n)) rest h =
      shape_at_digit (first_code (digits (suc n) n rest))
        (digits_first (suc n) n rest (omega arith))
  first_shape (int (negsuc n)) rest h = refl
  first_shape (float x) rest h = cc
  first_shape (str s) rest h = refl
  first_shape (arr nil) rest h = refl
  first_shape (arr (cons v items)) rest h = refl
  first_shape (obj end) rest h = refl
  first_shape (obj (field k v fields)) rest h = refl

  pub forms_agree :
      (v w : Json) (r s : String)
      → is_float_free v ≡ true
      → is_float_free w ≡ true
      → write_json show_float v r ≡ write_json show_float w s
      → Form (shape_of v) w
  forms_agree v w r s fv fw h =
      let e =
        sym (first_shape w s fw) ∙ ap (λ t. shape_at (first_code t)) (sym h) ∙ first_shape v r fv in
      subst (λ k. Form k w) e (written_as w)

  -- What follows an item or a field does not begin with a digit.
  pub items-IsDelimited :
      (items : Items) (r : String) → IsDelimited (write_items show_float items ("]" ∷ r))
  unfolding write_items
  items-IsDelimited nil r = refl
  items-IsDelimited (cons v items) r = refl

  pub fields-IsDelimited :
      (fields : Fields) (r : String) → IsDelimited (write_fields show_float fields ("}" ∷ r))
  unfolding write_fields
  fields-IsDelimited end r = refl
  fields-IsDelimited (field k v fields) r = refl
