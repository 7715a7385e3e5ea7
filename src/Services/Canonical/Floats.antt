-- ===== src/Services/Canonical/Floats.antt =====
-- A canonical value has floats only where the value has.
use civic_archive_api.Prelude.{
  ℕ, suc, ◌≡◌, refl, ap, sym, ◌∙◌, String, Bool, true, ◌&&◌, ltb, arith, inl, inr, Bool-cases,
}
use civic_archive_api.Json.{
  Json, null, bool, int, float, str, arr, obj, Items, nil, cons, Fields, end, field,
}
use civic_archive_api.Json.Dumps.Shapes.{is_float_free, are_float_free, have_float_free}
use civic_archive_api.Errors.{Result, ok, chain-eq-ok}
use civic_archive_api.Services.Canonical.{
  within_depth, canonical_json_value, canonical_items, canonical_fields, sort_fields, place_field,
  precedes_text,
}

swap_first : (a b c : Bool) → (a && (b && c)) ≡ (b && (a && c))
swap_first a b c = ground arith

place_field-have_float_free :
    (k : String) (v : Json) (fields : Fields)
    → have_float_free (place_field k v fields) ≡ (is_float_free v && have_float_free fields)
unfolding place_field have_float_free
place_field-have_float_free k v end = refl
place_field-have_float_free k v (field j w fields) = elim (Bool-cases (precedes_text j k)) [
  | inl before ↦
      rw (before, have_float_free, place_field-have_float_free k v fields)
        (swap_first (is_float_free w) (is_float_free v) (have_float_free fields))
  | inr after ↦ rw (after, have_float_free) refl
]

sort_fields-have_float_free :
    (fields : Fields) → have_float_free (sort_fields fields) ≡ have_float_free fields
unfolding sort_fields have_float_free
sort_fields-have_float_free end = refl
sort_fields-have_float_free (field k v fields) =
    place_field-have_float_free k v (sort_fields fields)
    ∙ ap (λ b. is_float_free v && b) (sort_fields-have_float_free fields)

within_depth-eq-ok :
    (depth : ℕ) (r : Result Json) {v : Json} → within_depth depth r ≡ ok v → r ≡ ok v
within_depth-eq-ok depth r h = elim (Bool-cases (ltb 20 depth)) [
  | inl deep ↦ let h' = rw deep at h in cc
  | inr fine ↦ rw fine at h
]

mutual
  unfolding canonical_json_value canonical_items canonical_fields is_float_free are_float_free
      have_float_free

  value_floats :
      (depth : ℕ) (v w : Json)
      → canonical_json_value depth v ≡ ok w
      → is_float_free w ≡ is_float_free v
  value_floats depth (arr items) w h =
      let (items', e, inner) =
        chain-eq-ok _ (canonical_items (suc depth) items) (within_depth-eq-ok depth _ h) in
      let e' : arr items' ≡ w = cc e in rw (sym e') (items_floats (suc depth) items items' inner)
  value_floats depth (obj fields) w h =
      let (fields', e, inner) =
        chain-eq-ok _ (canonical_fields (suc depth) fields) (within_depth-eq-ok depth _ h) in
      let e' : obj (sort_fields fields') ≡ w = cc e in
      rw (sym e')
        (sort_fields-have_float_free fields' ∙ fields_floats (suc depth) fields fields' inner)
  value_floats depth null w h =
      let e : null ≡ w = cc (within_depth-eq-ok depth (ok null) h) in rw (sym e) refl
  value_floats depth (bool b) w h =
      let e : bool b ≡ w = cc (within_depth-eq-ok depth (ok (bool b)) h) in rw (sym e) refl
  value_floats depth (int n) w h =
      let e : int n ≡ w = cc (within_depth-eq-ok depth (ok (int n)) h) in rw (sym e) refl
  value_floats depth (float x) w h =
      let e : float x ≡ w = cc (within_depth-eq-ok depth (ok (float x)) h) in rw (sym e) refl
  value_floats depth (str s) w h =
      let e : str s ≡ w = cc (within_depth-eq-ok depth (ok (str s)) h) in rw (sym e) refl

  items_floats :
      (depth : ℕ) (xs ys : Items)
      → canonical_items depth xs ≡ ok ys
      → are_float_free ys ≡ are_float_free xs
  items_floats depth nil ys h = let e : nil ≡ ys = cc h in rw (sym e) refl
  items_floats depth (cons v xs) ys h =
      let (w, rest, first) = chain-eq-ok _ (canonical_json_value depth v) h in
      let (xs', last, others) = chain-eq-ok _ (canonical_items depth xs) rest in
      let e : cons w xs' ≡ ys = cc last in
      rw (sym e, value_floats depth v w first, items_floats depth xs xs' others) refl

  fields_floats :
      (depth : ℕ) (fs gs : Fields)
      → canonical_fields depth fs ≡ ok gs
      → have_float_free gs ≡ have_float_free fs
  fields_floats depth end gs h = let e : end ≡ gs = cc h in rw (sym e) refl
  fields_floats depth (field k v fs) gs h =
      let (w, rest, first) = chain-eq-ok _ (canonical_json_value depth v) h in
      let (fs', last, others) = chain-eq-ok _ (canonical_fields depth fs) rest in
      let e : field k w fs' ≡ gs = cc last in
      rw (sym e, value_floats depth v w first, fields_floats depth fs fs' others) refl

pub canonical_json_value-is_float_free :
    (depth : ℕ) (v w : Json)
    → canonical_json_value depth v ≡ ok w
    → is_float_free v ≡ true
    → is_float_free w ≡ true
canonical_json_value-is_float_free depth v w h free = value_floats depth v w h ∙ free
