-- ===== src/Json/Dumps/Injective.antt =====
-- Values without floats are read off what is written.
use Prim.Native.String.{◌∷◌}
use mathlib.Core.Path.{subst}
use civic_archive_api.Prelude.{
  both_true, ℕ, suc, ◌≡◌, refl, ap, sym, ◌∙◌, String, true, false, arith,
}
use civic_archive_api.Prelude.Int.{pos, negsuc}
use civic_archive_api.Json.{
  Float, Json, null, bool, int, float, str, arr, obj, Items, nil, cons, Fields, end, field,
}
use civic_archive_api.Json.Dumps.{write_json, write_items, write_fields, write_string, dumps}
use civic_archive_api.Json.Dumps.Texts.{tail, first_code, write_string_injective}
use civic_archive_api.Json.Dumps.Numbers.{IsDelimited, digits_injective}
use civic_archive_api.Json.Dumps.Shapes.{
  is_float_free, are_float_free, have_float_free, shape_at, written_as, Form, first_shape,
  forms_agree, items-IsDelimited, fields-IsDelimited,
}

module _ (show_float : Float → String) where
  -- No value begins with a closing bracket.
  bracket-is_float_free :
      (v : Json) (rest s : String)
      → write_json show_float v rest ≡ "]" ∷ s
      → is_float_free v ≡ true
      → is_float_free v ≡ false
  unfolding shape_at is_float_free
  bracket-is_float_free v rest s h free =
      let e = sym (first_shape show_float v rest free) ∙ ap (λ t. shape_at (first_code t)) h in
      let (x, v_float) = subst (λ k. Form k v) e (written_as v) in rw v_float refl

  nil_injective :
      (ys : Items) (r s : String)
      → are_float_free ys ≡ true
      → write_json show_float (arr nil) r ≡ write_json show_float (arr ys) s
      → (nil ≡ ys) × (r ≡ s)
  unfolding write_json are_float_free
  nil_injective nil r s fy h = (refl, ap (λ t. tail (tail t)) h)
  nil_injective (cons w ys) r s fy h =
      let (fw, fys) = both_true {a = is_float_free w} {b = are_float_free ys} fy in
      let differ =
        bracket-is_float_free w (write_items show_float ys ("]" ∷ s)) r (sym (ap tail h)) fw in
      cc

  end_injective :
      (gs : Fields) (r s : String)
      → write_json show_float (obj end) r ≡ write_json show_float (obj gs) s
      → (end ≡ gs) × (r ≡ s)
  unfolding write_json write_string
  end_injective end r s h = (refl, ap (λ t. tail (tail t)) h)
  end_injective (field k w gs) r s h =
      let differ : ◌≡◌ {A = ℕ} 125 34 = ap (λ t. first_code (tail t)) h in ground arith

  -- One item, or one field, and those after it.
  cons_injective :
      (v w : Json) (xs ys : Items) (r s : String)
      → (write_json show_float v (write_items show_float xs ("]" ∷ r))
            ≡ write_json show_float w (write_items show_float ys ("]" ∷ s))
          → (v ≡ w) × (write_items show_float xs ("]" ∷ r) ≡ write_items show_float ys ("]" ∷ s)))
      → (write_items show_float xs ("]" ∷ r) ≡ write_items show_float ys ("]" ∷ s)
          → (xs ≡ ys) × (r ≡ s))
      → write_json show_float v (write_items show_float xs ("]" ∷ r))
        ≡ write_json show_float w (write_items show_float ys ("]" ∷ s))
      → (cons v xs ≡ cons w ys) × (r ≡ s)
  cons_injective v w xs ys r s first others h =
      let (value, later) = first h in let (items, rest) = others later in (cc (value, items), rest)

  field_injective :
      (k l : String) (v w : Json) (fs gs : Fields) (r s : String)
      → (write_json show_float v (write_fields show_float fs ("}" ∷ r))
            ≡ write_json show_float w (write_fields show_float gs ("}" ∷ s))
          → (v ≡ w) × (write_fields show_float fs ("}" ∷ r) ≡ write_fields show_float gs ("}" ∷ s)))
      → (write_fields show_float fs ("}" ∷ r) ≡ write_fields show_float gs ("}" ∷ s)
          → (fs ≡ gs) × (r ≡ s))
      → write_string k (":" ∷ write_json show_float v (write_fields show_float fs ("}" ∷ r)))
        ≡ write_string l (":" ∷ write_json show_float w (write_fields show_float gs ("}" ∷ s)))
      → (field k v fs ≡ field l w gs) × (r ≡ s)
  field_injective k l v w fs gs r s first others h =
      let (key, after) = write_string_injective k l _ _ h in
      let (value, later) = first (ap tail after) in
      let (fields, rest) = others later in (cc (key, value, fields), rest)

  mutual
    unfolding write_json write_items write_fields is_float_free are_float_free have_float_free

    value_injective :
        (v w : Json) (r s : String)
        → is_float_free v ≡ true
        → is_float_free w ≡ true
        → IsDelimited r
        → IsDelimited s
        → write_json show_float v r ≡ write_json show_float w s
        → (v ≡ w) × (r ≡ s)
    value_injective null w r s fv fw hr hs h =
        let e : w ≡ null = forms_agree show_float null w r s fv fw h in
        (sym e, ap (λ t. tail (tail (tail (tail t)))) (rw e at h))
    value_injective (bool true) w r s fv fw hr hs h =
        let e : w ≡ bool true = forms_agree show_float (bool true) w r s fv fw h in
        (sym e, ap (λ t. tail (tail (tail (tail t)))) (rw e at h))
    value_injective (bool false) w r s fv fw hr hs h =
        let e : w ≡ bool false = forms_agree show_float (bool false) w r s fv fw h in
        (sym e, ap (λ t. tail (tail (tail (tail (tail t))))) (rw e at h))
    value_injective (int (pos m)) w r s fv fw hr hs h =
        let (n, e) = forms_agree show_float (int (pos m)) w r s fv fw h in
        let (number, rest) = digits_injective m n r s hr hs (rw e at h) in
        (ap (λ k. int (pos k)) number ∙ sym e, rest)
    value_injective (int (negsuc m)) w r s fv fw hr hs h =
        let (n, e) = forms_agree show_float (int (negsuc m)) w r s fv fw h in
        let (number, rest) = digits_injective (suc m) (suc n) r s hr hs (ap tail (rw e at h)) in
        let same : m ≡ n = omega arith in (ap (λ k. int (negsuc k)) same ∙ sym e, rest)
    value_injective (float x) w r s fv fw hr hs h = cc
    value_injective (str k) w r s fv fw hr hs h =
        let (l, e) = forms_agree show_float (str k) w r s fv fw h in
        let (text, rest) = write_string_injective k l r s (rw e at h) in (ap str text ∙ sym e, rest)
    value_injective (arr xs) w r s fv fw hr hs h =
        let (ys, e) = forms_agree show_float (arr xs) w r s fv fw h in
        let (items, rest) = list_injective xs ys r s fv (rw e at fw) (rw e at h) in
        (ap arr items ∙ sym e, rest)
    value_injective (obj fs) w r s fv fw hr hs h =
        let (gs, e) = forms_agree show_float (obj fs) w r s fv fw h in
        let (fields, rest) = object_injective fs gs r s fv (rw e at fw) (rw e at h) in
        (ap obj fields ∙ sym e, rest)

    list_injective :
        (xs ys : Items) (r s : String)
        → are_float_free xs ≡ true
        → are_float_free ys ≡ true
        → write_json show_float (arr xs) r ≡ write_json show_float (arr ys) s
        → (xs ≡ ys) × (r ≡ s)
    list_injective nil ys r s fx fy h = nil_injective ys r s fy h
    list_injective (cons v xs) nil r s fx fy h =
        let (differ, rest) = nil_injective (cons v xs) s r fx (sym h) in (sym differ, sym rest)
    list_injective (cons v xs) (cons w ys) r s fx fy h =
        let (fv, fxs) = both_true {a = is_float_free v} {b = are_float_free xs} fx in
        let (fw, fys) = both_true {a = is_float_free w} {b = are_float_free ys} fy in
        cons_injective v w xs ys r s
          (value_injective v w (write_items show_float xs ("]" ∷ r))
            (write_items show_float ys ("]" ∷ s)) fv fw (items-IsDelimited show_float xs r)
            (items-IsDelimited show_float ys s))
          (items_injective xs ys r s fxs fys) (ap tail h)

    items_injective :
        (xs ys : Items) (r s : String)
        → are_float_free xs ≡ true
        → are_float_free ys ≡ true
        → write_items show_float xs ("]" ∷ r) ≡ write_items show_float ys ("]" ∷ s)
        → (xs ≡ ys) × (r ≡ s)
    items_injective nil nil r s fx fy h = (refl, ap tail h)
    items_injective nil (cons w ys) r s fx fy h =
        let differ : ◌≡◌ {A = ℕ} 93 44 = ap first_code h in ground arith
    items_injective (cons v xs) nil r s fx fy h =
        let differ : ◌≡◌ {A = ℕ} 44 93 = ap first_code h in ground arith
    items_injective (cons v xs) (cons w ys) r s fx fy h =
        let (fv, fxs) = both_true {a = is_float_free v} {b = are_float_free xs} fx in
        let (fw, fys) = both_true {a = is_float_free w} {b = are_float_free ys} fy in
        cons_injective v w xs ys r s
          (value_injective v w (write_items show_float xs ("]" ∷ r))
            (write_items show_float ys ("]" ∷ s)) fv fw (items-IsDelimited show_float xs r)
            (items-IsDelimited show_float ys s))
          (items_injective xs ys r s fxs fys) (ap tail h)

    object_injective :
        (fs gs : Fields) (r s : String)
        → have_float_free fs ≡ true
        → have_float_free gs ≡ true
        → write_json show_float (obj fs) r ≡ write_json show_float (obj gs) s
        → (fs ≡ gs) × (r ≡ s)
    object_injective end gs r s ff fg h = end_injective gs r s h
    object_injective (field k v fs) end r s ff fg h =
        let (differ, rest) = end_injective (field k v fs) s r (sym h) in (sym differ, sym rest)
    object_injective (field k v fs) (field l w gs) r s ff fg h =
        let (fv, ffs) = both_true {a = is_float_free v} {b = have_float_free fs} ff in
        let (fw, fgs) = both_true {a = is_float_free w} {b = have_float_free gs} fg in
        field_injective k l v w fs gs r s
          (value_injective v w (write_fields show_float fs ("}" ∷ r))
            (write_fields show_float gs ("}" ∷ s)) fv fw (fields-IsDelimited show_float fs r)
            (fields-IsDelimited show_float gs s))
          (fields_injective fs gs r s ffs fgs) (ap tail h)

    fields_injective :
        (fs gs : Fields) (r s : String)
        → have_float_free fs ≡ true
        → have_float_free gs ≡ true
        → write_fields show_float fs ("}" ∷ r) ≡ write_fields show_float gs ("}" ∷ s)
        → (fs ≡ gs) × (r ≡ s)
    fields_injective end end r s ff fg h = (refl, ap tail h)
    fields_injective end (field l w gs) r s ff fg h =
        let differ : ◌≡◌ {A = ℕ} 125 44 = ap first_code h in ground arith
    fields_injective (field k v fs) end r s ff fg h =
        let differ : ◌≡◌ {A = ℕ} 44 125 = ap first_code h in ground arith
    fields_injective (field k v fs) (field l w gs) r s ff fg h =
        let (fv, ffs) = both_true {a = is_float_free v} {b = have_float_free fs} ff in
        let (fw, fgs) = both_true {a = is_float_free w} {b = have_float_free gs} fg in
        field_injective k l v w fs gs r s
          (value_injective v w (write_fields show_float fs ("}" ∷ r))
            (write_fields show_float gs ("}" ∷ s)) fv fw (fields-IsDelimited show_float fs r)
            (fields-IsDelimited show_float gs s))
          (fields_injective fs gs r s ffs fgs) (ap tail h)

  -- Two values without floats that are written alike are one value.
  pub dumps_injective :
      (v w : Json)
      → is_float_free v ≡ true
      → is_float_free w ≡ true
      → dumps show_float v ≡ dumps show_float w
      → v ≡ w
  unfolding dumps
  dumps_injective v w fv fw h = (value_injective v w "" "" fv fw refl refl h).0
