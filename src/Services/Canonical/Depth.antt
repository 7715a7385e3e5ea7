-- ===== src/Services/Canonical/Depth.antt =====
-- How deep a JSON value may be.
use civic_archive_api.Prelude.{
  ℕ, suc, ◌+◌, ◌≡◌, refl, ap, ◌∙◌, Bool, true, false, ◌&&◌, max, leb, arith,
}
use civic_archive_api.Json.{
  Json, null, bool, int, float, str, arr, obj, Items, nil, cons, Fields, end, field,
}
use civic_archive_api.Errors.{Result, ok, raise, ◌>>=◌}
use civic_archive_api.Services.Canonical.{
  within_depth, canonical_json_value, canonical_items, canonical_fields, json_depth, sort_fields,
  items_depth, fields_depth,
}

abbrev pub is_ok : {A : Type 0} → Result A → Bool
is_ok (ok a) = true
is_ok (raise e) = false

is_ok-chain : {A B : Type 0} (r : Result A) (f : A → B) → is_ok (do a ← r; ok (f a)) ≡ is_ok r
is_ok-chain (ok a) f = refl
is_ok-chain (raise e) f = refl

is_ok-chain_two :
    {A B C : Type 0} (r : Result A) (q : Result B) (f : A → B → C)
    → is_ok (do a ← r; b ← q; ok (f a b)) ≡ (is_ok r && is_ok q)
is_ok-chain_two (ok a) (ok b) f = refl
is_ok-chain_two (ok a) (raise e) f = refl
is_ok-chain_two (raise e) q f = refl

is_ok-within_depth :
    (depth : ℕ) (r : Result Json) → is_ok (within_depth depth r) ≡ (leb depth 20 && is_ok r)
is_ok-within_depth depth r = ground arith

accept_step :
    (d a b : ℕ) (x y : Bool)
    → x ≡ leb (suc d + a) 20
    → (leb d 20 && y) ≡ leb (d + b) 20
    → (leb d 20 && (x && y)) ≡ leb (d + max (suc a) b) 20
accept_step d a b x y = ground arith

-- A container is accepted where its items are.
accept_container :
    {A : Type 0} (depth n : ℕ) (r : Result A) (f : A → Json)
    → (leb depth 20 && is_ok r) ≡ leb (depth + n) 20
    → is_ok (within_depth depth (do a ← r; ok (f a))) ≡ leb (depth + n) 20
accept_container depth n r f h =
    is_ok-within_depth depth (do a ← r; ok (f a))
    ∙ ap (λ b. leb depth 20 && b) (is_ok-chain r f)
    ∙ h

accept_leaf : (depth : ℕ) (v : Json) → is_ok (within_depth depth (ok v)) ≡ leb (depth + 0) 20
accept_leaf depth v = ground arith

mutual
  unfolding canonical_json_value canonical_items canonical_fields json_depth items_depth
      fields_depth

  value_accepted :
      (depth : ℕ) (v : Json) → is_ok (canonical_json_value depth v) ≡ leb (depth + json_depth v) 20
  value_accepted depth (arr items) =
      accept_container depth (items_depth items) (canonical_items (suc depth) items) arr
        (items_accepted depth items)
  value_accepted depth (obj fields) =
      accept_container depth (fields_depth fields) (canonical_fields (suc depth) fields)
        (λ fields'. obj (sort_fields fields')) (fields_accepted depth fields)
  value_accepted depth null = accept_leaf depth null
  value_accepted depth (bool b) = accept_leaf depth (bool b)
  value_accepted depth (int n) = accept_leaf depth (int n)
  value_accepted depth (float x) = accept_leaf depth (float x)
  value_accepted depth (str s) = accept_leaf depth (str s)

  items_accepted :
      (depth : ℕ) (items : Items)
      → (leb depth 20 && is_ok (canonical_items (suc depth) items))
        ≡ leb (depth + items_depth items) 20
  items_accepted depth nil = ground arith
  items_accepted depth (cons v items) =
      ap (λ b. leb depth 20 && b)
        (is_ok-chain_two (canonical_json_value (suc depth) v) (canonical_items (suc depth) items)
          cons)
      ∙ accept_step depth (json_depth v) (items_depth items) _ _ (value_accepted (suc depth) v)
          (items_accepted depth items)

  fields_accepted :
      (depth : ℕ) (fields : Fields)
      → (leb depth 20 && is_ok (canonical_fields (suc depth) fields))
        ≡ leb (depth + fields_depth fields) 20
  fields_accepted depth end = ground arith
  fields_accepted depth (field k v fields) =
      ap (λ b. leb depth 20 && b)
        (is_ok-chain_two (canonical_json_value (suc depth) v) (canonical_fields (suc depth) fields)
          (field k))
      ∙ accept_step depth (json_depth v) (fields_depth fields) _ _ (value_accepted (suc depth) v)
          (fields_accepted depth fields)

-- A value is accepted at a depth exactly if its own depth does not take it beyond 20.
pub canonical_json_value-is_ok :
    (depth : ℕ) (v : Json) → is_ok (canonical_json_value depth v) ≡ leb (depth + json_depth v) 20
canonical_json_value-is_ok = value_accepted
