-- ===== src/Services/Canonical.antt =====
-- `_canonical_json_value` of app/services/segments_service.py on JSON values.
pub mod Depth
pub mod Floats
use Prim.Native.Nat.{Ordering, lt, eq, gt}
use Prim.Native.String.{compare}
use civic_archive_api.Prelude.{
  ℕ, suc, ◌+◌, ◌≤◌, ◌≡◌, ◌↔◌, refl, String, Bool, true, false, Option, none, some, max, ltb, arith,
  Bool-cases, inl, inr, if◌then◌else◌,
}
use civic_archive_api.Json.{
  Json, null, bool, int, float, str, arr, obj, Items, nil, cons, Fields, end, field,
}
use civic_archive_api.Errors.{bad_request, Result, ok, raise, ◌>>=◌}

abbrev pub max_canonical_json_depth : ℕ
max_canonical_json_depth = 20

abbrev pub is_less : Ordering → Bool
is_less lt = true
is_less eq = false
is_less gt = false

-- `j < k` for two texts
abbrev pub precedes_text : String → String → Bool
precedes_text j k = is_less (compare j k)

-- The test of the depth, before the value is looked at.
abbrev pub within_depth : ℕ → Result Json → Result Json
within_depth depth result =
    if ltb max_canonical_json_depth depth
    then raise (bad_request "JSONB field nesting depth exceeds maximum (20)")
    else result

-- A field at its place in fields that are sorted by key.
unfoldable pub place_field : String → Json → Fields → Fields
place_field k v end = field k v end
place_field k v (field j w fields) =
    let rest = place_field k v fields in
    if precedes_text j k then field j w rest else field k v (field j w fields)

unfoldable pub sort_fields : Fields → Fields
unfolding place_field
sort_fields end = end
sort_fields (field k v fields) = place_field k v (sort_fields fields)

unfoldable mutual
  pub canonical_json_value : ℕ → Json → Result Json
  canonical_json_value depth (arr items) =
      let inner = canonical_items (suc depth) items in
      within_depth depth (do items' ← inner; ok (arr items'))
  canonical_json_value depth (obj fields) =
      let inner = canonical_fields (suc depth) fields in
      within_depth depth (do fields' ← inner; ok (obj (sort_fields fields')))
  canonical_json_value depth v = within_depth depth (ok v)

  pub canonical_items : ℕ → Items → Result Items
  canonical_items depth nil = ok nil
  canonical_items depth (cons v items) = do
    v' ← canonical_json_value depth v
    items' ← canonical_items depth items
    ok (cons v' items')

  pub canonical_fields : ℕ → Fields → Result Fields
  canonical_fields depth end = ok end
  canonical_fields depth (field k v fields) = do
    v' ← canonical_json_value depth v
    fields' ← canonical_fields depth fields
    ok (field k v' fields')

-- How deep arrays and objects stand in each other.
unfoldable mutual
  pub json_depth : Json → ℕ
  json_depth (arr items) = items_depth items
  json_depth (obj fields) = fields_depth fields
  json_depth v = 0

  pub items_depth : Items → ℕ
  items_depth nil = 0
  items_depth (cons v items) = max (suc (json_depth v)) (items_depth items)

  pub fields_depth : Fields → ℕ
  fields_depth end = 0
  fields_depth (field k v fields) = max (suc (json_depth v)) (fields_depth fields)
