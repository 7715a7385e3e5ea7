-- ===== src/Services/Importance/Tests.antt =====
-- Importances and nested values, and the theorems about them.
use civic_archive_api.Prelude.{◌+◌, ◌≡◌, ◌↔◌, refl, true, some, leb}
use civic_archive_api.Prelude.Int.{pos}
use civic_archive_api.Text.{strip, is_empty}
use civic_archive_api.Text.Number.{parse_int, signed, natural}
use civic_archive_api.Json.{Json, null, int, str, arr, nil, cons, obj, end, field}
use civic_archive_api.Errors.{ok}
use civic_archive_api.Services.Canonical.{
  canonical_json_value, canonical_items, canonical_fields, sort_fields, place_field, json_depth,
}
use civic_archive_api.Services.Canonical.Depth.{is_ok, canonical_json_value-is_ok}
use civic_archive_api.Services.Values.{json}
use civic_archive_api.Services.Importance.{
  number_of, IsImportance, in_range, number_or, parse_importance_value, parse_importance_value_iff,
}

importance : Unit {0}
unfolding parse_importance_value number_or in_range is_empty strip parse_int signed natural
    canonical_json_value canonical_items canonical_fields sort_fields place_field
importance = tt

text_two : parse_importance_value (json (str " 2 ")) true ≡ ok (some (pos 2))
unfolding importance
text_two = refl

parse_importance_value_iff_example :
    (parse_importance_value (json (str " 2 ")) true ≡ ok (some (pos 2)))
    ↔ ((number_of (json (str " 2 ")) ≡ some (pos 2)) × IsImportance (pos 2))
parse_importance_value_iff_example = parse_importance_value_iff (json (str " 2 ")) true (pos 2)

abbrev nested : Json
nested = obj (field "b" (arr (cons (int (pos 1)) nil)) (field "a" null end))

keys_sorted :
    canonical_json_value 0 nested
    ≡ ok (obj (field "a" null (field "b" (arr (cons (int (pos 1)) nil)) end)))
unfolding importance
keys_sorted = refl

canonical_json_value-is_ok_example :
    is_ok (canonical_json_value 19 nested) ≡ leb (19 + json_depth nested) 20
canonical_json_value-is_ok_example = canonical_json_value-is_ok 19 nested
