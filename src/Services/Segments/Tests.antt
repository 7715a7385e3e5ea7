-- ===== src/Services/Segments/Tests.antt =====
-- A segment, the text that is hashed, and the theorems about it.
use civic_archive_api.Prelude.{◌≡◌, ◌↔◌, refl, String, true, none, some}
use civic_archive_api.Prelude.Int.{pos}
use civic_archive_api.Prelude.Decimal.{decimal, digits, char_or}
use civic_archive_api.Text.{strip, is_empty, or_none}
use civic_archive_api.Json.{null, int, str, arr, nil, cons, obj, end, field}
use civic_archive_api.Json.Dumps.{
  dumps, write_json, write_items, write_fields, write_string, write_chars, write_char,
}
use civic_archive_api.Json.Dumps.Shapes.{is_float_free, are_float_free, have_float_free}
use civic_archive_api.Errors.{ok}
use civic_archive_api.Repositories.Segments.{Segment}
use civic_archive_api.Services.Dates.{
  Date, make_date, iso_format, last_digit, parse_iso_date, day_number,
}
use civic_archive_api.Services.Dates.Iso.{IsDate, parse_iso_date-iso_format}
use civic_archive_api.Services.Values.{
  json, date, optional_str, coerce_meeting_no_int, combine_meeting_no, numbered, parse_date,
}
use civic_archive_api.Services.Importance.{parse_importance_value, in_range, number_or}
use civic_archive_api.Services.Canonical.{
  canonical_json_value, canonical_items, canonical_fields, sort_fields, place_field,
}
use civic_archive_api.Services.Segments.{
  SegmentItem, Library, dedupe_payload, legacy_payload, dedupe_text, build_segment_dedupe_hash,
  build_legacy_segment_dedupe_hash, with_hashes, require_council, segment_fields, normalize_segment,
  variants_after,
}
use civic_archive_api.Services.Segments.Payload.{HasNoFloats}
use civic_archive_api.Services.Segments.Hashes.{
  AreAlike, has_all_texts, dedupe_text_injective, legacy_text_iff,
}

abbrev lib : Library
lib = record { show_float = λ x. "0.0"; sha256 = λ t. t; shown = λ v. "value" }

abbrev new_year : Date
new_year = record { year = 2026; month = 1; day = 1 }

abbrev item : SegmentItem
item = record {
  council = json (str " seoul ");
  committee = json null;
  session = json (str "301");
  meeting_no = json (int (pos 4));
  meeting_date = date new_year;
  content = json (str "a \"b\"\n");
  summary = json null;
  subject = json null;
  tag = obj (field "b" (arr (cons (int (pos 1)) nil)) (field "a" null end));
  importance = json (int (pos 2));
  moderator = null;
  questioner = null;
  answerer = null;
  party = json null;
  constituency = json null;
  department = json null;
}

abbrev segment : Segment
segment = record {
  council = "seoul";
  committee = none;
  session = some "301";
  meeting_no = some (pos 4);
  meeting_no_combined = some "301 4차";
  meeting_date = some (pos 739617);
  content = some "a \"b\"";
  summary = none;
  subject = none;
  tag = obj (field "b" (arr (cons (int (pos 1)) nil)) (field "a" null end));
  importance = some (pos 2);
  moderator = null;
  questioner = null;
  answerer = null;
  party = none;
  constituency = none;
  department = none;
  dedupe_hash = none;
}

service : Unit {0}
unfolding normalize_segment segment_fields with_hashes build_segment_dedupe_hash
    build_legacy_segment_dedupe_hash legacy_payload dedupe_text dedupe_payload require_council
    variants_after optional_str coerce_meeting_no_int combine_meeting_no numbered parse_date
    parse_importance_value in_range number_or canonical_json_value canonical_items canonical_fields
    sort_fields place_field dumps write_json write_items write_fields write_string write_chars
    write_char decimal digits char_or iso_format last_digit day_number strip is_empty or_none
    is_float_free are_float_free have_float_free make_date
service = tt

columns : segment_fields lib item ≡ ok (segment, some new_year)
unfolding service
columns = refl

abbrev text : String
text =
    "{\"answerer\":null,\"committee\":null,\"constituency\":null,\"content\":\"a \\\"b\\\"\",\"council\":\"seoul\",\"department\":null,\"importance\":2,\"meeting_date\":\"2026-01-01\",\"meeting_no\":4,\"meeting_no_combined\":\"301 4차\",\"moderator\":null,\"party\":null,\"questioner\":null,\"session\":\"301\",\"subject\":null,\"summary\":null,\"tag\":{\"a\":null,\"b\":[1]}}"

hashed : dedupe_text lib segment (some new_year) ≡ ok text
unfolding service
hashed = refl

counted : variants_after lib item 6 ≡ 7
unfolding service
counted = refl

no_floats : HasNoFloats segment
unfolding service
no_floats = record { tag = refl; moderator = refl; questioner = refl; answerer = refl }

new_year-IsDate : IsDate new_year
unfolding service
new_year-IsDate = refl

parse_iso_date-iso_format_example : parse_iso_date (iso_format new_year) ≡ some new_year
parse_iso_date-iso_format_example = parse_iso_date-iso_format new_year new_year-IsDate

dedupe_text_injective_example : AreAlike segment segment (some new_year) (some new_year)
dedupe_text_injective_example =
    dedupe_text_injective lib segment segment (some new_year) (some new_year) text no_floats
      no_floats new_year-IsDate new_year-IsDate hashed hashed

legacy_text_iff_example :
    (dedupe_text lib (legacy_payload segment) (some new_year) ≡ ok text)
    ↔ (has_all_texts segment ≡ true)
legacy_text_iff_example =
    legacy_text_iff lib segment (some new_year) text no_floats new_year-IsDate hashed
