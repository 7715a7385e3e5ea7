-- ===== src/Routes/Segments/Tests.antt =====
-- Requests for segments, and the theorems about them.
use civic_archive_api.Prelude.{
  ◌≡◌, ◌⊎◌, refl, Bool, true, false, none, some, List, [], ◌∷◌, ◌++◌, all, length, arith,
}
use civic_archive_api.Text.{strip, is_empty, or_none}
use civic_archive_api.Json.{null, str}
use civic_archive_api.Errors.{database_error, ok, raise}
use civic_archive_api.Samples.{defaults}
use civic_archive_api.Repositories.Rows.{Row, Table}
use civic_archive_api.Repositories.Segments.{Segment, SegmentUpsert}
use civic_archive_api.Repositories.Segments.Insert.{AllPresent, AllSent, is_storable}
use civic_archive_api.Services.Values.{
  json, optional_str, coerce_meeting_no_int, combine_meeting_no, numbered, parse_date,
}
use civic_archive_api.Services.Importance.{parse_importance_value}
use civic_archive_api.Services.Canonical.{
  canonical_json_value, canonical_fields, sort_fields, place_field,
}
use civic_archive_api.Services.Segments.{
  Library, SegmentItem, dedupe_payload, legacy_payload, dedupe_text, build_segment_dedupe_hash,
  build_legacy_segment_dedupe_hash, with_hashes, require_council, segment_fields, normalize_segment,
}
use civic_archive_api.Routes.{normalize_all}
use civic_archive_api.Routes.Segments.{save_segments}
use civic_archive_api.Routes.Segments.Laws.{save_segments-again}

abbrev lib : Library
lib = record { show_float = λ x. "0.0"; sha256 = λ t. "hash"; shown = λ v. "value" }

abbrev item : SegmentItem
item = record {
  council = json (str "seoul");
  committee = json null;
  session = json null;
  meeting_no = json null;
  meeting_date = json null;
  content = json (str "text");
  summary = json null;
  subject = json null;
  tag = null;
  importance = json null;
  moderator = null;
  questioner = null;
  answerer = null;
  party = json null;
  constituency = json null;
  department = json null;
}

abbrev stored_item : SegmentUpsert
stored_item = record {
  segment = record {
    council = "seoul";
    committee = none;
    session = none;
    meeting_no = none;
    meeting_no_combined = none;
    meeting_date = none;
    content = some "text";
    summary = none;
    subject = none;
    tag = null;
    importance = none;
    moderator = null;
    questioner = null;
    answerer = null;
    party = none;
    constituency = none;
    department = none;
    dedupe_hash = none;
  };
  dedupe_hash = "hash";
  dedupe_hash_legacy = some "hash";
}

abbrev no_segments : Table Segment
no_segments = record { rows = []; next_id = 1 }

normal : normalize_all (normalize_segment lib) (item ∷ []) ≡ ok (stored_item ∷ [])
unfolding normalize_all normalize_segment segment_fields with_hashes build_segment_dedupe_hash
    build_legacy_segment_dedupe_hash legacy_payload dedupe_text dedupe_payload require_council
    optional_str coerce_meeting_no_int combine_meeting_no numbered parse_date parse_importance_value
    canonical_json_value canonical_fields sort_fields place_field strip is_empty or_none
normal = refl

abbrev takes : SegmentUpsert → Bool
takes p = true

save_segments-again_example :
    ((all (is_storable takes) (stored_item ∷ []) ≡ false)
      × (save_segments defaults takes lib 5 (item ∷ []) no_segments ≡ raise database_error))
    ⊎ ((added : List (Row Segment)) × (t' : Table Segment) × (save_segments defaults takes lib 5
            (item ∷ [])
            no_segments
          ≡ ok (length added, t'))
        × (t'.rows ≡ [] ++ added)
        × AllSent 5 (stored_item ∷ []) added
        × AllPresent (stored_item ∷ []) t'.rows
        × (save_segments defaults takes lib 9 (item ∷ []) t' ≡ ok (0, t')))
save_segments-again_example =
    save_segments-again defaults 200 takes lib 5 9 (item ∷ []) (stored_item ∷ []) no_segments refl
      (omega arith) normal
