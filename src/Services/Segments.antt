-- ===== src/Services/Segments.antt =====
-- `_normalize_segment` of app/services/segments_service.py, with the hashes that tell segments apart.
pub mod Payload
pub mod Hashes
mod Tests
use civic_archive_api.Prelude.{
  ℕ, suc, String, Bool, true, false, not, Option, none, some, ◌==◌, if◌then◌else◌,
}
use civic_archive_api.Prelude.Int.{ℤ}
use civic_archive_api.Text.{or_empty}
use civic_archive_api.Json.{Float, Json, null, int, str, obj, Fields, end, field}
use civic_archive_api.Json.Dumps.{dumps}
use civic_archive_api.Errors.{bad_request, Result, ok, raise, ◌>>=◌}
use civic_archive_api.Repositories.Segments.{Segment, SegmentUpsert}
use civic_archive_api.Services.Dates.{Date, DateTime, day_number, iso_format}
use civic_archive_api.Services.Values.{
  Value, json, optional_str, coerce_meeting_no_int, combine_meeting_no, parse_date,
}
use civic_archive_api.Services.Canonical.{canonical_json_value}
use civic_archive_api.Services.Importance.{parse_importance_value}

-- The item of a request, a dict; a missing key is like one that holds `None`.
pub record SegmentItem : Type 0 where
  pub council : Value
  pub committee : Value
  pub session : Value
  pub meeting_no : Value
  pub meeting_date : Value
  pub content : Value
  pub summary : Value
  pub subject : Value
  pub tag : Json
  pub importance : Value
  pub moderator : Json
  pub questioner : Json
  pub answerer : Json
  pub party : Value
  pub constituency : Value
  pub department : Value

abbrev pub text_or_null : Option String → Json
text_or_null none = null
text_or_null (some s) = str s

abbrev pub int_or_null : Option ℤ → Json
int_or_null none = null
int_or_null (some n) = int n

abbrev pub date_or_null : Option Date → Json
date_or_null none = null
date_or_null (some d) = str (iso_format d)

-- The dict that is hashed. The columns have the number of the day, and the dict its date.
unfoldable pub dedupe_payload : Segment → Option Date → Fields
dedupe_payload s meeting_date = field "council" (str s.council) (
    field "committee" (text_or_null s.committee) (
      field "session" (text_or_null s.session) (
        field "meeting_no" (int_or_null s.meeting_no) (
          field "meeting_no_combined" (text_or_null s.meeting_no_combined) (
            field "meeting_date" (date_or_null meeting_date) (
              field "content" (text_or_null s.content) (
                field "summary" (text_or_null s.summary) (
                  field "subject" (text_or_null s.subject) (
                    field "tag" s.tag (
                      field "importance" (int_or_null s.importance) (
                        field "moderator" s.moderator (
                          field "questioner" s.questioner (
                            field "answerer" s.answerer (
                              field "party" (text_or_null s.party) (
                                field "constituency" (text_or_null s.constituency) (
                                  field "department" (text_or_null s.department) end))))))))))))))))

-- `None` is stored as the empty text in the nine fields of `LEGACY_EMPTY_STRING_FIELDS`.
unfoldable pub legacy_payload : Segment → Segment
legacy_payload s = record s {
  committee = some (or_empty s.committee);
  session = some (or_empty s.session);
  meeting_no_combined = some (or_empty s.meeting_no_combined);
  content = some (or_empty s.content);
  summary = some (or_empty s.summary);
  subject = some (or_empty s.subject);
  party = some (or_empty s.party);
  constituency = some (or_empty s.constituency);
  department = some (or_empty s.department);
}

-- A council that is not blank, stripped.
unfoldable pub require_council : Option String → Result String
require_council none = raise (bad_request "Missing required field: council")
require_council (some council) = ok council

abbrev pub date_of : Option DateTime → Option Date
date_of none = none
date_of (some t) = some t.date

abbrev pub day_of : Option Date → Option ℤ
day_of none = none
day_of (some d) = some (day_number d)

-- The columns that an item is normalised to; the hash is set by the repository.
abbrev pub segment_of : SegmentItem → String → Option ℤ → Option Date → Option ℤ → Segment
segment_of item council meeting_no_int meeting_date importance = record {
  council = council;
  committee = optional_str item.committee;
  session = optional_str item.session;
  meeting_no = meeting_no_int;
  meeting_no_combined =
      combine_meeting_no (optional_str item.session) item.meeting_no meeting_no_int;
  meeting_date = day_of meeting_date;
  content = optional_str item.content;
  summary = optional_str item.summary;
  subject = optional_str item.subject;
  tag = item.tag;
  importance = importance;
  moderator = item.moderator;
  questioner = item.questioner;
  answerer = item.answerer;
  party = optional_str item.party;
  constituency = optional_str item.constituency;
  department = optional_str item.department;
  dedupe_hash = none;
}

-- `float.__repr__`, `hashlib.sha256(text.encode()).hexdigest()`, and the text of a value in an error
-- message.
pub record Library : Type 0 where
  pub show_float : Float → String
  pub sha256 : String → String
  pub shown : Json → String

module _ (lib : Library) where
  -- The text that is hashed.
  unfoldable pub dedupe_text : Segment → Option Date → Result String
  unfolding dedupe_payload canonical_json_value dumps
  dedupe_text s meeting_date = do
    canonical ← canonical_json_value 0 (obj (dedupe_payload s meeting_date))
    ok (dumps lib.show_float canonical)

  unfoldable pub build_segment_dedupe_hash : Segment → Option Date → Result String
  unfolding dedupe_text
  build_segment_dedupe_hash s meeting_date = do
    encoded ← dedupe_text s meeting_date
    ok (lib.sha256 encoded)

  unfoldable pub build_legacy_segment_dedupe_hash : Segment → Option Date → Result String
  unfolding build_segment_dedupe_hash
  build_legacy_segment_dedupe_hash s meeting_date =
      build_segment_dedupe_hash (legacy_payload s) meeting_date

  -- The columns with the two hashes.
  unfoldable pub with_hashes : Segment → Option Date → Result SegmentUpsert
  unfolding build_segment_dedupe_hash build_legacy_segment_dedupe_hash
  with_hashes s meeting_date = do
    dedupe_hash ← build_segment_dedupe_hash s meeting_date
    dedupe_hash_legacy ← build_legacy_segment_dedupe_hash s meeting_date
    ok (record {
      segment = s;
      dedupe_hash = dedupe_hash;
      dedupe_hash_legacy = some dedupe_hash_legacy;
    })

  -- The columns and the date.
  unfoldable pub segment_fields : SegmentItem → Result (Segment × Option Date)
  unfolding require_council
  segment_fields item = do
    council ← require_council (optional_str item.council)
    meeting_no_int ← coerce_meeting_no_int item.meeting_no
    meeting_date ← parse_date lib.shown item.meeting_date
    importance ← parse_importance_value item.importance false
    ok (
      segment_of item council meeting_no_int (date_of meeting_date) importance,
      date_of meeting_date,
    )

  unfoldable pub normalize_segment : SegmentItem → Result SegmentUpsert
  unfolding segment_fields with_hashes
  normalize_segment item = do fields ← segment_fields item; with_hashes fields.0 fields.1

  abbrev pub is_variant : SegmentUpsert → Bool
  is_variant p = elim p.dedupe_hash_legacy [
    | none ↦ true
    | some legacy ↦ not (p.dedupe_hash == legacy)
  ]

  -- `SEGMENT_LEGACY_HASH_VARIANT` after the item is normalised.
  abbrev count_variant : ℕ → Result SegmentUpsert → ℕ
  count_variant variants (raise e) = variants
  count_variant variants (ok p) = if is_variant p then suc variants else variants

  unfoldable pub variants_after : SegmentItem → ℕ → ℕ
  variants_after item variants = count_variant variants (normalize_segment item)
