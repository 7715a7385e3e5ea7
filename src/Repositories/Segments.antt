-- ===== src/Repositories/Segments.antt =====
-- app/repositories/segments_repository.py on the table `council_speech_segments`.
pub mod Known
pub mod Insert
pub mod Listing
use civic_archive_api.Prelude.{
  ℕ, suc, String, Bool, true, false, ◌||◌, ◌&&◌, all, Option, none, some, List, [], ◌∷◌, ◌++◌, any,
  ◌==◌, ltb, length, map, if◌then◌else◌,
}
use civic_archive_api.Prelude.Int.{ℤ, pos, leb_ℤ}
use civic_archive_api.Json.{Json}
use civic_archive_api.Errors.{database_error, Result, ok, raise, ◌>>=◌}
use civic_archive_api.Repositories.Rows.{
  Row, Table, fits_varchar, fits_integer, fits_smallint, select_row, delete_rows,
}
use civic_archive_api.Repositories.Common.{
  Postgres, Condition, equals, search_filter, add_truthy_equals_filter, add_not_none_equals_filter,
  add_bound_filter, execute_filtered_paginated_query,
}
use civic_archive_api.Repositories.Minutes.{JsonText}

-- The columns of a row besides its id and times. The hash of a row from before the migration that
-- adds it is null.
pub record Segment : Type 0 where
  pub council : String
  pub committee : Option String
  pub session : Option String
  pub meeting_no : Option ℤ
  pub meeting_no_combined : Option String
  pub meeting_date : Option ℤ
  pub content : Option String
  pub summary : Option String
  pub subject : Option String
  pub tag : Json
  pub importance : Option ℤ
  pub moderator : Json
  pub questioner : Json
  pub answerer : Json
  pub party : Option String
  pub constituency : Option String
  pub department : Option String
  pub dedupe_hash : Option String

-- `SegmentUpsertDTO`: the columns without the hash, and two hashes.
pub record SegmentUpsert : Type 0 where
  pub segment : Segment
  pub dedupe_hash : String
  pub dedupe_hash_legacy : Option String

-- `SegmentsListQuery`
pub record SegmentsListQuery : Type 0 where
  pub page : ℕ
  pub size : ℕ
  pub q : Option String
  pub council : Option String
  pub committee : Option String
  pub session : Option String
  pub meeting_no : Option String
  pub importance : Option ℤ
  pub party : Option String
  pub constituency : Option String
  pub department : Option String
  pub date_from : Option String
  pub date_to : Option String

abbrev pub has_hash : String → List (Row Segment) → Bool
has_hash hash rows = any (λ r. equals r.columns.dedupe_hash hash) rows

abbrev pub has_legacy_hash : Option String → List (Row Segment) → Bool
has_legacy_hash none rows = false
has_legacy_hash (some hash) rows = has_hash hash rows

-- The subquery of `WHERE NOT EXISTS`
abbrev pub exists : SegmentUpsert → List (Row Segment) → Bool
exists p rows = has_hash p.dedupe_hash rows || has_legacy_hash p.dedupe_hash_legacy rows

abbrev pub new_row : ℕ → ℕ → SegmentUpsert → Row Segment
new_row now id p = record {
  id = id;
  columns = record p.segment { dedupe_hash = some p.dedupe_hash };
  created_at = now;
  updated_at = now;
}

abbrev pub insert_segment : ℕ → SegmentUpsert → Table Segment → Table Segment
insert_segment now p t = record {
  rows = t.rows ++ (new_row now t.next_id p ∷ []);
  next_id = suc t.next_id;
}

-- `ON CONFLICT (dedupe_hash) DO NOTHING`: the sequence moves on all the same.
unfoldable pub insert_unless_conflict : ℕ → SegmentUpsert → ℕ × Table Segment → ℕ × Table Segment
insert_unless_conflict now p (inserted, t) =
    if has_hash p.dedupe_hash t.rows
    then (inserted, record t { next_id = suc t.next_id })
    else (suc inserted, insert_segment now p t)

-- A row that the recordset of the statement takes; `accepts` is whether PostgreSQL does, apart from
-- the widths of numbers.
abbrev pub is_readable : (SegmentUpsert → Bool) → SegmentUpsert → Bool
is_readable accepts p =
    fits_integer p.segment.meeting_no && fits_integer p.segment.importance && accepts p

-- A row for the columns of the table.
abbrev pub segment_fits : SegmentUpsert → Bool
segment_fits p =
    fits_varchar 255 (some p.segment.council)
    && fits_varchar 255 p.segment.committee
    && fits_varchar 255 p.segment.session
    && fits_varchar 255 p.segment.meeting_no_combined
    && fits_smallint p.segment.importance
    && fits_varchar 255 p.segment.party
    && fits_varchar 255 p.segment.constituency
    && fits_varchar 255 p.segment.department
    && fits_varchar 64 (some p.dedupe_hash)

-- A row of the payload. `NOT EXISTS` sees the rows from before the statement, and only a row that it
-- lets through must fit.
unfoldable pub insert_next :
    ℕ → List (Row Segment) → SegmentUpsert → ℕ × Table Segment → Result (ℕ × Table Segment)
unfolding insert_unless_conflict
insert_next now before p state =
    if exists p before
    then ok state
    else if segment_fits p
    then ok (insert_unless_conflict now p state)
    else raise database_error

-- The rows of the payload in turn.
unfoldable pub insert_payload :
    ℕ → List (Row Segment) → List SegmentUpsert → ℕ × Table Segment → Result (ℕ × Table Segment)
unfolding insert_next
insert_payload now before [] state = ok state
insert_payload now before (p ∷ payload) state = do
  state' ← insert_next now before p state
  insert_payload now before payload state'

-- The number of inserted rows, and the table.
unfoldable pub insert_segments :
    (SegmentUpsert → Bool) → ℕ → List SegmentUpsert → Table Segment → Result (ℕ × Table Segment)
unfolding insert_payload
insert_segments accepts now items t =
    if all (is_readable accepts) items
    then insert_payload now t.rows items (0, t)
    else raise database_error

-- A row of the list has no content, and `meeting_no` is the combined one.
pub record SegmentListItem : Type 0 where
  pub id : ℕ
  pub council : String
  pub committee : Option String
  pub session : Option String
  pub meeting_no : Option String
  pub meeting_date : Option ℤ
  pub summary : Option String
  pub subject : Option String
  pub tag : Json
  pub importance : Option ℤ
  pub moderator : Json
  pub questioner : Json
  pub answerer : Json
  pub party : Option String
  pub constituency : Option String
  pub department : Option String

abbrev pub segment_item : Row Segment → SegmentListItem
segment_item r = record {
  id = r.id;
  council = r.columns.council;
  committee = r.columns.committee;
  session = r.columns.session;
  meeting_no = r.columns.meeting_no_combined;
  meeting_date = r.columns.meeting_date;
  summary = r.columns.summary;
  subject = r.columns.subject;
  tag = r.columns.tag;
  importance = r.columns.importance;
  moderator = r.columns.moderator;
  questioner = r.columns.questioner;
  answerer = r.columns.answerer;
  party = r.columns.party;
  constituency = r.columns.constituency;
  department = r.columns.department;
}

abbrev pub search_columns : JsonText → Segment → List (Option String)
search_columns json_text s =
    some s.council
    ∷ s.committee
    ∷ s.session
    ∷ s.content
    ∷ s.summary
    ∷ s.subject
    ∷ s.party
    ∷ s.constituency
    ∷ s.department
    ∷ json_text s.tag
    ∷ json_text s.questioner
    ∷ json_text s.answerer
    ∷ []

unfoldable pub segment_conditions :
    Postgres → JsonText → SegmentsListQuery → List (Condition Segment)
unfolding search_filter add_truthy_equals_filter add_not_none_equals_filter add_bound_filter
segment_conditions db json_text query =
    search_filter db (search_columns json_text) query.q
    ++ add_truthy_equals_filter query.council (λ s. some s.council)
    ++ add_truthy_equals_filter query.committee (λ s. s.committee)
    ++ add_truthy_equals_filter query.session (λ s. s.session)
    ++ add_truthy_equals_filter query.meeting_no (λ s. s.meeting_no_combined)
    ++ add_truthy_equals_filter query.party (λ s. s.party)
    ++ add_truthy_equals_filter query.constituency (λ s. s.constituency)
    ++ add_truthy_equals_filter query.department (λ s. s.department)
    ++ add_not_none_equals_filter query.importance (λ s. s.importance)
    ++ add_bound_filter query.date_from (λ s. s.meeting_date)
        (λ day bound. leb_ℤ (db.date_of bound) day)
    ++ add_bound_filter query.date_to (λ s. s.meeting_date)
        (λ day bound. leb_ℤ day (db.date_of bound))

-- `coalesce(meeting_date, created_at)`
abbrev pub segment_time : Postgres → Row Segment → ℤ
segment_time db r = elim r.columns.meeting_date [
  | none ↦ pos r.created_at
  | some day ↦ db.day_start day
]

unfoldable pub list_segments :
    Postgres → JsonText → SegmentsListQuery → Table Segment → Result (List SegmentListItem × ℕ)
unfolding segment_conditions execute_filtered_paginated_query
list_segments db json_text query t = do
  (rows, total) ←
      execute_filtered_paginated_query (segment_time db) (segment_conditions db json_text query)
        query.page query.size t
  ok (map segment_item rows, total)

unfoldable pub get_segment : ℕ → Table Segment → Option (Row Segment)
get_segment item_id t = select_row item_id t.rows

-- Whether a row was deleted, and the table after it.
unfoldable pub delete_segment : ℕ → Table Segment → Bool × Table Segment
delete_segment item_id t =
    let t' = delete_rows item_id t in (ltb (length t'.rows) (length t.rows), t')
