-- ===== src/Routes/Segments.antt =====
-- app/routes/segments.py: the handlers of the segments, on the table as the repository has it.
pub mod Laws
mod Tests
use civic_archive_api.Prelude.{ℕ, String, Bool, Option, List, length}
use civic_archive_api.Prelude.Int.{ℤ}
use civic_archive_api.Errors.{Result, ok, ◌>>=◌}
use civic_archive_api.Config.{Config}
use civic_archive_api.Repositories.Rows.{Row, Table}
use civic_archive_api.Repositories.Segments.{
  Segment, SegmentUpsert, SegmentsListQuery, SegmentListItem, list_segments, insert_segments,
  get_segment, delete_segment,
}
use civic_archive_api.Repositories.Common.{Postgres}
use civic_archive_api.Repositories.Minutes.{JsonText}
use civic_archive_api.Services.Dates.{Date}
use civic_archive_api.Services.Segments.{Library, SegmentItem, normalize_segment}
use civic_archive_api.Routes.{
  enforce_ingest_batch_limit, normalize_all, row_or_404, answer_deletion, shown_date, ListResponse,
}

-- `save_segments` on the list of the items of the payload: the number of the response, and the table.
unfoldable pub save_segments :
    Config
    → (SegmentUpsert → Bool)
    → Library
    → ℕ
    → List SegmentItem
    → Table Segment
    → Result (ℕ × Table Segment)
unfolding enforce_ingest_batch_limit normalize_all
save_segments c accepts lib now payload_items t = do
  u ← enforce_ingest_batch_limit c.ingest_max_batch_items (length payload_items)
  items ← normalize_all (normalize_segment lib) payload_items
  insert_segments accepts now items t

-- The parameters of the handler of the list, which FastAPI has checked.
pub record SegmentsParameters : Type 0 where
  pub q : Option String
  pub council : Option String
  pub committee : Option String
  pub session : Option String
  pub meeting_no : Option String
  pub importance : Option ℤ
  pub party : Option String
  pub constituency : Option String
  pub department : Option String
  pub page : ℕ
  pub size : ℕ
  pub date_from : Option Date
  pub date_to : Option Date

abbrev pub segments_query : SegmentsParameters → SegmentsListQuery
segments_query p = record {
  q = p.q;
  council = p.council;
  committee = p.committee;
  session = p.session;
  meeting_no = p.meeting_no;
  importance = p.importance;
  party = p.party;
  constituency = p.constituency;
  department = p.department;
  page = p.page;
  size = p.size;
  date_from = shown_date p.date_from;
  date_to = shown_date p.date_to;
}

-- `list_segments` of the routes
unfoldable pub list_segments_page :
    Postgres → JsonText → SegmentsParameters → Table Segment → Result (ListResponse SegmentListItem)
unfolding list_segments
list_segments_page db json_text p t = do
  (rows, total) ← list_segments db json_text (segments_query p) t
  ok (record { page = p.page; size = p.size; total = total; items = rows })

-- `get_segment` of the routes
unfoldable pub show_segment : ℕ → Table Segment → Result (Row Segment)
unfolding row_or_404
show_segment item_id t = row_or_404 (get_segment item_id t)

-- `delete_segment` of the routes: the response is the id, and the table after it.
unfoldable pub remove_segment : ℕ → Table Segment → Result ℕ × Table Segment
unfolding answer_deletion
remove_segment item_id t = answer_deletion item_id (delete_segment item_id t)
