-- ===== src/Routes/Minutes.antt =====
-- app/routes/minutes.py: the handlers of the minutes, on the table as the repository has it.
pub mod Laws
use civic_archive_api.Prelude.{ℕ, String, Bool, Option, List, length}
use civic_archive_api.Json.{Json}
use civic_archive_api.Errors.{Result, ok, ◌>>=◌}
use civic_archive_api.Config.{Config}
use civic_archive_api.Repositories.Rows.{Row, Table, Counts}
use civic_archive_api.Repositories.Minutes.{
  Minutes, MinutesListQuery, MinutesListItem, JsonText, upsert_minutes, list_minutes, get_minutes,
  delete_minutes,
}
use civic_archive_api.Repositories.Common.{Postgres}
use civic_archive_api.Services.Dates.{Date}
use civic_archive_api.Services.Minutes.{MinutesItem, normalize_minutes}
use civic_archive_api.Routes.{
  enforce_ingest_batch_limit, normalize_all, row_or_404, answer_deletion, shown_date, ListResponse,
}

-- `save_minutes` on the list of the items of the payload: the counts of the response, and the table.
unfoldable pub save_minutes :
    Config
    → (Minutes → Bool)
    → (Json → String)
    → ℕ
    → List MinutesItem
    → Table Minutes
    → Result (Counts × Table Minutes)
unfolding enforce_ingest_batch_limit normalize_all
save_minutes c accepts shown now payload_items t = do
  u ← enforce_ingest_batch_limit c.ingest_max_batch_items (length payload_items)
  items ← normalize_all (normalize_minutes shown) payload_items
  upsert_minutes accepts now items t

-- The parameters of the handler of the list, which FastAPI has checked.
pub record MinutesParameters : Type 0 where
  pub q : Option String
  pub council : Option String
  pub committee : Option String
  pub session : Option String
  pub meeting_no : Option String
  pub page : ℕ
  pub size : ℕ
  pub date_from : Option Date
  pub date_to : Option Date

abbrev pub minutes_query : MinutesParameters → MinutesListQuery
minutes_query p = record {
  q = p.q;
  council = p.council;
  committee = p.committee;
  session = p.session;
  meeting_no = p.meeting_no;
  page = p.page;
  size = p.size;
  date_from = shown_date p.date_from;
  date_to = shown_date p.date_to;
}

-- `list_minutes` of the routes
unfoldable pub list_minutes_page :
    Postgres → JsonText → MinutesParameters → Table Minutes → Result (ListResponse MinutesListItem)
unfolding list_minutes
list_minutes_page db json_text p t = do
  (rows, total) ← list_minutes db json_text (minutes_query p) t
  ok (record { page = p.page; size = p.size; total = total; items = rows })

-- `get_minutes` of the routes
unfoldable pub show_minutes : ℕ → Table Minutes → Result (Row Minutes)
unfolding row_or_404
show_minutes item_id t = row_or_404 (get_minutes item_id t)

-- `delete_minutes` of the routes: the response is the id, and the table after it.
unfoldable pub remove_minutes : ℕ → Table Minutes → Result ℕ × Table Minutes
unfolding answer_deletion
remove_minutes item_id t = answer_deletion item_id (delete_minutes item_id t)
