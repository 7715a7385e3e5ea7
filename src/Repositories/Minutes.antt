-- ===== src/Repositories/Minutes.antt =====
-- app/repositories/minutes_repository.py on the table `council_minutes`. A date is the number of its day.
pub mod Laws
use civic_archive_api.Prelude.{
  ℕ, String, Bool, ◌&&◌, Option, none, some, List, [], ◌∷◌, ◌++◌, ltb, length, map,
}
use civic_archive_api.Prelude.Int.{ℤ, pos, leb_ℤ}
use civic_archive_api.Json.{Json}
use civic_archive_api.Errors.{Result, ok, ◌>>=◌}
use civic_archive_api.Repositories.Rows.{
  Row, Table, Counts, fits_varchar, fits_integer, upsert_rows, select_row, delete_rows,
}
use civic_archive_api.Repositories.Common.{
  Postgres, dedupe_rows_by_key, Condition, search_filter, add_truthy_equals_filter,
  add_bound_filter, execute_filtered_paginated_query,
}

-- `MinutesUpsertDTO`; `tag`, `attendee` and `agenda` are JSON
pub record Minutes : Type 0 where
  pub council : String
  pub committee : Option String
  pub session : Option String
  pub meeting_no : Option ℤ
  pub meeting_no_combined : Option String
  pub url : String
  pub meeting_date : Option ℤ
  pub content : Option String
  pub tag : Json
  pub attendee : Json
  pub agenda : Json

-- `MinutesListQuery`
pub record MinutesListQuery : Type 0 where
  pub page : ℕ
  pub size : ℕ
  pub q : Option String
  pub council : Option String
  pub committee : Option String
  pub session : Option String
  pub meeting_no : Option String
  pub date_from : Option String
  pub date_to : Option String

abbrev pub minutes_url : Minutes → String
minutes_url m = m.url

-- A row for the recordset and the columns of the table; `accepts` is whether PostgreSQL takes it
-- apart from their widths.
abbrev pub minutes_fit : (Minutes → Bool) → Minutes → Bool
minutes_fit accepts m =
    fits_varchar 255 (some m.council)
    && fits_varchar 255 m.committee
    && fits_varchar 255 m.session
    && fits_integer m.meeting_no
    && fits_varchar 255 m.meeting_no_combined
    && accepts m

unfoldable pub upsert_minutes :
    (Minutes → Bool) → ℕ → List Minutes → Table Minutes → Result (Counts × Table Minutes)
upsert_minutes accepts now [] t = ok (record { inserted = 0; updated = 0 }, t)
upsert_minutes accepts now (m ∷ items) t =
    upsert_rows minutes_url (minutes_fit accepts) now []
      (dedupe_rows_by_key minutes_url (m ∷ items)) t

-- A row of the list has no content, and `meeting_no` is the combined one.
pub record MinutesListItem : Type 0 where
  pub id : ℕ
  pub council : String
  pub committee : Option String
  pub session : Option String
  pub meeting_no : Option String
  pub url : String
  pub meeting_date : Option ℤ
  pub tag : Json
  pub attendee : Json
  pub agenda : Json
  pub created_at : ℕ
  pub updated_at : ℕ

abbrev pub minutes_item : Row Minutes → MinutesListItem
minutes_item r = record {
  id = r.id;
  council = r.columns.council;
  committee = r.columns.committee;
  session = r.columns.session;
  meeting_no = r.columns.meeting_no_combined;
  url = r.columns.url;
  meeting_date = r.columns.meeting_date;
  tag = r.columns.tag;
  attendee = r.columns.attendee;
  agenda = r.columns.agenda;
  created_at = r.created_at;
  updated_at = r.updated_at;
}

-- PostgreSQL's text of a JSON value, where it is not null.
abbrev pub JsonText : Type 0
JsonText = Json → Option String

unfoldable pub minutes_conditions :
    Postgres → JsonText → MinutesListQuery → List (Condition Minutes)
unfolding search_filter add_truthy_equals_filter add_bound_filter
minutes_conditions db json_text query =
    search_filter db
      (λ m. some m.council ∷ m.committee ∷ m.session ∷ m.content ∷ json_text m.agenda ∷ []) query.q
    ++ add_truthy_equals_filter query.council (λ m. some m.council)
    ++ add_truthy_equals_filter query.committee (λ m. m.committee)
    ++ add_truthy_equals_filter query.session (λ m. m.session)
    ++ add_truthy_equals_filter query.meeting_no (λ m. m.meeting_no_combined)
    ++ add_bound_filter query.date_from (λ m. m.meeting_date)
        (λ day bound. leb_ℤ (db.date_of bound) day)
    ++ add_bound_filter query.date_to (λ m. m.meeting_date)
        (λ day bound. leb_ℤ day (db.date_of bound))

-- `coalesce(meeting_date, created_at)`
abbrev pub minutes_time : Postgres → Row Minutes → ℤ
minutes_time db r = elim r.columns.meeting_date [
  | none ↦ pos r.created_at
  | some day ↦ db.day_start day
]

unfoldable pub list_minutes :
    Postgres → JsonText → MinutesListQuery → Table Minutes → Result (List MinutesListItem × ℕ)
unfolding minutes_conditions execute_filtered_paginated_query
list_minutes db json_text query t = do
  (rows, total) ←
      execute_filtered_paginated_query (minutes_time db) (minutes_conditions db json_text query)
        query.page query.size t
  ok (map minutes_item rows, total)

unfoldable pub get_minutes : ℕ → Table Minutes → Option (Row Minutes)
get_minutes item_id t = select_row item_id t.rows

-- Whether a row was deleted, and the table after it.
unfoldable pub delete_minutes : ℕ → Table Minutes → Bool × Table Minutes
delete_minutes item_id t =
    let t' = delete_rows item_id t in (ltb (length t'.rows) (length t.rows), t')
