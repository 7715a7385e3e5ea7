-- ===== src/Routes.antt =====
-- app/routes: the handlers, which check and normalise a request and call the repository.
pub mod Deletion
pub mod Minutes
pub mod News
pub mod Segments
mod Tests
use civic_archive_api.Prelude.{
  ℕ, Bool, Option, String, List, [], ◌∷◌, none, some, length, if◌then◌else◌,
}
use civic_archive_api.Prelude.Int.{ℤ, pos, ltb_ℤ}
use civic_archive_api.Json.{Json, int, obj, end, field}
use civic_archive_api.Errors.{Exception, http_exception, http_error, Result, ok, raise, ◌>>=◌}
use civic_archive_api.Services.Dates.{Date, iso_format}

abbrev pub too_many : ℤ → ℕ → Exception
too_many limit batch_size = http_exception (record {
  status_code = 413;
  code = "PAYLOAD_TOO_LARGE";
  message = "Payload Too Large";
  details = some (
      obj (
        field "max_batch_items" (int limit)
          (field "received_batch_items" (int (pos batch_size)) end)));
})

-- `enforce_ingest_batch_limit` of app/routes/common.py
unfoldable pub enforce_ingest_batch_limit : ℤ → ℕ → Result (Unit {0})
enforce_ingest_batch_limit limit batch_size =
    if ltb_ℤ limit (pos batch_size) then raise (too_many limit batch_size) else ok tt

-- `[normalize(item) for item in items]`: the first exception ends it.
unfoldable pub normalize_all : {A B : Type 0} → (A → Result B) → List A → Result (List B)
normalize_all normalize [] = ok []
normalize_all normalize (item ∷ items) = do
  value ← normalize item
  values ← normalize_all normalize items
  ok (value ∷ values)

abbrev pub not_found : Exception
not_found = http_error 404 "NOT_FOUND" "Not Found"

-- The row of a detail handler.
unfoldable pub row_or_404 : {A : Type 0} → Option A → Result A
row_or_404 none = raise not_found
row_or_404 (some row) = ok row

-- The answer of a handler that deletes, with the table after it.
unfoldable pub answer_deletion : {T : Type 0} → ℕ → Bool × T → Result ℕ × T
answer_deletion item_id (deleted, t) = (if deleted then ok item_id else raise not_found, t)

-- `d.isoformat() if d else None`
abbrev pub shown_date : Option Date → Option String
shown_date none = none
shown_date (some d) = some (iso_format d)

-- A page of a list, as `NewsListResponse`, `MinutesListResponse` and `SegmentsListResponse`.
pub record ListResponse (A : Type 0) : Type 0 where
  pub page : ℕ
  pub size : ℕ
  pub total : ℕ
  pub items : List A
