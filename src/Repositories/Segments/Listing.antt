-- ===== src/Repositories/Segments/Listing.antt =====
-- The pages of the list of segments.
use civic_archive_api.Prelude.{ℕ, ◌*◌, ◌≡◌, map, take}
use civic_archive_api.Repositories.Rows.{Table}
use civic_archive_api.Repositories.Common.{
  Postgres, order_by, select_where, execute_filtered_paginated_query,
}
use civic_archive_api.Repositories.Pages.{first_pages, first_pages-eq-take}
use civic_archive_api.Repositories.Minutes.{JsonText}
use civic_archive_api.Repositories.Segments.{
  Segment, SegmentsListQuery, segment_item, segment_time, segment_conditions, list_segments,
}

-- The first pages of a list, put together, are the first of all rows that satisfy the conditions,
-- ordered by time and id; with enough pages they are all of them.
list_segments-pages :
    (db : Postgres) (json_text : JsonText) (query : SegmentsListQuery) (t : Table Segment) (n : ℕ)
    → first_pages (λ page. list_segments db json_text (record query { page = page }) t) n
      ≡ take (n * query.size) (
          map segment_item (
            order_by
              (segment_time db)
              (select_where (segment_conditions db json_text query) t.rows)))
unfolding list_segments execute_filtered_paginated_query segment_conditions
list_segments-pages db json_text query t n =
    first_pages-eq-take segment_item
      (order_by (segment_time db) (select_where (segment_conditions db json_text query) t.rows))
      query.size n
