-- ===== src/Repositories/Minutes/Laws.antt =====
-- What the repository of the minutes promises.
use civic_archive_api.Prelude.{
  ℕ, ◌+◌, ◌*◌, ◌≡◌, refl, String, Bool, true, false, ◌⊎◌, inr, all, List, [], ◌∷◌, map, take,
  length, arith,
}
use civic_archive_api.Errors.{database_error, ok, raise}
use civic_archive_api.Repositories.Rows.{Table, Counts}
use civic_archive_api.Repositories.Common.{
  Postgres, order_by, select_where, execute_filtered_paginated_query,
}
use civic_archive_api.Repositories.Dedupe.{keep_last}
use civic_archive_api.Repositories.Upsert.{overlay, stored, last_with}
use civic_archive_api.Repositories.Batch.{upsert_batch}
use civic_archive_api.Repositories.Pages.{first_pages, first_pages-eq-take}
use civic_archive_api.Repositories.Minutes.{
  Minutes, JsonText, minutes_url, minutes_fit, MinutesListQuery, upsert_minutes, minutes_item,
  minutes_time, minutes_conditions, list_minutes,
}

-- A batch of minutes is refused, with an error of the database, if the last minutes of a URL do not
-- fit the columns of the table. Else it is stored: under each URL the table then holds the last minutes
-- of the batch with that URL, or what it held before; the counts are those of the URLs of the batch,
-- and the inserted ones are the rows by which the table has grown.
pub upsert_minutes-stored :
    (accepts : Minutes → Bool) (now : ℕ) (minutes : List Minutes) (t : Table Minutes)
    → ((all (minutes_fit accepts) (keep_last minutes_url minutes) ≡ false)
        × (upsert_minutes accepts now minutes t ≡ raise database_error))
      ⊎ ((all (minutes_fit accepts) (keep_last minutes_url minutes) ≡ true)
          × (counts : Counts) × (t' : Table Minutes) × (upsert_minutes accepts now minutes t
              ≡ ok (counts, t'))
          × (counts.inserted + counts.updated ≡ length (keep_last minutes_url minutes))
          × (counts.inserted + length t.rows ≡ length t'.rows)
          × ((url : String)
              → stored minutes_url url t'.rows
                ≡ overlay (last_with minutes_url url minutes) (stored minutes_url url t.rows)))
unfolding upsert_minutes
upsert_minutes-stored accepts now [] t =
    unfold keep_last last_with in
    inr (refl, record { inserted = 0; updated = 0 }, t, refl, omega arith, omega arith, λ url. refl)
upsert_minutes-stored accepts now (m ∷ minutes) t =
    upsert_batch minutes_url (minutes_fit accepts) now (m ∷ minutes) t

-- The first pages of a list, put together, are the first of all rows that satisfy the conditions,
-- ordered by time and id; with enough pages they are all of them.
list_minutes-pages :
    (db : Postgres) (json_text : JsonText) (query : MinutesListQuery) (t : Table Minutes) (n : ℕ)
    → first_pages (λ page. list_minutes db json_text (record query { page = page }) t) n
      ≡ take (n * query.size) (
          map minutes_item (
            order_by
              (minutes_time db)
              (select_where (minutes_conditions db json_text query) t.rows)))
unfolding list_minutes execute_filtered_paginated_query minutes_conditions
list_minutes-pages db json_text query t n =
    first_pages-eq-take minutes_item
      (order_by (minutes_time db) (select_where (minutes_conditions db json_text query) t.rows))
      query.size n
