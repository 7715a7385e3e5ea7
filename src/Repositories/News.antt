-- ===== src/Repositories/News.antt =====
-- app/repositories/news_repository.py on the table `news_articles`. A time is in microseconds since 1970.
pub mod Laws
pub mod Archive
use civic_archive_api.Prelude.{
  ℕ, String, Bool, not, ◌&&◌, Option, none, some, List, [], ◌∷◌, ◌++◌, length, map, ltb,
  if◌then◌else◌,
}
use civic_archive_api.Prelude.Int.{ℤ, pos, ltb_ℤ, leb_ℤ, succ}
use civic_archive_api.Json.{Json}
use civic_archive_api.Errors.{Result, ok, raise, ◌>>=◌}
use civic_archive_api.Repositories.Rows.{
  Row, Table, Counts, fits_varchar, upsert_rows, select_row, delete_rows,
}
use civic_archive_api.Repositories.Common.{
  Postgres, dedupe_rows_by_key, Condition, search_filter, add_truthy_equals_filter,
  add_bound_filter, execute_filtered_paginated_query,
}

-- `NewsArticleUpsertDTO`, the columns of a row besides its id and times
pub record Article : Type 0 where
  pub source : Option String
  pub title : String
  pub url : String
  pub published_at : Option ℤ
  pub author : Option String
  pub summary : Option String
  pub content : Option String
  pub keywords : Json

-- `NewsListQuery`
pub record NewsListQuery : Type 0 where
  pub page : ℕ
  pub size : ℕ
  pub q : Option String
  pub source : Option String
  pub date_from : Option String
  pub date_to : Option String

abbrev pub url_of : Article → String
url_of a = a.url

-- A row for the columns of the table; `accepts` is whether PostgreSQL takes it apart from their
-- widths, which it does not, for one, where a text has the character 0.
abbrev pub article_fits : (Article → Bool) → Article → Bool
article_fits accepts a = fits_varchar 255 a.source && fits_varchar 255 a.author && accepts a

unfoldable pub upsert_articles :
    (Article → Bool) → ℕ → List Article → Table Article → Result (Counts × Table Article)
upsert_articles accepts now [] t = ok (record { inserted = 0; updated = 0 }, t)
upsert_articles accepts now (a ∷ articles) t =
    upsert_rows url_of (article_fits accepts) now [] (dedupe_rows_by_key url_of (a ∷ articles)) t

-- A row of the list has no content.
pub record ArticleListItem : Type 0 where
  pub id : ℕ
  pub source : Option String
  pub title : String
  pub url : String
  pub published_at : Option ℤ
  pub author : Option String
  pub summary : Option String
  pub keywords : Json
  pub created_at : ℕ
  pub updated_at : ℕ

abbrev pub article_item : Row Article → ArticleListItem
article_item r = record {
  id = r.id;
  source = r.columns.source;
  title = r.columns.title;
  url = r.columns.url;
  published_at = r.columns.published_at;
  author = r.columns.author;
  summary = r.columns.summary;
  keywords = r.columns.keywords;
  created_at = r.created_at;
  updated_at = r.updated_at;
}

unfoldable pub article_conditions : Postgres → NewsListQuery → List (Condition Article)
unfolding search_filter add_truthy_equals_filter add_bound_filter
article_conditions db query =
    search_filter db (λ a. some a.title ∷ a.summary ∷ a.content ∷ []) query.q
    ++ add_truthy_equals_filter query.source (λ a. a.source)
    ++ add_bound_filter query.date_from (λ a. a.published_at)
        (λ at bound. leb_ℤ (db.day_start (db.date_of bound)) at)
    ++ add_bound_filter query.date_to (λ a. a.published_at)
        (λ at bound. ltb_ℤ at (db.day_start (succ (db.date_of bound))))

-- `coalesce(published_at, created_at)`
abbrev pub article_time : Row Article → ℤ
article_time r = elim r.columns.published_at [ none ↦ pos r.created_at | some at ↦ at ]

unfoldable pub list_articles :
    Postgres → NewsListQuery → Table Article → Result (List ArticleListItem × ℕ)
unfolding article_conditions execute_filtered_paginated_query
list_articles db query t = do
  (rows, total) ←
      execute_filtered_paginated_query article_time (article_conditions db query) query.page
        query.size t
  ok (map article_item rows, total)

unfoldable pub get_article : ℕ → Table Article → Option (Row Article)
get_article item_id t = select_row item_id t.rows

-- Whether a row was deleted, and the table after it.
unfoldable pub delete_article : ℕ → Table Article → Bool × Table Article
delete_article item_id t =
    let t' = delete_rows item_id t in (ltb (length t'.rows) (length t.rows), t')
