-- ===== src/Routes/News.antt =====
-- app/routes/news.py: the handlers of the news, on the table as the repository has it.
pub mod Laws
mod Tests
use civic_archive_api.Prelude.{ℕ, String, Bool, Option, List, length}
use civic_archive_api.Errors.{Result, ok, ◌>>=◌}
use civic_archive_api.Config.{Config}
use civic_archive_api.Repositories.Rows.{Row, Table, Counts}
use civic_archive_api.Repositories.Common.{Postgres}
use civic_archive_api.Repositories.News.{
  Article, ArticleListItem, NewsListQuery, upsert_articles, list_articles, get_article,
  delete_article,
}
use civic_archive_api.Services.Dates.{Date}
use civic_archive_api.Services.News.{Datetimes, NewsItem, normalize_article}
use civic_archive_api.Routes.{
  enforce_ingest_batch_limit, normalize_all, row_or_404, answer_deletion, shown_date, ListResponse,
}

-- `save_news` on the list of the items of the payload: the counts of the response, and the table.
unfoldable pub save_news :
    Config
    → (Article → Bool)
    → Datetimes
    → ℕ
    → List NewsItem
    → Table Article
    → Result (Counts × Table Article)
unfolding enforce_ingest_batch_limit normalize_all
save_news c accepts library now payload_items t = do
  u ← enforce_ingest_batch_limit c.ingest_max_batch_items (length payload_items)
  items ← normalize_all (normalize_article library) payload_items
  upsert_articles accepts now items t

-- The parameters of `list_news`, which FastAPI has checked: the page is 1 or more, the size 1 to 200.
pub record NewsParameters : Type 0 where
  pub q : Option String
  pub source : Option String
  pub page : ℕ
  pub size : ℕ
  pub date_from : Option Date
  pub date_to : Option Date

abbrev pub news_query : NewsParameters → NewsListQuery
news_query p = record {
  page = p.page;
  size = p.size;
  q = p.q;
  source = p.source;
  date_from = shown_date p.date_from;
  date_to = shown_date p.date_to;
}

unfoldable pub list_news :
    Postgres → NewsParameters → Table Article → Result (ListResponse ArticleListItem)
unfolding list_articles
list_news db p t = do
  (rows, total) ← list_articles db (news_query p) t
  ok (record { page = p.page; size = p.size; total = total; items = rows })

-- `get_news` of the routes
unfoldable pub show_news : ℕ → Table Article → Result (Row Article)
unfolding row_or_404
show_news item_id t = row_or_404 (get_article item_id t)

-- `delete_news` of the routes: the response is the id, and the table after it.
unfoldable pub remove_news : ℕ → Table Article → Result ℕ × Table Article
unfolding answer_deletion
remove_news item_id t = answer_deletion item_id (delete_article item_id t)
