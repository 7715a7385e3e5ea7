-- ===== src/Routes/News/Tests.antt =====
-- Requests for news, and the theorems about them.
use civic_archive_api.Prelude.{◌≡◌, refl, none, [], ◌∷◌}
use civic_archive_api.Text.{strip, is_empty, or_none}
use civic_archive_api.Json.{null, str}
use civic_archive_api.Errors.{ok}
use civic_archive_api.Repositories.Rows.{Table}
use civic_archive_api.Repositories.News.{Article}
use civic_archive_api.Services.Values.{json, optional_str}
use civic_archive_api.Services.News.{
  Datetimes, NewsItem, require_title_and_url, parse_datetime, normalize_article,
}
use civic_archive_api.Routes.{normalize_all}

abbrev no_texts : Datetimes
no_texts = record { fromisoformat = λ s. none; strptime = λ format s. none; shown = λ v. "value" }

abbrev item : NewsItem
item = record {
  source = json null;
  title = json (str " Budget ");
  url = json (str "u1");
  published_at = json null;
  author = json (str " ");
  summary = json null;
  content = json null;
  keywords = null;
}

abbrev article : Article
article = record {
  source = none;
  title = "Budget";
  url = "u1";
  published_at = none;
  author = none;
  summary = none;
  content = none;
  keywords = null;
}

abbrev no_news : Table Article
no_news = record { rows = []; next_id = 1 }

normal : normalize_all (normalize_article no_texts) (item ∷ []) ≡ ok (article ∷ [])
unfolding normalize_all normalize_article require_title_and_url parse_datetime optional_str strip
    is_empty or_none
normal = refl
