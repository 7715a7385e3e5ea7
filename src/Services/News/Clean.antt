-- ===== src/Services/News/Clean.antt =====
-- The texts of a normalised article.
use civic_archive_api.Prelude.{String, ◌≡◌, sym, Option, none, some}
use civic_archive_api.Errors.{ok, chain-eq-ok}
use civic_archive_api.Repositories.News.{Article}
use civic_archive_api.Services.Values.{optional_str}
use civic_archive_api.Services.Minutes.Clean.{IsClean, IsCleanIfAny, optional_str-IsCleanIfAny}
use civic_archive_api.Services.News.{
  Datetimes, NewsItem, article_of, require_title_and_url, parse_datetime, normalize_article,
}

-- The texts of the article that a repository stores.
pub record IsCleanArticle (a : Article) : Type 0 where
  pub title : IsClean a.title
  pub url : IsClean a.url
  pub source : IsCleanIfAny a.source
  pub author : IsCleanIfAny a.author
  pub summary : IsCleanIfAny a.summary
  pub content : IsCleanIfAny a.content

require_title_and_url-IsClean :
    (t u : Option String) {texts : String × String}
    → IsCleanIfAny t
    → IsCleanIfAny u
    → require_title_and_url t u ≡ ok texts
    → IsClean texts.0 × IsClean texts.1
unfolding require_title_and_url
require_title_and_url-IsClean (some t) (some u) {texts = texts} ht hu e =
    let same : (t, u) ≡ texts = cc e in rw (sym same) (ht, hu)
require_title_and_url-IsClean (some t) none ht hu e = cc
require_title_and_url-IsClean none u ht hu e = cc

-- What an item is normalised to has no blank text and no white space around one; its title and its
-- URL are not empty.
pub normalize_article-IsCleanArticle :
    (library : Datetimes) (item : NewsItem) (a : Article)
    → normalize_article library item ≡ ok a
    → IsCleanArticle a
unfolding normalize_article
normalize_article-IsCleanArticle library item a e =
    let (texts, rest, required) =
      chain-eq-ok _ (require_title_and_url (optional_str item.title) (optional_str item.url)) e in
    let (at, last, _) = chain-eq-ok _ (parse_datetime library item.published_at) rest in
    let e' : article_of item texts at ≡ a = cc last in
    let (title, url) =
      require_title_and_url-IsClean (optional_str item.title) (optional_str item.url)
        (optional_str-IsCleanIfAny item.title) (optional_str-IsCleanIfAny item.url) required in
    rw (sym e') (record {
      title = title;
      url = url;
      source = optional_str-IsCleanIfAny item.source;
      author = optional_str-IsCleanIfAny item.author;
      summary = optional_str-IsCleanIfAny item.summary;
      content = optional_str-IsCleanIfAny item.content;
    })
