-- ===== src/Routes/News/Laws.antt =====
-- What the handlers of the news promise.
use civic_archive_api.Prelude.{
  ℕ, ◌≤◌, ◌≡◌, sym, String, Bool, true, false, ◌⊎◌, inl, inr, all, List, [], ◌∷◌, length,
  if◌then◌else◌,
}
use civic_archive_api.Prelude.Int.{pos}
use civic_archive_api.Errors.{database_error, ok, raise, chain-eq-ok}
use civic_archive_api.Config.{Config}
use civic_archive_api.Repositories.Rows.{Table, Counts}
use civic_archive_api.Repositories.Dedupe.{keep_last}
use civic_archive_api.Repositories.Upsert.{overlay, stored, last_with}
use civic_archive_api.Repositories.Removal.{is_found}
use civic_archive_api.Repositories.News.{Article, url_of, article_fits, get_article, delete_article}
use civic_archive_api.Repositories.News.Laws.{upsert_articles-stored}
use civic_archive_api.Services.News.{Datetimes, NewsItem, normalize_article}
use civic_archive_api.Services.News.Clean.{IsCleanArticle, normalize_article-IsCleanArticle}
use civic_archive_api.Routes.{normalize_all, not_found}
use civic_archive_api.Routes.Deletion.{deletion_once, enforce-within}
use civic_archive_api.Routes.News.{save_news, show_news, remove_news}

-- Every article of a list is clean.
abbrev pub AreCleanArticles : List Article → Type 0
AreCleanArticles [] = Unit
AreCleanArticles (a ∷ articles) = IsCleanArticle a × AreCleanArticles articles

normalize_all-AreCleanArticles :
    (library : Datetimes) (payload : List NewsItem) {items : List Article}
    → normalize_all (normalize_article library) payload ≡ ok items
    → AreCleanArticles items
unfolding normalize_all
normalize_all-AreCleanArticles library [] {items = items} e =
    let e' : [] ≡ items = cc e in rw (sym e') tt
normalize_all-AreCleanArticles library (item ∷ payload) {items = items} e =
    let (a, rest, first) = chain-eq-ok _ (normalize_article library item) e in
    let (others, last, normal) =
      chain-eq-ok _ (normalize_all (normalize_article library) payload) rest in
    let e' : a ∷ others ≡ items = cc last in
    rw (sym e') (
      normalize_article-IsCleanArticle library item a first,
      normalize_all-AreCleanArticles library payload normal,
    )

-- A batch of articles within the limit whose items can all be normalised, to clean texts, is refused
-- with an error of the database if the last article of a URL does not fit the columns of the table.
-- Else it is stored: under each URL the table then holds the last of them, or what it held before.
save_news-stored :
    (c : Config) (limit : ℕ) (accepts : Article → Bool) (library : Datetimes) (now : ℕ)
    (payload : List NewsItem) (items : List Article) (t : Table Article)
    → c.ingest_max_batch_items ≡ pos limit
    → length payload ≤ limit
    → normalize_all (normalize_article library) payload ≡ ok items
    → AreCleanArticles items
      × (((all (article_fits accepts) (keep_last url_of items) ≡ false)
            × (save_news c accepts library now payload t ≡ raise database_error))
          ⊎ ((all (article_fits accepts) (keep_last url_of items) ≡ true)
              × (counts : Counts) × (t' : Table Article) × (save_news c accepts library now payload
                    t
                  ≡ ok (counts, t'))
              × ((url : String)
                  → stored url_of url t'.rows
                    ≡ overlay (last_with url_of url items) (stored url_of url t.rows))))
unfolding save_news
save_news-stored c limit accepts library now payload items t bound few normal = (
  normalize_all-AreCleanArticles library payload normal,
  elim (upsert_articles-stored accepts now items t) [
    | inl (wide, failed) ↦
        inl (wide, rw (bound, enforce-within limit (length payload) few, normal) failed)
    | inr (fitting, counts, t', same, _, _, held) ↦ inr (
      fitting,
      counts,
      t',
      rw (bound, enforce-within limit (length payload) few, normal) same,
      held,
    )
  ],
)

-- An article is deleted exactly once: the first call answers with the id if it is there, and any
-- later one, like a call for what is not there, with 404.
remove_news-once :
    (id : ℕ) (t : Table Article)
    → ((remove_news id t).0 ≡ (if is_found (get_article id t) then ok id else raise not_found))
      × ((remove_news id (remove_news id t).1).0 ≡ raise not_found)
      × (show_news id (remove_news id t).1 ≡ raise not_found)
unfolding remove_news show_news delete_article get_article
remove_news-once id t = deletion_once id t
