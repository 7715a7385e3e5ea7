-- ===== src/Repositories/News/Laws.antt =====
-- What the news repository promises.
use civic_archive_api.Prelude.{
  ℕ, ◌+◌, ◌≡◌, refl, String, none, Bool, true, false, ◌⊎◌, inr, all, List, [], ◌∷◌, length, eqb,
  arith, if◌then◌else◌,
}
use civic_archive_api.Errors.{database_error, ok, raise}
use civic_archive_api.Repositories.Rows.{Table, Counts, delete_rows}
use civic_archive_api.Repositories.Dedupe.{keep_last}
use civic_archive_api.Repositories.Upsert.{overlay, stored, last_with}
use civic_archive_api.Repositories.Batch.{upsert_batch}
use civic_archive_api.Repositories.Removal.{is_found, select-without, without-found}
use civic_archive_api.Repositories.News.{
  Article, url_of, article_fits, upsert_articles, get_article, delete_article,
}

-- A batch of articles is refused, with an error of the database, if the last article of a URL does not
-- fit the columns of the table. Else it is stored: under each URL the table then holds the last article
-- of the batch with that URL, or what it held before; the counts are those of the URLs of the batch,
-- and the inserted ones are the rows by which the table has grown.
pub upsert_articles-stored :
    (accepts : Article → Bool) (now : ℕ) (articles : List Article) (t : Table Article)
    → ((all (article_fits accepts) (keep_last url_of articles) ≡ false)
        × (upsert_articles accepts now articles t ≡ raise database_error))
      ⊎ ((all (article_fits accepts) (keep_last url_of articles) ≡ true)
          × (counts : Counts) × (t' : Table Article) × (upsert_articles accepts now articles t
              ≡ ok (counts, t'))
          × (counts.inserted + counts.updated ≡ length (keep_last url_of articles))
          × (counts.inserted + length t.rows ≡ length t'.rows)
          × ((url : String)
              → stored url_of url t'.rows
                ≡ overlay (last_with url_of url articles) (stored url_of url t.rows)))
unfolding upsert_articles
upsert_articles-stored accepts now [] t =
    unfold keep_last last_with in
    inr (refl, record { inserted = 0; updated = 0 }, t, refl, omega arith, omega arith, λ url. refl)
upsert_articles-stored accepts now (a ∷ articles) t =
    upsert_batch url_of (article_fits accepts) now (a ∷ articles) t

-- A deletion answers whether the article was there; after it that article is not found, and every
-- other is found as before.
delete_article-get :
    (id other : ℕ) (t : Table Article)
    → ((delete_article id t).0 ≡ is_found (get_article id t))
      × (get_article other (delete_article id t).1
          ≡ (if eqb id other then none else get_article other t))
unfolding delete_article get_article
delete_article-get id other t =
    unfold delete_rows in (without-found id t.rows, select-without id other t.rows)
