-- ===== src/Repositories/News/Archive.antt =====
-- The table `news_articles` as an archive of articles by URL, and what a history of calls of the
-- repository does to it.
use mathlib.Core.Path.{subst}
use civic_archive_api.Prelude.{
  ℕ, ◌≡◌, refl, ap, sym, ◌∙◌, String, Bool, inl, inr, all, Option, none, some, List, [], ◌∷◌, ◌==◌,
  if◌then◌else◌,
}
use civic_archive_api.Errors.{Result, ok, raise}
use civic_archive_api.Repositories.Rows.{Row, Table, Counts, select_row}
use civic_archive_api.Repositories.Upsert.{overlay, overlay_if, stored, last_with}
use civic_archive_api.Repositories.Dedupe.{keep_last}
use civic_archive_api.Repositories.Distinct.{IsKeyed, IsKeyed-delete_rows, IsKeyed-upsert_rows}
use civic_archive_api.Repositories.Lookup.{stored-delete_rows, select-stored, forget}
use civic_archive_api.Repositories.News.{
  Article, url_of, article_fits, upsert_articles, get_article, delete_article,
}
use civic_archive_api.Repositories.News.Laws.{upsert_articles-stored}

-- The article under a URL.
abbrev pub Archive : Type 0
Archive = String → Option Article

-- The articles one after the other, each in place of the one with its URL.
unfoldable pub put_all : List Article → Archive → Archive
put_all [] m = m
put_all (a ∷ articles) m = put_all articles (λ url. if url_of a == url then some a else m url)

-- The archive without the URL of an article.
abbrev pub take_out : Option (Row Article) → Archive → Archive
take_out none m = m
take_out (some r) m = λ url. if url_of r.columns == url then none else m url

-- A call of the repository that writes.
pub data NewsCall : Type 0 where
  save : ℕ → List Article → NewsCall
  remove : ℕ → NewsCall

-- A call that fails leaves the table as it was.
abbrev pub table_after : Table Article → Result (Counts × Table Article) → Table Article
table_after t (raise e) = t
table_after t (ok (counts, t')) = t'

unfoldable pub perform : (Article → Bool) → NewsCall → Table Article → Table Article
perform accepts (save now articles) t = table_after t (upsert_articles accepts now articles t)
perform accepts (remove id) t = (delete_article id t).1

unfoldable pub perform_all : (Article → Bool) → List NewsCall → Table Article → Table Article
perform_all accepts [] t = t
perform_all accepts (call ∷ calls) t = perform_all accepts calls (perform accepts call t)

-- What the archive becomes: a save of which a last article of a URL does not fit is none. An id is that of the article that has it at the time of the call.
unfoldable pub specified : (Article → Bool) → NewsCall → Table Article → Archive → Archive
specified accepts (save now articles) t m =
    if all (article_fits accepts) (keep_last url_of articles) then put_all articles m else m
specified accepts (remove id) t m = take_out (get_article id t) m

unfoldable pub specified_all : (Article → Bool) → List NewsCall → Table Article → Archive → Archive
specified_all accepts [] t m = m
specified_all accepts (call ∷ calls) t m =
    specified_all accepts calls (perform accepts call t) (specified accepts call t m)

put_all-last_with :
    (articles : List Article) (m : Archive) (url : String)
    → put_all articles m url ≡ overlay (last_with url_of url articles) (m url)
unfolding put_all last_with
put_all-last_with [] m url = refl
put_all-last_with (a ∷ articles) m url =
    put_all-last_with articles (λ u. if url_of a == u then some a else m u) url
    ∙ sym (overlay_if (last_with url_of url articles) (url_of a == url) a (m url))

take_out-forget :
    (o : Option (Row Article)) (m : Archive) (url : String) (old : Option Article)
    → old ≡ m url
    → forget url_of o url old ≡ take_out o m url
take_out-forget none m url old h = h
take_out-forget (some r) m url old h = rw h refl

upsert_articles-IsKeyed :
    (accepts : Article → Bool) (now : ℕ) (articles : List Article) (t : Table Article)
    (counts : Counts) (t' : Table Article)
    → IsKeyed url_of t
    → upsert_articles accepts now articles t ≡ ok (counts, t')
    → IsKeyed url_of t'
unfolding upsert_articles
upsert_articles-IsKeyed accepts now [] t counts t' keyed h =
    let e : t ≡ t' = cc in subst (IsKeyed url_of) e keyed
upsert_articles-IsKeyed accepts now (a ∷ articles) t counts t' keyed h =
    IsKeyed-upsert_rows url_of (article_fits accepts) now [] _ t counts t' keyed h

-- One call.
perform-specified :
    (accepts : Article → Bool) (call : NewsCall) (t : Table Article) (m : Archive)
    → IsKeyed url_of t
    → ((url : String) → stored url_of url t.rows ≡ m url)
    → IsKeyed url_of (perform accepts call t)
      × ((url : String)
          → stored url_of url (perform accepts call t).rows ≡ specified accepts call t m url)
unfolding perform specified
perform-specified accepts (save now articles) t m keyed h =
    elim (upsert_articles-stored accepts now articles t) [
      | inl (wide, failed) ↦ rw (wide, failed) (keyed, h)
      | inr (fitting, counts, t', done, _, _, now_stored) ↦
          rw (fitting, done)
            (
              upsert_articles-IsKeyed accepts now articles t counts t' keyed done,
              λ url.
                  now_stored url
                  ∙ ap (overlay (last_with url_of url articles)) (h url)
                  ∙ sym (put_all-last_with articles m url),
            )
    ]
perform-specified accepts (remove id) t m keyed h =
    unfold delete_article get_article in
    (
      IsKeyed-delete_rows url_of id t keyed,
      λ url.
          stored-delete_rows url_of url id t keyed
          ∙ take_out-forget (select_row id t.rows) m url _ (h url),
    )

calls_refine :
    (accepts : Article → Bool) (calls : List NewsCall) (t : Table Article) (m : Archive)
    → IsKeyed url_of t
    → ((url : String) → stored url_of url t.rows ≡ m url)
    → IsKeyed url_of (perform_all accepts calls t)
      × ((url : String)
          → stored url_of url (perform_all accepts calls t).rows
            ≡ specified_all accepts calls t m url)
unfolding perform_all specified_all
calls_refine accepts [] t m keyed h = (keyed, h)
calls_refine accepts (call ∷ calls) t m keyed h =
    let (keyed', h') = perform-specified accepts call t m keyed h in
    calls_refine accepts calls (perform accepts call t) (specified accepts call t m) keyed' h'

-- A table in which ids and URLs are those of one row each implements an archive by URL: whatever is
-- saved and deleted, they stay so; the article under a URL is the one that the archive has, where a
-- save puts its articles one after the other, or, if the last of them under a URL does not fit the
-- columns of the table, changes nothing, and a deletion takes out the URL of the article with the
-- id; and an article that is found by its id is the one under its URL.
pub perform_all-specified :
    (accepts : Article → Bool) (calls : List NewsCall) (t : Table Article)
    → IsKeyed url_of t
    → IsKeyed url_of (perform_all accepts calls t)
      × ((url : String)
          → stored url_of url (perform_all accepts calls t).rows
            ≡ specified_all accepts calls t (λ u. stored url_of u t.rows) url)
      × ((id : ℕ) (r : Row Article)
          → get_article id (perform_all accepts calls t) ≡ some r
          → specified_all accepts calls t (λ u. stored url_of u t.rows) (url_of r.columns)
            ≡ some r.columns)
unfolding get_article
perform_all-specified accepts calls t keyed =
    let (keyed', refined) =
      calls_refine accepts calls t (λ u. stored url_of u t.rows) keyed (λ url. refl) in
    (
      keyed',
      refined,
      λ id r found.
          sym (refined (url_of r.columns))
          ∙ select-stored url_of id r (perform_all accepts calls t).rows keyed'.0 found,
    )
