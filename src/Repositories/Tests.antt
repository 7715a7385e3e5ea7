-- ===== src/Repositories/Tests.antt =====
-- Batches and lists on small tables, and the theorems about them.
use civic_archive_api.Prelude.{
  ℕ, arith, all, true, ◌⊎◌, ◌+◌, ◌≡◌, refl, String, Bool, false, none, some, List, [], ◌∷◌, map,
  length, count_if, ◌==◌, if◌then◌else◌,
}
use civic_archive_api.Prelude.Int.{pos}
use civic_archive_api.Text.{text_length, is_empty, strip}
use civic_archive_api.Json.{null}
use civic_archive_api.Errors.{Result, database_error, ok, raise}
use civic_archive_api.Repositories.Rows.{
  Row, Table, Counts, find_row, update_row, upsert_found, upsert_rows, select_row, delete_rows,
}
use civic_archive_api.Repositories.Common.{
  dedupe_reversed, dedupe_rows_by_key, Postgres, order_by, select_where,
  execute_filtered_paginated_query, execute_paginated_query, place, precedes, search_filter,
  add_truthy_equals_filter, add_bound_filter,
}
use civic_archive_api.Repositories.Dedupe.{keep_last}
use civic_archive_api.Repositories.Upsert.{overlay, stored, last_with}
use civic_archive_api.Repositories.Pages.{IsOrdered, order_by-sorts}
use civic_archive_api.Repositories.News.{
  Article, url_of, article_fits, NewsListQuery, upsert_articles, article_item, article_time,
  article_conditions, list_articles, get_article, delete_article,
}
use civic_archive_api.Repositories.News.Laws.{upsert_articles-stored}
use civic_archive_api.Repositories.Distinct.{IsKeyed}
use civic_archive_api.Repositories.News.Archive.{
  NewsCall, save, remove, perform, perform_all, specified_all, perform_all-specified,
}
use civic_archive_api.Repositories.Minutes.{Minutes, JsonText, MinutesListQuery}
use civic_archive_api.Repositories.Segments.{
  Segment, SegmentUpsert, insert_segments, insert_next, insert_payload, insert_unless_conflict,
  SegmentsListQuery,
}

abbrev article : String → String → Article
article url title = record {
  source = some "daily";
  title = title;
  url = url;
  published_at = none;
  author = none;
  summary = none;
  content = none;
  keywords = null;
}

abbrev takes : Article → Bool
takes a = true

abbrev map_result : {A B : Type 0} → (A → B) → Result A → Result B
map_result f (ok a) = ok (f a)
map_result f (raise e) = raise e

abbrev batch : List Article
batch = article "u1" "draft" ∷ article "u2" "second" ∷ article "u1" "final" ∷ []

abbrev archive : Table Article
archive = record {
  rows = record { id = 1; columns = article "u2" "old"; created_at = 5; updated_at = 5 } ∷ [];
  next_id = 2;
}

repository : Unit {0}
unfolding dedupe_rows_by_key dedupe_reversed keep_last upsert_articles upsert_rows find_row
    update_row upsert_found select_row delete_rows execute_filtered_paginated_query
    execute_paginated_query order_by place precedes select_where search_filter
    add_truthy_equals_filter add_bound_filter article_conditions list_articles get_article
    delete_article is_empty strip insert_segments insert_next insert_payload text_length
    insert_unless_conflict
repository = tt

last_titles : map (λ a. a.title) (dedupe_rows_by_key url_of batch) ≡ "second" ∷ "final" ∷ []
unfolding repository
last_titles = refl

abbrev archived : Table Article
archived = record {
  rows =
      record { id = 1; columns = article "u2" "second"; created_at = 5; updated_at = 9 }
      ∷ record { id = 3; columns = article "u1" "final"; created_at = 9; updated_at = 9 }
      ∷ [];
  next_id = 4;
}

batch_upserted :
    upsert_articles takes 9 batch archive ≡ ok (record { inserted = 1; updated = 1 }, archived)
unfolding repository
batch_upserted = refl

upsert_articles-stored_example :
    ((all (article_fits takes) (keep_last url_of batch) ≡ false)
      × (upsert_articles takes 9 batch archive ≡ raise database_error))
    ⊎ ((all (article_fits takes) (keep_last url_of batch) ≡ true)
        × (counts : Counts) × (t' : Table Article) × (upsert_articles takes 9 batch archive
            ≡ ok (counts, t'))
        × (counts.inserted + counts.updated ≡ length (keep_last url_of batch))
        × (counts.inserted + length archive.rows ≡ length t'.rows)
        × ((url : String)
            → stored url_of url t'.rows
              ≡ overlay (last_with url_of url batch) (stored url_of url archive.rows)))
upsert_articles-stored_example = upsert_articles-stored takes 9 batch archive

archive-IsKeyed : IsKeyed url_of archive
unfolding repository stored
archive-IsKeyed = ((refl, refl, tt), (omega arith, tt))

abbrev calls : List NewsCall
calls = save 9 batch ∷ remove 1 ∷ []

only_one_left : map (λ r. r.columns.title) (perform_all takes calls archive).rows ≡ "final" ∷ []
unfolding repository perform_all perform
only_one_left = refl

perform_all-specified_example :
    IsKeyed url_of (perform_all takes calls archive)
    × ((url : String)
        → stored url_of url (perform_all takes calls archive).rows
          ≡ specified_all takes calls archive (λ u. stored url_of u archive.rows) url)
    × ((id : ℕ) (r : Row Article)
        → get_article id (perform_all takes calls archive) ≡ some r
        → specified_all takes calls archive (λ u. stored url_of u archive.rows) (url_of r.columns)
          ≡ some r.columns)
perform_all-specified_example = perform_all-specified takes calls archive archive-IsKeyed

-- A database with dates of three digits.
abbrev postgres : Postgres
postgres = record {
  ilike = λ document pattern. false;
  text_search = λ document query. document == query;
  date_of = λ text. if text == "010" then pos 10 else pos 20;
  day_start = λ day. day;
}

abbrev all_news : NewsListQuery
all_news = record {
  page = 1;
  size = 1;
  q = none;
  source = some "daily";
  date_from = none;
  date_to = none;
}

latest_first :
    list_articles postgres all_news archived
    ≡ ok (
      article_item
            (record { id = 3; columns = article "u1" "final"; created_at = 9; updated_at = 9 })
          ∷ [],
      2,
    )
unfolding repository
latest_first = refl

order_by-sorts_example :
    IsOrdered article_time (order_by article_time archived.rows)
    × ((p : Row Article → Bool)
        → count_if p (order_by article_time archived.rows) ≡ count_if p archived.rows)
order_by-sorts_example = order_by-sorts article_time archived.rows

abbrev sitting : Minutes
sitting = record {
  council = "A";
  committee = none;
  session = none;
  meeting_no = none;
  meeting_no_combined = none;
  url = "m1";
  meeting_date = some (pos 15);
  content = none;
  tag = null;
  attendee = null;
  agenda = null;
}

abbrev minutes_table : Table Minutes
minutes_table = record {
  rows = record { id = 1; columns = sitting; created_at = 5; updated_at = 5 } ∷ [];
  next_id = 2;
}

abbrev no_text : JsonText
no_text json = none

abbrev since_ten : MinutesListQuery
since_ten = record {
  page = 1;
  size = 20;
  q = none;
  council = some "A";
  committee = none;
  session = none;
  meeting_no = none;
  date_from = some "010";
  date_to = none;
}

abbrev speech : Segment
speech = record {
  council = "A";
  committee = none;
  session = none;
  meeting_no = none;
  meeting_no_combined = none;
  meeting_date = none;
  content = some "hello";
  summary = none;
  subject = none;
  tag = null;
  importance = some (pos 2);
  moderator = null;
  questioner = null;
  answerer = null;
  party = none;
  constituency = none;
  department = none;
  dedupe_hash = none;
}

abbrev hashed : String → SegmentUpsert
hashed hash = record { segment = speech; dedupe_hash = hash; dedupe_hash_legacy = some "h0" }

abbrev speeches : Table Segment
speeches = record { rows = []; next_id = 1 }

one_of_two :
    map_result (λ p. p.0) (insert_segments (λ p. true) 9 (hashed "h1" ∷ hashed "h1" ∷ []) speeches)
    ≡ ok 1
unfolding repository
one_of_two = refl

abbrev important : SegmentsListQuery
important = record {
  page = 1;
  size = 5;
  q = none;
  council = none;
  committee = none;
  session = none;
  meeting_no = none;
  importance = some (pos 2);
  party = none;
  constituency = none;
  department = none;
  date_from = none;
  date_to = none;
}

abbrev one_speech : Table Segment
one_speech = record {
  rows = record { id = 1; columns = speech; created_at = 5; updated_at = 5 } ∷ [];
  next_id = 2;
}
