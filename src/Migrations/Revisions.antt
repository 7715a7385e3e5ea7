-- ===== src/Migrations/Revisions.antt =====
-- The revisions of migrations/versions: what `upgrade` and `downgrade` of each do. The columns of a
-- document are those of the expression of its search indexes.
use civic_archive_api.Prelude.{String, true, false, List, [], ◌∷◌, map}
use civic_archive_api.Migrations.{
  integer, small_integer, text, date, timestamp, timestamptz, jsonb, varchar, Columns, column,
  required_column, unique_column, id_column, time_column, Part, ascending, descending, document,
  Method, btree, search_trgm, search_fts, Index, Operation, create_table, drop_table, add_column,
  drop_column, alter_column, create_index, drop_index, create_index_if_not_exists,
  drop_index_if_exists, create_extension_if_not_exists,
}

abbrev pub news_articles : Columns
news_articles =
    id_column
    ∷ column "source" (varchar 255)
    ∷ required_column "title" text
    ∷ unique_column "url" text
    ∷ column "published_at" timestamp
    ∷ column "author" (varchar 255)
    ∷ column "summary" text
    ∷ column "content" text
    ∷ column "keywords" jsonb
    ∷ time_column "created_at"
    ∷ time_column "updated_at"
    ∷ []

abbrev pub council_minutes : Columns
council_minutes =
    id_column
    ∷ required_column "council" (varchar 255)
    ∷ column "committee" (varchar 255)
    ∷ column "session" (varchar 255)
    ∷ column "meeting_no" integer
    ∷ column "meeting_no_combined" (varchar 255)
    ∷ unique_column "url" text
    ∷ column "meeting_date" date
    ∷ column "content" text
    ∷ column "tag" jsonb
    ∷ column "attendee" jsonb
    ∷ column "agenda" jsonb
    ∷ time_column "created_at"
    ∷ time_column "updated_at"
    ∷ []

abbrev pub council_speech_segments : Columns
council_speech_segments =
    id_column
    ∷ required_column "council" (varchar 255)
    ∷ column "committee" (varchar 255)
    ∷ column "session" (varchar 255)
    ∷ column "meeting_no" integer
    ∷ column "meeting_date" date
    ∷ column "meeting_no_combined" (varchar 255)
    ∷ column "content" text
    ∷ column "summary" text
    ∷ column "subject" text
    ∷ column "tag" jsonb
    ∷ column "importance" small_integer
    ∷ column "moderator" jsonb
    ∷ column "questioner" jsonb
    ∷ column "answerer" jsonb
    ∷ column "party" (varchar 255)
    ∷ column "constituency" (varchar 255)
    ∷ column "department" (varchar 255)
    ∷ time_column "created_at"
    ∷ time_column "updated_at"
    ∷ []

abbrev plain : String → String → Index
plain table name = record {
  table = table;
  method = btree;
  parts = ascending name ∷ [];
  unique = false;
}

-- `upgrade` of the first revision
unfoldable pub initial_upgrade : List Operation
initial_upgrade =
    create_table "news_articles" news_articles
    ∷ create_table "council_minutes" council_minutes
    ∷ create_table "council_speech_segments" council_speech_segments
    ∷ create_index "ix_news_articles_source" (plain "news_articles" "source")
    ∷ create_index "ix_news_articles_published_at" (plain "news_articles" "published_at")
    ∷ create_index "ix_council_minutes_council" (plain "council_minutes" "council")
    ∷ create_index "ix_council_minutes_committee" (plain "council_minutes" "committee")
    ∷ create_index "ix_council_minutes_session" (plain "council_minutes" "session")
    ∷ create_index "ix_council_minutes_meeting_date" (plain "council_minutes" "meeting_date")
    ∷ create_index "ix_council_minutes_meeting_no_combined"
        (plain "council_minutes" "meeting_no_combined")
    ∷ create_index "ix_council_segments_council" (plain "council_speech_segments" "council")
    ∷ create_index "ix_council_segments_committee" (plain "council_speech_segments" "committee")
    ∷ create_index "ix_council_segments_session" (plain "council_speech_segments" "session")
    ∷ create_index "ix_council_segments_meeting_date"
        (plain "council_speech_segments" "meeting_date")
    ∷ create_index "ix_council_segments_importance" (plain "council_speech_segments" "importance")
    ∷ create_index "ix_council_segments_party" (plain "council_speech_segments" "party")
    ∷ create_index "ix_council_segments_constituency"
        (plain "council_speech_segments" "constituency")
    ∷ create_index "ix_council_segments_department" (plain "council_speech_segments" "department")
    ∷ create_index "ix_council_segments_meeting_no_combined"
        (plain "council_speech_segments" "meeting_no_combined")
    ∷ []

unfoldable pub initial_downgrade : List Operation
initial_downgrade =
    drop_index "ix_council_segments_meeting_no_combined"
    ∷ drop_index "ix_council_segments_department"
    ∷ drop_index "ix_council_segments_constituency"
    ∷ drop_index "ix_council_segments_party"
    ∷ drop_index "ix_council_segments_importance"
    ∷ drop_index "ix_council_segments_meeting_date"
    ∷ drop_index "ix_council_segments_session"
    ∷ drop_index "ix_council_segments_committee"
    ∷ drop_index "ix_council_segments_council"
    ∷ drop_index "ix_council_minutes_meeting_no_combined"
    ∷ drop_index "ix_council_minutes_meeting_date"
    ∷ drop_index "ix_council_minutes_session"
    ∷ drop_index "ix_council_minutes_committee"
    ∷ drop_index "ix_council_minutes_council"
    ∷ drop_index "ix_news_articles_published_at"
    ∷ drop_index "ix_news_articles_source"
    ∷ drop_table "council_speech_segments"
    ∷ drop_table "council_minutes"
    ∷ drop_table "news_articles"
    ∷ []

unfoldable pub dedupe_hash_upgrade : List Operation
dedupe_hash_upgrade =
    add_column "council_speech_segments" (column "dedupe_hash" (varchar 64))
    ∷ create_index "ux_council_segments_dedupe_hash"
        (record (plain "council_speech_segments" "dedupe_hash") { unique = true })
    ∷ []

unfoldable pub dedupe_hash_downgrade : List Operation
dedupe_hash_downgrade =
    drop_index "ux_council_segments_dedupe_hash"
    ∷ drop_column "council_speech_segments" "dedupe_hash"
    ∷ []

unfoldable pub timestamptz_upgrade : List Operation
timestamptz_upgrade = alter_column "news_articles" "published_at" timestamp timestamptz ∷ []

unfoldable pub timestamptz_downgrade : List Operation
timestamptz_downgrade = alter_column "news_articles" "published_at" timestamptz timestamp ∷ []

abbrev index : String → Method → List Part → Index
index table method parts = record { table = table; method = method; parts = parts; unique = false }

abbrev pub news_document : List String
news_document = "title" ∷ "summary" ∷ "content" ∷ []

abbrev pub minutes_document : List String
minutes_document =
    "council" ∷ "committee" ∷ "session" ∷ "content" ∷ "tag" ∷ "attendee" ∷ "agenda" ∷ []

abbrev pub segments_document : List String
segments_document =
    "council" ∷ "committee" ∷ "session" ∷ "content" ∷ "summary" ∷ "subject" ∷ "party"
    ∷ "constituency" ∷ "department" ∷ "tag" ∷ "questioner" ∷ "answerer" ∷ []

-- `upgrade` of the revision of the search indexes
unfoldable pub search_upgrade : List Operation
search_upgrade =
    create_extension_if_not_exists "pg_trgm"
    ∷ create_index_if_not_exists "ix_news_articles_search_trgm"
        (index "news_articles" search_trgm (map document news_document))
    ∷ create_index_if_not_exists "ix_news_articles_search_fts"
        (index "news_articles" search_fts (map document news_document))
    ∷ create_index_if_not_exists "ix_news_articles_source_published_id" (
        index "news_articles" btree
          (ascending "source" ∷ descending "published_at" ∷ descending "id" ∷ []))
    ∷ create_index_if_not_exists "ix_news_articles_published_id"
        (index "news_articles" btree (descending "published_at" ∷ descending "id" ∷ []))
    ∷ create_index_if_not_exists "ix_council_minutes_search_trgm"
        (index "council_minutes" search_trgm (map document minutes_document))
    ∷ create_index_if_not_exists "ix_council_minutes_search_fts"
        (index "council_minutes" search_fts (map document minutes_document))
    ∷ create_index_if_not_exists "ix_council_minutes_filters_date_id" (
        index "council_minutes" btree (
          ascending "council"
          ∷ ascending "committee"
          ∷ ascending "session"
          ∷ descending "meeting_date"
          ∷ descending "id"
          ∷ []))
    ∷ create_index_if_not_exists "ix_council_minutes_date_id"
        (index "council_minutes" btree (descending "meeting_date" ∷ descending "id" ∷ []))
    ∷ create_index_if_not_exists "ix_council_segments_search_trgm"
        (index "council_speech_segments" search_trgm (map document segments_document))
    ∷ create_index_if_not_exists "ix_council_segments_search_fts"
        (index "council_speech_segments" search_fts (map document segments_document))
    ∷ create_index_if_not_exists "ix_council_segments_filters_date_id" (
        index "council_speech_segments" btree (
          ascending "council"
          ∷ ascending "committee"
          ∷ ascending "session"
          ∷ ascending "importance"
          ∷ ascending "party"
          ∷ ascending "constituency"
          ∷ ascending "department"
          ∷ descending "meeting_date"
          ∷ descending "id"
          ∷ []))
    ∷ create_index_if_not_exists "ix_council_segments_date_id"
        (index "council_speech_segments" btree (descending "meeting_date" ∷ descending "id" ∷ []))
    ∷ []

unfoldable pub search_downgrade : List Operation
search_downgrade =
    drop_index_if_exists "ix_council_segments_date_id"
    ∷ drop_index_if_exists "ix_council_segments_filters_date_id"
    ∷ drop_index_if_exists "ix_council_segments_search_fts"
    ∷ drop_index_if_exists "ix_council_segments_search_trgm"
    ∷ drop_index_if_exists "ix_council_minutes_date_id"
    ∷ drop_index_if_exists "ix_council_minutes_filters_date_id"
    ∷ drop_index_if_exists "ix_council_minutes_search_fts"
    ∷ drop_index_if_exists "ix_council_minutes_search_trgm"
    ∷ drop_index_if_exists "ix_news_articles_published_id"
    ∷ drop_index_if_exists "ix_news_articles_source_published_id"
    ∷ drop_index_if_exists "ix_news_articles_search_fts"
    ∷ drop_index_if_exists "ix_news_articles_search_trgm"
    ∷ []

pub data Revision : Type 0 where
  initial_schema add_segments_dedupe_hash make_news_published_at_timestamptz : Revision
  add_search_strategy_indexes : Revision

abbrev pub upgrade : Revision → List Operation
upgrade initial_schema = initial_upgrade
upgrade add_segments_dedupe_hash = dedupe_hash_upgrade
upgrade make_news_published_at_timestamptz = timestamptz_upgrade
upgrade add_search_strategy_indexes = search_upgrade

abbrev pub downgrade : Revision → List Operation
downgrade initial_schema = initial_downgrade
downgrade add_segments_dedupe_hash = dedupe_hash_downgrade
downgrade make_news_published_at_timestamptz = timestamptz_downgrade
downgrade add_search_strategy_indexes = search_downgrade
