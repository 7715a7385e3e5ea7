-- ===== src/Migrations/Tests.antt =====
-- The revisions, one after the other, from an empty schema.
use civic_archive_api.Prelude.{
  String, ap, sym, ◌∙◌, ◌≡◌, refl, Bool, true, none, some, List, [], ◌∷◌, all,
}
use civic_archive_api.Errors.{Result, ok, raise, ◌>>=◌}
use civic_archive_api.Migrations.{
  Schema, timestamp, timestamptz, empty_schema, has_column, set_type, set, apply, run, column,
}
use civic_archive_api.Migrations.Consistent.{IsConsistent}
use civic_archive_api.Migrations.Revisions.{
  initial_upgrade, initial_downgrade, dedupe_hash_upgrade, dedupe_hash_downgrade,
  timestamptz_upgrade, timestamptz_downgrade, search_upgrade, search_downgrade, upgrade, downgrade,
  initial_schema, add_segments_dedupe_hash, make_news_published_at_timestamptz,
  add_search_strategy_indexes,
}
use civic_archive_api.Migrations.Undo.{AllFit, downgrade_restores}

revisions : Unit {0}
unfolding initial_upgrade dedupe_hash_upgrade timestamptz_upgrade search_upgrade initial_downgrade
    dedupe_hash_downgrade timestamptz_downgrade search_downgrade run apply
revisions = tt

abbrev head : Result Schema
head = do
  s1 ← run (upgrade initial_schema) empty_schema
  s2 ← run (upgrade add_segments_dedupe_hash) s1
  s3 ← run (upgrade make_news_published_at_timestamptz) s2
  run (upgrade add_search_strategy_indexes) s3

-- Whether a table has all of the columns.
abbrev has_columns : String → List String → Result Schema → Bool
has_columns name columns (raise e) = all (λ c. has_column c []) columns
has_columns name columns (ok s) = elim (s.tables name) [
  | none ↦ all (λ c. has_column c []) columns
  | some found ↦ all (λ c. has_column c found) columns
]

-- The columns that the repositories read and write.
news_columns :
    has_columns "news_articles"
      ("id" ∷ "source" ∷ "title" ∷ "url" ∷ "published_at" ∷ "author" ∷ "summary" ∷ "content"
        ∷ "keywords" ∷ "created_at" ∷ "updated_at" ∷ [])
      head
    ≡ true
unfolding revisions
news_columns = refl

minutes_columns :
    has_columns "council_minutes"
      ("id" ∷ "council" ∷ "committee" ∷ "session" ∷ "meeting_no" ∷ "meeting_no_combined" ∷ "url"
        ∷ "meeting_date" ∷ "content" ∷ "tag" ∷ "attendee" ∷ "agenda" ∷ "created_at" ∷ "updated_at"
        ∷ [])
      head
    ≡ true
unfolding revisions
minutes_columns = refl

segments_columns :
    has_columns "council_speech_segments"
      ("id" ∷ "council" ∷ "committee" ∷ "session" ∷ "meeting_no" ∷ "meeting_no_combined"
        ∷ "meeting_date" ∷ "content" ∷ "summary" ∷ "subject" ∷ "tag" ∷ "importance" ∷ "moderator"
        ∷ "questioner" ∷ "answerer" ∷ "party" ∷ "constituency" ∷ "department" ∷ "dedupe_hash"
        ∷ "created_at" ∷ "updated_at" ∷ [])
      head
    ≡ true
unfolding revisions
segments_columns = refl

-- A schema with one table, as the third revision finds it.
abbrev news_only : Schema
news_only = record empty_schema {
  tables = set "news_articles" (some (column "published_at" timestamp ∷ [])) (λ name. none);
}

news_only-IsConsistent : IsConsistent news_only
news_only-IsConsistent name i h = cc

abbrev altered : Schema
altered = record news_only {
  tables =
      set "news_articles"
        (some (set_type "published_at" timestamptz (column "published_at" timestamp ∷ [])))
        news_only.tables;
}

alters : run (upgrade make_news_published_at_timestamptz) news_only ≡ ok altered
unfolding revisions
alters = refl

news_only-AllFit : AllFit (upgrade make_news_published_at_timestamptz) news_only
unfolding timestamptz_upgrade
news_only-AllFit = (
  λ columns found.
      let e : column "published_at" timestamp ∷ [] ≡ columns = cc found in
      ap (λ cs. set_type "published_at" timestamp cs) (sym e) ∙ e,
  λ s1 h. tt,
)

downgrade_restores_example :
    run (downgrade make_news_published_at_timestamptz) altered
    ≡ ok (record news_only { extensions = altered.extensions })
downgrade_restores_example =
    downgrade_restores make_news_published_at_timestamptz news_only altered news_only-IsConsistent
      news_only-AllFit alters
