-- ===== src/Migrations/Undo.antt =====
-- That a downgrade takes back what its upgrade does.
use civic_archive_api.Prelude.{
  ◌≡◌, inl, inr, refl, ap, sym, ◌∙◌, String, Bool, true, none, some, List, [], ◌∷◌, ◌++◌, all,
  arith,
}
use civic_archive_api.Errors.{ok, ◌>>=◌, chain-eq-ok, Result-cases}
use civic_archive_api.Migrations.{
  Columns, Schema, Operation, create_table, drop_table, add_column, drop_column, alter_column,
  create_index, drop_index, create_index_if_not_exists, drop_index_if_exists,
  create_extension_if_not_exists, apply, run,
}
use civic_archive_api.Migrations.Consistent.{
  IsConsistent, is_upgrade, create_extension-eq-ok, apply-IsConsistent,
}
use civic_archive_api.Migrations.Revisions.{
  initial_upgrade, initial_downgrade, dedupe_hash_upgrade, dedupe_hash_downgrade,
  timestamptz_upgrade, timestamptz_downgrade, search_upgrade, search_downgrade, Revision,
  initial_schema, add_segments_dedupe_hash, make_news_published_at_timestamptz,
  add_search_strategy_indexes, upgrade, downgrade,
}
use civic_archive_api.Migrations.Inverse.{
  HasType, with_extensions, undo_create_table, undo_add_column, undo_alter_column,
  undo_create_index, undo_create_if,
}

-- The operations that take back one of an upgrade; an extension stays.
abbrev pub inverse : Operation → List Operation
inverse (create_table name columns) = drop_table name ∷ []
inverse (add_column name c) = drop_column name c.name ∷ []
inverse (alter_column name column_name old new) = alter_column name column_name new old ∷ []
inverse (create_index name i) = drop_index name ∷ []
inverse (create_index_if_not_exists name i) = drop_index_if_exists name ∷ []
inverse _ = []

abbrev pub undo : List Operation → List Operation
undo [] = []
undo (op ∷ ops) = undo ops ++ inverse op

undo_initial : undo initial_upgrade ≡ initial_downgrade
unfolding initial_upgrade initial_downgrade
undo_initial = refl

undo_dedupe_hash : undo dedupe_hash_upgrade ≡ dedupe_hash_downgrade
unfolding dedupe_hash_upgrade dedupe_hash_downgrade
undo_dedupe_hash = refl

undo_timestamptz : undo timestamptz_upgrade ≡ timestamptz_downgrade
unfolding timestamptz_upgrade timestamptz_downgrade
undo_timestamptz = refl

undo_search : undo search_upgrade ≡ search_downgrade
unfolding search_upgrade search_downgrade
undo_search = refl

run-append :
    (ops later : List Operation) (s : Schema)
    → run (ops ++ later) s ≡ (do s' ← run ops s; run later s')
unfolding run
run-append [] later s = refl
run-append (op ∷ ops) later s = elim (Result-cases (apply op s)) [
  | inl (e, failed) ↦ rw failed refl
  | inr (s', done) ↦ rw done (run-append ops later s')
]

-- What an operation of an upgrade must find to be taken back: the column to alter has the type that
-- the revision expects, and an index that is created if it does not exist does not exist.
abbrev pub Fits : Operation → Schema → Type 0
Fits (alter_column name column_name old new) s =
    (columns : Columns) → s.tables name ≡ some columns → HasType column_name old columns
Fits (create_index_if_not_exists name i) s = s.indexes name ≡ none
Fits _ s = Unit

-- Every operation fits the schema that it is applied to.
abbrev pub AllFit : List Operation → Schema → Type 0
AllFit [] s = Unit
AllFit (op ∷ ops) s = Fits op s × ((s1 : Schema) → apply op s ≡ ok s1 → AllFit ops s1)

undo_one :
    (op : Operation) (s s1 : Schema) (e : String → Bool)
    → is_upgrade op ≡ true
    → IsConsistent s
    → Fits op s
    → apply op s ≡ ok s1
    → run (inverse op) (with_extensions e s1) ≡ ok (with_extensions e s)
undo_one (create_table name columns) s s1 e up consistent fits h =
    undo_create_table name columns s s1 e consistent h
undo_one (add_column name c) s s1 e up consistent fits h =
    undo_add_column name c s s1 e consistent h
undo_one (alter_column name column_name old new) s s1 e up consistent fits h =
    undo_alter_column name column_name old new s s1 e fits h
undo_one (create_index name i) s s1 e up consistent fits h = undo_create_index name i s s1 e h
undo_one (create_index_if_not_exists name i) s s1 e up consistent fits h =
    undo_create_if name i s s1 e fits h
undo_one (create_extension_if_not_exists name) s s1 e up consistent fits h =
    rw (sym (create_extension-eq-ok name s s1 h)) (unfold run in refl)
undo_one (drop_table name) s s1 e up consistent fits h = cc
undo_one (drop_column name column_name) s s1 e up consistent fits h = cc
undo_one (drop_index name) s s1 e up consistent fits h = cc
undo_one (drop_index_if_exists name) s s1 e up consistent fits h = cc

undo-run :
    (ops : List Operation) (s s' : Schema)
    → all is_upgrade ops ≡ true
    → IsConsistent s
    → AllFit ops s
    → run ops s ≡ ok s'
    → run (undo ops) s' ≡ ok (with_extensions s'.extensions s)
unfolding run
undo-run [] s s' up consistent fits h = let e : s ≡ s' = cc h in rw (sym e) refl
undo-run (op ∷ ops) s s' up consistent fits h =
    let first : is_upgrade op ≡ true = ground arith in
    let others : all is_upgrade ops ≡ true = ground arith in
    let (s1, later, done) = chain-eq-ok (λ t. run ops t) (apply op s) h in
    let back =
      undo-run ops s1 s' others (apply-IsConsistent op s s1 first consistent done) (fits.1 s1 done)
        later in
    run-append (undo ops) (inverse op) s'
    ∙ ap (λ r. r >>= (λ t. run (inverse op) t)) back
    ∙ undo_one op s s1 s'.extensions first consistent fits.0 done

upgrades_only : (r : Revision) → all is_upgrade (upgrade r) ≡ true
unfolding initial_upgrade dedupe_hash_upgrade timestamptz_upgrade search_upgrade
upgrades_only initial_schema = refl
upgrades_only add_segments_dedupe_hash = refl
upgrades_only make_news_published_at_timestamptz = refl
upgrades_only add_search_strategy_indexes = refl

undo-upgrade : (r : Revision) → undo (upgrade r) ≡ downgrade r
undo-upgrade initial_schema = undo_initial
undo-upgrade add_segments_dedupe_hash = undo_dedupe_hash
undo-upgrade make_news_published_at_timestamptz = undo_timestamptz
undo-upgrade add_search_strategy_indexes = undo_search

-- The downgrade of a revision takes its upgrade back: on a schema whose indexes have their tables and
-- columns, and that the operations fit, the tables and the indexes are then what they were; only
-- extensions stay.
pub downgrade_restores :
    (r : Revision) (s s' : Schema)
    → IsConsistent s
    → AllFit (upgrade r) s
    → run (upgrade r) s ≡ ok s'
    → run (downgrade r) s' ≡ ok (record s { extensions = s'.extensions })
downgrade_restores r s s' consistent fits h =
    ap (λ ops. run ops s') (sym (undo-upgrade r))
    ∙ undo-run (upgrade r) s s' (upgrades_only r) consistent fits h
