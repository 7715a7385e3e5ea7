-- ===== src/Migrations.antt =====
-- migrations/versions: the revisions as lists of operations on a schema, and what PostgreSQL does for
-- each operation. A schema gives every name its table and its index, if it has one.
pub mod Consistent
pub mod Revisions
pub mod Inverse
pub mod Undo
mod Tests
use civic_archive_api.Prelude.{
  ℕ, String, Bool, true, false, not, ◌&&◌, Option, none, some, List, [], ◌∷◌, ◌++◌, any, all, keep,
  map, ◌==◌, if◌then◌else◌,
}
use civic_archive_api.Errors.{database_error, Result, ok, raise, ◌>>=◌}

pub data ColumnType : Type 0 where
  big_integer integer small_integer text date timestamp timestamptz jsonb : ColumnType
  varchar : ℕ → ColumnType

pub record Column : Type 0 where
  pub name : String
  pub column_type : ColumnType
  pub nullable : Bool
  pub primary_key : Bool
  pub unique : Bool
  pub server_default : Option String

abbrev pub column : String → ColumnType → Column
column name column_type = record {
  name = name;
  column_type = column_type;
  nullable = true;
  primary_key = false;
  unique = false;
  server_default = none;
}

abbrev pub required_column : String → ColumnType → Column
required_column name column_type = record (column name column_type) { nullable = false }

abbrev pub unique_column : String → ColumnType → Column
unique_column name column_type = record (required_column name column_type) { unique = true }

abbrev pub id_column : Column
id_column = record (required_column "id" big_integer) { primary_key = true }

abbrev pub time_column : String → Column
time_column name = record (required_column name timestamp) {
  server_default = some "CURRENT_TIMESTAMP";
}

-- A part of an index: a column, in ascending or descending order, or as the text of a document.
pub data Part : Type 0 where
  ascending descending document : String → Part

abbrev pub column_of : Part → String
column_of (ascending name) = name
column_of (descending name) = name
column_of (document name) = name

-- `search_trgm` and `search_fts` are the GIN indexes on the text of the document.
pub data Method : Type 0 where
  btree search_trgm search_fts : Method

pub record Index : Type 0 where
  pub table : String
  pub method : Method
  pub parts : List Part
  pub unique : Bool

abbrev pub Columns : Type 0
Columns = List Column

pub record Schema : Type 0 where
  pub tables : String → Option Columns
  pub indexes : String → Option Index
  pub extensions : String → Bool

-- The operations of Alembic that the revisions use, and the statements of `op.execute`.
pub data Operation : Type 0 where
  create_table : String → Columns → Operation
  drop_table : String → Operation
  add_column : String → Column → Operation
  drop_column : String → String → Operation
  -- the table, the column, and its types before and after
  alter_column : String → String → ColumnType → ColumnType → Operation
  create_index : String → Index → Operation
  drop_index : String → Operation
  create_index_if_not_exists : String → Index → Operation
  drop_index_if_exists : String → Operation
  create_extension_if_not_exists : String → Operation

abbrev pub set : {A : Type 0} → String → A → (String → A) → String → A
set k v f j = if k == j then v else f j

abbrev pub has_column : String → Columns → Bool
has_column name columns = any (λ c. c.name == name) columns

-- The table of an index has its columns.
abbrev pub has_parts : List Part → Option Columns → Bool
has_parts parts none = false
has_parts parts (some columns) = all (λ p. has_column (column_of p) columns) parts

abbrev pub is_of : String → Index → Bool
is_of name i = i.table == name

abbrev pub is_on : String → String → Index → Bool
is_on name column_name i = i.table == name && any (λ p. column_of p == column_name) i.parts

abbrev pub unless_dropped : (Index → Bool) → Option Index → Option Index
unless_dropped p none = none
unless_dropped p (some i) = if p i then none else some i

-- The indexes that do not pass the test.
abbrev pub drop_indexes : (Index → Bool) → (String → Option Index) → String → Option Index
drop_indexes p indexes name = unless_dropped p (indexes name)

abbrev pub set_type : String → ColumnType → Columns → Columns
set_type name column_type columns =
    map (λ c. if c.name == name then record c { column_type = column_type } else c) columns

-- An operation on a table with these columns.
abbrev pub on_table : Option Columns → (Columns → Result Schema) → Result Schema
on_table none f = raise database_error
on_table (some columns) f = f columns

abbrev pub with_table : Schema → String → Option Columns → Schema
with_table s name columns = record s { tables = set name columns s.tables }

abbrev pub with_index : Schema → String → Option Index → Schema
with_index s name index = record s { indexes = set name index s.indexes }

abbrev pub is_none : {A : Type 0} → Option A → Bool
is_none none = true
is_none (some a) = false

unfoldable pub apply : Operation → Schema → Result Schema
apply (create_table name columns) s =
    if is_none (s.tables name) then ok (with_table s name (some columns)) else raise database_error
apply (drop_table name) s =
    if is_none (s.tables name)
    then raise database_error
    else ok (record s {
      tables = set name none s.tables;
      indexes = drop_indexes (is_of name) s.indexes;
    })
apply (add_column name c) s = on_table (s.tables name) (λ columns.
    if has_column c.name columns
    then raise database_error
    else ok (with_table s name (some (columns ++ (c ∷ [])))))
apply (drop_column name column_name) s = on_table (s.tables name) (λ columns.
    if has_column column_name columns
    then ok (record s {
      tables = set name (some (keep (λ c. not (c.name == column_name)) columns)) s.tables;
      indexes = drop_indexes (is_on name column_name) s.indexes;
    })
    else raise database_error)
apply (alter_column name column_name existing_type new_type) s =
    on_table (s.tables name) (λ columns.
      if has_column column_name columns
      then ok (with_table s name (some (set_type column_name new_type columns)))
      else raise database_error)
apply (create_index name i) s =
    if is_none (s.indexes name) && has_parts i.parts (s.tables i.table)
    then ok (with_index s name (some i))
    else raise database_error
apply (drop_index name) s =
    if is_none (s.indexes name) then raise database_error else ok (with_index s name none)
apply (create_index_if_not_exists name i) s =
    if is_none (s.indexes name)
    then if has_parts i.parts (s.tables i.table)
      then ok (with_index s name (some i))
      else raise database_error
    else ok s
apply (drop_index_if_exists name) s = ok (with_index s name none)
apply (create_extension_if_not_exists name) s =
    ok (record s { extensions = set name true s.extensions })

-- The operations of a revision in one transaction: the first error ends it.
unfoldable pub run : List Operation → Schema → Result Schema
unfolding apply
run [] s = ok s
run (op ∷ ops) s = do s' ← apply op s; run ops s'

abbrev pub empty_schema : Schema
empty_schema = record { tables = λ name. none; indexes = λ name. none; extensions = λ name. false }
