-- ===== src/Migrations/Inverse.antt =====
-- That an operation is taken back by its inverse.
use mathlib.Core.Path.{fun_ext}
use civic_archive_api.Prelude.{
  ◌≡◌, inl, inr, refl, ap, sym, ◌∙◌, String, Bool, true, false, not, ◌||◌, Option, none, some, List,
  [], ◌∷◌, ◌++◌, any, keep, arith, eq_iff, eq_refl, ◌==◌, Bool-cases, Option-cases,
}
use civic_archive_api.Errors.{Result, ok}
use civic_archive_api.Migrations.{
  ColumnType, Column, Columns, Part, column_of, Index, Schema, create_table, drop_table, add_column,
  drop_column, alter_column, create_index, drop_index, create_index_if_not_exists,
  drop_index_if_exists, set, has_column, has_parts, is_of, is_on, drop_indexes, unless_dropped,
  set_type, apply, run,
}
use civic_archive_api.Migrations.Consistent.{
  IsConsistent, has_column-append, has_column-set_type, create_table-eq-ok, add_column-eq-ok,
  alter_column-eq-ok, create_index-eq-ok, create_if-eq-ok,
}

-- A column of the table has a type, wherever the table has the column.
abbrev pub HasType : String → ColumnType → Columns → Type 0
HasType name column_type columns = set_type name column_type columns ≡ columns

set_at : {A : Type 0} (k : String) (v : A) (f : String → A) → set k v f k ≡ v
set_at k v f = rw (eq_refl k) refl

-- A name that is set twice, the second time to what it was.
set_back : {A : Type 0} (k : String) (v w : A) (f : String → A) → f k ≡ w → set k w (set k v f) ≡ f
set_back k v w f h = fun_ext (λ j. elim (Bool-cases (k == j)) [
  | inl same ↦ let e : k ≡ j = (eq_iff k j).0 same in rw same (sym h ∙ ap f e)
  | inr other ↦ rw other refl
])

drop_no_indexes :
    (p : Index → Bool) (indexes : String → Option Index)
    → ((name : String) (i : Index) → indexes name ≡ some i → p i ≡ false)
    → drop_indexes p indexes ≡ indexes
drop_no_indexes p indexes h = fun_ext (λ name. elim (Option-cases (indexes name)) [
  | inl missing ↦ ap (unless_dropped p) missing ∙ sym missing
  | inr (i, found) ↦ ap (unless_dropped p) found ∙ rw (h name i found) (sym found)
])

-- A schema with other extensions.
abbrev pub with_extensions : (String → Bool) → Schema → Schema
with_extensions e s = record s { extensions = e }

schema_path :
    {e : String → Bool} {tables tables' : String → Option Columns}
    {indexes indexes' : String → Option Index}
    → tables ≡ tables'
    → indexes ≡ indexes'
    → ◌≡◌ {A = Result Schema}
        (ok (record { tables = tables; indexes = indexes; extensions = e }))
        (ok (record { tables = tables'; indexes = indexes'; extensions = e }))
schema_path h k = cc (h, k)

-- Indexes of a table that there is not, or with a column that the table has not.
not_of :
    (s : Schema) (name : String)
    → IsConsistent s
    → s.tables name ≡ none
    → (n : String) (i : Index) → s.indexes n ≡ some i
    → is_of name i ≡ false
not_of s name consistent missing n i found = elim (Bool-cases (i.table == name)) [
  | inl same ↦
      let e : i.table ≡ name = (eq_iff i.table name).0 same in
      let parts = consistent n i found in
      let no_table : s.tables i.table ≡ none = ap s.tables e ∙ missing in
      let parts' = rw no_table at parts in cc
  | inr other ↦ other
]

or_true : (a : Bool) {b : Bool} → b ≡ true → (a || b) ≡ true
or_true a {b = b} h = ground arith

pub undo_create_table :
    (name : String) (columns : Columns) (s s1 : Schema) (e : String → Bool)
    → IsConsistent s
    → apply (create_table name columns) s ≡ ok s1
    → run (drop_table name ∷ []) (with_extensions e s1) ≡ ok (with_extensions e s)
undo_create_table name columns s s1 e consistent h =
    let (missing, same) = create_table-eq-ok name columns s s1 h in
    rw (sym same) (
      unfold run apply in
      rw (eq_refl name) (
        schema_path (set_back name (some columns) none s.tables missing)
          (drop_no_indexes (is_of name) s.indexes (not_of s name consistent missing))))

keep_others :
    (columns : Columns) (c : Column)
    → has_column c.name columns ≡ false
    → keep (λ d. not (d.name == c.name)) (columns ++ (c ∷ [])) ≡ columns
keep_others [] c h = rw (eq_refl c.name) refl
keep_others (d ∷ columns) c h =
    let other : (d.name == c.name) ≡ false = ground arith in
    let others : has_column c.name columns ≡ false = ground arith in
    rw other (ap (λ ds. d ∷ ds) (keep_others columns c others))

no_part :
    (parts : List Part) (columns : Columns) (name : String)
    → has_column name columns ≡ false
    → has_parts parts (some columns) ≡ true
    → any (λ p. column_of p == name) parts ≡ false
no_part [] columns name new h = refl
no_part (p ∷ parts) columns name new h =
    let first : has_column (column_of p) columns ≡ true = ground arith in
    let others : has_parts parts (some columns) ≡ true = ground arith in
    elim (Bool-cases (column_of p == name)) [
      | inl same ↦
          let e : column_of p ≡ name = (eq_iff (column_of p) name).0 same in
          let no_column = ap (λ n. has_column n columns) e in cc
      | inr other ↦ rw other (no_part parts columns name new others)
    ]

-- No index has a column that its table has not.
not_on :
    (s : Schema) (name column_name : String) (columns : Columns)
    → IsConsistent s
    → s.tables name ≡ some columns
    → has_column column_name columns ≡ false
    → (n : String) (i : Index) → s.indexes n ≡ some i
    → is_on name column_name i ≡ false
not_on s name column_name columns consistent found new n i index =
    elim (Bool-cases (i.table == name)) [
      | inl same ↦
          let e : i.table ≡ name = (eq_iff i.table name).0 same in
          let parts : has_parts i.parts (some columns) ≡ true =
            ap (has_parts i.parts) (sym (ap s.tables e ∙ found)) ∙ consistent n i index in
          rw (same, no_part i.parts columns column_name new parts) refl
      | inr other ↦ rw other refl
    ]

pub undo_add_column :
    (name : String) (c : Column) (s s1 : Schema) (e : String → Bool)
    → IsConsistent s
    → apply (add_column name c) s ≡ ok s1
    → run (drop_column name c.name ∷ []) (with_extensions e s1) ≡ ok (with_extensions e s)
undo_add_column name c s s1 e consistent h =
    let (columns, found, new, same) = add_column-eq-ok name c s s1 h in
    let known : has_column c.name (columns ++ (c ∷ [])) ≡ true =
      has_column-append c.name columns c ∙ or_true (has_column c.name columns) (eq_refl c.name) in
    rw (sym same) (
      unfold run apply in
      rw (eq_refl name, known, keep_others columns c new)
        (schema_path (set_back name (some (columns ++ (c ∷ []))) (some columns) s.tables found) (
          drop_no_indexes (is_on name c.name) s.indexes
            (not_on s name c.name columns consistent found new))))

set_type_twice :
    (name : String) (old new : ColumnType) (columns : Columns)
    → set_type name old (set_type name new columns) ≡ set_type name old columns
set_type_twice name old new [] = refl
set_type_twice name old new (c ∷ columns) = elim (Bool-cases (c.name == name)) [
  | inl same ↦ rw (same, same, set_type_twice name old new columns) refl
  | inr other ↦ rw (other, other, set_type_twice name old new columns) refl
]

pub undo_alter_column :
    (name column_name : String) (old new : ColumnType) (s s1 : Schema) (e : String → Bool)
    → ((columns : Columns) → s.tables name ≡ some columns → HasType column_name old columns)
    → apply (alter_column name column_name old new) s ≡ ok s1
    → run (alter_column name column_name new old ∷ []) (with_extensions e s1)
      ≡ ok (with_extensions e s)
undo_alter_column name column_name old new s s1 e typed h =
    let (columns, found, known, same) = alter_column-eq-ok name column_name old new s s1 h in
    let still = has_column-set_type column_name column_name new columns ∙ known in
    let back = set_type_twice column_name old new columns ∙ typed columns found in
    rw (sym same) (
      unfold run apply in
      rw (eq_refl name, still, back)
        (schema_path
          (set_back name (some (set_type column_name new columns)) (some columns) s.tables found)
          refl))

pub undo_create_index :
    (name : String) (i : Index) (s s1 : Schema) (e : String → Bool)
    → apply (create_index name i) s ≡ ok s1
    → run (drop_index name ∷ []) (with_extensions e s1) ≡ ok (with_extensions e s)
undo_create_index name i s s1 e h =
    let (missing, fits, same) = create_index-eq-ok name i s s1 h in
    rw (sym same) (
      unfold run apply in
      rw (eq_refl name) (schema_path refl (set_back name (some i) none s.indexes missing)))

pub undo_create_if :
    (name : String) (i : Index) (s s1 : Schema) (e : String → Bool)
    → s.indexes name ≡ none
    → apply (create_index_if_not_exists name i) s ≡ ok s1
    → run (drop_index_if_exists name ∷ []) (with_extensions e s1) ≡ ok (with_extensions e s)
undo_create_if name i s s1 e missing h = elim (create_if-eq-ok name i s s1 h) [
  | inl (_, (fits, same)) ↦
      rw (sym same)
        (unfold run apply in schema_path refl (set_back name (some i) none s.indexes missing))
  | inr (exists, same) ↦ let exists' = rw missing at exists in cc
]
