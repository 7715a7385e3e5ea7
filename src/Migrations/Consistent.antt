-- ===== src/Migrations/Consistent.antt =====
-- That the operations of an upgrade keep every index on a table that has its columns.
use mathlib.Core.Path.{subst}
use civic_archive_api.Prelude.{
  ◌⊎◌, ◌≡◌, inl, inr, refl, ap, sym, ◌∙◌, String, Bool, true, false, ◌||◌, none, some, List, [],
  ◌∷◌, ◌++◌, arith, eq_iff, ◌==◌, Bool-cases, Option-cases,
}
use civic_archive_api.Errors.{ok}
use civic_archive_api.Migrations.{
  ColumnType, Column, Columns, Part, column_of, Index, Schema, Operation, create_table, drop_table,
  add_column, drop_column, alter_column, create_index, drop_index, create_index_if_not_exists,
  drop_index_if_exists, create_extension_if_not_exists, set, has_column, has_parts, set_type,
  with_table, with_index, is_none, apply,
}

-- Every index has its table, with its columns.
abbrev pub IsConsistent : Schema → Type 0
IsConsistent s =
    (name : String) (i : Index)
    → s.indexes name ≡ some i
    → has_parts i.parts (s.tables i.table) ≡ true

pub has_column-append :
    (name : String) (columns : Columns) (c : Column)
    → has_column name (columns ++ (c ∷ [])) ≡ (has_column name columns || (c.name == name))
has_column-append name [] c = ground arith
has_column-append name (d ∷ columns) c = ground (arith, has_column-append name columns c)

pub has_column-set_type :
    (name other : String) (column_type : ColumnType) (columns : Columns)
    → has_column name (set_type other column_type columns) ≡ has_column name columns
has_column-set_type name other column_type [] = refl
has_column-set_type name other column_type (d ∷ columns) = elim (Bool-cases (d.name == other)) [
  | inl same ↦ rw (same, has_column-set_type name other column_type columns) refl
  | inr different ↦ rw (different, has_column-set_type name other column_type columns) refl
]

-- A table with at least the same columns has the parts too.
has_parts_more :
    (parts : List Part) (columns columns' : Columns)
    → ((name : String) → has_column name columns ≡ true → has_column name columns' ≡ true)
    → has_parts parts (some columns) ≡ true
    → has_parts parts (some columns') ≡ true
has_parts_more [] columns columns' more h = refl
has_parts_more (p ∷ parts) columns columns' more h =
    let first : has_column (column_of p) columns ≡ true = ground arith in
    let others : has_parts parts (some columns) ≡ true = ground arith in
    rw (more (column_of p) first, has_parts_more parts columns columns' more others) refl

with_table-IsConsistent :
    (s : Schema) (name : String) (columns : Columns)
    → ((parts : List Part)
        → has_parts parts (s.tables name) ≡ true
        → has_parts parts (some columns) ≡ true)
    → IsConsistent s
    → IsConsistent (with_table s name (some columns))
with_table-IsConsistent s name columns more consistent n i found =
    elim (Bool-cases (name == i.table)) [
      | inl same ↦
          let e : name ≡ i.table = (eq_iff name i.table).0 same in
          let parts = consistent n i found in
          let here : has_parts i.parts (s.tables name) ≡ true =
            ap (λ t. has_parts i.parts (s.tables t)) e ∙ parts in
          rw same (more i.parts here)
      | inr other ↦ rw other (consistent n i found)
    ]

with_index-IsConsistent :
    (s : Schema) (name : String) (i : Index)
    → has_parts i.parts (s.tables i.table) ≡ true
    → IsConsistent s
    → IsConsistent (with_index s name (some i))
with_index-IsConsistent s name i fits consistent n j found = elim (Bool-cases (name == n)) [
  | inl same ↦ let found' = rw same at found in let e : i ≡ j = cc found' in rw (sym e) fits
  | inr other ↦ consistent n j (rw other at found)
]

-- The operations of which upgrades consist.
abbrev pub is_upgrade : Operation → Bool
is_upgrade (drop_table name) = false
is_upgrade (drop_column name column_name) = false
is_upgrade (drop_index name) = false
is_upgrade (drop_index_if_exists name) = false
is_upgrade _ = true

-- What an operation that succeeds has found, and what it gives.
pub create_table-eq-ok :
    (name : String) (columns : Columns) (s s1 : Schema)
    → apply (create_table name columns) s ≡ ok s1
    → (s.tables name ≡ none) × (with_table s name (some columns) ≡ s1)
unfolding apply
create_table-eq-ok name columns s s1 h = elim (Option-cases (s.tables name)) [
  | inl missing ↦ (missing, cc (rw missing at h))
  | inr (old, found) ↦ let h' = rw found at h in cc
]

pub add_column-eq-ok :
    (name : String) (c : Column) (s s1 : Schema)
    → apply (add_column name c) s ≡ ok s1
    → (columns : Columns) × (s.tables name ≡ some columns)
      × (has_column c.name columns ≡ false)
      × (with_table s name (some (columns ++ (c ∷ []))) ≡ s1)
unfolding apply
add_column-eq-ok name c s s1 h = elim (Option-cases (s.tables name)) [
  | inl missing ↦ let h' = rw missing at h in cc
  | inr (columns, found) ↦ elim (Bool-cases (has_column c.name columns)) [
    | inl known ↦ let h' = rw (found, known) at h in cc
    | inr new ↦ (columns, found, new, cc (rw (found, new) at h))
  ]
]

pub alter_column-eq-ok :
    (name column_name : String) (old new : ColumnType) (s s1 : Schema)
    → apply (alter_column name column_name old new) s ≡ ok s1
    → (columns : Columns) × (s.tables name ≡ some columns)
      × (has_column column_name columns ≡ true)
      × (with_table s name (some (set_type column_name new columns)) ≡ s1)
unfolding apply
alter_column-eq-ok name column_name old new s s1 h = elim (Option-cases (s.tables name)) [
  | inl missing ↦ let h' = rw missing at h in cc
  | inr (columns, found) ↦ elim (Bool-cases (has_column column_name columns)) [
    | inl known ↦ (columns, found, known, cc (rw (found, known) at h))
    | inr unknown ↦ let h' = rw (found, unknown) at h in cc
  ]
]

pub create_index-eq-ok :
    (name : String) (i : Index) (s s1 : Schema)
    → apply (create_index name i) s ≡ ok s1
    → (s.indexes name ≡ none)
      × (has_parts i.parts (s.tables i.table) ≡ true)
      × (with_index s name (some i) ≡ s1)
unfolding apply
create_index-eq-ok name i s s1 h = elim (Option-cases (s.indexes name)) [
  | inl missing ↦ elim (Bool-cases (has_parts i.parts (s.tables i.table))) [
    | inl fits ↦ (missing, fits, cc (rw (missing, fits) at h))
    | inr unfit ↦ let h' = rw (missing, unfit) at h in cc
  ]
  | inr (old, found) ↦ let h' = rw found at h in cc
]

-- `IF NOT EXISTS` gives the index, or the schema as it was if there is one of that name.
pub create_if-eq-ok :
    (name : String) (i : Index) (s s1 : Schema)
    → apply (create_index_if_not_exists name i) s ≡ ok s1
    → ((s.indexes name ≡ none)
        × ((has_parts i.parts (s.tables i.table) ≡ true) × (with_index s name (some i) ≡ s1)))
      ⊎ ((is_none (s.indexes name) ≡ false) × (s ≡ s1))
unfolding apply
create_if-eq-ok name i s s1 h = elim (Option-cases (s.indexes name)) [
  | inl missing ↦ elim (Bool-cases (has_parts i.parts (s.tables i.table))) [
    | inl fits ↦ inl (missing, (fits, cc (rw (missing, fits) at h)))
    | inr unfit ↦ let h' = rw (missing, unfit) at h in cc
  ]
  | inr (old, found) ↦ inr (rw found refl, cc (rw found at h))
]

pub create_extension-eq-ok :
    (name : String) (s s1 : Schema)
    → apply (create_extension_if_not_exists name) s ≡ ok s1
    → record s { extensions = set name true s.extensions } ≡ s1
unfolding apply
create_extension-eq-ok name s s1 h = cc h

pub apply-IsConsistent :
    (op : Operation) (s s1 : Schema)
    → is_upgrade op ≡ true
    → IsConsistent s
    → apply op s ≡ ok s1
    → IsConsistent s1
apply-IsConsistent (create_table name columns) s s1 up consistent h =
    let (missing, same) = create_table-eq-ok name columns s s1 h in
    subst IsConsistent same (
      with_table-IsConsistent s name columns (λ parts fits. let no_parts = rw missing at fits in cc)
        consistent)
apply-IsConsistent (add_column name c) s s1 up consistent h =
    let (columns, found, new, same) = add_column-eq-ok name c s s1 h in
    subst IsConsistent same (
      with_table-IsConsistent s name (columns ++ (c ∷ []))
        (λ parts fits.
          has_parts_more parts columns (columns ++ (c ∷ []))
            (λ other known. ground (arith, has_column-append other columns c)) (rw found at fits))
        consistent)
apply-IsConsistent (alter_column name column_name old new) s s1 up consistent h =
    let (columns, found, known, same) = alter_column-eq-ok name column_name old new s s1 h in
    subst IsConsistent same (
      with_table-IsConsistent s name (set_type column_name new columns)
        (λ parts fits.
          has_parts_more parts columns (set_type column_name new columns)
            (λ other known. has_column-set_type other column_name new columns ∙ known)
            (rw found at fits))
        consistent)
apply-IsConsistent (create_index name i) s s1 up consistent h =
    let (missing, fits, same) = create_index-eq-ok name i s s1 h in
    subst IsConsistent same (with_index-IsConsistent s name i fits consistent)
apply-IsConsistent (create_index_if_not_exists name i) s s1 up consistent h =
    elim (create_if-eq-ok name i s s1 h) [
      | inl (missing, (fits, same)) ↦
          subst IsConsistent same (with_index-IsConsistent s name i fits consistent)
      | inr (exists, same) ↦ subst IsConsistent same consistent
    ]
apply-IsConsistent (create_extension_if_not_exists name) s s1 up consistent h =
    subst IsConsistent (create_extension-eq-ok name s s1 h) consistent
apply-IsConsistent (drop_table name) s s1 up consistent h = cc
apply-IsConsistent (drop_column name column_name) s s1 up consistent h = cc
apply-IsConsistent (drop_index name) s s1 up consistent h = cc
apply-IsConsistent (drop_index_if_exists name) s s1 up consistent h = cc
