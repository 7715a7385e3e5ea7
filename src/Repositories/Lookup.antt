-- ===== src/Repositories/Lookup.antt =====
-- What is found by key and by id in a table whose ids and keys are those of one row each.
use civic_archive_api.Prelude.{
  ℕ, ◌≡◌, refl, ap, sym, ◌∙◌, String, Option, none, some, List, [], ◌∷◌, arith, eqb, ◌==◌, eq_iff,
  Bool-cases, Option-cases, inl, inr, if◌then◌else◌,
}
use civic_archive_api.Repositories.Rows.{Row, Table, select_row, delete_rows}
use civic_archive_api.Repositories.Upsert.{stored}
use civic_archive_api.Repositories.Distinct.{HasDistinct, IsKeyed, without, stored-none-cons}

module _ {V : Type 0} (key : V → String) where
  stored-without-absent :
      (k : String) (id : ℕ) (rows : List (Row V))
      → select_row id rows ≡ none
      → stored key k (without key id rows) ≡ stored key k rows
  unfolding stored select_row
  stored-without-absent k id [] h = refl
  stored-without-absent k id (r ∷ rows) h = elim (Bool-cases (eqb r.id id)) [
    | inl here ↦ let h' = rw here at h in cc
    | inr other ↦
        let ih = stored-without-absent k id rows (rw other at h) in rw other (ground (arith, ih))
  ]

  -- A row that is there holds its key.
  stored-select :
      (id : ℕ) (r : Row V) (rows : List (Row V))
      → select_row id rows ≡ some r
      → stored key (key r.columns) rows ≡ none
      → ⊥
  unfolding stored select_row
  stored-select id r [] h absent = cc
  stored-select id r (q ∷ rows) h absent =
      let (apart, later) = stored-none-cons key (key r.columns) q rows absent in
      elim (Bool-cases (eqb q.id id)) [
        | inl here ↦
            let e : q ≡ r = (let h' = rw here at h in cc) in
            let same = (eq_iff (key q.columns) (key r.columns)).1 (ap (λ p. key p.columns) e) in cc
        | inr other ↦ stored-select id r rows (rw other at h) later
      ]

  -- What is stored under a key, unless it is the key of the row.
  abbrev pub forget : Option (Row V) → String → Option V → Option V
  forget none k old = old
  forget (some r) k old = if key r.columns == k then none else old

  stored-without :
      (k : String) (id : ℕ) (rows : List (Row V))
      → HasDistinct key rows
      → stored key k (without key id rows) ≡ forget (select_row id rows) k (stored key k rows)
  unfolding stored select_row
  stored-without k id [] h = refl
  stored-without k id (q ∷ rows) (new_id, new_key, h) = elim (Bool-cases (eqb q.id id)) [
    | inl here ↦
        let e : q.id ≡ id = ground (arith, here) in
        let gone = stored-without-absent k id rows (rw e at new_id) in
        rw (here, gone)
          (elim (Bool-cases (key q.columns == k)) [
            | inl same ↦ let e' = (eq_iff (key q.columns) k).0 same in rw same (rw e' at new_key)
            | inr apart ↦ rw apart refl
          ])
    | inr other ↦
        let ih = stored-without k id rows h in
        rw (other, ih)
          (elim (Option-cases (select_row id rows)) [
            | inl absent ↦ rw absent refl
            | inr (r, present) ↦ rw present (elim (Bool-cases (key q.columns == k)) [
              | inl same ↦ elim (Bool-cases (key r.columns == k)) [
                | inl clash ↦
                    let e = (eq_iff (key q.columns) k).0 same in
                    let e' = (eq_iff (key r.columns) k).0 clash in
                    let held : stored key (key r.columns) rows ≡ none =
                      rw (e ∙ sym e') at new_key in
                    elim (stored-select id r rows present held) [ ]
                | inr apart ↦ rw (same, apart) refl
              ]
              | inr differs ↦ rw differs refl
            ])
          ])
  ]

  -- What a deletion by id takes away is what is stored under the key of that row.
  pub stored-delete_rows :
      (k : String) (id : ℕ) (t : Table V)
      → IsKeyed key t
      → stored key k (delete_rows id t).rows ≡ forget (select_row id t.rows) k (stored key k t.rows)
  unfolding delete_rows
  stored-delete_rows k id t (distinct, below) = stored-without k id t.rows distinct

  -- A row that is found by its id is the one that is stored under its key.
  pub select-stored :
      (id : ℕ) (r : Row V) (rows : List (Row V))
      → HasDistinct key rows
      → select_row id rows ≡ some r
      → stored key (key r.columns) rows ≡ some r.columns
  unfolding stored select_row
  select-stored id r [] distinct h = cc
  select-stored id r (q ∷ rows) (new_id, new_key, distinct) h = elim (Bool-cases (eqb q.id id)) [
    | inl here ↦
        let e : q ≡ r = (let h' = rw here at h in cc) in
        let same = (eq_iff (key q.columns) (key r.columns)).1 (ap (λ p. key p.columns) e) in
        rw (same, e) refl
    | inr other ↦ elim (Bool-cases (key q.columns == key r.columns)) [
      | inl clash ↦
          let e = (eq_iff (key q.columns) (key r.columns)).0 clash in
          elim (stored-select id r rows (rw other at h) (rw e at new_key)) [ ]
      | inr apart ↦ rw apart (select-stored id r rows distinct (rw other at h))
    ]
  ]
