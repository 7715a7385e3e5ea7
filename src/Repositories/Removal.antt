-- ===== src/Repositories/Removal.antt =====
-- What a deletion by id does to the rows.
use civic_archive_api.Prelude.{
  ℕ, ◌≡◌, ◌≤◌, Bool, true, false, not, Option, none, some, List, [], ◌∷◌, keep, length, arith, ltb,
  eqb, if◌then◌else◌,
}
use civic_archive_api.Repositories.Rows.{Row, select_row}

abbrev pub is_found : {V : Type 0} → Option (Row V) → Bool
is_found none = false
is_found (some r) = true

module _ {V : Type 0} where
  abbrev without : ℕ → List (Row V) → List (Row V)
  without id rows = keep (λ r. not (eqb r.id id)) rows

  -- A deleted row is not found, and every other is found as before.
  pub select-without :
      (id other : ℕ) (rows : List (Row V))
      → select_row other (without id rows) ≡ (if eqb id other then none else select_row other rows)
  unfolding select_row
  select-without id other [] = ground arith
  select-without id other (r ∷ rows) = ground (arith, select-without id other rows)

  length-without : (id : ℕ) (rows : List (Row V)) → length (without id rows) ≤ length rows
  length-without id [] = omega arith
  length-without id (r ∷ rows) = ground (arith, length-without id rows)

  -- The number of rows falls exactly if there is one with the id.
  pub without-found :
      (id : ℕ) (rows : List (Row V))
      → ltb (length (without id rows)) (length rows) ≡ is_found (select_row id rows)
  unfolding select_row
  without-found id [] = ground arith
  without-found id (r ∷ rows) = ground (arith, without-found id rows, length-without id rows)
