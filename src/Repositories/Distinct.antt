-- ===== src/Repositories/Distinct.antt =====
-- A table whose ids and keys are those of one row each, as PostgreSQL keeps a table with a serial
-- primary key and a unique column.
use mathlib.Core.Path.{subst}
use civic_archive_api.Prelude.{
  ℕ, suc, ◌≡◌, ◌<◌, refl, sym, String, Bool, false, not, ◌||◌, none, List, [], ◌∷◌, ◌++◌, keep,
  arith, eqb, ◌==◌, eq_iff, Bool-cases, inl, inr,
}
use civic_archive_api.Errors.{Result-cases, ok}
use civic_archive_api.Repositories.Rows.{
  Row, Table, Counts, mem, find_row, update_row, upsert_found, upsert_rows, select_row, delete_rows,
}
use civic_archive_api.Repositories.Upsert.{stored, stored-find_row}
use civic_archive_api.Repositories.Removal.{select-without}

module _ {V : Type 0} (key : V → String) where
  abbrev pub HasDistinct : List (Row V) → Type 0
  HasDistinct [] = Unit
  HasDistinct (r ∷ rows) =
      (select_row r.id rows ≡ none) × (stored key (key r.columns) rows ≡ none) × HasDistinct rows

  -- Ids below the next value of the sequence.
  abbrev pub AllBelow : ℕ → List (Row V) → Type 0
  AllBelow n [] = Unit
  AllBelow n (r ∷ rows) = (r.id < n) × AllBelow n rows

  abbrev pub IsKeyed : Table V → Type 0
  IsKeyed t = HasDistinct t.rows × AllBelow t.next_id t.rows

  abbrev pub without : ℕ → List (Row V) → List (Row V)
  without id rows = keep (λ r. not (eqb r.id id)) rows

  stored-without-none :
      (k : String) (id : ℕ) (rows : List (Row V))
      → stored key k rows ≡ none
      → stored key k (without id rows) ≡ none
  unfolding stored
  stored-without-none k id [] h = refl
  stored-without-none k id (r ∷ rows) h = elim (Bool-cases (key r.columns == k)) [
    | inl here ↦ let h' = rw here at h in cc
    | inr other ↦
        let ih = stored-without-none k id rows (rw other at h) in ground (arith, other, ih)
  ]

  HasDistinct-without :
      (id : ℕ) (rows : List (Row V)) → HasDistinct rows → HasDistinct (without id rows)
  HasDistinct-without id [] h = tt
  HasDistinct-without id (r ∷ rows) (new_id, new_key, h) = elim (Bool-cases (eqb r.id id)) [
    | inl here ↦ rw here (HasDistinct-without id rows h)
    | inr other ↦ rw other (
      ground (arith, select-without id r.id rows, new_id),
      stored-without-none (key r.columns) id rows new_key,
      HasDistinct-without id rows h,
    )
  ]

  AllBelow-without :
      (id n : ℕ) (rows : List (Row V)) → AllBelow n rows → AllBelow n (without id rows)
  AllBelow-without id n [] h = tt
  AllBelow-without id n (r ∷ rows) (below, h) = elim (Bool-cases (eqb r.id id)) [
    | inl here ↦ rw here (AllBelow-without id n rows h)
    | inr other ↦ rw other (below, AllBelow-without id n rows h)
  ]

  pub IsKeyed-delete_rows : (id : ℕ) (t : Table V) → IsKeyed t → IsKeyed (delete_rows id t)
  unfolding delete_rows
  IsKeyed-delete_rows id t (distinct, below) =
      (HasDistinct-without id t.rows distinct, AllBelow-without id t.next_id t.rows below)

  AllBelow-suc : (n : ℕ) (rows : List (Row V)) → AllBelow n rows → AllBelow (suc n) rows
  AllBelow-suc n [] h = tt
  AllBelow-suc n (r ∷ rows) (below, h) = (omega (arith, below), AllBelow-suc n rows h)

  select-AllBelow : (n : ℕ) (rows : List (Row V)) → AllBelow n rows → select_row n rows ≡ none
  unfolding select_row
  select-AllBelow n [] h = refl
  select-AllBelow n (r ∷ rows) (below, h) = ground (arith, below, select-AllBelow n rows h)

  select-update_row :
      (now id : ℕ) (v : V) (rows : List (Row V))
      → select_row id rows ≡ none
      → select_row id (update_row key now v rows) ≡ none
  unfolding select_row update_row
  select-update_row now id v [] h = refl
  select-update_row now id v (r ∷ rows) h = elim (Bool-cases (eqb r.id id)) [
    | inl here ↦ let h' = rw here at h in cc
    | inr other ↦
        let ih = select-update_row now id v rows (rw other at h) in
        elim (Bool-cases (key r.columns == key v)) [
          | inl same ↦ rw (same, other) (rw other at h)
          | inr apart ↦ rw (apart, other) ih
        ]
  ]

  stored-update-none :
      (now : ℕ) (k : String) (v : V) (rows : List (Row V))
      → stored key k rows ≡ none
      → stored key k (update_row key now v rows) ≡ none
  unfolding stored update_row
  stored-update-none now k v [] h = refl
  stored-update-none now k v (r ∷ rows) h = elim (Bool-cases (key r.columns == k)) [
    | inl here ↦ let h' = rw here at h in cc
    | inr other ↦
        let ih = stored-update-none now k v rows (rw other at h) in
        elim (Bool-cases (key r.columns == key v)) [
          | inl same ↦
              let e = (eq_iff (key r.columns) (key v)).0 same in
              rw (same, sym e, other) (rw other at h)
          | inr apart ↦ rw (apart, other) ih
        ]
  ]

  HasDistinct-update_row :
      (now : ℕ) (v : V) (rows : List (Row V))
      → HasDistinct rows
      → HasDistinct (update_row key now v rows)
  unfolding update_row
  HasDistinct-update_row now v [] h = tt
  HasDistinct-update_row now v (r ∷ rows) (new_id, new_key, h) =
      elim (Bool-cases (key r.columns == key v)) [
        | inl same ↦
            let e = (eq_iff (key r.columns) (key v)).0 same in rw same (new_id, rw e at new_key, h)
        | inr apart ↦ rw apart (
          select-update_row now r.id v rows new_id,
          stored-update-none now (key r.columns) v rows new_key,
          HasDistinct-update_row now v rows h,
        )
      ]

  AllBelow-update_row :
      (now n : ℕ) (v : V) (rows : List (Row V))
      → AllBelow n rows
      → AllBelow n (update_row key now v rows)
  unfolding update_row
  AllBelow-update_row now n v [] h = tt
  AllBelow-update_row now n v (r ∷ rows) (below, h) = elim (Bool-cases (key r.columns == key v)) [
    | inl same ↦ rw same (below, h)
    | inr apart ↦ rw apart (below, AllBelow-update_row now n v rows h)
  ]

  select-append :
      (id : ℕ) (rows : List (Row V)) (new : Row V)
      → select_row id rows ≡ none
      → eqb new.id id ≡ false
      → select_row id (rows ++ (new ∷ [])) ≡ none
  unfolding select_row
  select-append id [] new h other = rw other refl
  select-append id (r ∷ rows) new h other = ground (arith, select-append id rows new)

  stored-append :
      (k : String) (rows : List (Row V)) (new : Row V)
      → stored key k rows ≡ none
      → (key new.columns == k) ≡ false
      → stored key k (rows ++ (new ∷ [])) ≡ none
  unfolding stored
  stored-append k [] new h other = rw other refl
  stored-append k (r ∷ rows) new h other = ground (arith, stored-append k rows new)

  pub stored-none-cons :
      (k : String) (r : Row V) (rows : List (Row V))
      → stored key k (r ∷ rows) ≡ none
      → ((key r.columns == k) ≡ false) × (stored key k rows ≡ none)
  unfolding stored
  stored-none-cons k r rows h = elim (Bool-cases (key r.columns == k)) [
    | inl here ↦ let h' = rw here at h in cc
    | inr other ↦ (other, rw other at h)
  ]

  HasDistinct-append :
      (rows : List (Row V)) (new : Row V)
      → HasDistinct rows
      → AllBelow new.id rows
      → stored key (key new.columns) rows ≡ none
      → HasDistinct (rows ++ (new ∷ []))
  unfolding select_row stored
  HasDistinct-append [] new h below unstored = (refl, refl, tt)
  HasDistinct-append (r ∷ rows) new (new_id, new_key, h) (low, below) unstored =
      let (apart, later) = stored-none-cons (key new.columns) r rows unstored in
      (
        select-append r.id rows new new_id (ground (arith, low)),
        stored-append (key r.columns) rows new new_key (
            ground (
              arith,
              apart,
              eq_iff (key r.columns) (key new.columns),
              eq_iff (key new.columns) (key r.columns),
            )),
        HasDistinct-append rows new h below later,
      )

  AllBelow-append :
      (n : ℕ) (rows : List (Row V)) (new : Row V)
      → AllBelow n rows
      → new.id < n
      → AllBelow n (rows ++ (new ∷ []))
  AllBelow-append n [] new h low = (low, tt)
  AllBelow-append n (r ∷ rows) new (below, h) low = (below, AllBelow-append n rows new h low)

  IsKeyed-upsert_found :
      (now : ℕ) (v : V) (t : Table V)
      → IsKeyed t
      → IsKeyed (upsert_found key now v (find_row key (key v) t.rows) t)
  unfolding upsert_found
  IsKeyed-upsert_found now v t (distinct, below) = elim (stored-find_row key (key v) t.rows) [
    | inl (absent, unstored) ↦ rw absent (
      HasDistinct-append t.rows _ distinct below unstored,
      AllBelow-append (suc t.next_id) t.rows _ (AllBelow-suc t.next_id t.rows below) (omega arith),
    )
    | inr (r, present, _) ↦ rw present (
      HasDistinct-update_row now v t.rows distinct,
      AllBelow-suc t.next_id _ (AllBelow-update_row now t.next_id v t.rows below),
    )
  ]

  -- A command that succeeds keeps the ids and the keys apart.
  pub IsKeyed-upsert_rows :
      (fits : V → Bool) (now : ℕ) (affected : List String) (payload : List V) (t : Table V)
      (counts : Counts) (t' : Table V)
      → IsKeyed t
      → upsert_rows key fits now affected payload t ≡ ok (counts, t')
      → IsKeyed t'
  unfolding upsert_rows
  IsKeyed-upsert_rows fits now affected [] t counts t' keyed h =
      let e : t ≡ t' = cc in subst IsKeyed e keyed
  IsKeyed-upsert_rows fits now affected (v ∷ payload) t counts t' keyed h =
      let t1 = upsert_found key now v (find_row key (key v) t.rows) t in
      elim (Bool-cases (not (fits v) || mem (key v) affected)) [
        | inl again ↦ let h' = rw again at h in cc
        | inr new ↦ elim (Result-cases (upsert_rows key fits now (key v ∷ affected) payload t1)) [
          | inl (e, failed) ↦ let h' = rw (new, failed) at h in cc
          | inr ((counts1, t2), done) ↦
              let h' = rw (new, done) at h in
              let e : t2 ≡ t' = cc in
              subst IsKeyed e (
                IsKeyed-upsert_rows fits now (key v ∷ affected) payload t1 counts1 t2
                  (IsKeyed-upsert_found now v t keyed) done)
        ]
      ]
