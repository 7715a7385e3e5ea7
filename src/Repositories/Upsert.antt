-- ===== src/Repositories/Upsert.antt =====
-- What `INSERT ... ON CONFLICT DO UPDATE` does to a table, on a payload with no key twice.
use civic_archive_api.Prelude.{
  ℕ, suc, ◌+◌, ◌≡◌, ◌⊎◌, refl, ap, sym, ◌∙◌, String, Bool, true, false, Option, none, some, List,
  [], ◌∷◌, ◌++◌, map, all, length, length-append, arith, ◌==◌, eq_iff, Bool-cases, inl, inr,
  if◌then◌else◌,
}
use civic_archive_api.Errors.{database_error, ok, raise}
use civic_archive_api.Repositories.Rows.{
  Row, Table, Counts, mem, find_row, update_row, upsert_found, count_row, upsert_rows,
}

abbrev pub NoRepeats : List String → Type 0
NoRepeats [] = Unit
NoRepeats (k ∷ keys) = (mem k keys ≡ false) × NoRepeats keys

-- No key of the one list is in the other.
abbrev pub AreApart : List String → List String → Type 0
AreApart [] others = Unit
AreApart (k ∷ keys) others = (mem k others ≡ false) × AreApart keys others

AreApart-cons :
    (j : String) (keys others : List String)
    → mem j keys ≡ false
    → AreApart keys others
    → AreApart keys (j ∷ others)
AreApart-cons j [] others new apart = tt
AreApart-cons j (k ∷ keys) others new apart = (
  ground (arith, apart.0, eq_iff j k, eq_iff k j),
  AreApart-cons j keys others (ground arith) apart.1,
)

pub AreApart-nil : (keys : List String) → AreApart keys []
AreApart-nil [] = tt
AreApart-nil (k ∷ keys) = (refl, AreApart-nil keys)

module _ {V : Type 0} where
  -- The first value if there is one, else the second.
  abbrev pub overlay : Option V → Option V → Option V
  overlay none old = old
  overlay (some v) old = some v

pub overlay_if :
    {V : Type 0} (m : Option V) (b : Bool) (v : V) (old : Option V)
    → overlay (overlay m (if b then some v else none)) old ≡ overlay m (if b then some v else old)
overlay_if (some w) b v old = refl
overlay_if none true v old = refl
overlay_if none false v old = refl

module _ {V : Type 0} (key : V → String) where
  -- The columns that a table holds under a key.
  unfoldable pub stored : String → List (Row V) → Option V
  stored k [] = none
  stored k (r ∷ rows) = if key r.columns == k then some r.columns else stored k rows

  -- The last row of a batch with a key.
  unfoldable pub last_with : String → List V → Option V
  last_with k [] = none
  last_with k (v ∷ batch) = overlay (last_with k batch) (if key v == k then some v else none)

  pub stored-find_row :
      (k : String) (rows : List (Row V))
      → ((find_row key k rows ≡ none) × (stored k rows ≡ none))
        ⊎ ((r : Row V) × (find_row key k rows ≡ some r) × (stored k rows ≡ some r.columns))
  unfolding stored find_row
  stored-find_row k [] = inl (refl, refl)
  stored-find_row k (q ∷ rows) = elim (Bool-cases (key q.columns == k)) [
    | inl here ↦ rw here (inr (q, refl, refl))
    | inr later ↦ rw later (stored-find_row k rows)
  ]

  stored-insert :
      (k : String) (rows : List (Row V)) (r : Row V)
      → stored (key r.columns) rows ≡ none
      → stored k (rows ++ (r ∷ [])) ≡ (if key r.columns == k then some r.columns else stored k rows)
  unfolding stored
  stored-insert k [] r h = refl
  stored-insert k (q ∷ rows) r h = elim (Bool-cases (key q.columns == key r.columns)) [
    | inl same ↦ let e = rw same at h in cc
    | inr other ↦
        let ih = stored-insert k rows r (rw other at h) in
        ground (
          arith,
          ih,
          other,
          eq_iff (key q.columns) k,
          eq_iff (key r.columns) k,
          eq_iff (key q.columns) (key r.columns),
        )
  ]

  stored-update :
      (now : ℕ) (k : String) (v w : V) (rows : List (Row V))
      → stored (key v) rows ≡ some w
      → stored k (update_row key now v rows) ≡ (if key v == k then some v else stored k rows)
  unfolding stored update_row
  stored-update now k v w [] h = cc
  stored-update now k v w (q ∷ rows) h = elim (Bool-cases (key q.columns == key v)) [
    | inl same ↦ let e = (eq_iff (key q.columns) (key v)).0 same in rw same (rw e (ground arith))
    | inr other ↦
        let ih = stored-update now k v w rows (rw other at h) in
        rw other (
          ground (
            arith,
            ih,
            other,
            eq_iff (key q.columns) k,
            eq_iff (key v) k,
            eq_iff (key q.columns) (key v),
          ))
  ]

  length-update_row :
      (now : ℕ) (v : V) (rows : List (Row V)) → length (update_row key now v rows) ≡ length rows
  unfolding update_row
  length-update_row now v [] = refl
  length-update_row now v (q ∷ rows) = ground (arith, length-update_row now v rows)

  -- One row of a payload.
  upsert_found-stored :
      (now : ℕ) (v : V) (t : Table V) (k : String)
      → stored k (upsert_found key now v (find_row key (key v) t.rows) t).rows
        ≡ (if key v == k then some v else stored k t.rows)
  unfolding upsert_found
  upsert_found-stored now v t k = elim (stored-find_row (key v) t.rows) [
    | inl (absent, unstored) ↦ rw absent (stored-insert k t.rows _ unstored)
    | inr (r, present, held) ↦ rw present (stored-update now k v r.columns t.rows held)
  ]

  -- A row counts as inserted exactly if the table grows by it.
  upsert_found-count :
      (now : ℕ) (v : V) (t : Table V) (n : Counts)
      → let n' = count_row key (find_row key (key v) t.rows) n in
        (n'.inserted + n'.updated ≡ suc (n.inserted + n.updated))
        × (n'.inserted + length t.rows
            ≡ n.inserted + length (upsert_found key now v (find_row key (key v) t.rows) t).rows)
  unfolding upsert_found
  upsert_found-count now v t n = elim (stored-find_row (key v) t.rows) [
    | inl (absent, _) ↦ rw absent (omega arith, omega (arith, length-append t.rows _))
    | inr (r, present, _) ↦ rw present (omega arith, omega (arith, length-update_row now v t.rows))
  ]

  -- What a command has done to a table whose rows were `t`.
  pub record IsUpserted (payload : List V) (t : Table V) (counts : Counts) (t' : Table V)
      : Type 0 where
    pub counted : counts.inserted + counts.updated ≡ length payload
    pub grown : counts.inserted + length t.rows ≡ length t'.rows
    pub now_stored :
        (k : String) → stored k t'.rows ≡ overlay (last_with k payload) (stored k t.rows)

  pub upsert_rows-IsUpserted :
      (fits : V → Bool) (now : ℕ) (affected : List String) (payload : List V) (t : Table V)
      → all fits payload ≡ true
      → NoRepeats (map key payload)
      → AreApart (map key payload) affected
      → (counts : Counts) × (t' : Table V) × (upsert_rows key fits now affected payload t
          ≡ ok (counts, t'))
        × IsUpserted payload t counts t'
  unfolding upsert_rows last_with
  upsert_rows-IsUpserted fits now affected [] t fit distinct apart = (
    record { inserted = 0; updated = 0 },
    t,
    refl,
    record { counted = omega arith; grown = omega arith; now_stored = λ k. refl },
  )
  upsert_rows-IsUpserted fits now affected (v ∷ payload) t fit distinct apart =
      let fits_v : fits v ≡ true = ground arith in
      let found = find_row key (key v) t.rows in
      let (counts, t', same, u) =
        upsert_rows-IsUpserted fits now (key v ∷ affected) payload (upsert_found key now v found t)
          (ground arith) distinct.1
          (AreApart-cons (key v) (map key payload) affected distinct.0 apart.1) in
      let (total, growth) = upsert_found-count now v t counts in
      (
        count_row key found counts,
        t',
        rw (fits_v, apart.0, same) refl,
        record {
          counted = omega (arith, u.counted, total);
          grown = omega (arith, u.grown, growth);
          now_stored = λ k.
              u.now_stored k
              ∙ ap (overlay (last_with k payload)) (upsert_found-stored now v t k)
              ∙ sym (overlay_if (last_with k payload) (key v == k) v (stored k t.rows));
        },
      )

  -- A row that does not fit is the end of the command.
  pub upsert_rows-unfit :
      (fits : V → Bool) (now : ℕ) (affected : List String) (payload : List V) (t : Table V)
      → all fits payload ≡ false
      → upsert_rows key fits now affected payload t ≡ raise database_error
  unfolding upsert_rows
  upsert_rows-unfit fits now affected [] t unfit = cc
  upsert_rows-unfit fits now affected (v ∷ payload) t unfit = elim (Bool-cases (fits v)) [
    | inr wide ↦ rw wide refl
    | inl fitting ↦
        let later : all fits payload ≡ false = rw fitting at unfit in
        let t1 = upsert_found key now v (find_row key (key v) t.rows) t in
        let ih = upsert_rows-unfit fits now (key v ∷ affected) payload t1 later in
        elim (Bool-cases (mem (key v) affected)) [
          | inl again ↦ rw (fitting, again) refl
          | inr new ↦ rw (fitting, new, ih) refl
        ]
  ]
