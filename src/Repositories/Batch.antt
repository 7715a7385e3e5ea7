-- ===== src/Repositories/Batch.antt =====
-- A batch of rows, with repeats, after `dedupe_rows_by_key` and the upsert.
use civic_archive_api.Prelude.{
  ℕ, ◌+◌, ◌≡◌, refl, ap, sym, ◌∙◌, String, Bool, true, false, ◌||◌, Option, none, some, List, [],
  ◌∷◌, map, all, ◌⊎◌, length, arith, ◌==◌, eq_iff, Bool-cases, inl, inr, if◌then◌else◌,
}
use civic_archive_api.Errors.{database_error, ok, raise}
use civic_archive_api.Repositories.Rows.{Table, Counts, mem, upsert_rows}
use civic_archive_api.Repositories.Common.{dedupe_rows_by_key}
use civic_archive_api.Repositories.Dedupe.{keep_last, dedupe_rows_by_key-eq-keep_last}
use civic_archive_api.Repositories.Upsert.{
  NoRepeats, AreApart-nil, overlay, stored, last_with, upsert_rows-IsUpserted, upsert_rows-unfit,
}

known_again :
    (j k : String) (keys : List String) → mem j keys ≡ true → mem k keys ≡ (j == k || mem k keys)
known_again j k keys h = elim (Bool-cases (j == k)) [
  | inl same ↦
      let e : j ≡ k = (eq_iff j k).0 same in rw (same, ap (λ i. mem i keys) (sym e) ∙ h) refl
  | inr other ↦ rw other refl
]

overlay-none : {V : Type 0} (m : Option V) → overlay m none ≡ m
overlay-none none = refl
overlay-none (some v) = refl

module _ {V : Type 0} (key : V → String) where
  mem-keep_last :
      (k : String) (batch : List V) → mem k (map key (keep_last key batch)) ≡ mem k (map key batch)
  unfolding keep_last
  mem-keep_last k [] = refl
  mem-keep_last k (v ∷ batch) = elim (Bool-cases (mem (key v) (map key batch))) [
    | inl later ↦ rw later (mem-keep_last k batch ∙ known_again (key v) k (map key batch) later)
    | inr last ↦ rw last (ground (arith, mem-keep_last k batch))
  ]

  pub keep_last-NoRepeats : (batch : List V) → NoRepeats (map key (keep_last key batch))
  unfolding keep_last
  keep_last-NoRepeats [] = tt
  keep_last-NoRepeats (v ∷ batch) = elim (Bool-cases (mem (key v) (map key batch))) [
    | inl later ↦ rw later (keep_last-NoRepeats batch)
    | inr last ↦ rw last (mem-keep_last (key v) batch ∙ last, keep_last-NoRepeats batch)
  ]

  last_with-none :
      (k : String) (batch : List V) → mem k (map key batch) ≡ false → last_with key k batch ≡ none
  unfolding last_with
  last_with-none k [] h = refl
  last_with-none k (v ∷ batch) h =
      let ih = last_with-none k batch (ground arith) in ground (arith, ih)

  last_with-some :
      (k : String) (batch : List V)
      → mem k (map key batch) ≡ true
      → (v : V) × (last_with key k batch ≡ some v)
  unfolding last_with
  last_with-some k [] h = cc
  last_with-some k (v ∷ batch) h = elim (Bool-cases (mem k (map key batch))) [
    | inl later ↦ let (w, e) = last_with-some k batch later in rw e (w, refl)
    | inr last ↦
        let here : (key v == k) ≡ true = ground arith in
        rw (last_with-none k batch last, here) (v, refl)
  ]

  later_wins :
      (k : String) (v : V) (batch : List V)
      → mem (key v) (map key batch) ≡ true
      → overlay (last_with key k batch) (if key v == k then some v else none)
        ≡ last_with key k batch
  later_wins k v batch later = elim (Bool-cases (key v == k)) [
    | inl same ↦
        let e : key v ≡ k = (eq_iff (key v) k).0 same in
        let (w, stays) = last_with-some k batch (ap (λ i. mem i (map key batch)) (sym e) ∙ later) in
        rw stays refl
    | inr other ↦ rw other (overlay-none (last_with key k batch))
  ]

  last_with-keep_last :
      (k : String) (batch : List V) → last_with key k (keep_last key batch) ≡ last_with key k batch
  unfolding last_with keep_last
  last_with-keep_last k [] = refl
  last_with-keep_last k (v ∷ batch) = elim (Bool-cases (mem (key v) (map key batch))) [
    | inl later ↦ rw later (last_with-keep_last k batch ∙ sym (later_wins k v batch later))
    | inr last ↦ rw (last, last_with-keep_last k batch) refl
  ]

  -- A batch is refused if the last row of a key does not fit, and else it is stored: under each key
  -- the last row of the batch, or what was there.
  pub upsert_batch :
      (fits : V → Bool) (now : ℕ) (batch : List V) (t : Table V)
      → ((all fits (keep_last key batch) ≡ false)
          × (upsert_rows key fits now [] (dedupe_rows_by_key key batch) t ≡ raise database_error))
        ⊎ ((all fits (keep_last key batch) ≡ true)
            × (counts : Counts) × (t' : Table V) × (upsert_rows key fits now []
                  (dedupe_rows_by_key key batch)
                  t
                ≡ ok (counts, t'))
            × (counts.inserted + counts.updated ≡ length (keep_last key batch))
            × (counts.inserted + length t.rows ≡ length t'.rows)
            × ((k : String)
                → stored key k t'.rows ≡ overlay (last_with key k batch) (stored key k t.rows)))
  upsert_batch fits now batch t =
      let same_rows =
        ap (λ payload. upsert_rows key fits now [] payload t)
          (dedupe_rows_by_key-eq-keep_last key batch) in
      elim (Bool-cases (all fits (keep_last key batch))) [
        | inr wide ↦
            inl (wide, same_rows ∙ upsert_rows-unfit key fits now [] (keep_last key batch) t wide)
        | inl fitting ↦
            let (counts, t', same, u) =
              upsert_rows-IsUpserted key fits now [] (keep_last key batch) t fitting
                (keep_last-NoRepeats batch) (AreApart-nil _) in
            inr (
              fitting,
              counts,
              t',
              same_rows ∙ same,
              u.counted,
              u.grown,
              λ k.
                  u.now_stored k
                  ∙ ap (λ m. overlay m (stored key k t.rows)) (last_with-keep_last k batch),
            )
      ]
