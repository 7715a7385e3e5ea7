-- ===== src/Repositories/Dedupe.antt =====
-- What is left of a batch when the later of two rows with one key wins.
use mathlib.Core.List.{reverse, append-nil, reverse-cons, reverse-append}
use civic_archive_api.Prelude.{
  ◌≡◌, refl, ap, sym, ◌∙◌, String, true, ◌||◌, List, [], ◌∷◌, ◌++◌, map, arith, ◌==◌, eq_iff,
  Bool-cases, inl, inr, if◌then◌else◌,
}
use civic_archive_api.Repositories.Rows.{mem}
use civic_archive_api.Repositories.Common.{dedupe_reversed, dedupe_rows_by_key}

mem-append : (k : String) (xs ys : List String) → mem k (xs ++ ys) ≡ (mem k xs || mem k ys)
mem-append k [] ys = refl
mem-append k (x ∷ xs) ys = ground (arith, mem-append k xs ys)

-- A key that has been seen makes no difference where it is seen again.
seen_again :
    (j k : String) (xs seen : List String)
    → mem j seen ≡ true
    → mem k (xs ++ seen) ≡ (j == k || mem k (xs ++ seen))
seen_again j k xs seen h = elim (Bool-cases (j == k)) [
  | inl same ↦
      let e : j ≡ k = (eq_iff j k).0 same in
      rw (same, mem-append k xs seen, ap (λ i. mem i seen) (sym e) ∙ h) (ground arith)
  | inr other ↦ rw other refl
]

seen_before :
    (j k : String) (xs seen : List String)
    → mem k (xs ++ (j ∷ seen)) ≡ (j == k || mem k (xs ++ seen))
seen_before j k xs seen = ground (arith, mem-append k xs (j ∷ seen), mem-append k xs seen)

module _ {V : Type 0} (key : V → String) where
  -- A row stays if no later row has its key.
  unfoldable pub keep_last : List V → List V
  keep_last [] = []
  keep_last (item ∷ items) =
      let rest = keep_last items in if mem (key item) (map key items) then rest else item ∷ rest

  dedupe_reversed-append :
      (seen : List String) (items : List V) (item : V)
      → dedupe_reversed key seen (items ++ (item ∷ []))
        ≡ dedupe_reversed key seen items
          ++ (if mem (key item) (map key items ++ seen) then [] else item ∷ [])
  unfolding dedupe_reversed
  dedupe_reversed-append seen [] item = elim (Bool-cases (mem (key item) seen)) [
    | inl known ↦ rw (dedupe_reversed, known) refl
    | inr new ↦ rw (dedupe_reversed, new) refl
  ]
  dedupe_reversed-append seen (x ∷ items) item = elim (Bool-cases (mem (key x) seen)) [
    | inl known ↦
        rw (known, sym (seen_again (key x) (key item) (map key items) seen known))
          (dedupe_reversed-append seen items item)
    | inr new ↦
        rw (new, sym (seen_before (key x) (key item) (map key items) seen))
          (ap (λ rest. x ∷ rest) (dedupe_reversed-append (key x ∷ seen) items item))
  ]

  mem-append_last :
      (k : String) (items : List V) (x : V)
      → mem k (map key (items ++ (x ∷ [])) ++ []) ≡ (mem k (map key items ++ []) || key x == k)
  mem-append_last k [] x = ground arith
  mem-append_last k (y ∷ items) x = ground (arith, mem-append_last k items x)

  mem-reverse :
      (k : String) (items : List V) → mem k (map key (reverse items) ++ []) ≡ mem k (map key items)
  mem-reverse k [] = refl
  mem-reverse k (x ∷ items) =
      rw (reverse-cons x items)
        (mem-append_last k (reverse items) x ∙ ground (arith, mem-reverse k items))

  -- `dedupe_rows_by_key` keeps the last row of each key, in the order of the rows.
  pub dedupe_rows_by_key-eq-keep_last :
      (items : List V) → dedupe_rows_by_key key items ≡ keep_last items
  unfolding dedupe_rows_by_key keep_last
  dedupe_rows_by_key-eq-keep_last [] = refl
  dedupe_rows_by_key-eq-keep_last (item ∷ items) =
      let ih = dedupe_rows_by_key-eq-keep_last items in
      rw
        (
          dedupe_rows_by_key,
          reverse-cons item items,
          dedupe_reversed-append [] (reverse items) item,
          mem-reverse (key item) items,
        )
        (elim (Bool-cases (mem (key item) (map key items))) [
          | inl later ↦ rw later (rw (append-nil (dedupe_reversed key [] (reverse items))) ih)
          | inr last ↦
              rw (last, reverse-append (dedupe_reversed key [] (reverse items)) (item ∷ []))
                (ap (λ rest. item ∷ rest) ih)
        ])
