-- ===== src/Repositories/Pages.antt =====
-- The pages of a list: they follow each other in the ordered rows that satisfy the conditions.
use native.Mathlib.Nat.{suc-mul}
use civic_archive_api.Prelude.{
  ℕ, zero, suc, ◌+◌, ◌-◌, ◌*◌, ◌≤◌, ◌≡◌, ◌⊎◌, refl, ap, sym, ◌∙◌, Bool, true, false, ◌&&◌, ◌||◌,
  List, [], ◌∷◌, ◌++◌, map, length, take, drop, count_if, arith, ltb, eqb, Bool-cases, inl, inr,
}
use civic_archive_api.Prelude.Int.{ℤ, pos, negsuc, ltb_ℤ, eqb_ℤ}
use civic_archive_api.Errors.{Result, ok, raise, ◌>>=◌}
use civic_archive_api.Repositories.Rows.{Row}
use civic_archive_api.Repositories.Common.{precedes, place, order_by, execute_paginated_query}

module _ {A : Type 0} where
  -- The items of a result; an exception has none.
  abbrev pub items_of : Result (List A × ℕ) → List A
  items_of (ok (items, total)) = items
  items_of (raise e) = []

  -- The items of the first pages, one page after the other.
  abbrev pub first_pages : (ℕ → Result (List A × ℕ)) → ℕ → List A
  first_pages page zero = []
  first_pages page (suc n) = first_pages page n ++ items_of (page (suc n))

  take-nil : (n : ℕ) → take {A = A} n [] ≡ []
  take-nil zero = refl
  take-nil (suc n) = refl

  pub take-append-take : (m n : ℕ) (xs : List A) → take m xs ++ take n (drop m xs) ≡ take (m + n) xs
  take-append-take zero n xs = ap (λ k. take k xs) (omega arith)
  take-append-take (suc m) n [] =
      let e : suc m + n ≡ suc (m + n) = omega arith in
      take-nil n ∙ sym (ap (λ k. take {A = A} k []) e)
  take-append-take (suc m) n (x ∷ xs) =
      let e : suc m + n ≡ suc (m + n) = omega arith in
      ap (λ rest. x ∷ rest) (take-append-take m n xs) ∙ sym (ap (λ k. take k (x ∷ xs)) e)

eqb_ℤ→eq : (a b : ℤ) → eqb_ℤ a b ≡ true → a ≡ b
eqb_ℤ→eq (pos m) (pos n) h = ap pos (ground arith)
eqb_ℤ→eq (pos m) (negsuc n) h = ground arith
eqb_ℤ→eq (negsuc m) (pos n) h = ground arith
eqb_ℤ→eq (negsuc m) (negsuc n) h = ap negsuc (ground arith)

later_if :
    (a b : ℤ) (m n : ℕ)
    → (ltb_ℤ a b || (eqb_ℤ a b && ltb m n)) ≡ true
    → (ltb_ℤ a b ≡ true) ⊎ ((b ≡ a) × (m ≤ n))
later_if a b m n h = elim (Bool-cases (ltb_ℤ a b)) [
  | inl later ↦ inl later
  | inr other ↦ elim (Bool-cases (eqb_ℤ a b)) [
    | inl same ↦ inr (sym (eqb_ℤ→eq a b same), ground arith)
    | inr apart ↦ let h' = rw (other, apart) at h in cc
  ]
]

later_unless :
    (a b : ℤ) (m n : ℕ)
    → (ltb_ℤ a b || (eqb_ℤ a b && ltb m n)) ≡ false
    → (ltb_ℤ b a ≡ true) ⊎ ((a ≡ b) × (n ≤ m))
later_unless a b m n h = elim (Bool-cases (ltb_ℤ b a)) [
  | inl later ↦ inl later
  | inr other ↦ let same : eqb_ℤ a b ≡ true = ground arith in inr (eqb_ℤ→eq a b same, ground arith)
]

module _ {V : Type 0} (time : Row V → ℤ) where
  -- The first of two rows is later than the second, or of the same time with an id as great at least.
  abbrev pub IsLater : Row V → Row V → Type 0
  IsLater r q = (ltb_ℤ (time q) (time r) ≡ true) ⊎ ((time r ≡ time q) × (q.id ≤ r.id))

  -- Every row is later than the next.
  abbrev pub IsOrdered : List (Row V) → Type 0
  IsOrdered [] = Unit
  IsOrdered (r ∷ []) = Unit
  IsOrdered (r ∷ (q ∷ rows)) = IsLater r q × IsOrdered (q ∷ rows)

  precedes-IsLater : (r q : Row V) → precedes time r q ≡ true → IsLater r q
  unfolding precedes
  precedes-IsLater r q = later_if (time q) (time r) q.id r.id

  unless_precedes-IsLater : (r q : Row V) → precedes time r q ≡ false → IsLater q r
  unfolding precedes
  unless_precedes-IsLater r q = later_unless (time q) (time r) q.id r.id

  place-IsOrdered :
      (r : Row V) (rows : List (Row V)) → IsOrdered rows → IsOrdered (place time r rows)
  unfolding place
  place-IsOrdered r [] h = tt
  place-IsOrdered r (q ∷ []) h = elim (Bool-cases (precedes time r q)) [
    | inl before ↦ rw before (precedes-IsLater r q before, tt)
    | inr after ↦ rw after (unless_precedes-IsLater r q after, tt)
  ]
  place-IsOrdered r (q ∷ (p ∷ rows)) h =
      let ih = place-IsOrdered r (p ∷ rows) h.1 in
      elim (Bool-cases (precedes time r q)) [
        | inl before ↦ rw before (precedes-IsLater r q before, h)
        | inr after ↦ rw after (elim (Bool-cases (precedes time r p)) [
          | inl between ↦
              let rest = rw between at ih in rw between (unless_precedes-IsLater r q after, rest)
          | inr later ↦ let rest = rw later at ih in rw later (h.0, rest)
        ])
      ]

  order_by-IsOrdered : (rows : List (Row V)) → IsOrdered (order_by time rows)
  unfolding order_by
  order_by-IsOrdered [] = tt
  order_by-IsOrdered (r ∷ rows) = place-IsOrdered r (order_by time rows) (order_by-IsOrdered rows)

  place-count :
      (p : Row V → Bool) (r : Row V) (rows : List (Row V))
      → count_if p (place time r rows) ≡ count_if p (r ∷ rows)
  unfolding place
  place-count p r [] = refl
  place-count p r (q ∷ rows) = ground (arith, place-count p r rows)

  order_by-count :
      (p : Row V → Bool) (rows : List (Row V)) → count_if p (order_by time rows) ≡ count_if p rows
  unfolding order_by
  order_by-count p [] = refl
  order_by-count p (r ∷ rows) =
      ground (arith, place-count p r (order_by time rows), order_by-count p rows)

  -- Of two neighbours in the ordered rows the first is later, or of the same time with an id as great
  -- at least; and they are the same rows: every test counts as many of them.
  pub order_by-sorts :
      (rows : List (Row V))
      → IsOrdered (order_by time rows)
        × ((p : Row V → Bool) → count_if p (order_by time rows) ≡ count_if p rows)
  order_by-sorts rows = (order_by-IsOrdered rows, λ p. order_by-count p rows)

module _ {V A : Type 0} (item : Row V → A) where
  -- A page of the list, with its rows as items.
  abbrev pub page_of : List (Row V) → ℕ → ℕ → Result (List A × ℕ)
  page_of rows size page = do
    (found, total) ← execute_paginated_query rows page size
    ok (map item found, total)

  map-take : (n : ℕ) (rows : List (Row V)) → map item (take n rows) ≡ take n (map item rows)
  map-take zero rows = refl
  map-take (suc n) [] = refl
  map-take (suc n) (r ∷ rows) = ap (λ rest. item r ∷ rest) (map-take n rows)

  map-drop : (n : ℕ) (rows : List (Row V)) → map item (drop n rows) ≡ drop n (map item rows)
  map-drop zero rows = refl
  map-drop (suc n) [] = refl
  map-drop (suc n) (r ∷ rows) = map-drop n rows

  page_of-suc :
      (rows : List (Row V)) (size n : ℕ)
      → page_of rows size (suc n) ≡ ok (take size (drop (n * size) (map item rows)), length rows)
  unfolding execute_paginated_query
  page_of-suc rows size n =
      let e : suc n - 1 ≡ n = omega arith in
      let nonzero : eqb (suc n) 0 ≡ false = ground arith in
      rw (nonzero, e, map-take size (drop (n * size) rows), map-drop (n * size) rows) refl

  -- The first pages are the first rows.
  pub first_pages-eq-take :
      (rows : List (Row V)) (size n : ℕ)
      → first_pages (page_of rows size) n ≡ take (n * size) (map item rows)
  first_pages-eq-take rows size zero =
      let e : 0 ≡ zero * size = omega arith in ap (λ k. take k (map item rows)) e
  first_pages-eq-take rows size (suc n) =
      let e : n * size + size ≡ suc n * size = sym (suc-mul n size) in
      rw
        (
          page_of-suc rows size n,
          first_pages-eq-take rows size n,
          take-append-take (n * size) size (map item rows),
          e,
        )
        refl
