-- ===== src/Dict.antt =====
-- Python's `dict` with text keys, as a list of entries with no key twice. The program reads no
-- order from the dicts that are modelled by it.
use civic_archive_api.Prelude.{
  String, ◌≡◌, refl, Bool, Option, none, some, List, [], ◌∷◌, arith, ◌==◌, eq_iff, inl, inr,
  Bool-cases, if◌then◌else◌,
}

module _ {ℓ} {V : Type ℓ} where
  -- d.get(k)
  unfoldable pub get : String → List (String × V) → Option V
  get k [] = none
  get k ((j, v) ∷ d) = if j == k then some v else get k d

  -- d[k] = v
  unfoldable pub put : String → V → List (String × V) → List (String × V)
  put k v [] = (k, v) ∷ []
  put k v ((j, w) ∷ d) = if j == k then (j, v) ∷ d else (j, w) ∷ put k v d

  -- {k: v for k, v in d.items() if p(v)}
  unfoldable pub keep_values : (V → Bool) → List (String × V) → List (String × V)
  keep_values p [] = []
  keep_values p ((k, v) ∷ d) = let rest = keep_values p d in if p v then (k, v) ∷ rest else rest

  abbrev pub HasDistinctKeys : List (String × V) → Type ℓ
  HasDistinctKeys [] = Unit
  HasDistinctKeys ((k, v) ∷ d) = (get k d ≡ none) × HasDistinctKeys d

  pub get-put :
      (k j : String) (v : V) (d : List (String × V))
      → get j (put k v d) ≡ (if k == j then some v else get j d)
  unfolding get put
  get-put k j v [] = refl
  get-put k j v ((i, w) ∷ d) = ground (arith, eq_iff i k, eq_iff i j, eq_iff k j, get-put k j v d)

  pub put-HasDistinctKeys :
      (k : String) (v : V) (d : List (String × V)) → HasDistinctKeys d → HasDistinctKeys (put k v d)
  unfolding get put
  put-HasDistinctKeys k v [] h = (refl, tt)
  put-HasDistinctKeys k v ((i, w) ∷ d) h = elim (Bool-cases (i == k)) [
    | inl same ↦ rw same h
    | inr other ↦ rw other (
      ground (arith, get-put k i v d, eq_iff i k, eq_iff k i, h.0),
      put-HasDistinctKeys k v d h.1,
    )
  ]

  abbrev pub keep_if : (V → Bool) → Option V → Option V
  keep_if p none = none
  keep_if p (some v) = if p v then some v else none

  pub get-keep_values :
      (p : V → Bool) (j : String) (d : List (String × V))
      → HasDistinctKeys d
      → get j (keep_values p d) ≡ keep_if p (get j d)
  unfolding get keep_values
  get-keep_values p j [] h = refl
  get-keep_values p j ((i, v) ∷ d) h = ground (arith, get-keep_values p j d h.1, eq_iff i j, h.0)

  pub keep_values-HasDistinctKeys :
      (p : V → Bool) (d : List (String × V)) → HasDistinctKeys d → HasDistinctKeys (keep_values p d)
  unfolding get keep_values
  keep_values-HasDistinctKeys p [] h = tt
  keep_values-HasDistinctKeys p ((i, v) ∷ d) h = elim (Bool-cases (p v)) [
    | inl kept ↦
        rw kept
          (ground (arith, get-keep_values p i d h.1, h.0), keep_values-HasDistinctKeys p d h.1)
    | inr dropped ↦ rw dropped (keep_values-HasDistinctKeys p d h.1)
  ]
