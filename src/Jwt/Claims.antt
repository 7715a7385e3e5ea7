-- ===== src/Jwt/Claims.antt =====
-- What a set of claim values holds.
use civic_archive_api.Prelude.{
  String, ◌≡◌, ◌↔◌, ◌⊎◌, inl, inr, ◌≢◌, ◌++◌, true, false, List, [], ◌∷◌, arith, ◌==◌, eq_iff,
  Bool-cases,
}
use mathlib.Core.List.{append-nil}
use civic_archive_api.Text.{is_empty, strip, words}
use civic_archive_api.Json.{Json, str, arr, Items, nil, cons, Fields, get_or_null}
use civic_archive_api.Jwt.{unless_blank, item_values, claim_values, extract_values_set, contains}

-- A value stands in a list.
abbrev pub In : String → List String → Type 0
In v [] = ⊥
In v (w ∷ ws) = (w ≡ v) ⊎ In v ws

pub contains_iff : (v : String) (ws : List String) → (contains v ws ≡ true) ↔ In v ws
contains_iff v [] = (λ h. cc, λ h. elim h [ ])
contains_iff v (w ∷ ws) =
    let ih = contains_iff v ws in
    (
      λ h. elim (Bool-cases (w == v)) [
        | inl same ↦ inl ((eq_iff w v).0 same)
        | inr differs ↦ inr (ih.0 (ground arith))
      ],
      λ h. elim h [
        | inl same ↦ ground (arith, eq_iff w v)
        | inr later ↦ ground (arith, ih.1 later)
      ],
    )

In-append_iff : (v : String) (xs ys : List String) → In v (xs ++ ys) ↔ (In v xs ⊎ In v ys)
In-append_iff v [] ys = (λ h. inr h, λ h. elim h [ inl l ↦ elim l [ ] | inr r ↦ r ])
In-append_iff v (x ∷ xs) ys =
    let ih = In-append_iff v xs ys in
    (
      λ h. elim h [
        | inl e ↦ inl (inl e)
        | inr later ↦ elim (ih.0 later) [ inl l ↦ inl (inr l) | inr r ↦ inr r ]
      ],
      λ h. elim h [
        | inl l ↦ elim l [ inl e ↦ inl e | inr later ↦ inr (ih.1 (inl later)) ]
        | inr r ↦ inr (ih.1 (inr r))
      ],
    )

pub ⊎_iff : {A B C D : Type 0} → A ↔ C → B ↔ D → (A ⊎ B) ↔ (C ⊎ D)
⊎_iff f g = (
  λ h. elim h [ inl a ↦ inl (f.0 a) | inr b ↦ inr (g.0 b) ],
  λ h. elim h [ inl c ↦ inl (f.1 c) | inr d ↦ inr (g.1 d) ],
)

-- The values of two lists together, each by its own meaning.
In-append_by :
    {A B : Type 0} (v : String) (xs ys : List String)
    → In v xs ↔ A
    → In v ys ↔ B
    → In v (xs ++ ys) ↔ (A ⊎ B)
In-append_by v xs ys f g =
    let (split, join) = In-append_iff v xs ys in
    let (to, from) = ⊎_iff f g in (λ h. to (split h), λ h. join (from h))

-- `v` is `s` without the space around it, and is not blank.
abbrev pub IsTrimmed : String → String → Type 0
IsTrimmed v s = (strip s ≡ v) × (is_empty v ≡ false)

-- Some text of the array is `v`.
abbrev pub ItemGives : String → Items → Type 0
ItemGives v nil = ⊥
ItemGives v (cons (str s) items) = IsTrimmed v s ⊎ ItemGives v items
ItemGives v (cons _ items) = ItemGives v items

-- The claim `key` of that value gives `v`: a text is one value, but for `scope`, where it is a list of
-- words; an array gives its texts.
abbrev pub ValueGives : String → String → Json → Type 0
ValueGives key v (str raw) =
    ((key ≡ "scope") × In v (words raw)) ⊎ ((key ≢ "scope") × IsTrimmed v raw)
ValueGives key v (arr items) = ItemGives v items
ValueGives key v _ = ⊥

abbrev pub Gives : Fields → String → String → Type 0
Gives claims key v = ValueGives key v (get_or_null key claims)

unless_blank_iff : (v s : String) → In v (unless_blank (strip s)) ↔ IsTrimmed v s
unfolding unless_blank
unless_blank_iff v s = elim (Bool-cases (is_empty (strip s))) [
  | inl blank ↦ rw blank (λ h. elim h [ ], λ h. cc (blank, h.0, h.1))
  | inr full ↦
      rw full
        (λ h. elim h [ inl e ↦ (e, rw (← e) full) | inr later ↦ elim later [ ] ], λ h. inl h.0)
]

item_values_iff : (v : String) (items : Items) → In v (item_values items) ↔ ItemGives v items
unfolding item_values
item_values_iff v nil = (λ h. h, λ h. h)
item_values_iff v (cons (str s) items) =
    In-append_by v (unless_blank (strip s)) (item_values items) (unless_blank_iff v s)
      (item_values_iff v items)
item_values_iff v (cons _ items) = item_values_iff v items

claim_values_iff :
    (key v : String) (raw : Json) → In v (claim_values key raw) ↔ ValueGives key v raw
unfolding claim_values
claim_values_iff key v (str raw) = elim (Bool-cases (key == "scope")) [
  | inl scope ↦ rw scope (
    λ h. inl ((eq_iff key "scope").0 scope, h),
    λ h. elim h [ inl w ↦ w.1 | inr t ↦ absurd (t.0 ((eq_iff key "scope").0 scope)) ],
  )
  | inr plain ↦ rw plain (
    λ h. inr (ground (arith, eq_iff key "scope"), (unless_blank_iff v raw).0 h),
    λ h. elim h [
      | inl w ↦ cc (plain, (eq_iff key "scope").1 w.0)
      | inr t ↦ (unless_blank_iff v raw).1 t.1
    ],
  )
]
claim_values_iff key v (arr items) = item_values_iff v items
claim_values_iff key v _ = (λ h. h, λ h. h)

-- The set of two claims holds exactly what one of them gives.
pub extract_values_set_iff :
    (claims : Fields) (k j v : String)
    → In v (extract_values_set claims (k ∷ j ∷ [])) ↔ (Gives claims k v ⊎ Gives claims j v)
unfolding extract_values_set
extract_values_set_iff claims k j v =
    let last = claim_values j (get_or_null j claims) in
    rw (append-nil last) (
      In-append_by v (claim_values k (get_or_null k claims)) last
        (claim_values_iff k v (get_or_null k claims)) (claim_values_iff j v (get_or_null j claims)))
