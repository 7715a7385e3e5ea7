-- ===== src/Text/Laws.antt =====
-- `strip` is idempotent, and its result is empty or begins with a character that is no space.
use Prim.Native.Char.{Char, code}
use Prim.Native.String.{[], ◌∷◌}
use civic_archive_api.Prelude.{String, ◌≡◌, refl, ap, ◌∙◌, false, some, arith, inl, inr, Bool-cases}
use civic_archive_api.Text.{is_empty, or_none, is_space, lstrip, before, rstrip, strip}

-- The text is empty or begins with no space.
abbrev pub StartsSolid : String → Type 0
StartsSolid [] = Unit
StartsSolid (c ∷ s) = is_space (code c) ≡ false

lstrip-StartsSolid : (s : String) → StartsSolid (lstrip s)
unfolding lstrip
lstrip-StartsSolid [] = tt
lstrip-StartsSolid (c ∷ s) = elim (Bool-cases (is_space (code c))) [
  | inl space ↦ rw space (lstrip-StartsSolid s)
  | inr solid ↦ rw solid solid
]

lstrip_lem : (s : String) → StartsSolid s → lstrip s ≡ s
unfolding lstrip
lstrip_lem [] h = refl
lstrip_lem (c ∷ s) h = rw h

-- A text that keeps its first character keeps it under `before`.
before-StartsSolid : (c : Char) (s : String) → is_space (code c) ≡ false → StartsSolid (before c s)
unfolding before
before-StartsSolid c [] h = rw h h
before-StartsSolid c (d ∷ s) h = h

rstrip-StartsSolid : (s : String) → StartsSolid s → StartsSolid (rstrip s)
unfolding rstrip
rstrip-StartsSolid [] h = tt
rstrip-StartsSolid (c ∷ s) h = before-StartsSolid c (rstrip s) h

rstrip-before : (c : Char) (s : String) → rstrip s ≡ s → rstrip (before c s) ≡ before c s
unfolding rstrip before
rstrip-before c [] h = elim (Bool-cases (is_space (code c))) [
  | inl space ↦ rw space
  | inr solid ↦ rw (solid, before) (rw solid)
]
rstrip-before c (d ∷ s) h = ap (before c) h

rstrip_idem : (s : String) → rstrip (rstrip s) ≡ rstrip s
unfolding rstrip
rstrip_idem [] = refl
rstrip_idem (c ∷ s) = rstrip-before c (rstrip s) (rstrip_idem s)

pub strip-StartsSolid : (s : String) → StartsSolid (strip s)
unfolding strip
strip-StartsSolid s = rstrip-StartsSolid (lstrip s) (lstrip-StartsSolid s)

pub strip_idem : (s : String) → strip (strip s) ≡ strip s
unfolding strip
strip_idem s = ap rstrip (lstrip_lem (strip s) (strip-StartsSolid s)) ∙ rstrip_idem (lstrip s)

-- `strip` leaves a text that `or_none` takes, or nothing.
pub or_none-eq-some :
    (s : String) {t : String} → or_none s ≡ some t → (s ≡ t) × (is_empty t ≡ false)
unfolding or_none is_empty
or_none-eq-some [] h = cc
or_none-eq-some (c ∷ s) h = ground arith

pub or_none_of_not_empty : (s : String) → is_empty s ≡ false → or_none s ≡ some s
unfolding or_none is_empty
or_none_of_not_empty [] h = cc
or_none_of_not_empty (c ∷ s) h = refl
