-- ===== src/Repositories/Segments/Known.antt =====
-- The hashes that an insert of segments keeps and adds.
use civic_archive_api.Prelude.{
  ℕ, ◌≡◌, ◌⊎◌, refl, ap, eq_iff, String, true, ◌||◌, Option, none, some, List, [], ◌∷◌, ◌++◌, arith,
  eq_refl, Bool-cases, inl, inr,
}
use civic_archive_api.Repositories.Rows.{Row, Table}
use civic_archive_api.Repositories.Common.{equals}
use civic_archive_api.Repositories.Segments.{
  new_row, Segment, SegmentUpsert, has_hash, has_legacy_hash, exists, insert_unless_conflict,
}

has_hash-append :
    (hash : String) (rows others : List (Row Segment))
    → has_hash hash (rows ++ others) ≡ (has_hash hash rows || has_hash hash others)
has_hash-append hash [] others = refl
has_hash-append hash (r ∷ rows) others = ground (arith, has_hash-append hash rows others)

-- Every hash of one list of rows is in the other.
abbrev pub Keeps : List (Row Segment) → List (Row Segment) → Type 0
Keeps rows rows' = (hash : String) → has_hash hash rows ≡ true → has_hash hash rows' ≡ true

pub unless_conflict-Keeps :
    (now : ℕ) (p : SegmentUpsert) (state : ℕ × Table Segment)
    → Keeps state.1.rows (insert_unless_conflict now p state).1.rows
unfolding insert_unless_conflict
unless_conflict-Keeps now p (n, t) hash h = elim (Bool-cases (has_hash p.dedupe_hash t.rows)) [
  | inl known ↦ rw known h
  | inr new ↦ rw (new, has_hash-append hash t.rows (new_row now t.next_id p ∷ []), h) refl
]

pub unless_conflict-has_hash :
    (now : ℕ) (p : SegmentUpsert) (state : ℕ × Table Segment)
    → has_hash p.dedupe_hash (insert_unless_conflict now p state).1.rows ≡ true
unfolding insert_unless_conflict
unless_conflict-has_hash now p (n, t) = elim (Bool-cases (has_hash p.dedupe_hash t.rows)) [
  | inl known ↦ rw known known
  | inr new ↦
      rw (new, has_hash-append p.dedupe_hash t.rows (new_row now t.next_id p ∷ []), new)
        (ground (arith, eq_refl p.dedupe_hash))
]

has_legacy_hash-Keeps :
    (hash : Option String) (rows rows' : List (Row Segment))
    → Keeps rows rows'
    → has_legacy_hash hash rows ≡ true
    → has_legacy_hash hash rows' ≡ true
has_legacy_hash-Keeps none rows rows' keeps h = h
has_legacy_hash-Keeps (some hash) rows rows' keeps h = keeps hash h

pub exists-Keeps :
    (p : SegmentUpsert) (rows rows' : List (Row Segment))
    → Keeps rows rows'
    → exists p rows ≡ true
    → exists p rows' ≡ true
exists-Keeps p rows rows' keeps h = elim (Bool-cases (has_hash p.dedupe_hash rows)) [
  | inl known ↦ rw (keeps p.dedupe_hash known) refl
  | inr unknown ↦
      let legacy = rw unknown at h in
      ground (arith, has_legacy_hash-Keeps p.dedupe_hash_legacy rows rows' keeps legacy)
]

-- A row with the hash.
abbrev pub HoldsHash : String → List (Row Segment) → Type 0
HoldsHash hash [] = ⊥
HoldsHash hash (r ∷ rows) = (r.columns.dedupe_hash ≡ some hash) ⊎ HoldsHash hash rows

-- A row with one of the two hashes of a segment.
abbrev pub IsPresent : SegmentUpsert → List (Row Segment) → Type 0
IsPresent p rows =
    HoldsHash p.dedupe_hash rows
    ⊎ ((hash : String) × (p.dedupe_hash_legacy ≡ some hash) × HoldsHash hash rows)

equals-some : (o : Option String) (hash : String) → equals o hash ≡ true → o ≡ some hash
equals-some none hash h = cc
equals-some (some s) hash h = ap some ((eq_iff s hash).0 h)

has_hash-HoldsHash :
    (hash : String) (rows : List (Row Segment)) → has_hash hash rows ≡ true → HoldsHash hash rows
has_hash-HoldsHash hash [] h = cc
has_hash-HoldsHash hash (r ∷ rows) h = elim (Bool-cases (equals r.columns.dedupe_hash hash)) [
  | inl here ↦ inl (equals-some r.columns.dedupe_hash hash here)
  | inr later ↦ inr (has_hash-HoldsHash hash rows (rw later at h))
]

has_legacy_hash-IsPresent :
    (legacy : Option String) (rows : List (Row Segment))
    → has_legacy_hash legacy rows ≡ true
    → (hash : String) × (legacy ≡ some hash) × HoldsHash hash rows
has_legacy_hash-IsPresent none rows h = cc
has_legacy_hash-IsPresent (some hash) rows h = (hash, refl, has_hash-HoldsHash hash rows h)

pub exists-IsPresent :
    (p : SegmentUpsert) (rows : List (Row Segment)) → exists p rows ≡ true → IsPresent p rows
exists-IsPresent p rows h = elim (Bool-cases (has_hash p.dedupe_hash rows)) [
  | inl known ↦ inl (has_hash-HoldsHash p.dedupe_hash rows known)
  | inr unknown ↦ inr (has_legacy_hash-IsPresent p.dedupe_hash_legacy rows (rw unknown at h))
]
