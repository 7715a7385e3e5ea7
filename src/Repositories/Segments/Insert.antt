-- ===== src/Repositories/Segments/Insert.antt =====
-- What the insert of a batch of segments leaves in the table.
use civic_archive_api.Prelude.{
  ℕ, ◌+◌, ◌≡◌, ◌⊎◌, refl, ap, sym, ◌∙◌, Bool, true, false, ◌&&◌, all, length, append_assoc,
  append_nil, some, List, [], ◌∷◌, ◌++◌, arith, Bool-cases, inl, inr,
}
use civic_archive_api.Errors.{database_error, ok, raise}
use civic_archive_api.Repositories.Rows.{Row, Table}
use civic_archive_api.Repositories.Segments.{
  new_row, Segment, SegmentUpsert, has_hash, exists, insert_unless_conflict, is_readable,
  segment_fits, insert_next, insert_payload, insert_segments,
}
use civic_archive_api.Repositories.Segments.Known.{
  Keeps, unless_conflict-Keeps, unless_conflict-has_hash, exists-Keeps, IsPresent, exists-IsPresent,
}

-- A row that holds what a segment of the batch says, under its hash.
abbrev pub IsSent : ℕ → List SegmentUpsert → Row Segment → Type 0
IsSent now [] r = ⊥
IsSent now (p ∷ payload) r =
    ((r.columns ≡ record p.segment { dedupe_hash = some p.dedupe_hash })
      × (r.created_at ≡ now)
      × (r.updated_at ≡ now))
    ⊎ IsSent now payload r

abbrev pub AllSent : ℕ → List SegmentUpsert → List (Row Segment) → Type 0
AllSent now payload [] = Unit
AllSent now payload (r ∷ rows) = IsSent now payload r × AllSent now payload rows

AllSent-cons :
    (now : ℕ) (p : SegmentUpsert) (payload : List SegmentUpsert) (rows : List (Row Segment))
    → AllSent now payload rows
    → AllSent now (p ∷ payload) rows
AllSent-cons now p payload [] h = tt
AllSent-cons now p payload (r ∷ rows) (sent, h) = (inr sent, AllSent-cons now p payload rows h)

-- The statement finds every segment of a batch.
abbrev AllExist : List SegmentUpsert → List (Row Segment) → Type 0
AllExist [] rows = Unit
AllExist (p ∷ payload) rows = (exists p rows ≡ true) × AllExist payload rows

-- Every segment of a batch has a row with one of its two hashes.
abbrev pub AllPresent : List SegmentUpsert → List (Row Segment) → Type 0
AllPresent [] rows = Unit
AllPresent (p ∷ payload) rows = IsPresent p rows × AllPresent payload rows

AllExist-AllPresent :
    (payload : List SegmentUpsert) (rows : List (Row Segment))
    → AllExist payload rows
    → AllPresent payload rows
AllExist-AllPresent [] rows h = tt
AllExist-AllPresent (p ∷ payload) rows (known, h) =
    (exists-IsPresent p rows known, AllExist-AllPresent payload rows h)

-- What a payload has done to the number and the table.
record IsInserted (now : ℕ) (payload : List SegmentUpsert) (state state' : ℕ × Table Segment)
    : Type 0 where
  keeps : Keeps state.1.rows state'.1.rows
  all_exist : AllExist payload state'.1.rows
  added : List (Row Segment)
  appended : state'.1.rows ≡ state.1.rows ++ added
  counted : state'.0 ≡ state.0 + length added
  all_sent : AllSent now payload added

-- A row that was there already.
known-IsInserted :
    (now : ℕ) (p : SegmentUpsert) (payload : List SegmentUpsert) (state state' : ℕ × Table Segment)
    → exists p state.1.rows ≡ true
    → IsInserted now payload state state'
    → IsInserted now (p ∷ payload) state state'
known-IsInserted now p payload state state' known i = record {
  keeps = i.keeps;
  all_exist = (exists-Keeps p state.1.rows state'.1.rows i.keeps known, i.all_exist);
  added = i.added;
  appended = i.appended;
  counted = i.counted;
  all_sent = AllSent-cons now p payload i.added i.all_sent;
}

-- A row that is inserted unless its hash is there.
new-IsInserted :
    (now : ℕ) (p : SegmentUpsert) (payload : List SegmentUpsert) (state state' : ℕ × Table Segment)
    → IsInserted now payload (insert_unless_conflict now p state) state'
    → IsInserted now (p ∷ payload) state state'
unfolding insert_unless_conflict
new-IsInserted now p payload (n, t) state' i = elim (Bool-cases (has_hash p.dedupe_hash t.rows)) [
  | inl known ↦
      let j = rw known at i in
      known-IsInserted now p payload (n, t) state' (rw known refl)
        (record {
          keeps = j.keeps;
          all_exist = j.all_exist;
          added = j.added;
          appended = j.appended;
          counted = j.counted;
          all_sent = j.all_sent;
        })
  | inr new ↦
      let holds = unless_conflict-has_hash now p (n, t) in
      let step = unless_conflict-Keeps now p (n, t) in
      let row = new_row now t.next_id p in
      let j = rw new at i in
      record {
        keeps = λ hash h. i.keeps hash (step hash h);
        all_exist = (
          exists-Keeps p (insert_unless_conflict now p (n, t)).1.rows state'.1.rows i.keeps
              (rw holds refl),
          i.all_exist,
        );
        added = row ∷ j.added;
        appended = j.appended ∙ append_assoc t.rows (row ∷ []) j.added;
        counted = j.counted ∙ omega arith;
        all_sent = (inl (refl, refl, refl), AllSent-cons now p payload j.added j.all_sent);
      }
]

-- A payload fails if a row does not fit, unless it is there already; else it is inserted.
insert_payload-cases :
    (now : ℕ) (before : List (Row Segment)) (payload : List SegmentUpsert)
    (state : ℕ × Table Segment)
    → Keeps before state.1.rows
    → ((all segment_fits payload ≡ false)
        × (insert_payload now before payload state ≡ raise database_error))
      ⊎ ((state' : ℕ × Table Segment) × (insert_payload now before payload state ≡ ok state')
          × IsInserted now payload state state')
unfolding insert_payload insert_next
insert_payload-cases now before [] state keeps = inr (
  state,
  refl,
  record {
    keeps = λ hash h. h;
    all_exist = tt;
    added = [];
    appended = sym (append_nil state.1.rows);
    counted = omega arith;
    all_sent = tt;
  },
)
insert_payload-cases now before (p ∷ payload) state keeps = elim (Bool-cases (exists p before)) [
  | inl old ↦ elim (insert_payload-cases now before payload state keeps) [
    | inl (wide, failed) ↦ rw old (inl (ground arith, failed))
    | inr (state', done, i) ↦ rw old (
        inr (
          state',
          done,
          known-IsInserted now p payload state state' (exists-Keeps p before state.1.rows keeps old)
              i,
        ))
  ]
  | inr new ↦ elim (Bool-cases (segment_fits p)) [
    | inr wide ↦ rw (new, wide) (inl (refl, refl))
    | inl fitting ↦
        let next = insert_unless_conflict now p state in
        let step = unless_conflict-Keeps now p state in
        elim (insert_payload-cases now before payload next (λ hash h. step hash (keeps hash h))) [
          | inl (wide, failed) ↦ rw (new, fitting) (inl (wide, failed))
          | inr (state', done, i) ↦
              rw (new, fitting) (inr (state', done, new-IsInserted now p payload state state' i))
        ]
  ]
]

nothing_new :
    (now : ℕ) (before : List (Row Segment)) (payload : List SegmentUpsert)
    (state : ℕ × Table Segment)
    → AllExist payload before
    → insert_payload now before payload state ≡ ok state
unfolding insert_payload insert_next
nothing_new now before [] state h = refl
nothing_new now before (p ∷ payload) state h = rw (h.0) (nothing_new now before payload state h.1)

-- A segment that the statement reads, and that fits the columns.
abbrev pub is_storable : (SegmentUpsert → Bool) → SegmentUpsert → Bool
is_storable accepts p = is_readable accepts p && segment_fits p

-- Where one of two tests fails for an item, both together fail for one.
all_left :
    {A : Type 0} (p q : A → Bool) (xs : List A)
    → all p xs ≡ false
    → all (λ x. p x && q x) xs ≡ false
all_left p q [] h = cc
all_left p q (x ∷ xs) h = ground (arith, all_left p q xs)

all_right :
    {A : Type 0} (p q : A → Bool) (xs : List A)
    → all q xs ≡ false
    → all (λ x. p x && q x) xs ≡ false
all_right p q [] h = cc
all_right p q (x ∷ xs) h = ground (arith, all_right p q xs)

-- A batch fails only if a segment of it is not storable. Else rows are added that the batch has sent,
-- every segment of it is in the table, and to insert the batch once more inserts nothing and changes
-- nothing.
pub insert_segments-again :
    (accepts : SegmentUpsert → Bool) (now later : ℕ) (items : List SegmentUpsert)
    (t : Table Segment)
    → ((all (is_storable accepts) items ≡ false)
        × (insert_segments accepts now items t ≡ raise database_error))
      ⊎ ((added : List (Row Segment)) × (t' : Table Segment) × (insert_segments accepts now items t
            ≡ ok (length added, t'))
          × (t'.rows ≡ t.rows ++ added)
          × AllSent now items added
          × AllPresent items t'.rows
          × (insert_segments accepts later items t' ≡ ok (0, t')))
unfolding insert_segments
insert_segments-again accepts now later items t =
    elim (Bool-cases (all (is_readable accepts) items)) [
      | inr bad ↦ rw bad (inl (all_left (is_readable accepts) segment_fits items bad, refl))
      | inl readable ↦ elim (insert_payload-cases now t.rows items (0, t) (λ hash h. h)) [
        | inl (wide, failed) ↦
            rw readable (inl (all_right (is_readable accepts) segment_fits items wide, failed))
        | inr ((n, t'), done, i) ↦
            let e : n ≡ length i.added = i.counted ∙ omega arith in
            rw readable (
              inr (
                i.added,
                t',
                done ∙ ap (λ k. ok (k, t')) e,
                i.appended,
                i.all_sent,
                AllExist-AllPresent items t'.rows i.all_exist,
                nothing_new later t'.rows items (0, t') i.all_exist,
              ))
      ]
    ]
