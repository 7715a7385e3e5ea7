-- ===== src/Scripts/CommitMessages/Render.antt =====
-- The subjects that the pattern matches are those that are written from its groups.
use Prim.Native.Char.{Char, code}
use Prim.Native.String.{[], ◌∷◌}
use text.Mathlib.TextEquality.{Char-path}
use civic_archive_api.Prelude.{
  both_true, ℕ, ◌≡◌, ◌↔◌, refl, ap, sym, ◌∙◌, String, Bool, true, false, not, ◌&&◌, Option, some,
  List, all, eqb, arith, eq_iff, Bool-cases, Option-cases, inl, inr, ◌==◌,
}
use civic_archive_api.Text.{is_empty}
use civic_archive_api.Text.Number.{digit_value}
use civic_archive_api.Scripts.CommitMessages.{
  allowed_types, named_scopes, is_in, is_decimal, all_decimal, is_phase, is_scope, split_first,
  is_line, CommitSubject, match_payload, match_breaking, match_scope, match_type, match_subject,
}

abbrev pub prepend : String → String → String
prepend [] rest = rest
prepend (c ∷ s) rest = c ∷ prepend s rest

abbrev pub mark : Bool → String → String
mark true rest = "!" ∷ rest
mark false rest = rest

-- `<type>(<scope>): <subject>`, with a mark for what breaks.
abbrev pub render : CommitSubject → String
render m =
    prepend m.commit_type ("(" ∷ prepend m.scope (")" ∷ mark m.breaking (":" ∷ (" " ∷ m.subject))))

pub record IsConventional (m : CommitSubject) : Type 0 where
  pub commit_type : is_in m.commit_type allowed_types ≡ true
  pub scope : is_scope m.scope ≡ true
  pub full : is_empty m.subject ≡ false
  pub line : is_line m.subject ≡ true

-- The text has no character of the number.
unfoldable lacks : ℕ → String → Bool
lacks k [] = true
lacks k (c ∷ s) = not (eqb (code c) k) && lacks k s

split_first-prepend :
    (k : ℕ) (a : String) (d : Char) (b : String)
    → code d ≡ k
    → lacks k a ≡ true
    → split_first k (prepend a (d ∷ b)) ≡ some (a, b)
unfolding split_first lacks
split_first-prepend k [] d b e h = let t : eqb (code d) k ≡ true = ground arith in rw t refl
split_first-prepend k (c ∷ a) d b e h =
    let other : eqb (code c) k ≡ false = ground arith in
    let others : lacks k a ≡ true = ground arith in
    rw (other, split_first-prepend k a d b e others) refl

prepend-split_first :
    (k : ℕ) (s : String) (d : Char) (a b : String)
    → code d ≡ k
    → split_first k s ≡ some (a, b)
    → s ≡ prepend a (d ∷ b)
unfolding split_first
prepend-split_first k [] d a b e h = cc
prepend-split_first k (c ∷ s) d a b e h = elim (Bool-cases (eqb (code c) k)) [
  | inl here ↦
      let same_code : code c ≡ code d = ground arith in
      let same = Char-path c d same_code in
      let parts : ◌≡◌ {A = Option (String × String)} (some ([], s)) (some (a, b)) = rw here at h in
      let none_before : [] ≡ a = cc parts in
      let after : s ≡ b = cc parts in rw (sym none_before) (cc (same, after))
  | inr later ↦ elim (Option-cases (split_first k s)) [
    | inl missing ↦ let h' = rw (later, missing) at h in cc
    | inr (parts, found) ↦
        let rest = prepend-split_first k s d parts.0 parts.1 e found in
        let h' = rw (later, found) at h in
        let first : c ∷ parts.0 ≡ a = cc h' in
        let second : parts.1 ≡ b = cc h' in
        rw (sym first) (ap (λ t. c ∷ t) (rest ∙ ap (λ t. prepend parts.0 (d ∷ t)) second))
  ]
]

all_lack :
    (k : ℕ) (s : String) (texts : List String)
    → all (lacks k) texts ≡ true
    → is_in s texts ≡ true
    → lacks k s ≡ true
all_lack k s List.[] h known = cc
all_lack k s (List.◌∷◌ t texts) h known = elim (Bool-cases (t == s)) [
  | inl same ↦
      let e : t ≡ s = (eq_iff t s).0 same in
      let here : lacks k t ≡ true = ground arith in ap (lacks k) (sym e) ∙ here
  | inr other ↦
      let others : all (lacks k) texts ≡ true = ground arith in
      all_lack k s texts others (rw other at known)
]

type_lacks : (s : String) → is_in s allowed_types ≡ true → lacks b'(' s ≡ true
unfolding lacks
type_lacks s h = all_lack b'(' s allowed_types refl h

eqb→eq : (m n : ℕ) → eqb m n ≡ true → m ≡ n
eqb→eq m n h = ground arith

no_bracket : is_decimal b')' ≡ false
unfolding is_decimal digit_value
no_bracket = refl

decimal_lacks : (s : String) → all_decimal s ≡ true → lacks b')' s ≡ true
unfolding all_decimal lacks
decimal_lacks [] h = refl
decimal_lacks (c ∷ s) h =
    let (first, others) = both_true {a = is_decimal (code c)} {b = all_decimal s} h in
    elim (Bool-cases (eqb (code c) b')')) [
      | inl bracket ↦
          let e : code c ≡ b')' = eqb→eq (code c) b')' bracket in
          let bracket_decimal = ap is_decimal (sym e) ∙ first in let not_decimal = no_bracket in cc
      | inr other ↦ rw (other, decimal_lacks s others) refl
    ]

phase_lacks : (s : String) → is_phase s ≡ true → lacks b')' s ≡ true
unfolding is_phase lacks
phase_lacks [] h = cc
phase_lacks (c ∷ s) h =
    let digits : all_decimal s ≡ true = ground arith in
    let other : eqb (code c) b')' ≡ false = ground arith in rw (other, decimal_lacks s digits) refl

named_lacks : all (lacks b')') named_scopes ≡ true
unfolding lacks
named_lacks = refl

scope_lacks : (s : String) → is_scope s ≡ true → lacks b')' s ≡ true
unfolding is_scope
scope_lacks s h = elim (Bool-cases (is_phase s)) [
  | inl phase ↦ phase_lacks s phase
  | inr named ↦ all_lack b')' s named_scopes named_lacks (rw named at h)
]

-- What is left of a subject after its scope.
abbrev written : Bool → String → String
written breaking subject = mark breaking (":" ∷ (" " ∷ subject))

breaking_case :
    (m : CommitSubject) (b : Bool)
    → m.breaking ≡ b
    → is_empty m.subject ≡ false
    → is_line m.subject ≡ true
    → match_breaking m.commit_type m.scope (written b m.subject) ≡ some m
unfolding match_breaking match_payload
breaking_case m true e full line =
    rw (full, line) (ap (λ b. some (record m { breaking = b })) (sym e))
breaking_case m false e full line =
    rw (full, line) (ap (λ b. some (record m { breaking = b })) (sym e))

match_breaking-written :
    (m : CommitSubject)
    → is_empty m.subject ≡ false
    → is_line m.subject ≡ true
    → match_breaking m.commit_type m.scope (written m.breaking m.subject) ≡ some m
match_breaking-written m full line = breaking_case m m.breaking refl full line

match-render : (m : CommitSubject) → IsConventional m → match_subject (render m) ≡ some m
unfolding match_subject match_type match_scope
match-render m h =
    let opened =
      split_first-prepend b'(' m.commit_type "("
        (prepend m.scope (")" ∷ written m.breaking m.subject)) refl
        (type_lacks m.commit_type h.commit_type) in
    let closed =
      split_first-prepend b')' m.scope ")" (written m.breaking m.subject) refl
        (scope_lacks m.scope h.scope) in
    rw (opened, h.commit_type, closed, h.scope) (match_breaking-written m h.full h.line)

-- What a match of the rest gives.
abbrev Matches : String → String → Bool → String → CommitSubject → Type 0
Matches commit_type scope breaking rest m =
    (m.commit_type ≡ commit_type)
    × (m.scope ≡ scope)
    × (m.breaking ≡ breaking)
    × (is_empty m.subject ≡ false)
    × (is_line m.subject ≡ true)
    × (rest ≡ ":" ∷ (" " ∷ m.subject))

match_payload-eq-some :
    (commit_type scope : String) (breaking : Bool) (rest : String) (m : CommitSubject)
    → match_payload commit_type scope breaking rest ≡ some m
    → Matches commit_type scope breaking rest m
unfolding match_payload
match_payload-eq-some commit_type scope breaking [] m h = cc
match_payload-eq-some commit_type scope breaking (c ∷ []) m h = cc
match_payload-eq-some commit_type scope breaking (c ∷ (d ∷ payload)) m h =
    elim (Bool-cases
      (eqb (code c) b':' && eqb (code d) b' ' && not (is_empty payload) && is_line payload)) [
        | inl good ↦
            let colon : code c ≡ b':' = ground arith in
            let space : code d ≡ b' ' = ground arith in
            let full : is_empty payload ≡ false = ground arith in
            let line : is_line payload ≡ true = ground arith in
            let c_colon = Char-path c ":" colon in
            let d_space = Char-path d " " space in
            let same : record {
              commit_type = commit_type;
              scope = scope;
              breaking = breaking;
              subject = payload;
            }
                ≡ m =
              cc (rw good at h) in
            rw (sym same) (refl, refl, refl, full, line, cc (c_colon, d_space))
        | inr bad ↦ let h' = rw bad at h in cc
      ]

match_breaking-eq-some :
    (commit_type scope rest : String) (m : CommitSubject)
    → match_breaking commit_type scope rest ≡ some m
    → (m.commit_type ≡ commit_type)
      × (m.scope ≡ scope)
      × (is_empty m.subject ≡ false)
      × (is_line m.subject ≡ true)
      × (rest ≡ written m.breaking m.subject)
unfolding match_breaking
match_breaking-eq-some commit_type scope [] m h = cc
match_breaking-eq-some commit_type scope (c ∷ s) m h = elim (Bool-cases (eqb (code c) b'!')) [
  | inl bang ↦
      let (t, sc, b, full, line, rest) =
        match_payload-eq-some commit_type scope true s m (rw bang at h) in
      let same = Char-path c "!" (eqb→eq (code c) b'!' bang) in
      (t, sc, full, line, rw b (cc (same, rest)))
  | inr other ↦
      let (t, sc, b, full, line, rest) =
        match_payload-eq-some commit_type scope false (c ∷ s) m (rw other at h) in
      (t, sc, full, line, rw b rest)
]

match_scope-eq-some :
    (commit_type rest : String) (m : CommitSubject)
    → match_scope commit_type (split_first b')' rest) ≡ some m
    → (m.commit_type ≡ commit_type)
      × (is_scope m.scope ≡ true)
      × (is_empty m.subject ≡ false)
      × (is_line m.subject ≡ true)
      × (rest ≡ prepend m.scope (")" ∷ written m.breaking m.subject))
unfolding match_scope
match_scope-eq-some commit_type rest m h = elim (Option-cases (split_first b')' rest)) [
  | inl unopened ↦ let h' = rw unopened at h in cc
  | inr (parts, closed) ↦ elim (Bool-cases (is_scope parts.0)) [
    | inl good ↦
        let (t, sc, full, line, after) =
          match_breaking-eq-some commit_type parts.0 parts.1 m (rw (closed, good) at h) in
        let whole = prepend-split_first b')' rest ")" parts.0 parts.1 refl closed in
        (t, rw sc good, full, line, rw sc (whole ∙ ap (λ r. prepend parts.0 (")" ∷ r)) after))
    | inr bad ↦ let h' = rw (closed, bad) at h in cc
  ]
]

match_subject-eq-some :
    (s : String) (m : CommitSubject) → match_subject s ≡ some m → (s ≡ render m) × IsConventional m
unfolding match_subject match_type
match_subject-eq-some s m h = elim (Option-cases (split_first b'(' s)) [
  | inl unopened ↦ let h' = rw unopened at h in cc
  | inr (parts, opened) ↦ elim (Bool-cases (is_in parts.0 allowed_types)) [
    | inl good ↦
        let (t, sc, full, line, after) =
          match_scope-eq-some parts.0 parts.1 m (rw (opened, good) at h) in
        let whole = prepend-split_first b'(' s "(" parts.0 parts.1 refl opened in
        (
          rw t (whole ∙ ap (λ r. prepend parts.0 ("(" ∷ r)) after),
          record { commit_type = rw t good; scope = sc; full = full; line = line },
        )
    | inr bad ↦ let h' = rw (opened, bad) at h in cc
  ]
]

-- The pattern matches a text, with these groups, exactly if the text is written from the groups: an
-- allowed type, an allowed scope in brackets, perhaps a mark, a colon, a space, and a subject that is
-- one line and not empty.
pub match_subject_iff :
    (s : String) (m : CommitSubject)
    → (match_subject s ≡ some m) ↔ ((s ≡ render m) × IsConventional m)
match_subject_iff s m = (match_subject-eq-some s m, λ h. ap match_subject h.0 ∙ match-render m h.1)
