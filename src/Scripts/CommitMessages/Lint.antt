-- ===== src/Scripts/CommitMessages/Lint.antt =====
-- The subjects that the check accepts.
use Prim.Native.Char.{Char}
use civic_archive_api.Prelude.{
  ◌≤◌, ◌≡◌, ◌↔◌, refl, ap, ◌∙◌, String, Bool, true, false, not, [], ◌∷◌, ltb, arith, Bool-cases,
  Option-cases, inl, inr, if◌then◌else◌,
}
use civic_archive_api.Text.{is_empty, strip, text_length}
use civic_archive_api.Scripts.CommitMessages.{
  CommitSubject, match_subject, ends_with_period, starts_well, payload_errors, lint_match, is_merge,
  lint_subject,
}
use civic_archive_api.Scripts.CommitMessages.Render.{
  prepend, render, IsConventional, match_subject_iff,
}

-- The subject has at most 72 characters, no period at its end, and begins with a lower case letter
-- of ASCII or a digit.
abbrev pub IsWellPut : String → Type 0
IsWellPut s = (text_length s ≤ 72) × (ends_with_period s ≡ false) × (starts_well s ≡ true)

no_errors :
    (a b c : Bool) (x y z : String)
    → (if a
        then x ∷ (if b then y ∷ (if c then z ∷ [] else []) else (if c then z ∷ [] else []))
        else (if b then y ∷ (if c then z ∷ [] else []) else (if c then z ∷ [] else [])))
      ≡ []
    → (a ≡ false) × (b ≡ false) × (c ≡ false)
no_errors true b c x y z h = cc
no_errors false true c x y z h = cc
no_errors false false true x y z h = cc
no_errors false false false x y z h = (refl, refl, refl)

payload_errors_iff : (s : String) → (payload_errors s ≡ []) ↔ IsWellPut s
unfolding payload_errors
payload_errors_iff s = (
  λ h.
      let (short, closed, begun) =
        no_errors (ltb 72 (text_length s)) (ends_with_period s) (not (starts_well s)) _ _ _ h in
      (ground arith, closed, ground arith),
  λ h. let short : ltb 72 (text_length s) ≡ false = ground arith in rw (short, h.1, h.2) refl,
)

prepend-is_empty : (a b : String) (c : Char) → is_empty (prepend a (String.◌∷◌ c b)) ≡ false
unfolding is_empty
prepend-is_empty String.[] b c = refl
prepend-is_empty (String.◌∷◌ d a) b c = refl

lint_match-eq-nil :
    (s : String)
    → lint_match (match_subject s) ≡ []
    → (m : CommitSubject) × (s ≡ render m) × IsConventional m × IsWellPut m.subject
unfolding lint_match
lint_match-eq-nil s h = elim (Option-cases (match_subject s)) [
  | inl unmatched ↦ let h' = rw unmatched at h in cc
  | inr (m, matched) ↦
      let (same, conventional) = (match_subject_iff s m).0 matched in
      (m, same, conventional, (payload_errors_iff m.subject).0 (rw matched at h))
]

lint_match-render :
    (m : CommitSubject)
    → IsConventional m
    → IsWellPut m.subject
    → lint_match (match_subject (render m)) ≡ []
unfolding lint_match
lint_match-render m conventional well =
    rw ((match_subject_iff (render m) m).1 (refl, conventional))
      ((payload_errors_iff m.subject).1 well)

-- A subject that is no merge is accepted exactly if, stripped, it is written from conventional parts
-- of which the last is well put.
pub lint_subject_iff :
    (s : String)
    → is_merge (strip s) ≡ false
    → (lint_subject s ≡ [])
      ↔ ((m : CommitSubject) × (strip s ≡ render m) × IsConventional m × IsWellPut m.subject)
unfolding lint_subject
lint_subject_iff s plain = (
  λ h. elim (Bool-cases (is_empty (strip s))) [
    | inl empty ↦ let h' = rw empty at h in cc
    | inr full ↦ lint_match-eq-nil (strip s) (rw (full, plain) at h)
  ],
  λ h.
      let (m, same, conventional, well) = h in
      let full : is_empty (strip s) ≡ false =
        ap is_empty same ∙ prepend-is_empty m.commit_type _ "(" in
      rw (full, plain)
        (ap (λ t. lint_match (match_subject t)) same ∙ lint_match-render m conventional well),
)
