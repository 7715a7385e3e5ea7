-- ===== src/Services/Importance.antt =====
-- `parse_importance_value` and `parse_importance_query` of app/services/segments_service.py.
mod Tests
use Prim.Native.String
use civic_archive_api.Prelude.{
  ℕ, ◌≤◌, ◌≡◌, ◌⊎◌, ◌↔◌, inl, inr, refl, sym, String, Bool, true, false, ◌||◌, Option, none, some,
  arith, Bool-cases, if◌then◌else◌,
}
use civic_archive_api.Prelude.Int.{ℤ, pos, negsuc, eqb_ℤ}
use civic_archive_api.Text.{is_empty, strip}
use civic_archive_api.Text.Number.{parse_int, signed}
use civic_archive_api.Json.{Json, null, bool, int, str}
use civic_archive_api.Errors.{Exception, bad_request, Result, ok, raise}
use civic_archive_api.Services.Values.{Value, json}

abbrev pub one_of_three : Result (Option ℤ)
one_of_three = raise (bad_request "importance must be one of 1, 2, 3.")

abbrev pub no_integer : Result (Option ℤ)
no_integer = raise (bad_request "importance must be an integer (1, 2, 3).")

unfoldable pub in_range : ℤ → Result (Option ℤ)
in_range value =
    if eqb_ℤ value (pos 1) || eqb_ℤ value (pos 2) || eqb_ℤ value (pos 3)
    then ok (some value)
    else one_of_three

-- The number that a text is, if it is one.
unfoldable pub number_or : Result (Option ℤ) → Option ℤ → Result (Option ℤ)
unfolding in_range
number_or failure none = failure
number_or failure (some value) = in_range value

unfoldable pub parse_importance_value : Value → Bool → Result (Option ℤ)
unfolding number_or in_range is_empty strip parse_int
parse_importance_value (json null) required = if required then one_of_three else ok none
parse_importance_value (json (int value)) required = in_range value
parse_importance_value (json (str raw)) required =
    if is_empty (strip raw) then no_integer else number_or no_integer (parse_int (strip raw))
parse_importance_value _ required = no_integer

unfoldable pub parse_importance_query : Option String → Result (Option ℤ)
unfolding number_or parse_int
parse_importance_query none = ok none
parse_importance_query (some raw) =
    number_or (raise (bad_request "importance must be an integer.")) (parse_int raw)

abbrev pub IsImportance : ℤ → Type 0
IsImportance n = (n ≡ pos 1) ⊎ ((n ≡ pos 2) ⊎ (n ≡ pos 3))

-- The number that a value gives.
abbrev pub number_of : Value → Option ℤ
number_of (json (int n)) = some n
number_of (json (str s)) = parse_int (strip s)
number_of _ = none

eqb_ℤ→eq : (n : ℤ) (k : ℕ) → eqb_ℤ n (pos k) ≡ true → n ≡ pos k
eqb_ℤ→eq (pos m) k h = ground arith
eqb_ℤ→eq (negsuc m) k h = ground arith

abbrev is_importance : ℤ → Bool
is_importance n = eqb_ℤ n (pos 1) || eqb_ℤ n (pos 2) || eqb_ℤ n (pos 3)

or_three : (a b c : Bool) → (a || b || c) ≡ true → (a ≡ true) ⊎ ((b ≡ true) ⊎ (c ≡ true))
or_three a b c = ground arith

is_importance→IsImportance : (n : ℤ) → is_importance n ≡ true → IsImportance n
is_importance→IsImportance n h =
    elim (or_three (eqb_ℤ n (pos 1)) (eqb_ℤ n (pos 2)) (eqb_ℤ n (pos 3)) h) [
      | inl one ↦ inl (eqb_ℤ→eq n 1 one)
      | inr (inl two) ↦ inr (inl (eqb_ℤ→eq n 2 two))
      | inr (inr three) ↦ inr (inr (eqb_ℤ→eq n 3 three))
    ]

IsImportance→is_importance : (n : ℤ) → IsImportance n → is_importance n ≡ true
IsImportance→is_importance n (inl e) = rw e refl
IsImportance→is_importance n (inr (inl e)) = rw e refl
IsImportance→is_importance n (inr (inr e)) = rw e refl

in_range_iff : (m n : ℤ) → (in_range m ≡ ok (some n)) ↔ ((some m ≡ some n) × IsImportance n)
unfolding in_range
in_range_iff m n = elim (Bool-cases (is_importance m)) [
  | inl accepted ↦ rw accepted (
    λ h. let e : m ≡ n = cc h in (cc e, rw (sym e) (is_importance→IsImportance m accepted)),
    λ h. cc (h.0),
  )
  | inr refused ↦ rw refused (
    λ h. cc,
    λ h.
        let e : m ≡ n = cc (h.0) in
        let t = IsImportance→is_importance n h.1 in let t' : is_importance m ≡ true = rw e t in cc,
  )
]

number_or_iff :
    (e : Exception) (m : Option ℤ) (n : ℤ)
    → (number_or (raise e) m ≡ ok (some n)) ↔ ((m ≡ some n) × IsImportance n)
unfolding number_or
number_or_iff e none n = (λ h. cc, λ h. cc (h.0))
number_or_iff e (some m) n = in_range_iff m n

empty_text : (s : String) → is_empty s ≡ true → s ≡ ""
unfolding is_empty
empty_text String.[] h = refl
empty_text (String.◌∷◌ c s) h = cc

blank_number : (s : String) → is_empty (strip s) ≡ true → parse_int (strip s) ≡ none
blank_number s h = rw (empty_text (strip s) h) (unfold parse_int strip signed in refl)

-- An importance is accepted exactly if it is an integer or the text of one, and one of 1, 2 and 3.
pub parse_importance_value_iff :
    (v : Value) (required : Bool) (n : ℤ)
    → (parse_importance_value v required ≡ ok (some n)) ↔ ((number_of v ≡ some n) × IsImportance n)
unfolding parse_importance_value
parse_importance_value_iff (json null) true n = (λ h. cc, λ h. cc (h.0))
parse_importance_value_iff (json null) false n = (λ h. cc, λ h. cc (h.0))
parse_importance_value_iff (json (int m)) required n = in_range_iff m n
parse_importance_value_iff (json (str s)) required n = elim (Bool-cases (is_empty (strip s))) [
  | inl blank ↦ rw (blank, blank_number s blank) (λ h. cc, λ h. cc (h.0))
  | inr full ↦ rw full (number_or_iff _ (parse_int (strip s)) n)
]
parse_importance_value_iff _ required n = (λ h. cc, λ h. cc (h.0))
