-- ===== src/Observability/Bounds.antt =====
-- How many different labels the metrics can have.

use civic_archive_api.Prelude.{
  if◌then◌else◌, Option-cases, ℕ, suc, ◌-◌, ◌/◌, ◌≤◌, ap, ◌∙◌, leb, ◌&&◌, ◌≡◌, inl, inr, refl,
  String, Bool, true, false, ◌||◌, Option, none, some, List, [], ◌∷◌, any, ltb, arith, Bool-cases,
  ◌==◌, eq_refl,
}
use civic_archive_api.Prelude.Decimal.{decimal, digits}
use civic_archive_api.Text.{is_empty, or_empty, text_length, upper}
use civic_archive_api.Observability.{
  is_full, Route, allowed_http_method_labels, has_path, path_or, resolve_route_template_from_router,
  route_template, metric_method_label, metric_path_label, metric_status_label,
}

-- The text is one of the list.
abbrev pub IsOneOf : String → List String → Type 0
IsOneOf s texts = any (λ t. t == s) texts ≡ true

or_true : (a b : Bool) → b ≡ true → (a || b) ≡ true
or_true a b h = ground arith

metric_method_label-IsOneOf :
    (method : Option String)
    → IsOneOf (metric_method_label method) ("OTHER" ∷ allowed_http_method_labels)
unfolding metric_method_label
metric_method_label-IsOneOf method =
    let normalized = upper (or_empty method) in
    elim (Bool-cases (any (λ t. t == normalized) allowed_http_method_labels)) [
      | inl known ↦ rw known (or_true ("OTHER" == normalized) _ known)
      | inr other ↦ rw other refl
    ]

-- A number of three digits is written in three steps, whatever the fuel beyond.
three_digits :
    (fuel n : ℕ) → 100 ≤ n → n ≤ 999 → text_length (digits (suc (suc (suc fuel))) n "") ≡ 3
unfolding text_length digits
three_digits fuel n low high =
    let a : ltb n 10 ≡ false = ground arith in
    let b : ltb (n / 10) 10 ≡ false = ground arith in
    let c : ltb (n / 10 / 10) 10 ≡ true = ground arith in rw (a, b, c) refl

metric_path_label-bound :
    (route : Option String) (routes : List Route)
    → text_length (metric_path_label route routes) ≤ 96
unfolding metric_path_label
metric_path_label-bound route routes =
    elim (Bool-cases (ltb 96 (text_length (route_template route routes)))) [
      | inl long ↦ rw long (unfold text_length in omega arith)
      | inr fits ↦ rw fits (ground arith)
    ]

decimal_length : (n : ℕ) → 100 ≤ n → n ≤ 999 → text_length (decimal n) ≡ 3
unfolding decimal
decimal_length n low high =
    let e : n ≡ suc (suc (n - 2)) = omega arith in
    ap (λ k. text_length (digits (suc k) n "")) e ∙ three_digits (n - 2) n low high

metric_status_label-length : (n : ℕ) → text_length (metric_status_label n) ≡ 3
unfolding metric_status_label
metric_status_label-length n = elim (Bool-cases (leb 100 n && leb n 599)) [
  | inl valid ↦ rw valid (decimal_length n (ground arith) (ground arith))
  | inr invalid ↦ rw invalid (unfold text_length in refl)
]

-- The paths that a list of routes has.
abbrev pub paths_of : List Route → List String
paths_of [] = []
paths_of (route ∷ routes) = elim route.path [
  | none ↦ paths_of routes
  | some p ↦ p ∷ paths_of routes
]

left_true : (a b : Bool) → a ≡ true → (a || b) ≡ true
left_true a b h = ground arith

later_IsOneOf : (p q : String) (texts : List String) → IsOneOf p texts → IsOneOf p (q ∷ texts)
later_IsOneOf p q texts h = or_true (q == p) _ h

resolved-IsOneOf :
    (p : String) (routes : List Route)
    → resolve_route_template_from_router routes ≡ some p
    → IsOneOf p (paths_of routes)
unfolding resolve_route_template_from_router
resolved-IsOneOf p [] h = cc
resolved-IsOneOf p (route ∷ routes) h =
    elim (Bool-cases (is_full route.matched && has_path route.path)) [
      | inl here ↦
          let this : route.path ≡ some p = rw here at h in
          rw this (left_true (p == p) _ (eq_refl p))
      | inr not_here ↦
          let later = resolved-IsOneOf p routes (rw not_here at h) in
          elim (Option-cases route.path) [
            | inl missing ↦ rw missing later
            | inr (q, other) ↦ rw other (later_IsOneOf p q (paths_of routes) later)
          ]
    ]

if-IsOneOf :
    (b : Bool) (p q : String) (texts : List String)
    → IsOneOf p texts
    → IsOneOf q texts
    → IsOneOf (if b then p else q) texts
if-IsOneOf true p q texts hp hq = hp
if-IsOneOf false p q texts hp hq = hq

path_or-IsOneOf :
    (o : Option String) (other : String) (texts : List String)
    → ((p : String) → o ≡ some p → IsOneOf p texts)
    → IsOneOf other texts
    → IsOneOf (path_or o other) texts
unfolding path_or
path_or-IsOneOf none other texts found h = h
path_or-IsOneOf (some p) other texts found h =
    if-IsOneOf (is_empty p) other p texts h (found p refl)

-- The path of the scope's route and those of the router's.
abbrev pub known_paths : Option String → List Route → List String
known_paths none routes = paths_of routes
known_paths (some p) routes = p ∷ paths_of routes

scope_path-IsOneOf :
    (route : Option String) (routes : List Route) (p : String)
    → route ≡ some p
    → IsOneOf p (known_paths route routes)
scope_path-IsOneOf route routes p e = rw e (left_true (p == p) _ (eq_refl p))

router_path-IsOneOf :
    (route : Option String) (routes : List Route) (p : String)
    → IsOneOf p (paths_of routes)
    → IsOneOf p (known_paths route routes)
router_path-IsOneOf none routes p h = h
router_path-IsOneOf (some q) routes p h = later_IsOneOf p q (paths_of routes) h

abbrev pub path_labels : Option String → List Route → List String
path_labels route routes = "/_unmatched" ∷ "/_label_too_long" ∷ known_paths route routes

known→label :
    (route : Option String) (routes : List Route) (p : String)
    → IsOneOf p (known_paths route routes)
    → IsOneOf p (path_labels route routes)
known→label route routes p h =
    later_IsOneOf p "/_unmatched" ("/_label_too_long" ∷ known_paths route routes)
      (later_IsOneOf p "/_label_too_long" (known_paths route routes) h)

metric_path_label-IsOneOf :
    (route : Option String) (routes : List Route)
    → IsOneOf (metric_path_label route routes) (path_labels route routes)
unfolding metric_path_label route_template
metric_path_label-IsOneOf route routes =
    let resolved = resolve_route_template_from_router routes in
    let template = path_or route (path_or resolved "/_unmatched") in
    if-IsOneOf (ltb 96 (text_length template)) "/_label_too_long" template
      (path_labels route routes) refl
      (path_or-IsOneOf route _ (path_labels route routes)
        (λ p e. known→label route routes p (scope_path-IsOneOf route routes p e))
        (path_or-IsOneOf resolved "/_unmatched" (path_labels route routes)
          (λ p e.
            known→label route routes p
              (router_path-IsOneOf route routes p (resolved-IsOneOf p routes e)))
          refl))

-- The labels of a request come from a finite set, whatever its method, its path and its status: the
-- method is one of seven or OTHER, the path is that of a route or one of two that stand for the
-- rest and has at most 96 characters, and the status has three characters.
pub labels_bounded :
    (method : Option String) (route : Option String) (routes : List Route) (status_code : ℕ)
    → IsOneOf (metric_method_label method) ("OTHER" ∷ allowed_http_method_labels)
      × IsOneOf (metric_path_label route routes) (path_labels route routes)
      × (text_length (metric_path_label route routes) ≤ 96)
      × (text_length (metric_status_label status_code) ≡ 3)
labels_bounded method route routes status_code = (
  metric_method_label-IsOneOf method,
  metric_path_label-IsOneOf route routes,
  metric_path_label-bound route routes,
  metric_status_label-length status_code,
)
