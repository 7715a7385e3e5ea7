-- ===== src/Jwt/Authority.antt =====
-- Which claims permit a request.
use civic_archive_api.Prelude.{
  String, ◌≡◌, refl, ◌↔◌, ◌⊎◌, inl, inr, Bool, true, false, not, ◌&&◌, Option, none, some, [], ◌∷◌,
  arith, Option-cases, if◌then◌else◌,
}
use civic_archive_api.Text.{is_empty, strip}
use civic_archive_api.Json.{Fields}
use civic_archive_api.Errors.{Exception, http_error, Result, ok, raise}
use civic_archive_api.Config.{Config}
use civic_archive_api.Http.{Request}
use civic_archive_api.Jwt.{
  extract_values_set, contains, required_scope_for_method, authorize_scope,
  authorize_claims_for_request,
}
use civic_archive_api.Jwt.Claims.{⊎_iff, Gives, contains_iff, extract_values_set_iff}

-- The claims name the admin role, if one is configured.
abbrev pub IsAdmin : Config → Fields → Type 0
IsAdmin c claims =
    (is_empty (strip c.jwt_admin_role) ≡ false)
    × (Gives claims "role" (strip c.jwt_admin_role) ⊎ Gives claims "roles" (strip c.jwt_admin_role))

abbrev pub HasScope : Fields → String → Type 0
HasScope claims scope = Gives claims "scope" scope ⊎ Gives claims "scopes" scope

abbrev pub forbidden : Exception
forbidden = http_error 403 "FORBIDDEN" "Forbidden"

guard_iff : (a b : Bool) → ((not a && b) ≡ true) ↔ ((a ≡ false) × (b ≡ true))
guard_iff a b = ground arith

IsAdmin-iff :
    (c : Config) (claims : Fields)
    → ((not (is_empty (strip c.jwt_admin_role))
          && contains (strip c.jwt_admin_role) (extract_values_set claims ("role" ∷ "roles" ∷ [])))
        ≡ true)
      ↔ IsAdmin c claims
IsAdmin-iff c claims =
    let role = strip c.jwt_admin_role in
    let roles = extract_values_set claims ("role" ∷ "roles" ∷ []) in
    let g = guard_iff (is_empty role) (contains role roles) in
    let held = contains_iff role roles in
    let given = extract_values_set_iff claims "role" "roles" role in
    (λ h. ((g.0 h).0, given.0 (held.0 (g.0 h).1)), λ h. g.1 (h.0, held.1 (given.1 h.1)))

scope_iff :
    (claims : Fields) (scope : String)
    → (contains scope (extract_values_set claims ("scope" ∷ "scopes" ∷ [])) ≡ true)
      ↔ HasScope claims scope
scope_iff claims scope =
    let held = contains_iff scope (extract_values_set claims ("scope" ∷ "scopes" ∷ [])) in
    let given = extract_values_set_iff claims "scope" "scopes" scope in
    (λ h. given.0 (held.0 h), λ h. held.1 (given.1 h))

-- What permits a request that needs a scope, or none.
abbrev pub Permits : Config → Fields → Option String → Type 0
Permits c claims none = Unit
Permits c claims (some scope) = IsAdmin c claims ⊎ HasScope claims scope

grant_iff :
    (admin scoped : Bool)
    → ◌≡◌ {A = Result (Unit {0})}
        (if admin then ok tt else if not scoped then raise forbidden else ok tt)
        (ok tt)
      ↔ ((admin ≡ true) ⊎ (scoped ≡ true))
grant_iff true scoped = (λ _. inl refl, λ _. refl)
grant_iff false true = (λ _. inr refl, λ _. refl)
grant_iff false false = (λ h. cc, λ h. elim h [ inl a ↦ cc | inr b ↦ cc ])

authorize_scope_iff :
    (c : Config) (claims : Fields) (required : Option String)
    → (authorize_scope c claims required ≡ ok tt) ↔ Permits c claims required
unfolding authorize_scope
authorize_scope_iff c claims none = (λ _. tt, λ _. refl)
authorize_scope_iff c claims (some scope) =
    let (to, from) = ⊎_iff (IsAdmin-iff c claims) (scope_iff claims scope) in
    let (parts, whole) = grant_iff _ _ in (λ h. to (parts h), λ h. whole (from h))

-- The claims pass exactly if the method needs no scope, or they name the configured admin role, or
-- they give the scope that the method needs.
pub authorize_iff :
    (r : Request) (claims : Fields) (c : Config)
    → (authorize_claims_for_request r claims c ≡ ok tt)
      ↔ Permits c claims (required_scope_for_method c r.method)
unfolding authorize_claims_for_request
authorize_iff r claims c = authorize_scope_iff c claims (required_scope_for_method c r.method)

-- Claims that do not pass are refused with 403.
authorize_cases :
    (r : Request) (claims : Fields) (c : Config)
    → (authorize_claims_for_request r claims c ≡ ok tt)
      ⊎ (authorize_claims_for_request r claims c ≡ raise forbidden)
unfolding authorize_claims_for_request
authorize_cases r claims c = elim (Option-cases (required_scope_for_method c r.method)) [
  | inl free ↦ rw (free, authorize_scope) (inl refl)
  | inr (scope, needed) ↦ rw (needed, authorize_scope) (ground arith)
]
