-- ===== src/Jwt.antt =====
-- app/security_jwt.py: bearer tokens and what their claims permit. PyJWT's `decode` is a parameter.
pub mod Claims
pub mod Authority
use civic_archive_api.Prelude.{
  ℕ, String, Bool, true, false, not, ◌&&◌, ◌||◌, Option, none, some, List, [], ◌∷◌, ◌++◌, any, ◌==◌,
  if◌then◌else◌,
}
use civic_archive_api.Prelude.Int.{max_zero}
use civic_archive_api.Text.{is_empty, or_empty, or_none, strip, upper, words}
use civic_archive_api.Json.{
  Json, null, bool, int, float, str, arr, obj, Items, nil, cons, Fields, get_or_null,
}
use civic_archive_api.Errors.{Exception, http_error, unauthorized, Result, ok, raise, ◌>>=◌, ◌>>◌}
use civic_archive_api.Config.{Config}
use civic_archive_api.Http.{Request}

-- [s] if it is not blank
unfoldable pub unless_blank : String → List String
unfolding is_empty
unless_blank s = if is_empty s then [] else s ∷ []

unfoldable pub item_values : Items → List String
unfolding unless_blank strip
item_values nil = []
item_values (cons (str s) items) = unless_blank (strip s) ++ item_values items
item_values (cons _ items) = item_values items

-- The values of one claim.
unfoldable pub claim_values : String → Json → List String
unfolding words unless_blank strip item_values
claim_values key (str raw) = if key == "scope" then words raw else unless_blank (strip raw)
claim_values key (arr items) = item_values items
claim_values key _ = []

-- `extract_values_set`; a set is a list, and is only asked for its members.
unfoldable pub extract_values_set : Fields → List String → List String
unfolding claim_values
extract_values_set claims [] = []
extract_values_set claims (key ∷ keys) =
    claim_values key (get_or_null key claims) ++ extract_values_set claims keys

-- `value in values`
abbrev pub contains : String → List String → Bool
contains value values = any (λ v. v == value) values

unfoldable pub required_scope_for_method : Config → String → Option String
required_scope_for_method c method =
    let normalized = upper method in
    if contains normalized ("GET" ∷ "HEAD" ∷ [])
    then or_none (strip c.jwt_scope_read)
    else if contains normalized ("POST" ∷ "PUT" ∷ "PATCH" ∷ [])
    then or_none (strip c.jwt_scope_write)
    else if normalized == "DELETE"
    then or_none (strip c.jwt_scope_delete)
    else none

-- The arguments of `jwt.decode`, beside the token.
pub record DecodeOptions : Type 0 where
  pub key : String
  pub algorithms : List String
  pub require : List String
  pub verify_signature : Bool
  pub verify_exp : Bool
  pub verify_nbf : Bool
  pub verify_aud : Bool
  pub verify_iss : Bool
  pub audience : Option String
  pub issuer : Option String
  pub leeway : ℕ

-- What `jwt.decode` gives: a payload, an exception that is caught (`InvalidTokenError`, `TypeError`
-- or `ValueError`), or another one.
pub data Decoded : Type 0 where
  payload : Json → Decoded
  invalid : Decoded
  raised : Exception → Decoded

abbrev pub Decode : Type 0
Decode = String → DecodeOptions → Decoded

abbrev is_some : Option String → Bool
is_some none = false
is_some (some s) = true

unfoldable pub decode_options : Config → String → DecodeOptions
unfolding or_none strip
decode_options c secret =
    let audience = or_none (strip (or_empty c.jwt_audience)) in
    let issuer = or_none (strip (or_empty c.jwt_issuer)) in
    record {
      key = secret;
      algorithms = "HS256" ∷ [];
      require = "sub" ∷ "exp" ∷ [];
      verify_signature = true;
      verify_exp = true;
      verify_nbf = true;
      verify_aud = is_some audience;
      verify_iss = is_some issuer;
      audience = audience;
      issuer = issuer;
      leeway = max_zero c.jwt_leeway_seconds;
    }

-- The claims, if the payload is a dict.
unfoldable pub as_claims : Decoded → Result Fields
as_claims (payload (obj claims)) = ok claims
as_claims (payload _) = raise unauthorized
as_claims invalid = raise unauthorized
as_claims (raised e) = raise e

unfoldable pub validate_jwt_hs256 : Decode → String → Config → Result Fields
unfolding as_claims
validate_jwt_hs256 decode token c =
    let secret = strip (or_empty c.jwt_secret) in
    if is_empty secret
    then raise unauthorized
    else as_claims (decode token (decode_options c secret))

-- `authorize_claims_for_request` once the required scope is known
unfoldable pub authorize_scope : Config → Fields → Option String → Result (Unit {0})
authorize_scope c claims none = ok tt
authorize_scope c claims (some required_scope) =
    let admin_role = strip c.jwt_admin_role in
    let role_values = extract_values_set claims ("role" ∷ "roles" ∷ []) in
    let scope_values = extract_values_set claims ("scope" ∷ "scopes" ∷ []) in
    if not (is_empty admin_role) && contains admin_role role_values
    then ok tt
    else if not (contains required_scope scope_values)
    then raise (http_error 403 "FORBIDDEN" "Forbidden")
    else ok tt

unfoldable pub authorize_claims_for_request : Request → Fields → Config → Result (Unit {0})
unfolding authorize_scope
authorize_claims_for_request r claims c =
    authorize_scope c claims (required_scope_for_method c r.method)
