-- ===== src/Protected/Bearer.antt =====
-- Which bearer tokens pass.
use civic_archive_api.Prelude.{
  String, ◌≡◌, refl, true, false, Option, none, some, arith, eq_iff, Bool-cases, inl, inr,
}
use civic_archive_api.Text.{is_empty, or_empty, strip, lower}
use civic_archive_api.Json.{obj, Fields}
use civic_archive_api.Errors.{chain-eq-ok, ok}
use civic_archive_api.Config.{Config}
use civic_archive_api.Http.{Request}
use civic_archive_api.Jwt.{
  Decode, Decoded, payload, invalid, raised, decode_options, as_claims, validate_jwt_hs256,
  required_scope_for_method, authorize_claims_for_request,
}
use civic_archive_api.Jwt.Authority.{Permits, authorize_iff}
use civic_archive_api.Protected.{before_space, after_space, bearer_token, verify_jwt}

-- What a request that passes has shown: a bearer header, whose token decodes under the configured
-- secret to claims that permit the request.
pub record BringsToken (decode : Decode) (c : Config) (r : Request) (claims : Fields) : Type 0 where
  pub header : String
  pub sent : r.header "Authorization" ≡ some header
  pub scheme : lower (before_space header) ≡ "bearer"
  pub token : is_empty (strip (after_space header)) ≡ false
  pub secret : is_empty (strip (or_empty c.jwt_secret)) ≡ false
  pub decoded :
      decode (strip (after_space header)) (decode_options c (strip (or_empty c.jwt_secret)))
      ≡ payload (obj claims)
  pub permitted : Permits c claims (required_scope_for_method c r.method)

bearer_token-eq-ok :
    (o : Option String) {t : String}
    → bearer_token o ≡ ok t
    → (h : String) × (o ≡ some h)
      × (lower (before_space h) ≡ "bearer")
      × (is_empty (strip (after_space h)) ≡ false)
      × (strip (after_space h) ≡ t)
unfolding bearer_token
bearer_token-eq-ok none e = cc
bearer_token-eq-ok (some h) e =
    (h, refl, ground (arith, eq_iff (lower (before_space h)) "bearer"), ground arith, ground arith)

as_claims-eq-ok :
    (d : Decoded) {claims : Fields} → as_claims d ≡ ok claims → d ≡ payload (obj claims)
unfolding as_claims
as_claims-eq-ok (payload (obj claims)) e = ground arith
as_claims-eq-ok (payload _) e = cc
as_claims-eq-ok invalid e = cc
as_claims-eq-ok (raised x) e = cc

validate_jwt-eq-ok :
    (decode : Decode) (token : String) (c : Config) {claims : Fields}
    → validate_jwt_hs256 decode token c ≡ ok claims
    → (is_empty (strip (or_empty c.jwt_secret)) ≡ false)
      × (decode token (decode_options c (strip (or_empty c.jwt_secret))) ≡ payload (obj claims))
unfolding validate_jwt_hs256
validate_jwt-eq-ok decode token c e = elim (Bool-cases (is_empty (strip (or_empty c.jwt_secret)))) [
  | inl blank ↦ let h = rw blank at e in cc
  | inr full ↦ let h = rw full at e in (full, as_claims-eq-ok _ h)
]

-- With tokens required, a request that passes has brought a token that decodes, under the configured
-- secret and options, to claims that permit it; these are the claims that the request is left with.
pub verify_jwt_sound :
    (decode : Decode) (c : Config) (r : Request) (o : Option Fields)
    → c.require_jwt ≡ true
    → verify_jwt decode c r ≡ ok o
    → (claims : Fields) × (o ≡ some claims) × BringsToken decode c r claims
unfolding verify_jwt
verify_jwt_sound decode c r o required e =
    let h = simp required at e in
    let (token, rest, bearer) = chain-eq-ok _ (bearer_token (r.header "Authorization")) h in
    let (claims, rest', valid) = chain-eq-ok _ (validate_jwt_hs256 decode token c) rest in
    let (u, last, granted) = chain-eq-ok _ (authorize_claims_for_request r claims c) rest' in
    let (header, sent, scheme, full, same) = bearer_token-eq-ok (r.header "Authorization") bearer in
    let (secret, decoded) = validate_jwt-eq-ok decode token c valid in
    (
      claims,
      cc last,
      record {
        header = header;
        sent = sent;
        scheme = scheme;
        token = full;
        secret = secret;
        decoded = rw same decoded;
        permitted = (authorize_iff r claims c).0 granted;
      },
    )
