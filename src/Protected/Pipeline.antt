-- ===== src/Protected/Pipeline.antt =====
-- The three dependencies together.
use civic_archive_api.Prelude.{
  String, ◌≡◌, refl, ◌⊎◌, inl, inr, Bool, true, false, Option, none, some, List, arith, Bool-cases,
}
use civic_archive_api.Json.{Fields}
use civic_archive_api.Errors.{chain-eq-ok, Exception, unauthorized, Result, ok, raise}
use civic_archive_api.Config.{Config, strict_security_mode}
use civic_archive_api.Startup.{validate_startup_config}
use civic_archive_api.Startup.Accepts.{validate_iff}
use civic_archive_api.Http.{Request}
use civic_archive_api.Proxy.{IpAddresses, client_key}
use civic_archive_api.Jwt.{Decode}
use civic_archive_api.RateLimit.Redis.{RedisClient}
use civic_archive_api.RateLimit.Build.{Limiter}
use civic_archive_api.Protected.{
  check_api_key, verify_api_key, bearer_token, verify_jwt, Clock, limiter_enabled, allowed_or_429,
  limiter_allow, verify_rate_limit, after_authentication, authenticate, protect,
}
use civic_archive_api.Protected.ApiKey.{BringsKey, verify_api_key_iff}
use civic_archive_api.Protected.Bearer.{BringsToken, verify_jwt_sound}

-- What authentication establishes of a request.
pub record IsAuthenticated (decode : Decode) (c : Config) (r : Request) (o : Option Fields)
    : Type 0 where
  pub key : c.require_api_key ≡ true → BringsKey c r
  pub token :
      c.require_jwt ≡ true → (claims : Fields) × (o ≡ some claims) × BringsToken decode c r claims

authenticate_sound :
    (decode : Decode) (c : Config) (r : Request) (o : Option Fields)
    → authenticate decode c r ≡ ok o
    → IsAuthenticated decode c r o
unfolding authenticate
authenticate_sound decode c r o e =
    let (u, second, first) = chain-eq-ok (λ _. verify_jwt decode c r) (verify_api_key c r) e in
    record {
      key = (verify_api_key_iff c r).0 first;
      token = λ required. verify_jwt_sound decode c r o required second;
    }

no_key :
    (c : Config) (r : Request)
    → c.require_api_key ≡ true
    → r.header "X-API-Key" ≡ none
    → verify_api_key c r ≡ raise unauthorized
unfolding verify_api_key check_api_key
no_key c r required missing = ground arith

no_token :
    (decode : Decode) (c : Config) (r : Request)
    → c.require_jwt ≡ true
    → r.header "Authorization" ≡ none
    → verify_jwt decode c r ≡ raise unauthorized
unfolding verify_jwt bearer_token
no_token decode c r required missing = rw (required, missing) refl

anonymous :
    (decode : Decode) (c : Config) (r : Request)
    → (c.require_api_key ≡ true) ⊎ (c.require_jwt ≡ true)
    → r.header "X-API-Key" ≡ none
    → r.header "Authorization" ≡ none
    → authenticate decode c r ≡ raise unauthorized
unfolding authenticate
anonymous decode c r (inl key) unkeyed untokened = rw (no_key c r key unkeyed) refl
anonymous decode c r (inr token) unkeyed untokened = elim (Bool-cases c.require_api_key) [
  | inl key ↦ rw (no_key c r key unkeyed) refl
  | inr free ↦
      rw ((verify_api_key_iff c r).1 (λ e. cc (e, free))) (no_token decode c r token untokened)
]

allowed_or_429-eq-ok : (a : Result Bool) → allowed_or_429 a ≡ ok tt → a ≡ ok true
unfolding allowed_or_429
allowed_or_429-eq-ok (ok true) e = refl
allowed_or_429-eq-ok (ok false) e = cc
allowed_or_429-eq-ok (raise x) e = cc

module _ {Server : Type 0} (client : RedisClient Server) (ip : IpAddresses) where
  open ip use {Network}

  verify_rate_limit-eq-ok :
      (l : Limiter) (clock : Clock) (key : String) (s : Server)
      → (verify_rate_limit client l clock key s).0 ≡ ok tt
      → limiter_enabled l ≡ true
      → (limiter_allow client l clock key s).0 ≡ ok true
  unfolding verify_rate_limit
  verify_rate_limit-eq-ok l clock key s e on = allowed_or_429-eq-ok _ (rw on at e)

  after_authentication-eq-ok :
      (a : Result (Option Fields)) (l : Limiter) (clock : Clock) (key : String) (s : Server)
      (o : Option Fields)
      → (after_authentication client a l clock key s).0 ≡ ok o
      → (a ≡ ok o) × ((verify_rate_limit client l clock key s).0 ≡ ok tt)
  unfolding after_authentication
  after_authentication-eq-ok (raise x) l clock key s o e = cc
  after_authentication-eq-ok (ok claims) l clock key s o e =
      let (u, same, passed) = chain-eq-ok _ (verify_rate_limit client l clock key s).0 e in
      (same, passed)

  -- A request that gets past the dependencies is authenticated as far as the configuration requires,
  -- and a limiter that is on has allowed it under the key of its client.
  pub protect_sound :
      (networks : List Network) (decode : Decode) (c : Config) (l : Limiter) (clock : Clock)
      (r : Request) (s : Server) (o : Option Fields)
      → (protect client ip networks decode c l clock r s).0 ≡ ok o
      → IsAuthenticated decode c r o
        × (limiter_enabled l ≡ true
            → (limiter_allow client l clock (client_key ip r networks) s).0 ≡ ok true)
  unfolding protect
  protect_sound networks decode c l clock r s o e =
      let (a, limited) =
        after_authentication-eq-ok (authenticate decode c r) l clock (client_key ip r networks) s o
          e in
      (authenticate_sound decode c r o a, verify_rate_limit-eq-ok l clock _ s limited)

  -- A request that is not authenticated does not count against its client's limit: the limiter and the
  -- server stay as they were.
  pub protect_unauthenticated :
      (networks : List Network) (decode : Decode) (c : Config) (l : Limiter) (clock : Clock)
      (r : Request) (s : Server) (x : Exception)
      → authenticate decode c r ≡ raise x
      → protect client ip networks decode c l clock r s ≡ (raise x, l, s)
  unfolding protect
  protect_unauthenticated networks decode c l clock r s x e = rw (e, after_authentication) refl

  -- An application that started in strict mode refuses every request without credentials with 401,
  -- and leaves the limiter and the server as they were.
  pub hardened_refuses_anonymous :
      (networks : List Network) (decode : Decode) (c : Config) (l : Limiter) (clock : Clock)
      (r : Request) (s : Server)
      → (validate_startup_config c).1 ≡ ok tt
      → strict_security_mode c ≡ true
      → r.header "X-API-Key" ≡ none
      → r.header "Authorization" ≡ none
      → protect client ip networks decode c l clock r s ≡ (raise unauthorized, l, s)
  hardened_refuses_anonymous networks decode c l clock r s valid strict unkeyed untokened =
      protect_unauthenticated networks decode c l clock r s unauthorized
        (anonymous decode c r (((validate_iff c).0 valid).1 strict).authenticated unkeyed untokened)
