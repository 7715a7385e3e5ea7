-- ===== src/Protected.antt =====
-- The dependencies of the protected routes, in the order in which FastAPI resolves them: the API
-- key, the bearer token, the rate limit (app/security_dependencies.py, app/security.py and
-- `protected_dependencies` of app/__init__.py).
pub mod ApiKey
pub mod Bearer
pub mod Pipeline
mod Tests
use Prim.Native.Char.{code}
use Prim.Native.String.{[], ◌∷◌}
use civic_archive_api.Prelude.{
  ℕ, String, Bool, true, false, not, ◌&&◌, ◌||◌, Option, none, some, List, ◌==◌, eqb, ltb,
  if◌then◌else◌,
}
use civic_archive_api.Text.{is_empty, or_empty, is_space, strip, lower}
use civic_archive_api.Json.{Fields}
use civic_archive_api.Errors.{
  Exception, type_error, http_error, unauthorized, Result, ok, raise, ◌>>=◌, ◌>>◌,
}
use civic_archive_api.Config.{Config}
use civic_archive_api.Http.{Request}
use civic_archive_api.Jwt.{Decode, validate_jwt_hs256, authorize_claims_for_request}
use civic_archive_api.Proxy.{IpAddresses, client_key}
use civic_archive_api.RateLimit.Memory
use civic_archive_api.RateLimit.Redis
use civic_archive_api.RateLimit.Redis.{RedisClient}
use civic_archive_api.RateLimit.Build.{Limiter, memory, redis}

unfoldable pub is_ascii : String → Bool
is_ascii [] = true
is_ascii (c ∷ s) = ltb (code c) 128 && is_ascii s

-- `hmac.compare_digest` on texts: they must be ASCII
unfoldable pub compare_digest : String → String → Result Bool
unfolding is_ascii
compare_digest a b = if is_ascii a && is_ascii b then ok (a == b) else raise type_error

unfoldable pub require_true : Bool → Result (Unit {0})
require_true true = ok tt
require_true false = raise unauthorized

-- The test of a key that is required.
unfoldable pub check_api_key : String → Option String → Result (Unit {0})
unfolding is_empty require_true compare_digest
check_api_key expected_key none = raise unauthorized
check_api_key expected_key (some key) =
    if is_empty key
    then raise unauthorized
    else (do same ← compare_digest key expected_key; require_true same)

-- `verify_api_key`
unfoldable pub verify_api_key : Config → Request → Result (Unit {0})
unfolding check_api_key
verify_api_key c r =
    if not c.require_api_key
    then ok tt
    else check_api_key (or_empty c.api_key) (r.header "X-API-Key")

-- `authorization.partition(" ")`: what stands before the first space, and what after it
unfoldable pub before_space : String → String
before_space [] = []
before_space (c ∷ s) = let rest = before_space s in if eqb (code c) b' ' then [] else c ∷ rest

unfoldable pub after_space : String → String
after_space [] = []
after_space (c ∷ s) = let rest = after_space s in if eqb (code c) b' ' then s else rest

-- The token of a bearer header.
unfoldable pub bearer_token : Option String → Result String
unfolding is_empty before_space after_space strip lower
bearer_token none = raise unauthorized
bearer_token (some authorization) =
    let token = strip (after_space authorization) in
    if is_empty authorization
    then raise unauthorized
    else if not (lower (before_space authorization) == "bearer") || is_empty token
    then raise unauthorized
    else ok token

-- `verify_jwt`; the result is `request.state.auth_claims`, if it is set
unfoldable pub verify_jwt : Decode → Config → Request → Result (Option Fields)
unfolding bearer_token
verify_jwt decode c r = if not c.require_jwt then ok none else do
  token ← bearer_token (r.header "Authorization")
  claims ← validate_jwt_hs256 decode token c
  authorize_claims_for_request r claims c
  ok (some claims)

-- The first two dependencies.
unfoldable pub authenticate : Decode → Config → Request → Result (Option Fields)
authenticate decode c r = do u ← verify_api_key c r; verify_jwt decode c r

-- The clocks at a call: the monotonic one in nanoseconds, and the wall clock in seconds.
pub record Clock : Type 0 where
  pub now : ℕ
  pub time : ℕ

unfoldable pub limiter_enabled : Limiter → Bool
limiter_enabled (memory l) = Memory.enabled l
limiter_enabled (redis l) = Redis.enabled l

unfoldable pub allowed_or_429 : Result Bool → Result (Unit {0})
allowed_or_429 (ok true) = ok tt
allowed_or_429 (ok false) = raise (http_error 429 "RATE_LIMITED" "Too Many Requests")
allowed_or_429 (raise e) = raise e

module _ {Server : Type 0} (client : RedisClient Server) where
  unfoldable pub limiter_allow : Limiter → Clock → String → Server → Result Bool × Limiter × Server
  limiter_allow (memory l) clock key s =
      let (l', allowed) = Memory.allow l clock.time key in (ok allowed, memory l', s)
  limiter_allow (redis l) clock key s =
      let (answer, l', s') = Redis.allow client l clock.now clock.time key s in
      (answer, redis l', s')

  -- `verify_rate_limit`
  unfoldable pub verify_rate_limit :
      Limiter → Clock → String → Server → Result (Unit {0}) × Limiter × Server
  unfolding allowed_or_429
  verify_rate_limit l clock key s =
      if not (limiter_enabled l)
      then (ok tt, l, s)
      else let (answer, l', s') = limiter_allow l clock key s in (allowed_or_429 answer, l', s')

  -- The rate limit counts a request only if it is authenticated.
  unfoldable pub after_authentication :
      Result (Option Fields)
      → Limiter
      → Clock
      → String
      → Server
      → Result (Option Fields) × Limiter × Server
  after_authentication (raise e) l clock key s = (raise e, l, s)
  after_authentication (ok claims) l clock key s =
      let (answer, l', s') = verify_rate_limit l clock key s in ((do u ← answer; ok claims), l', s')

  -- The three dependencies in turn: the claims, or the exception of the first that raises, with the
  -- limiter and the server after them.
  unfoldable pub protect :
      (ip : IpAddresses)
      → List ip.Network
      → Decode
      → Config
      → Limiter
      → Clock
      → Request
      → Server
      → Result (Option Fields) × Limiter × Server
  unfolding after_authentication authenticate
  protect ip networks decode c l clock r s =
      after_authentication (authenticate decode c r) l clock (client_key ip r networks) s
