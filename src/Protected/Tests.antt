-- ===== src/Protected/Tests.antt =====
-- Requests to the protected routes, and the theorems about them.
use civic_archive_api.Prelude.{
  String, ◌≡◌, refl, ◌⊎◌, ◌↔◌, true, false, Option, none, some, [], ◌∷◌, ◌==◌, if◌then◌else◌,
}
use civic_archive_api.Prelude.Int.{pos}
use civic_archive_api.Text.{is_empty, words, upper, or_none, strip}
use civic_archive_api.Dict.{get}
use civic_archive_api.Json.{str, obj, Fields, end, field, get_or_null}
use civic_archive_api.Errors.{type_error, unauthorized, ok, raise}
use civic_archive_api.Config.{Config}
use civic_archive_api.Samples.{defaults, production}
use civic_archive_api.Startup.{validate_startup_config}
use civic_archive_api.Startup.Tests.{production_valid, production_strict}
use civic_archive_api.Http.{Request}
use civic_archive_api.Proxy.{
  forwarded_key, first_hop, if_address, IpAddresses, remote_ip, is_trusted_proxy, client_key,
}
use civic_archive_api.Proxy.Trust.{IsForwarded, client_key_cases}
use civic_archive_api.Jwt.{
  payload, invalid, Decode, extract_values_set, required_scope_for_method, validate_jwt_hs256,
  authorize_claims_for_request,
}
use civic_archive_api.Jwt.Claims.{In, Gives, extract_values_set_iff}
use civic_archive_api.Jwt.Authority.{Permits, authorize_iff, forbidden}
use civic_archive_api.RateLimit.Memory
use civic_archive_api.RateLimit.Redis
use civic_archive_api.RateLimit.Redis.{RedisClient, value, RedisRateLimiter}
use civic_archive_api.RateLimit.Build.{Limiter, memory, redis, build_rate_limiter, build-hardened}
use civic_archive_api.Protected.{
  verify_api_key, verify_jwt, Clock, limiter_enabled, limiter_allow, verify_rate_limit,
  authenticate, protect,
}
use civic_archive_api.Protected.ApiKey.{BringsKey, verify_api_key_iff}
use civic_archive_api.Protected.Bearer.{BringsToken, verify_jwt_sound}
use civic_archive_api.Protected.Pipeline.{
  IsAuthenticated, protect_sound, hardened_refuses_anonymous,
}

-- Addresses that are known by name, and networks of one address.
abbrev known : IpAddresses
known = record {
  Address = String;
  Network = String;
  ip_address = λ s. if s == "junk" then none else some s;
  ip_network = λ s. some s;
  contains = λ network address. network == address;
}

abbrev silent : String → Option String
silent name = none

abbrev headers : String → String → String → Option String
headers name content asked = if name == asked then some content else none

abbrev get_from : String → (String → Option String) → Request
get_from host header = record {
  method = "GET";
  path = "/api/news";
  client_host = some host;
  header = header;
}

abbrev proxied : Request
proxied = get_from "proxy" (headers "X-Forwarded-For" " 1.2.3.4 , 5.6.7.8")

proxy : Unit {0}
unfolding client_key forwarded_key first_hop if_address is_empty remote_ip is_trusted_proxy
proxy = tt

through_a_proxy : client_key known proxied ("proxy" ∷ []) ≡ "1.2.3.4"
unfolding proxy
through_a_proxy = refl

no_proxies : client_key known proxied [] ≡ "proxy"
unfolding proxy
no_proxies = refl

junk_hop :
    client_key known (get_from "proxy" (headers "X-Forwarded-For" "junk")) ("proxy" ∷ []) ≡ "proxy"
unfolding proxy
junk_hop = refl

client_key_cases_example :
    (client_key known proxied ("proxy" ∷ []) ≡ remote_ip proxied)
    ⊎ ((is_trusted_proxy known (remote_ip proxied) ("proxy" ∷ []) ≡ true)
        × IsForwarded known proxied (client_key known proxied ("proxy" ∷ [])))
client_key_cases_example = client_key_cases known proxied ("proxy" ∷ [])

abbrev reader : Fields
reader = field "sub" (str "u1") (field "scope" (str "archive:read  other") end)

jwt : Unit {0}
unfolding extract_values_set required_scope_for_method validate_jwt_hs256
    authorize_claims_for_request get_or_null words upper or_none strip
jwt = tt

scopes_are_words :
    extract_values_set reader ("scope" ∷ "scopes" ∷ []) ≡ "archive:read" ∷ "other" ∷ []
unfolding jwt
scopes_are_words = refl

readers_do_not_write :
    authorize_claims_for_request (record proxied { method = "poſt" }) reader defaults
    ≡ raise forbidden
unfolding jwt
readers_do_not_write = refl

extract_values_set_iff_example :
    In "other" (extract_values_set reader ("scope" ∷ "scopes" ∷ []))
    ↔ (Gives reader "scope" "other" ⊎ Gives reader "scopes" "other")
extract_values_set_iff_example = extract_values_set_iff reader "scope" "scopes" "other"

authorize_iff_example :
    (authorize_claims_for_request proxied reader defaults ≡ ok tt)
    ↔ Permits defaults reader (required_scope_for_method defaults "GET")
authorize_iff_example = authorize_iff proxied reader defaults

-- A decoder that knows one token.
abbrev decode : Decode
decode token options = if token == "t1" then payload (obj reader) else invalid

protected : Unit {0}
unfolding jwt proxy get verify_api_key verify_jwt limiter_enabled limiter_allow verify_rate_limit
    authenticate protect Memory.init Memory.allow Memory.enabled Memory.count_request
protected = tt

abbrev tokened : Request
tokened = get_from "1.1.1.1" (headers "Authorization" "Bearer t1")

abbrev with_tokens : Config
with_tokens = record production { require_api_key = false }

reader_reads : verify_jwt decode with_tokens tokened ≡ ok (some reader)
unfolding protected
reader_reads = refl

verify_api_key_iff_example :
    (verify_api_key production tokened ≡ ok tt)
    ↔ (production.require_api_key ≡ true → BringsKey production tokened)
verify_api_key_iff_example = verify_api_key_iff production tokened

non_ascii_key :
    verify_api_key production (get_from "1.1.1.1" (headers "X-API-Key" "é")) ≡ raise type_error
unfolding protected
non_ascii_key = refl

verify_jwt_sound_example :
    (claims : Fields) × (◌≡◌ {A = Option Fields} (some reader) (some claims))
    × BringsToken decode with_tokens tokened claims
verify_jwt_sound_example =
    verify_jwt_sound decode with_tokens tokened (some reader) refl reader_reads

abbrev idle : RedisClient (Unit {0})
idle = record {
  script_load = λ script s. (value "sha", s);
  evalsha = λ sha key ttl s. (value (pos 1), s);
  eval = λ script key ttl s. (value (pos 1), s);
}

abbrev two_a_minute : Limiter
two_a_minute = memory (record { requests_per_minute = 2; windows = [] })

abbrev noon : Clock
noon = record { now = 0; time = 600 }

reader_passes :
    (protect idle known [] decode with_tokens two_a_minute noon tokened tt).0 ≡ ok (some reader)
unfolding protected
reader_passes = refl

protect_sound_example :
    IsAuthenticated decode with_tokens tokened (some reader)
    × (limiter_enabled two_a_minute ≡ true
        → (limiter_allow idle two_a_minute noon (client_key known tokened []) tt).0 ≡ ok true)
protect_sound_example =
    protect_sound idle known [] decode with_tokens two_a_minute noon tokened tt (some reader)
      reader_passes

hardened_refuses_anonymous_example :
    protect idle known [] decode production two_a_minute noon (get_from "1.1.1.1" silent) tt
    ≡ (raise unauthorized, two_a_minute, tt)
unfolding validate_startup_config
hardened_refuses_anonymous_example =
    hardened_refuses_anonymous idle known [] decode production two_a_minute noon
      (get_from "1.1.1.1" silent) tt production_valid production_strict refl refl

build-hardened_example :
    (l : RedisRateLimiter) × (build_rate_limiter production (some (λ url. ok tt)) ≡ ok (redis l))
    × (Redis.enabled l ≡ true)
    × (l.has_client ≡ true)
    × (l.fail_open ≡ true)
build-hardened_example =
    build-hardened production (λ url. ok tt) production_valid production_strict refl
