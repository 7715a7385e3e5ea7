-- ===== src/RequestSize/Tests.antt =====
-- Requests with bodies within and over the limit.
use civic_archive_api.Prelude.{
  ℕ, String, ◌+◌, ◌≤◌, ◌≡◌, inr, refl, true, false, Option, none, some, List, [], ◌∷◌, arith, ◌==◌,
  if◌then◌else◌,
}
use civic_archive_api.Prelude.Int.{pos}
use civic_archive_api.Text.{strip, starts_with, is_empty}
use civic_archive_api.Text.Number.{parse_int, signed, natural}
use civic_archive_api.Errors.{HttpError, type_error, ok}
use civic_archive_api.Config.{Config}
use civic_archive_api.Samples.{defaults}
use civic_archive_api.Http.{Request}
use civic_archive_api.RequestSize.{
  Message, http_request, Handler, respond, fail, receive, fresh_guard, passed, error_response,
  guarded_receive, run_plain, run_guarded, invalid_length, after_call, call_guarded,
  with_content_length, is_guarded, guard_body, request_size_guard,
}
use civic_archive_api.RequestSize.Delivery.{total_bytes, deliver, deliver_bound}
use civic_archive_api.RequestSize.Answers.{
  has_bad_length, request_size_guard-within, request_size_guard-over,
}

abbrev four_bytes : Config
four_bytes = record defaults { max_request_body_bytes = pos 4 }

abbrev post : Option String → Request
post content_length = record {
  method = "POST";
  path = "/api/news";
  client_host = none;
  header = λ name. if name == "content-length" then content_length else none;
}

-- An application that reads two messages, and fails if the body does not end there.
abbrev second : Message → Handler String
second (http_request chunk false) = respond "read"
second _ = fail type_error

abbrev two_parts : Handler String
two_parts = receive (λ first. receive second)

abbrev body : List ℕ → List Message
body last = http_request (1 ∷ 2 ∷ []) true ∷ http_request last false ∷ []

size_guard : Unit {0}
unfolding request_size_guard guard_body with_content_length call_guarded after_call is_guarded
    starts_with is_empty strip run_guarded run_plain guarded_receive deliver parse_int signed
    natural
size_guard = tt

not_a_number :
    request_size_guard four_bytes (post (some "x")) two_parts (body [])
    ≡ ok (error_response invalid_length)
unfolding size_guard
not_a_number = refl

declared_too_long :
    (e : HttpError) × (request_size_guard four_bytes (post (some " 5 ")) two_parts (body [])
      ≡ ok (error_response e))
    × (e.status_code ≡ 413)
unfolding size_guard
declared_too_long = (_, refl, refl)

deliver_bound_example :
    0 + total_bytes (deliver (pos 4) none fresh_guard (body (3 ∷ 4 ∷ 5 ∷ []))) ≤ 4
deliver_bound_example = deliver_bound 4 none fresh_guard (body (3 ∷ 4 ∷ 5 ∷ [])) (omega arith)

request_size_guard-within_example :
    request_size_guard four_bytes (post (some "3")) two_parts (body (3 ∷ [])) ≡ ok (passed "read")
unfolding size_guard
request_size_guard-within_example =
    request_size_guard-within four_bytes 4 (post (some "3")) two_parts (body (3 ∷ [])) refl
      (inr (pos 3, refl, refl)) (omega arith)

request_size_guard-over_example :
    (e : HttpError) × (request_size_guard four_bytes (post none) two_parts (body (3 ∷ 4 ∷ 5 ∷ []))
      ≡ ok (error_response e))
    × (e.status_code ≡ (if has_bad_length (post none) then 400 else 413))
unfolding size_guard
request_size_guard-over_example =
    request_size_guard-over four_bytes 4 (post none) two_parts (body (3 ∷ 4 ∷ 5 ∷ [])) refl refl
      (omega arith)
