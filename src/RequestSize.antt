-- ===== src/RequestSize.antt =====
-- app/bootstrap/middleware.py: `request_size_guard`. The rest of the application is a value of
-- `Handler`, which may read messages of the request's body one by one before it ends.
pub mod Delivery
pub mod Answers
mod Tests
use civic_archive_api.Prelude.{
  ℕ, ◌+◌, String, Bool, true, false, not, ◌&&◌, ◌||◌, Option, none, some, List, [], ◌∷◌, length,
  ◌==◌, if◌then◌else◌,
}
use civic_archive_api.Prelude.Int.{ℤ, pos, ltb_ℤ}
use civic_archive_api.Text.{is_empty, or_empty, strip, starts_with}
use civic_archive_api.Text.Number.{parse_int}
use civic_archive_api.Json.{int, obj, Fields, end, field}
use civic_archive_api.Errors.{HttpError, Exception, Result, ok, raise}
use civic_archive_api.Config.{Config}
use civic_archive_api.Http.{Request}

-- An ASGI message that `receive` returns: a part of the body, or one of another type.
pub data Message : Type 0 where
  http_request : List ℕ → Bool → Message
  http_disconnect : Message

-- The application behind the middleware, up to its answer.
pub data Handler (R : Type 0) : Type 0 where
  respond : R → Handler R
  fail : Exception → Handler R
  receive : (Message → Handler R) → Handler R

-- What the guard keeps: `received_bytes`, and `_request_size_guard_details` of the request's state.
pub record Guard : Type 0 where
  pub received_bytes : ℕ
  pub guard_details : Option Fields

abbrev pub fresh_guard : Guard
fresh_guard = record { received_bytes = 0; guard_details = none }

-- The response of the handler, or the one of `error_response`.
pub data Response (R : Type 0) : Type 0 where
  passed : R → Response R
  error_response : HttpError → Response R

abbrev pub with_length : Option ℤ → Fields
with_length none = end
with_length (some n) = field "content_length" (int n) end

unfoldable pub overflow_details : ℤ → Option ℤ → ℕ → Fields
overflow_details max_request_body_bytes content_length received_bytes =
    field "max_request_body_bytes" (int max_request_body_bytes)
      (field "request_body_bytes" (int (pos received_bytes)) (with_length content_length))

-- `guarded_receive` on the message that the original `receive` returns
unfoldable pub guarded_receive : ℤ → Option ℤ → Guard → Message → Message × Guard
guarded_receive limit content_length g http_disconnect = (http_disconnect, g)
guarded_receive limit content_length g (http_request chunk more_body) =
    let received = g.received_bytes + length chunk in
    if ltb_ℤ limit (pos received)
    then (
      http_request [] false,
      record {
        received_bytes = received;
        guard_details = some (overflow_details limit content_length received);
      },
    )
    else (http_request chunk more_body, record g { received_bytes = received })

-- The next message of the server; after the last one the client has gone.
abbrev pub next_message : List Message → Message
next_message [] = http_disconnect
next_message (m ∷ messages) = m

abbrev pub later_messages : List Message → List Message
later_messages [] = []
later_messages (m ∷ messages) = messages

abbrev pub too_large : Fields → HttpError
too_large details = record {
  status_code = 413;
  code = "PAYLOAD_TOO_LARGE";
  message = "Payload Too Large";
  details = some (obj details);
}

abbrev pub invalid_length : HttpError
invalid_length = record {
  status_code = 400;
  code = "BAD_REQUEST";
  message = "Invalid Content-Length header";
  details = none;
}

abbrev pub has_body : String → Bool
has_body method = method == "POST" || method == "PUT" || method == "PATCH"

unfoldable pub is_guarded : Request → Bool
is_guarded r = starts_with r.path "/api/" && has_body r.method

module _ {R : Type 0} where
  -- A handler on the messages as the server sends them.
  unfoldable pub run_plain : Handler R → List Message → Result R
  run_plain (respond r) messages = ok r
  run_plain (fail e) messages = raise e
  run_plain (receive next) messages =
      run_plain (next (next_message messages)) (later_messages messages)

  -- A handler whose `receive` is the guarded one.
  unfoldable pub run_guarded : ℤ → Option ℤ → Handler R → List Message → Guard → Result R × Guard
  run_guarded limit content_length (respond r) messages g = (ok r, g)
  run_guarded limit content_length (fail e) messages g = (raise e, g)
  run_guarded limit content_length (receive next) messages g =
      let (m, g') = guarded_receive limit content_length g (next_message messages) in
      run_guarded limit content_length (next m) (later_messages messages) g'

  abbrev pub pass_on : Result R → Result (Response R)
  pass_on (ok r) = ok (passed r)
  pass_on (raise e) = raise e

  -- What follows `call_next`, whether it returned or raised.
  unfoldable pub after_call : Result R × Guard → Result (Response R)
  after_call (result, g) = elim g.guard_details [
    | none ↦ pass_on result
    | some details ↦ ok (error_response (too_large details))
  ]

  unfoldable pub call_guarded : ℤ → Option ℤ → Handler R → List Message → Result (Response R)
  unfolding after_call
  call_guarded limit content_length handler messages =
      after_call (run_guarded limit content_length handler messages fresh_guard)

  -- The test of a Content-Length header that is an integer.
  unfoldable pub with_content_length : ℤ → Option ℤ → Handler R → List Message → Result (Response R)
  unfolding call_guarded
  with_content_length limit none handler messages = ok (error_response invalid_length)
  with_content_length limit (some n) handler messages =
      if ltb_ℤ limit n
      then ok (
          error_response (
            too_large
              (field "max_request_body_bytes" (int limit) (field "content_length" (int n) end))))
      else call_guarded limit (some n) handler messages

  -- The guard on a request that it is for, by its stripped Content-Length header.
  unfoldable pub guard_body : ℤ → String → Handler R → List Message → Result (Response R)
  unfolding with_content_length call_guarded
  guard_body limit content_length_raw handler messages =
      if is_empty content_length_raw
      then call_guarded limit none handler messages
      else with_content_length limit (parse_int content_length_raw) handler messages

  unfoldable pub request_size_guard :
      Config → Request → Handler R → List Message → Result (Response R)
  unfolding guard_body is_guarded
  request_size_guard c r handler messages =
      if is_guarded r
      then guard_body c.max_request_body_bytes (strip (or_empty (r.header "content-length")))
          handler messages
      else pass_on (run_plain handler messages)
