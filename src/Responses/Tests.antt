-- ===== src/Responses/Tests.antt =====
-- Answers to errors.
use civic_archive_api.Prelude.{String, ◌≡◌, refl, none, some, [], ◌∷◌}
use civic_archive_api.Prelude.Int.{pos}
use civic_archive_api.Text.{is_empty}
use civic_archive_api.Json.{Json, null, int, str, end, field, get_or_null}
use civic_archive_api.Errors.{HttpError}
use civic_archive_api.Responses.{
  is_true, default_code, build_error_payload, error_response, error_content,
  normalize_http_exception, join_texts, handle_exception, validation_exception_handler,
}

abbrev as_it_is : Json → Json
as_it_is v = v

abbrev shown : Json → String
shown v = "value"

responses : Unit {0}
unfolding is_true default_code build_error_payload error_response error_content
    normalize_http_exception join_texts handle_exception validation_exception_handler get_or_null
    is_empty
responses = tt

plain_text : normalize_http_exception as_it_is shown (some "r1") 404 (str "Not Found") ≡ record {
  status_code = 404;
  content = field "code" (str "NOT_FOUND") (
      field "message"
        (str "Not Found")
        (field "error" (str "Not Found") (field "request_id" (str "r1") end)));
  request_id_header = some "r1";
}
unfolding responses
plain_text = refl

joined :
    (validation_exception_handler as_it_is none ("a" ∷ "b" ∷ []) null).content
    ≡ field "code"
        (str "VALIDATION_ERROR")
        (field "message" (str "a; b") (field "error" (str "a; b") end))
unfolding responses
joined = refl

abbrev too_large : HttpError
too_large = record {
  status_code = 413;
  code = "PAYLOAD_TOO_LARGE";
  message = "Payload Too Large";
  details = some (int (pos 5));
}
