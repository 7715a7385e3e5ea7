-- ===== src/Responses/Laws.antt =====
-- What is left of an error in its answer.
use civic_archive_api.Prelude.{String, ◌≡◌, refl, sym, ◌∙◌, Bool, true, false, Option, none, some}
use civic_archive_api.Json.{Json, null}
use civic_archive_api.Errors.{
  Exception, http_exception, runtime_error, type_error, value_error, overflow_error, database_error,
}
use civic_archive_api.Responses.{error_response, handle_exception}

abbrev pub or_null : Option Json → Json
or_null none = null
or_null (some details) = details

abbrev pub is_http : Exception → Bool
is_http (http_exception e) = true
is_http _ = false

module _ (encode : Json → Json) (shown : Json → String) where
  answer_500 :
      (request_id : Option String) (x : Exception)
      → is_http x ≡ false
      → handle_exception encode shown request_id x
        ≡ error_response encode request_id 500
            (record { code = "INTERNAL_ERROR"; message = "Internal Server Error"; details = null })
  unfolding handle_exception
  answer_500 request_id (http_exception e) h = cc
  answer_500 request_id (runtime_error message) h = refl
  answer_500 request_id type_error h = refl
  answer_500 request_id value_error h = refl
  answer_500 request_id overflow_error h = refl
  answer_500 request_id database_error h = refl

  -- The answer to an exception that is not an HTTP error does not depend on which one it is.
  internal_errors_alike :
      (request_id : Option String) (x y : Exception)
      → is_http x ≡ false
      → is_http y ≡ false
      → handle_exception encode shown request_id x ≡ handle_exception encode shown request_id y
  internal_errors_alike request_id x y hx hy =
      answer_500 request_id x hx ∙ sym (answer_500 request_id y hy)
