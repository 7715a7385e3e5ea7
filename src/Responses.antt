-- ===== src/Responses.antt =====
-- app/errors.py and app/bootstrap/exception_handlers.py: what an exception is answered with.
pub mod Laws
mod Tests
use Prim.Native.String
use civic_archive_api.Prelude.{
  ℕ, String, Bool, true, false, not, Option, none, some, List, [], ◌∷◌, eqb, if◌then◌else◌,
}
use civic_archive_api.Prelude.Int.{ℤ, pos, eqb_ℤ}
use civic_archive_api.Text.{is_empty}
use civic_archive_api.Json.{
  Float, finite, infinity, nan, Json, null, bool, int, float, str, arr, obj, nil, cons, Fields, end,
  field, get_or_null,
}
use civic_archive_api.Errors.{HttpError, Exception, http_exception}

-- `DEFAULT_ERROR_CODES.get(status_code, "HTTP_ERROR")`
unfoldable pub default_code : ℕ → List (ℕ × String) → String
default_code status_code [] = "HTTP_ERROR"
default_code status_code ((status, code) ∷ codes) =
    let other = default_code status_code codes in if eqb status status_code then code else other

abbrev pub default_error_codes : List (ℕ × String)
default_error_codes =
    (400, "BAD_REQUEST")
    ∷ (401, "UNAUTHORIZED")
    ∷ (403, "FORBIDDEN")
    ∷ (404, "NOT_FOUND")
    ∷ (413, "PAYLOAD_TOO_LARGE")
    ∷ (429, "RATE_LIMITED")
    ∷ (422, "VALIDATION_ERROR")
    ∷ (500, "INTERNAL_ERROR")
    ∷ []

-- A `JSONResponse`; the header is `X-Request-Id`.
pub record JsonResponse : Type 0 where
  pub status_code : ℕ
  pub content : Fields
  pub request_id_header : Option String

-- `bool(value)`
unfoldable pub is_true : Json → Bool
unfolding is_empty
is_true null = false
is_true (bool b) = b
is_true (int n) = not (eqb_ℤ n (pos 0))
is_true (float (finite m k)) = not (eqb_ℤ m (pos 0))
is_true (float infinity) = true
is_true (float nan) = true
is_true (str s) = not (is_empty s)
is_true (arr nil) = false
is_true (arr (cons v items)) = true
is_true (obj end) = false
is_true (obj (field k v fields)) = true

-- A request id that is set and not empty.
abbrev pub shown_id : Option String → Option String
shown_id none = none
shown_id (some id) = if is_empty id then none else some id

-- The keyword arguments of `error_response`.
pub record ErrorContent : Type 0 where
  pub code : String
  pub message : String
  pub details : Json

abbrev pub with_details : Option Json → Fields
with_details none = end
with_details (some details) = field "details" details end

-- The detail that `http_error` gives to an `HTTPException`.
abbrev pub detail_of : HttpError → Json
detail_of e =
    obj (field "code" (str e.code) (field "message" (str e.message) (with_details e.details)))

-- `"; ".join(messages)`
unfoldable pub join_texts : List String → String
join_texts [] = ""
join_texts (message ∷ []) = message
join_texts (message ∷ (other ∷ messages)) =
    String.◌++◌ message (String.◌++◌ "; " (join_texts (other ∷ messages)))

-- `jsonable_encoder` of FastAPI and `str` of values other than texts are parameters.
module _ (encode : Json → Json) where
  abbrev pub details_fields : Json → Fields
  details_fields null = end
  details_fields details = field "details" (encode details) end

  abbrev pub id_fields : Option String → Fields → Fields
  id_fields none rest = rest
  id_fields (some id) rest = field "request_id" (str id) rest

  unfoldable pub build_error_payload : ErrorContent → Option String → Fields
  build_error_payload c request_id = field "code" (str c.code) (
      field "message" (str c.message) (
        field "error" (str c.message) (id_fields (shown_id request_id) (details_fields c.details))))

  unfoldable pub error_response : Option String → ℕ → ErrorContent → JsonResponse
  unfolding build_error_payload
  error_response request_id status_code c = record {
    status_code = status_code;
    content = build_error_payload c request_id;
    request_id_header = shown_id request_id;
  }

  module _ (shown : Json → String) where
    abbrev pub text_of : Json → String
    text_of (str s) = s
    text_of v = shown v

    -- `str(value or other)`
    abbrev pub text_or_else : Json → String → String
    text_or_else v other = if is_true v then text_of v else other

    -- The code, the message and the details of an exception's detail.
    unfoldable pub error_content : ℕ → Json → ErrorContent
    unfolding is_true default_code get_or_null
    error_content status_code (obj detail) = record {
      code =
          text_or_else (get_or_null "code" detail) (default_code status_code default_error_codes);
      message =
          text_or_else (get_or_null "message" detail)
            (text_or_else (get_or_null "error" detail) "Request failed");
      details = get_or_null "details" detail;
    }
    error_content status_code null = record {
      code = default_code status_code default_error_codes;
      message = "Request failed";
      details = null;
    }
    error_content status_code detail = record {
      code = default_code status_code default_error_codes;
      message = text_of detail;
      details = null;
    }

    -- `normalize_http_exception`
    unfoldable pub normalize_http_exception : Option String → ℕ → Json → JsonResponse
    unfolding error_response error_content
    normalize_http_exception request_id status_code detail =
        error_response request_id status_code (error_content status_code detail)

    -- The handlers of `HTTPException` and of any other exception.
    unfoldable pub handle_exception : Option String → Exception → JsonResponse
    unfolding normalize_http_exception
    handle_exception request_id (http_exception e) =
        normalize_http_exception request_id e.status_code (detail_of e)
    handle_exception request_id _ =
        error_response request_id 500
          (record { code = "INTERNAL_ERROR"; message = "Internal Server Error"; details = null })

  -- The handler of a request that FastAPI cannot validate: the messages of the errors, joined.
  unfoldable pub validation_exception_handler : Option String → List String → Json → JsonResponse
  unfolding error_response join_texts is_empty
  validation_exception_handler request_id messages errors =
      let message = join_texts messages in
      error_response request_id 400 (record {
        code = "VALIDATION_ERROR";
        message = if is_empty message then "invalid request" else message;
        details = errors;
      })
