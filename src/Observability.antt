-- ===== src/Observability.antt =====
-- app/observability.py: the middleware that counts, times and logs every request. What it tells the
-- Prometheus client and the logger is a list of the calls, in order.
pub mod Bounds
pub mod Requests
pub mod History
pub mod Logging
mod Tests
use civic_archive_api.Prelude.{
  ℕ, ◌+◌, ◌*◌, ◌/◌, ◌%◌, String, Bool, true, false, not, ◌&&◌, ◌||◌, Option, none, some, List, [],
  ◌∷◌, ◌++◌, any, leb, ltb, eqb, ◌==◌, if◌then◌else◌,
}
use civic_archive_api.Prelude.Decimal.{decimal}
use civic_archive_api.Text.{is_empty, or_empty, text_length, upper}
use civic_archive_api.Errors.{Exception, http_exception}
use civic_archive_api.Http.{Request}

abbrev pub allowed_http_method_labels : List String
allowed_http_method_labels = "GET" ∷ "POST" ∷ "PUT" ∷ "PATCH" ∷ "DELETE" ∷ "OPTIONS" ∷ "HEAD" ∷ []

abbrev pub max_path_label_length : ℕ
max_path_label_length = 96

-- What `route.matches` gives for the request; `failed` is one of the exceptions that are caught.
pub data Matched : Type 0 where
  full partial no_match failed : Matched

-- A route of the router, with its attribute `path` if it has one.
pub record Route : Type 0 where
  pub matched : Matched
  pub path : Option String

abbrev pub is_full : Matched → Bool
is_full full = true
is_full _ = false

-- A path that is set and not empty, or else another one.
unfoldable pub path_or : Option String → String → String
path_or none other = other
path_or (some path) other = if is_empty path then other else path

unfoldable pub has_path : Option String → Bool
has_path none = false
has_path (some path) = not (is_empty path)

unfoldable pub resolve_route_template_from_router : List Route → Option String
unfolding has_path
resolve_route_template_from_router [] = none
resolve_route_template_from_router (route ∷ routes) =
    let later = resolve_route_template_from_router routes in
    if is_full route.matched && has_path route.path then route.path else later

-- `route` is the path of the route that the request's scope has, if any.
unfoldable pub route_template : Option String → List Route → String
unfolding path_or resolve_route_template_from_router
route_template route routes =
    path_or route (path_or (resolve_route_template_from_router routes) "/_unmatched")

unfoldable pub metric_method_label : Option String → String
unfolding upper
metric_method_label method =
    let normalized = upper (or_empty method) in
    if any (λ label. label == normalized) allowed_http_method_labels then normalized else "OTHER"

unfoldable pub metric_path_label : Option String → List Route → String
unfolding text_length
metric_path_label route routes =
    let path = route_template route routes in
    if ltb max_path_label_length (text_length path) then "/_label_too_long" else path

unfoldable pub metric_status_label : ℕ → String
unfolding decimal
metric_status_label status_code =
    if leb 100 status_code && leb status_code 599 then decimal status_code else "000"

-- What can come out of the application behind the middleware besides a response: an error of
-- validation, another exception, or one that is not an `Exception`, such as a cancellation.
pub data Raised : Type 0 where
  validation_error : Raised
  exception : Exception → Raised
  base_exception : Raised

-- The status code that the middleware takes for it.
unfoldable pub status_code_from_exception : Raised → ℕ
status_code_from_exception validation_error = 400
status_code_from_exception (exception (http_exception e)) = e.status_code
status_code_from_exception (exception e) = 500
status_code_from_exception base_exception = 500

-- `duration_ms` is in hundredths of a millisecond.
pub record RequestLogPayload : Type 0 where
  pub request_id : String
  pub method : String
  pub path : String
  pub status_code : ℕ
  pub duration_ms : ℕ
  pub client_ip : Option String

-- `round(elapsed_seconds * 1000, 2)` of nanoseconds, in hundredths: a half goes to the even one.
unfoldable pub round_ms : ℕ → ℕ
round_ms elapsed =
    let down = elapsed / 10000 in
    let rest = elapsed % 10000 in
    if ltb rest 5000 then down else if ltb 5000 rest then down + 1 else down + down % 2

unfoldable pub build_request_log_payload :
    String → String → String → ℕ → ℕ → Option String → RequestLogPayload
unfolding round_ms
build_request_log_payload request_id method path status_code elapsed client_ip = record {
  request_id = request_id;
  method = method;
  path = path;
  status_code = status_code;
  duration_ms = round_ms elapsed;
  client_ip = client_ip;
}

-- A call of the logger: `exception` logs an error with the traceback.
pub data LogLevel : Type 0 where
  info warning error : LogLevel

pub record LogCall : Type 0 where
  pub level : LogLevel
  pub message : String
  pub payload : RequestLogPayload

-- The labels of a count.
pub record Labels : Type 0 where
  pub method : String
  pub path : String
  pub status_code : String

-- The calls of `REQUEST_COUNT`, of `REQUEST_LATENCY` and of the logger.
pub record Telemetry : Type 0 where
  pub counted : List Labels
  pub observed : List (String × String × ℕ)
  pub logged : List LogCall

unfoldable pub observe_request_metrics : String → String → ℕ → ℕ → Telemetry → Telemetry
unfolding metric_method_label metric_status_label
observe_request_metrics method path status_code elapsed t =
    let method_label = metric_method_label (some method) in
    record t {
      counted =
          t.counted
          ++ (record {
            method = method_label;
            path = path;
            status_code = metric_status_label status_code;
          }
              ∷ []);
      observed = t.observed ++ ((method_label, path, elapsed) ∷ []);
    }

-- A response, with its headers by their names in lower case.
pub record HttpResponse : Type 0 where
  pub status_code : ℕ
  pub headers : List (String × String)

-- `headers[name] = value`: the first entry of the name is set, further ones are removed.
unfoldable pub remove_header : String → List (String × String) → List (String × String)
remove_header name [] = []
remove_header name ((n, v) ∷ headers) =
    let rest = remove_header name headers in if n == name then rest else (n, v) ∷ rest

unfoldable pub set_header : String → String → List (String × String) → List (String × String)
unfolding remove_header
set_header name value [] = (name, value) ∷ []
set_header name value ((n, v) ∷ headers) =
    if n == name
    then (n, value) ∷ remove_header name headers
    else (n, v) ∷ set_header name value headers

-- What `call_next` does.
pub data Outcome : Type 0 where
  answered : HttpResponse → Outcome
  raised : Raised → Outcome

-- What one request brings to the middleware besides itself: the new `uuid4`, the nanoseconds that
-- `call_next` takes, the path of the route that the scope then has, and the router's routes.
pub record Call : Type 0 where
  pub request : Request
  pub uuid : String
  pub elapsed : ℕ
  pub route : Option String
  pub routes : List Route

unfoldable pub request_id : Call → String
request_id c = path_or (c.request.header "X-Request-Id") c.uuid

abbrev pub log : LogLevel → String → RequestLogPayload → Telemetry → Telemetry
log level message payload t = record t {
  logged = t.logged ++ (record { level = level; message = message; payload = payload } ∷ []);
}

abbrev pub payload_of : Call → ℕ → RequestLogPayload
payload_of c status_code =
    build_request_log_payload (request_id c) c.request.method (metric_path_label c.route c.routes)
      status_code c.elapsed c.request.client_host

abbrev pub observe : Call → ℕ → Telemetry → Telemetry
observe c status_code t =
    observe_request_metrics c.request.method (metric_path_label c.route c.routes) status_code
      c.elapsed t

-- The `finally` block and what follows it.
unfoldable pub after_call_next : Call → Outcome → Telemetry → Outcome × Telemetry
unfolding set_header
after_call_next c (raised e) t =
    let status_code = status_code_from_exception e in
    let level = if leb 500 status_code then error else warning in
    (raised e, log level "request_failed" (payload_of c status_code) (observe c status_code t))
after_call_next c (answered r) t = (
  answered (record r { headers = set_header "x-request-id" (request_id c) r.headers }),
  log info "request_completed" (payload_of c r.status_code) (observe c r.status_code t),
)

-- The middleware; the application sees the id of the request in its state.
unfoldable pub request_observability : (String → Outcome) → Call → Telemetry → Outcome × Telemetry
unfolding after_call_next
request_observability call_next c t = after_call_next c (call_next (request_id c)) t
