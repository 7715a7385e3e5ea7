-- ===== src/Observability/Requests.antt =====
-- What the middleware does with one request.
use civic_archive_api.Prelude.{
  ℕ, ◌≡◌, refl, String, false, Option, none, some, List, [], ◌∷◌, ◌++◌, leb, ◌==◌, arith, eq_iff,
  if◌then◌else◌,
}
use civic_archive_api.Observability.{
  status_code_from_exception, metric_method_label, metric_path_label, metric_status_label, Labels,
  LogLevel, info, warning, error, LogCall, Telemetry, HttpResponse, remove_header, set_header,
  Outcome, answered, raised, Call, request_id, payload_of, observe_request_metrics, after_call_next,
  request_observability,
}

-- The status code of an outcome.
abbrev pub status_of : Outcome → ℕ
status_of (answered r) = r.status_code
status_of (raised e) = status_code_from_exception e

abbrev pub labels_of : Call → Outcome → Labels
labels_of c o = record {
  method = metric_method_label (some c.request.method);
  path = metric_path_label c.route c.routes;
  status_code = metric_status_label (status_of o);
}

abbrev pub level_of : Outcome → LogLevel
level_of (answered r) = info
level_of (raised e) = if leb 500 (status_code_from_exception e) then error else warning

abbrev pub message_of : Outcome → String
message_of (answered r) = "request_completed"
message_of (raised e) = "request_failed"

abbrev pub log_call_of : Call → Outcome → LogCall
log_call_of c o = record {
  level = level_of o;
  message = message_of o;
  payload = payload_of c (status_of o);
}

-- What the middleware gives for what `call_next` does.
abbrev pub with_request_id : String → Outcome → Outcome
with_request_id id (answered r) =
    answered (record r { headers = set_header "x-request-id" id r.headers })
with_request_id id (raised e) = raised e

pub after_call_next_lem :
    (c : Call) (o : Outcome) (t : Telemetry)
    → after_call_next c o t ≡ (
      with_request_id (request_id c) o,
      record {
        counted = t.counted ++ (labels_of c o ∷ []);
        observed =
            t.observed
            ++ ((
              metric_method_label (some c.request.method),
              metric_path_label c.route c.routes,
              c.elapsed,
            )
                ∷ []);
        logged = t.logged ++ (log_call_of c o ∷ []);
      },
    )
unfolding after_call_next observe_request_metrics
after_call_next_lem c (answered r) t = refl
after_call_next_lem c (raised e) t = refl

-- `headers.get(name)`
unfoldable pub header : String → List (String × String) → Option String
header name [] = none
header name ((n, v) ∷ headers) = if n == name then some v else header name headers

header-remove_header :
    (name other : String) (headers : List (String × String))
    → (other == name) ≡ false
    → header other (remove_header name headers) ≡ header other headers
unfolding header remove_header
header-remove_header name other [] h = refl
header-remove_header name other ((n, v) ∷ headers) h = ground (
  arith,
  header-remove_header name other headers h,
  eq_iff n name,
  eq_iff n other,
  eq_iff other name,
)

header-set_header :
    (name other value : String) (headers : List (String × String))
    → header other (set_header name value headers)
      ≡ (if name == other then some value else header other headers)
unfolding header set_header
header-set_header name other value [] = refl
header-set_header name other value ((n, v) ∷ headers) = ground (
  arith,
  header-set_header name other value headers,
  header-remove_header name other headers,
  eq_iff n name,
  eq_iff n other,
  eq_iff name other,
  eq_iff other name,
)

-- A response that the application gives is passed on with its status: its header X-Request-Id is the
-- id that the application has seen, and every other header is as it was.
pub request_observability-answered :
    (call_next : String → Outcome) (c : Call) (t : Telemetry) (r : HttpResponse)
    → call_next (request_id c) ≡ answered r
    → (r' : HttpResponse) × ((request_observability call_next c t).0 ≡ answered r')
      × (r'.status_code ≡ r.status_code)
      × ((name : String)
          → header name r'.headers
            ≡ (if "x-request-id" == name then some (request_id c) else header name r.headers))
unfolding request_observability after_call_next
request_observability-answered call_next c t r e = rw e (
  record r { headers = set_header "x-request-id" (request_id c) r.headers },
  refl,
  refl,
  λ name. header-set_header "x-request-id" name (request_id c) r.headers,
)
