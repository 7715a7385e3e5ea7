-- ===== src/Observability/Tests.antt =====
-- Requests through the middleware, and the theorems about them.
use civic_archive_api.Prelude.{
  String, ◌≡◌, ◌≤◌, refl, true, false, none, some, List, [], ◌∷◌, ◌++◌, map, arith, ◌==◌,
  if◌then◌else◌,
}
use civic_archive_api.Prelude.Int.{pos}
use civic_archive_api.Prelude.Decimal.{decimal, digits, char_or}
use civic_archive_api.Text.{upper, upper_special, is_empty, text_length, starts_with}
use civic_archive_api.Errors.{http_error, ok}
use civic_archive_api.Samples.{defaults}
use civic_archive_api.Config.{Config}
use civic_archive_api.Http.{Request}
use civic_archive_api.RequestSize.{
  Message, http_request, Handler, respond, receive, is_guarded, run_guarded, guarded_receive,
}
use civic_archive_api.Observability.{
  full, partial, exception, Labels, Telemetry, HttpResponse, answered, raised, Call, request_id,
  path_or, has_path, resolve_route_template_from_router, route_template, metric_method_label,
  metric_path_label, metric_status_label, observe_request_metrics, round_ms,
  status_code_from_exception, build_request_log_payload, after_call_next, request_observability,
  allowed_http_method_labels, remove_header, set_header,
}
use civic_archive_api.Observability.Bounds.{IsOneOf, path_labels, labels_bounded}
use civic_archive_api.Observability.Requests.{
  header, labels_of, log_call_of, request_observability-answered,
}
use civic_archive_api.RequestSize.Answers.{has_bad_length}
use civic_archive_api.Observability.History.{
  Exchange, outcome_of, serve_all, serve_all_once, guarded_outcome, guarded_exchange,
  oversize_counted,
}
use civic_archive_api.Observability.Logging.{
  RootLogger, json_formatter, text_formatter, configure_logging, configure_all, set_level,
  configure_all-handlers,
}

abbrev post : Request
post = record {
  method = "post";
  path = "/api/news";
  client_host = some "10.0.0.1";
  header = λ name. if name == "X-Request-Id" then some "r1" else none;
}

abbrev call : Call
call = record {
  request = post;
  uuid = "u1";
  elapsed = 25000;
  route = none;
  routes =
      record { matched = partial; path = some "/api/{item_id}" }
      ∷ record { matched = full; path = some "/api/news" }
      ∷ [];
}

abbrev nothing : Telemetry
nothing = record { counted = []; observed = []; logged = [] }

abbrev created : HttpResponse
created = record {
  status_code = 201;
  headers = ("x-request-id", "a") ∷ ("etag", "b") ∷ ("x-request-id", "c") ∷ [];
}

observability : Unit {0}
unfolding request_observability after_call_next observe_request_metrics build_request_log_payload
    round_ms status_code_from_exception metric_method_label metric_path_label metric_status_label
    route_template resolve_route_template_from_router has_path path_or request_id upper
    upper_special is_empty text_length decimal digits char_or set_header remove_header serve_all
    guarded_exchange guarded_outcome is_guarded starts_with run_guarded guarded_receive
    configure_logging configure_all set_level
observability = tt

response :
    (request_observability (λ id. answered created) call nothing).0
    ≡ answered (record { status_code = 201; headers = ("x-request-id", "r1") ∷ ("etag", "b") ∷ [] })
unfolding observability
response = refl

labels :
    (request_observability (λ id. answered created) call nothing).1.counted
    ≡ record { method = "POST"; path = "/api/news"; status_code = "201" } ∷ []
unfolding observability
labels = refl

half_to_even : round_ms 25000 ≡ 2
unfolding observability
half_to_even = refl

labels_bounded_example :
    IsOneOf (metric_method_label (some "post")) ("OTHER" ∷ allowed_http_method_labels)
    × IsOneOf (metric_path_label none call.routes) (path_labels none call.routes)
    × (text_length (metric_path_label none call.routes) ≤ 96)
    × (text_length (metric_status_label 201) ≡ 3)
labels_bounded_example = labels_bounded (some "post") none call.routes 201

request_observability-answered_example :
    (r' : HttpResponse) × ((request_observability (λ id. answered created) call nothing).0
      ≡ answered r')
    × (r'.status_code ≡ 201)
    × ((name : String)
        → header name r'.headers ≡ (
            if "x-request-id" == name then some (request_id call) else header name created.headers))
request_observability-answered_example =
    request_observability-answered (λ id. answered created) call nothing created refl

abbrev exchanges : List Exchange
exchanges =
    record { call = call; call_next = λ id. answered created }
    ∷ record { call = call; call_next = λ id. raised (exception (http_error 503 "A" "B")) }
    ∷ []

serve_all_once_example :
    ((serve_all exchanges nothing).counted
      ≡ [] ++ map (λ x. labels_of x.call (outcome_of x)) exchanges)
    × ((serve_all exchanges nothing).logged
        ≡ [] ++ map (λ x. log_call_of x.call (outcome_of x)) exchanges)
serve_all_once_example = serve_all_once exchanges nothing

abbrev two_bytes : Config
two_bytes = record defaults { max_request_body_bytes = pos 2 }

abbrev upload : Call
upload = record call { request = record post { method = "POST"; header = λ name. none } }

abbrev reader : Handler HttpResponse
reader = receive (λ first. respond created)

abbrev three_bytes : List Message
three_bytes = http_request (1 ∷ 2 ∷ 3 ∷ []) false ∷ []

oversize_counted_example :
    (labels : Labels) × ((serve_all
        (guarded_exchange two_bytes upload reader three_bytes ∷ [])
        nothing).counted
      ≡ [] ++ (labels ∷ []))
    × (labels.status_code ≡ (if has_bad_length upload.request then "400" else "413"))
unfolding is_guarded starts_with run_guarded guarded_receive
oversize_counted_example =
    oversize_counted two_bytes 2 upload reader three_bytes nothing refl refl (omega arith)

abbrev fresh_root : RootLogger
fresh_root = record {
  handlers = text_formatter ∷ [];
  level = "WARNING";
  civic_logging_configured = false;
}

info_known : (configure_logging "info" true fresh_root).0 ≡ ok tt
unfolding observability
info_known = refl

configure_all-handlers_example :
    (configure_all
      (("verbose", true) ∷ ("debug", false) ∷ [])
      (configure_logging "info" true fresh_root).1).handlers
    ≡ json_formatter ∷ []
configure_all-handlers_example =
    configure_all-handlers "info" true (("verbose", true) ∷ ("debug", false) ∷ []) fresh_root refl
      info_known
