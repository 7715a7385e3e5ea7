-- ===== src/Observability/History.antt =====
-- What a history of requests leaves with the metrics and the logger.
use civic_archive_api.Prelude.{
  ℕ, ◌≡◌, ◌<◌, Bool-cases, inl, inr, if◌then◌else◌, refl, ap, sym, ◌∙◌, String, true, List, [], ◌∷◌,
  ◌++◌, map, append_assoc, append_nil,
}
use civic_archive_api.Prelude.Int.{pos}
use civic_archive_api.Prelude.Decimal.{decimal, digits, char_or}
use civic_archive_api.Errors.{Result, ok, raise}
use civic_archive_api.Config.{Config}
use civic_archive_api.RequestSize.{
  Message, Handler, fresh_guard, Response, passed, error_response, run_guarded, is_guarded,
  request_size_guard,
}
use civic_archive_api.RequestSize.Answers.{declared, has_bad_length, request_size_guard-over}
use civic_archive_api.Observability.{
  exception, Labels, Telemetry, HttpResponse, Outcome, answered, raised, Call, request_id,
  request_observability, metric_status_label,
}
use civic_archive_api.Observability.Requests.{labels_of, log_call_of, after_call_next_lem}

-- A request, with what the application does for it under an id.
pub record Exchange : Type 0 where
  pub call : Call
  pub call_next : String → Outcome

abbrev pub outcome_of : Exchange → Outcome
outcome_of x = x.call_next (request_id x.call)

-- Requests one after the other.
unfoldable pub serve_all : List Exchange → Telemetry → Telemetry
serve_all [] t = t
serve_all (x ∷ xs) t = serve_all xs (request_observability x.call_next x.call t).1

-- A list that every step appends to.
append_steps :
    {A : Type 0} (f : Exchange → A) (field : Telemetry → List A)
    → ((x : Exchange) (t : Telemetry)
        → field (request_observability x.call_next x.call t).1 ≡ field t ++ (f x ∷ []))
    → (xs : List Exchange) (t : Telemetry) → field (serve_all xs t) ≡ field t ++ map f xs
unfolding serve_all
append_steps f field step [] t = sym (append_nil (field t))
append_steps f field step (x ∷ xs) t =
    append_steps f field step xs (request_observability x.call_next x.call t).1
    ∙ ap (λ ys. ys ++ map f xs) (step x t)
    ∙ append_assoc (field t) (f x ∷ []) (map f xs)

step_lem :
    (x : Exchange) (t : Telemetry)
    → ((request_observability x.call_next x.call t).1.counted
        ≡ t.counted ++ (labels_of x.call (outcome_of x) ∷ []))
      × ((request_observability x.call_next x.call t).1.logged
          ≡ t.logged ++ (log_call_of x.call (outcome_of x) ∷ []))
unfolding request_observability
step_lem x t =
    let e = after_call_next_lem x.call (outcome_of x) t in
    (ap (λ p. p.1.counted) e, ap (λ p. p.1.logged) e)

-- Every request of a history is counted once, under the labels of its outcome, and logged once:
-- an error if it failed with a status of 500 or above, else a warning if it failed, else
-- information. Nothing else is counted or logged.
pub serve_all_once :
    (xs : List Exchange) (t : Telemetry)
    → ((serve_all xs t).counted ≡ t.counted ++ map (λ x. labels_of x.call (outcome_of x)) xs)
      × ((serve_all xs t).logged ≡ t.logged ++ map (λ x. log_call_of x.call (outcome_of x)) xs)
serve_all_once xs t = (
  append_steps (λ x. labels_of x.call (outcome_of x)) (λ t'. t'.counted) (λ x t'. (step_lem x t').0)
      xs t,
  append_steps (λ x. log_call_of x.call (outcome_of x)) (λ t'. t'.logged)
      (λ x t'. (step_lem x t').1) xs t,
)

-- `create_app` adds `request_size_guard` first, so that `request_observability` runs around it. The
-- response of `error_response` has the header X-Request-Id only.
unfoldable pub guarded_outcome : String → Result (Response HttpResponse) → Outcome
guarded_outcome id (ok (passed r)) = answered r
guarded_outcome id (ok (error_response e)) =
    answered (record { status_code = e.status_code; headers = ("x-request-id", id) ∷ [] })
guarded_outcome id (raise e) = raised (exception e)

unfoldable pub guarded_exchange : Config → Call → Handler HttpResponse → List Message → Exchange
unfolding guarded_outcome
guarded_exchange config c handler messages = record {
  call = c;
  call_next = λ id. guarded_outcome id (request_size_guard config c.request handler messages);
}

status_413 : metric_status_label 413 ≡ "413"
unfolding metric_status_label decimal digits char_or
status_413 = refl

status_400 : metric_status_label 400 ≡ "400"
unfolding metric_status_label decimal digits char_or
status_400 = refl

-- Under a limit that is not negative, a guarded request whose body is read beyond the limit is
-- counted once, under the status 400 if it declares a length that is not a number, and under 413 if
-- not.
pub oversize_counted :
    (config : Config) (limit : ℕ) (c : Call) (handler : Handler HttpResponse)
    (messages : List Message) (t : Telemetry)
    → config.max_request_body_bytes ≡ pos limit
    → is_guarded c.request ≡ true
    → limit
      < (run_guarded (pos limit) (declared c.request) handler messages fresh_guard).1.received_bytes
    → (labels : Labels) × ((serve_all (guarded_exchange config c handler messages ∷ []) t).counted
        ≡ t.counted ++ (labels ∷ []))
      × (labels.status_code ≡ (if has_bad_length c.request then "400" else "413"))
unfolding guarded_exchange
oversize_counted config limit c handler messages t bound guarded much =
    let (e, answer, status) =
      request_size_guard-over config limit c.request handler messages bound guarded much in
    let x = guarded_exchange config c handler messages in
    (
      labels_of c (outcome_of x),
      (serve_all_once (x ∷ []) t).0,
      rw (answer, guarded_outcome)
          (elim (Bool-cases (has_bad_length c.request)) [
            | inl bad ↦ rw bad (let e400 = rw bad at status in rw e400 status_400)
            | inr large ↦ rw large (let e413 = rw large at status in rw e413 status_413)
          ]),
    )
