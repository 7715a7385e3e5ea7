-- ===== src/Observability/Logging.antt =====
-- app/logging_config.py: the JSON formatter, and the configuration of the root logger.
use civic_archive_api.Prelude.{
  ◌≡◌, ap, sym, ◌∙◌, inl, inr, refl, String, Bool, true, false, List, [], ◌∷◌, any, Bool-cases,
  ◌==◌, if◌then◌else◌,
}
use civic_archive_api.Text.{upper}
use civic_archive_api.Json.{Json, null, str, Fields, end, field}
use civic_archive_api.Errors.{value_error, Result, ok, raise}

-- A record of the logger; `extra` are its attributes besides those of every record.
pub record LogRecord : Type 0 where
  pub levelname : String
  pub name : String
  pub message : String
  pub extra : String → Json

abbrev pub extra_fields : List String
extra_fields = "request_id" ∷ "method" ∷ "path" ∷ "status_code" ∷ "duration_ms" ∷ "client_ip" ∷ []

-- The fields whose attribute is not missing or `None`, in their order.
unfoldable pub extra_payload : (String → Json) → List String → Fields
extra_payload extra [] = end
extra_payload extra (name ∷ names) = elim (extra name) [
  | null ↦ extra_payload extra names
  | v ↦ field name v (extra_payload extra names)
]

-- The payload of `JsonFormatter.format`, before `json.dumps`.
unfoldable pub format_payload : String → LogRecord → Fields
unfolding extra_payload
format_payload timestamp r = field "timestamp" (str timestamp) (
    field "level" (str r.levelname) (
      field "logger" (str r.name)
        (field "message" (str r.message) (extra_payload r.extra extra_fields))))

pub data Formatter : Type 0 where
  json_formatter text_formatter : Formatter

-- The root logger: its handlers by their formatters, and `_civic_logging_configured`.
pub record RootLogger : Type 0 where
  pub handlers : List Formatter
  pub level : String
  pub civic_logging_configured : Bool

abbrev pub level_names : List String
level_names = "CRITICAL" ∷ "FATAL" ∷ "ERROR" ∷ "WARN" ∷ "WARNING" ∷ "INFO" ∷ "DEBUG" ∷ "NOTSET" ∷ []

-- `root.setLevel(level)`
unfoldable pub set_level : String → RootLogger → Result (Unit {0}) × RootLogger
set_level level root =
    if any (λ name. name == level) level_names
    then (ok tt, record root { level = level })
    else (raise value_error, root)

abbrev pub formatter_for : Bool → Formatter
formatter_for true = json_formatter
formatter_for false = text_formatter

-- The last statement is reached only if the level is known.
abbrev pub mark_configured : Result (Unit {0}) × RootLogger → Result (Unit {0}) × RootLogger
mark_configured (raise e, root) = (raise e, root)
mark_configured (ok u, root) = (ok u, record root { civic_logging_configured = true })

unfoldable pub configure_logging : String → Bool → RootLogger → Result (Unit {0}) × RootLogger
unfolding set_level upper
configure_logging level json_logs root =
    if root.civic_logging_configured
    then set_level (upper level) root
    else mark_configured
        (set_level (upper level) (record root { handlers = formatter_for json_logs ∷ [] }))

-- Calls one after the other, whether they raise or not.
unfoldable pub configure_all : List (String × Bool) → RootLogger → RootLogger
configure_all [] root = root
configure_all ((level, json_logs) ∷ calls) root =
    configure_all calls (configure_logging level json_logs root).1

set_level-handlers :
    (level : String) (root : RootLogger)
    → ((set_level level root).1.handlers ≡ root.handlers)
      × ((set_level level root).1.civic_logging_configured ≡ root.civic_logging_configured)
unfolding set_level
set_level-handlers level root = elim (Bool-cases (any (λ name. name == level) level_names)) [
  | inl known ↦ rw known (refl, refl)
  | inr unknown ↦ rw unknown (refl, refl)
]

-- The two branches of a call.
abbrev first_call : String → Bool → RootLogger → Result (Unit {0}) × RootLogger
first_call level json_logs root =
    mark_configured
      (set_level (upper level) (record root { handlers = formatter_for json_logs ∷ [] }))

configure_logging_lem :
    (level : String) (json_logs : Bool) (root : RootLogger) (b : Bool)
    → root.civic_logging_configured ≡ b
    → configure_logging level json_logs root
      ≡ (if b then set_level (upper level) root else first_call level json_logs root)
unfolding configure_logging
configure_logging_lem level json_logs root b h =
    ap (λ x. if x then set_level (upper level) root else first_call level json_logs root) h

configured_stays :
    (calls : List (String × Bool)) (root : RootLogger)
    → root.civic_logging_configured ≡ true
    → (configure_all calls root).handlers ≡ root.handlers
unfolding configure_all
configured_stays [] root h = refl
configured_stays ((level, json_logs) ∷ calls) root h =
    let (same, still) = set_level-handlers (upper level) root in
    ap (λ p. (configure_all calls p.1).handlers) (configure_logging_lem level json_logs root true h)
    ∙ configured_stays calls (set_level (upper level) root).1 (still ∙ h)
    ∙ same

mark_configured-eq-ok :
    (s : Result (Unit {0}) × RootLogger)
    → (mark_configured s).0 ≡ ok tt
    → ((mark_configured s).1.civic_logging_configured ≡ true)
      × ((mark_configured s).1.handlers ≡ s.1.handlers)
mark_configured-eq-ok (raise e, root) h = cc
mark_configured-eq-ok (ok u, root) h = (refl, refl)

-- On a root logger that is not configured yet, the first call with a known level decides on the
-- handler: whatever calls follow, with whichever levels and formats, the root logger has this one
-- handler and no other.
pub configure_all-handlers :
    (level : String) (json_logs : Bool) (calls : List (String × Bool)) (root : RootLogger)
    → root.civic_logging_configured ≡ false
    → (configure_logging level json_logs root).0 ≡ ok tt
    → (configure_all calls (configure_logging level json_logs root).1).handlers
      ≡ formatter_for json_logs ∷ []
configure_all-handlers level json_logs calls root fresh returned =
    let e = configure_logging_lem level json_logs root false fresh in
    let root' = record root { handlers = formatter_for json_logs ∷ [] } in
    let (configured, kept) =
      mark_configured-eq-ok (set_level (upper level) root') (ap (λ p. p.0) (sym e) ∙ returned) in
    ap (λ p. (configure_all calls p.1).handlers) e
    ∙ configured_stays calls (first_call level json_logs root).1 configured
    ∙ kept
    ∙ (set_level-handlers (upper level) root').0
