-- ===== src/System/Tests.antt =====
-- Readiness with a database and a Redis that answer.
use civic_archive_api.Prelude.{String, ◌≡◌, ◌↔◌, Option, none, some}
use civic_archive_api.Errors.{ok}
use civic_archive_api.Samples.{production}
use civic_archive_api.RateLimit.Build.{Ping, pong}
use civic_archive_api.System.{ReadinessResponse, health_ready}
use civic_archive_api.System.Ready.{IsBackendUp, health_ready_iff}

abbrev answering : Option (String → Ping)
answering = some (λ url. pong)

health_ready_iff_example :
    ((payload : ReadinessResponse) × (health_ready none production answering ≡ ok (200, payload)))
    ↔ ((◌≡◌ {A = Option String} none none) × IsBackendUp production answering)
health_ready_iff_example = health_ready_iff none production answering
