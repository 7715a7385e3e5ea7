-- ===== src/Http.antt =====
-- What the security code and the middleware read of a Starlette request.
use civic_archive_api.Prelude.{String, Option}

pub record Request : Type 0 where
  pub method : String
  pub path : String
  -- `request.client.host`, if there is a client
  pub client_host : Option String
  -- `request.headers.get`
  pub header : String → Option String
