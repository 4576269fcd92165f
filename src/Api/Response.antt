-- ===== src/Api/Response.antt =====
-- What a handler sends: a body with a status, an `HTTPException`, or an exception that it lets pass.
use trace_pilot.Prelude.{ℕ}
use trace_pilot.Json.{Value}
use trace_pilot.Exec.{Exception}

pub data Response (A : Type 0) : Type 0 where
  sends : ℕ → A → Response A
  http_error : ℕ → Value → Response A
  server_error : Exception → Response A
