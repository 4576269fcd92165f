-- ===== src/Collector/Sending.antt =====
-- backend/app/schemas.py, `ConnectionEventCreate`: what the API reads of an event in a JSON body.
use trace_pilot.Prelude.{ℕ, Text, some}
use trace_pilot.Collector.Parser.{ApiEvent}
use trace_pilot.Api.Events.{EventBody}
use trace_pilot.Json.{pos}

-- How the API reads the JSON of an event: the text of a time, and of an address.
pub record Reading : Type 0 where
  pub read_time : Text → ℕ
  pub read_address : Text → Text

-- An element of `{"events": batch}`, as the API reads it.
unfoldable pub sent_body : Reading → ApiEvent → EventBody
sent_body reading e = record {
  timestamp = reading.read_time e.timestamp;
  pid = pos e.pid;
  process_name = e.process_name;
  uid = pos e.uid;
  destination_ip = reading.read_address e.destination_ip;
  destination_port = pos e.destination_port;
  ip_version = pos e.ip_version;
  duration_ms = some e.duration_ms;
  source = e.source;
}
