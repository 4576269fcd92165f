-- ===== src/Tests/Collector.antt =====
-- The collector's theorems and the batch endpoint at concrete records, buffers and answers.
use trace_pilot.Prelude.{
  ℕ, ◌≡◌, refl, ap, codes, Bool, true, none, List, [], ◌∷◌, ◌++◌, inl, arith, eqb_iff, map, ◌/◌,
}
use trace_pilot.Json.{pos, null}
use trace_pilot.Tests.Fixtures.{world, store}
use trace_pilot.Collector.Layout.{Platform, inet_ntoa, little}
use trace_pilot.Collector.Parser.Records.{
  Connection, IsConnection, record_bytes, reported, parse_ipv4_event-record_bytes,
  parse_ipv6_event-record_bytes,
}
use trace_pilot.Collector.Parser.{parse_ipv4_event, parse_ipv6_event, ApiEvent, parsed}
use trace_pilot.Api.Events.{EventBody, create_event_batch, validate_batch}
use trace_pilot.Api.Events.Batches.{BatchOutcome, create_event_batch-BatchOutcome}
use trace_pilot.Collector.Buffer.{
  Buffer, Api, RawRecord, flush_pending_events, ipv4, stop, run, Reply, is_created, timed_out,
  status, http_failure,
}
use trace_pilot.Collector.Buffer.Delivery.{Flushed, all_events, flush_pending_events-Flushed}
use trace_pilot.Collector.Buffer.Poisoned.{Backed, run-stuck}
use trace_pilot.Api.Response.{Response, sends, http_error, server_error}
use trace_pilot.Store.{ConnectionEvent, empty_store}
use trace_pilot.Collector.Buffer.Runs.{captured_in, stop-run_all_events}
use trace_pilot.Prelude.Decimal.{decimal}
use trace_pilot.Collector.Sending.{Reading, sent_body}

abbrev pub platform : Platform
platform = record {
  byteorder = little;
  true_div = λ a b. a / b;
  fromtimestamp = λ n. n;
  isoformat = decimal;
  inet_ntop = λ bs. bs;
  decode = λ bs. bs;
}

-- curl connects to 203.0.113.50, port 443.
abbrev connection : Connection
connection = record {
  timestamp_ns = 5_000_000_000;
  duration_ns = 12_000_000;
  pid = 4242;
  uid = 1000;
  ip_bytes = 203 ∷ 0 ∷ 113 ∷ 50 ∷ [];
  port_high = 1;
  port_low = 187;
  comm = codes "curl" ++ (0 ∷ 0 ∷ 0 ∷ 0 ∷ 0 ∷ 0 ∷ 0 ∷ 0 ∷ 0 ∷ 0 ∷ 0 ∷ 0 ∷ []);
}

connection_fits : IsConnection 4 connection
connection_fits = record {
  timestamp_fits = omega arith;
  duration_fits = omega arith;
  pid_fits = omega arith;
  uid_fits = omega arith;
  address_width = refl;
  address_bytes = (omega arith, (omega arith, (omega arith, (omega arith, tt))));
  high_fits = omega arith;
  low_fits = omega arith;
  comm_width = refl;
}

parse_ipv4_event-record_bytes_example :
    parse_ipv4_event platform (record_bytes little 4 connection (0 ∷ [])) 7
    ≡ parsed (reported platform 7 connection (0 ∷ []) 4 (inet_ntoa (203 ∷ 0 ∷ 113 ∷ 50 ∷ [])))
parse_ipv4_event-record_bytes_example =
    parse_ipv4_event-record_bytes platform 7 connection (0 ∷ []) connection_fits refl

inet_ntoa_dotted : inet_ntoa (203 ∷ 0 ∷ 113 ∷ 50 ∷ []) ≡ codes "203.0.113.50"
unfolding inet_ntoa
inet_ntoa_dotted = refl

abbrev connection_v6 : Connection
connection_v6 = record connection {
  ip_bytes = 32 ∷ 1 ∷ 13 ∷ 184 ∷ 0 ∷ 0 ∷ 0 ∷ 0 ∷ 0 ∷ 0 ∷ 0 ∷ 0 ∷ 0 ∷ 0 ∷ 0 ∷ 1 ∷ [];
}

connection_v6_fits : IsConnection 16 connection_v6
connection_v6_fits = record {
  timestamp_fits = omega arith;
  duration_fits = omega arith;
  pid_fits = omega arith;
  uid_fits = omega arith;
  address_width = refl;
  address_bytes = ground arith;
  high_fits = omega arith;
  low_fits = omega arith;
  comm_width = refl;
}

parse_ipv6_event-record_bytes_example :
    parse_ipv6_event platform (record_bytes little 6 connection_v6 (0 ∷ 0 ∷ 0 ∷ 0 ∷ 0 ∷ [])) 7
    ≡ parsed (reported platform 7 connection_v6 (0 ∷ 0 ∷ 0 ∷ 0 ∷ 0 ∷ []) 6 connection_v6.ip_bytes)
parse_ipv6_event-record_bytes_example =
    parse_ipv6_event-record_bytes platform 7 connection_v6 (0 ∷ 0 ∷ 0 ∷ 0 ∷ 0 ∷ [])
      connection_v6_fits refl

abbrev pub ge_zero : ℕ → Bool
ge_zero x = true

abbrev pub body_to : ℕ → EventBody
body_to port = record {
  timestamp = 1;
  pid = pos 4242;
  process_name = codes "curl";
  uid = pos 1000;
  destination_ip = codes "203.0.113.50";
  destination_port = pos port;
  ip_version = pos 4;
  duration_ms = none;
  source = codes "ebpf";
}

-- One of the two events has port 0.
create_event_batch-BatchOutcome_example :
    BatchOutcome ge_zero world null
      (body_to 443 ∷ body_to 0 ∷ [])
      store
      (create_event_batch world ge_zero null (body_to 443 ∷ body_to 0 ∷ []) store)
create_event_batch-BatchOutcome_example =
    create_event_batch-BatchOutcome ge_zero world null (body_to 443 ∷ body_to 0 ∷ []) store

stores_none : (create_event_batch world ge_zero null (body_to 443 ∷ body_to 0 ∷ []) store).1 ≡ store
unfolding create_event_batch validate_batch trace_pilot.Api.Events.validate_event
stores_none = refl

abbrev pub event_to : ℕ → ApiEvent
event_to port =
    reported platform 7 (record connection { port_high = 0; port_low = port }) [] 4
      (codes "203.0.113.50")

-- A buffer whose first event has port 0.
abbrev pub stuck_buffer : Buffer
stuck_buffer = record {
  pending = event_to 0 ∷ event_to 80 ∷ [];
  delivered = [];
  posted = [];
  last_flush_time = 0;
}

-- An API that is down for the first request.
abbrev pub flaky : Api
flaky [] batch = timed_out
flaky (p ∷ ps) batch = status 201

flush_pending_events-Flushed_example :
    Flushed flaky stuck_buffer (flush_pending_events flaky stuck_buffer)
flush_pending_events-Flushed_example = flush_pending_events-Flushed flaky stuck_buffer

abbrev pub turns : List (List RawRecord × ℕ)
turns =
    (ipv4 (record_bytes little 4 connection (0 ∷ [])) ∷ [], 2_000_000_000)
    ∷ (ipv4 [] ∷ [], 4_000_000_000)
    ∷ []

stop-run_all_events_example :
    all_events (stop flaky (run platform 1 7 flaky turns stuck_buffer))
    ≡ all_events stuck_buffer ++ captured_in platform 1 7 turns
stop-run_all_events_example = stop-run_all_events platform 1 7 flaky turns stuck_buffer

abbrev pub reading : Reading
reading = record { read_time = λ t. 1; read_address = λ t. t }

abbrev reply_of : Response (List ConnectionEvent) → Reply
reply_of (sends n rows) = status n
reply_of (http_error n detail) = http_failure n
reply_of (server_error e) = http_failure 500

-- The handler, on an empty database.
abbrev served : Api
served posted batch =
    reply_of (create_event_batch world ge_zero null (map (sent_body reading) batch) empty_store).0

created_sends :
    (r : Response (List ConnectionEvent))
    → is_created (reply_of r) ≡ true
    → (rows : List ConnectionEvent) × (r ≡ sends 201 rows)
created_sends (sends n rows) h = (rows, ap (λ k. sends k rows) ((eqb_iff n 201).0 h))
created_sends (http_error n detail) h = absurd cc
created_sends (server_error e) h = absurd cc

served-Backed : Backed world ge_zero null reading served
served-Backed posted batch h = let (rows, e) = created_sends _ h in (empty_store, rows, e)

run-stuck_example :
    ((run platform 1 7 served turns stuck_buffer).delivered ≡ [])
    × ((run platform 1 7 served turns stuck_buffer).pending
        ≡ stuck_buffer.pending ++ captured_in platform 1 7 turns)
run-stuck_example =
    run-stuck world ge_zero null reading platform 1 7 served served-Backed turns stuck_buffer
      (event_to 0) (event_to 80 ∷ []) refl (inl refl)
