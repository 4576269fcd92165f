-- ===== src/Tests/Ingestion.antt =====
-- The collector and the API together.
use trace_pilot.Prelude.{
  inl, inr, ℕ, zero, suc, ◌≡◌, ◌≢◌, refl, [], ◌∷◌, ◌++◌, count_if, ◌+◌, ◌≤◌, codes, arith, Bool,
  map, eqb, false, some, List, select_if, All,
}
use trace_pilot.Tests.Probes.{platform, entry, others, nothing_yet, af_inet}
use trace_pilot.Json.{null, pos, negsuc}
use trace_pilot.Tests.Fixtures.{world, store}
use trace_pilot.Tests.Collector.{
  platform as little_platform, reading, ge_zero, turns, stuck_buffer, flaky,
}
use trace_pilot.Collector.Outbox.Network.{
  Fate, lost, reply_lost, answered, stored_bodies, store_after, network,
}
use trace_pilot.Collector.Outbox.{Steps, outbox}
use trace_pilot.Api.Events.{EventBody, fits_columns}
use trace_pilot.Collector.Outbox.Ingestion.{
  table_after, stopped, acknowledged_stored, captured_stored_once,
}
use trace_pilot.Collector.Sending.{sent_body}
use trace_pilot.Api.Events.Validation.{IsEvent}
use trace_pilot.Collector.Buffer.{stop, run, Buffer, flush_pending_events, RawRecord, ipv4}
use trace_pilot.Collector.Buffer.Runs.{captured_in}
use trace_pilot.Collector.Outbox.Refinement.{stop-run_Steps}
use trace_pilot.Collector.Parser.{ApiEvent}
use trace_pilot.Collector.Outbox.Repeated.{flush_pending_events_repeated}
use trace_pilot.Collector.Probes.{connect_return, connect_entry, steps, update, lookup, delete}
use trace_pilot.Collector.Parser.Records.{Connection, record_bytes}
use trace_pilot.Collector.Buffer.Samples.{IsSample, stop-run_samples}
use trace_pilot.Collector.Probes.Tracing.{entered}
use trace_pilot.Collector.Layout.{big}

stop-run_Steps_example :
    Steps flaky
      (outbox stuck_buffer)
      (outbox (stop flaky (run little_platform 1 7 flaky turns stuck_buffer)))
stop-run_Steps_example = stop-run_Steps flaky little_platform 1 7 turns stuck_buffer

-- The first request is lost, and the reply to the second.
abbrev fates : ℕ → Fate
fates zero = lost
fates (suc zero) = reply_lost
fates (suc (suc n)) = answered

abbrev to_port_443 : EventBody → Bool
to_port_443 b = elim b.destination_port [ pos n ↦ eqb n 443 | negsuc n ↦ false ]

acknowledged_stored_example :
    count_if to_port_443 (stored_bodies store)
      + count_if to_port_443 (
          map
            (sent_body reading)
            (stopped world ge_zero null reading fates store little_platform 1 7 0 turns).delivered)
    ≤ count_if to_port_443 (
        table_after world ge_zero null reading fates store
          (stopped world ge_zero null reading fates store little_platform 1 7 0 turns).posted)
acknowledged_stored_example =
    acknowledged_stored world ge_zero null reading fates store little_platform 1 7 0 turns
      to_port_443

-- Only requests get lost.
abbrev lost_first : ℕ → Fate
lost_first zero = lost
lost_first (suc n) = answered

replies_arrive : (n : ℕ) → lost_first n ≢ reply_lost
replies_arrive zero h = absurd cc
replies_arrive (suc n) h = absurd cc

captured_stored_once_example :
    table_after world ge_zero null reading lost_first store
        (stopped world ge_zero null reading lost_first store little_platform 1 7 0 turns).posted
      ++ map
          (sent_body reading)
          (stopped world ge_zero null reading lost_first store little_platform 1 7 0 turns).pending
    ≡ stored_bodies store ++ map (sent_body reading) (captured_in little_platform 1 7 turns)
captured_stored_once_example =
    captured_stored_once world ge_zero null reading lost_first store little_platform 1 7 0 turns
      replies_arrive

abbrev lost_reply_first : ℕ → Fate
lost_reply_first zero = reply_lost
lost_reply_first (suc n) = answered

abbrev curl_event : ApiEvent
curl_event = record {
  timestamp = codes "now";
  pid = 4242;
  process_name = codes "curl";
  uid = 1000;
  destination_ip = codes "203.0.113.50";
  destination_port = 443;
  ip_version = 4;
  duration_ms = 0;
  source = codes "ebpf";
}

curl_event-IsEvent : IsEvent ge_zero (sent_body reading curl_event)
unfolding sent_body fits_columns trace_pilot.Prelude.contains
curl_event-IsEvent = (
  record {
    timestamp = 1;
    pid = 4242;
    process_name = codes "curl";
    uid = 1000;
    destination_ip = codes "203.0.113.50";
    destination_port = 443;
    ip_version = 4;
    duration_ms = some 0;
    source = codes "ebpf";
  },
  refl,
  refl,
  ground arith,
)

abbrev after_two_flushes : Buffer
after_two_flushes =
    let api = network world ge_zero null reading lost_reply_first store in
    flush_pending_events api (
      flush_pending_events api
        (record { pending = curl_event ∷ []; delivered = []; posted = []; last_flush_time = 0 }))

flush_pending_events_repeated_example :
    (after_two_flushes.pending ≡ [])
    × (after_two_flushes.delivered ≡ curl_event ∷ [])
    × (table_after world ge_zero null reading lost_reply_first store after_two_flushes.posted
        ≡ (stored_bodies store ++ (sent_body reading curl_event ∷ []))
          ++ (sent_body reading curl_event ∷ []))
unfolding store_after
flush_pending_events_repeated_example =
    flush_pending_events_repeated world ge_zero null reading lost_reply_first store curl_event [] []
      [] 0 (omega arith, omega arith, (curl_event-IsEvent, tt)) refl refl

-- All submitted events are polled in one turn, as 52 bytes each.
abbrev submitted : List Connection
submitted =
    (connect_return entry.thread 0 5_012_000_000
      (entered af_inet entry others nothing_yet)).submitted

abbrev one_turn : List (List RawRecord × ℕ)
one_turn =
    (
      map (λ c. ipv4 (record_bytes big 4 c (0 ∷ []) ++ (0 ∷ 0 ∷ 0 ∷ 0 ∷ []))) submitted,
      9_000_000_000,
    )
    ∷ []

padded_records : All (λ t. All IsSample t.0) one_turn
unfolding record_bytes connect_return connect_entry steps update lookup delete select_if
padded_records = ((refl, (refl, tt)), tt)

abbrev idle_buffer : Buffer
idle_buffer = record { pending = []; delivered = []; posted = []; last_flush_time = 0 }

stop-run_samples_example : stop flaky (run platform 1 7 flaky one_turn idle_buffer) ≡ idle_buffer
stop-run_samples_example =
    stop-run_samples platform 1 7 flaky one_turn idle_buffer padded_records refl
