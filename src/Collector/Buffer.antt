-- ===== src/Collector/Buffer.antt =====
-- collector/collector.py: the callbacks that fill `pending_events`, and the batches that empty it.
pub mod Delivery
pub mod Runs
pub mod Poisoned
pub mod Samples
use trace_pilot.Prelude.{
  ℕ, zero, suc, ◌+◌, ◌-◌, Bool, true, false, ◌&&◌, ◌||◌, List, [], ◌∷◌, ◌++◌, take, drop, length,
  eqb, leb, if◌then◌else◌,
}
use trace_pilot.Collector.Parser.{
  ApiEvent, Parsed, parsed, invalid_size, wrong_version, parse_ipv4_event, parse_ipv6_event,
}
use trace_pilot.Collector.Layout.{Platform}

-- Events of the collector itself, and to the API or the database, are ignored.
unfoldable pub ignored : ℕ → ApiEvent → Bool
ignored collector_pid event =
    eqb event.pid collector_pid
    || (eqb event.destination_port 8000 || eqb event.destination_port 5432)

-- A callback's effect on `pending_events`; an exception in a parser leaves them as they are.
unfoldable pub keep_event : ℕ → Parsed → List ApiEvent → List ApiEvent
unfolding ignored
keep_event collector_pid (parsed event) pending =
    if ignored collector_pid event then pending else pending ++ (event ∷ [])
keep_event collector_pid (invalid_size expected received) pending = pending
keep_event collector_pid (wrong_version version) pending = pending

module _ (m : Platform) (collector_pid wall_clock_offset_ns : ℕ) where
  unfoldable pub handle_event : List ℕ → List ApiEvent → List ApiEvent
  unfolding keep_event parse_ipv4_event
  handle_event raw pending =
      keep_event collector_pid (parse_ipv4_event m raw wall_clock_offset_ns) pending

  unfoldable pub handle_ipv6_event : List ℕ → List ApiEvent → List ApiEvent
  unfolding keep_event parse_ipv6_event
  handle_ipv6_event raw pending =
      keep_event collector_pid (parse_ipv6_event m raw wall_clock_offset_ns) pending

-- What the HTTP request ends in: a response with a status, or one of the caught exceptions.
pub data Reply : Type 0 where
  status : ℕ → Reply
  http_failure : ℕ → Reply
  url_error timed_out : Reply

abbrev pub is_created : Reply → Bool
is_created (status n) = eqb n 201
is_created _ = false

-- The answers of the API to the batches that are posted: what it says may depend on the batches
-- posted before, the newest first, and on the batch.
abbrev pub Api : Type 0
Api = List (List ApiEvent) → List ApiEvent → Reply

-- The collector's variables, with the events of the batches that were acknowledged and with all
-- batches posted so far, the newest first.
pub record Buffer : Type 0 where
  pub pending : List ApiEvent
  pub delivered : List ApiEvent
  pub posted : List (List ApiEvent)
  pub last_flush_time : ℕ

abbrev pub max_batch : ℕ
max_batch = 500

module _ (api : Api) where
  -- `send_one_batch`: the batch is removed only when the API answered 201.
  abbrev pub acknowledge : Reply → Buffer → Bool × Buffer
  acknowledge reply b =
      if is_created reply
      then (
        true,
        record b {
          pending = drop max_batch b.pending;
          delivered = b.delivered ++ take max_batch b.pending;
          posted = take max_batch b.pending ∷ b.posted;
        },
      )
      else (false, record b { posted = take max_batch b.pending ∷ b.posted })

  abbrev pub send : List ApiEvent → Buffer → Bool × Buffer
  send [] b = (true, b)
  send (e ∷ es) b = acknowledge (api b.posted (take max_batch b.pending)) b

  unfoldable pub send_one_batch : Buffer → Bool × Buffer
  send_one_batch b = send b.pending b

  -- `if not …: break`
  abbrev pub go_on : Bool × Buffer → (Buffer → Buffer) → Buffer
  go_on (true, b) rest = rest b
  go_on (false, b) rest = b

  -- One test of `while pending_events`, and the body.
  abbrev pub flush_body : List ApiEvent → Buffer → (Buffer → Buffer) → Buffer
  flush_body [] b rest = b
  flush_body (e ∷ es) b rest = go_on (send_one_batch b) rest

  -- `while pending_events: if not send_one_batch(): break`, with fuel.
  unfoldable pub flush : ℕ → Buffer → Buffer
  flush zero b = b
  flush (suc fuel) b = flush_body b.pending b (λ b'. flush fuel b')

  -- Each round that goes on removes an event: as many rounds as there are events are enough.
  unfoldable pub flush_pending_events : Buffer → Buffer
  unfolding flush
  flush_pending_events b = flush (length b.pending) b

  abbrev pub batch_size : ℕ
  batch_size = 50

  -- `FLUSH_INTERVAL_SECONDS`, with times in nanoseconds.
  abbrev pub flush_interval : ℕ
  flush_interval = 1_000_000_000

  abbrev pub flush_due : ℕ → Buffer → Bool
  flush_due now b =
      leb batch_size (length b.pending)
      || (leb 1 (length b.pending) && leb flush_interval (now - b.last_flush_time))

  -- One round of the main loop, at the time `now`, after the poll has called the callbacks.
  unfoldable pub round : ℕ → Buffer → Buffer
  unfolding flush_pending_events
  round now b =
      if flush_due now b then record (flush_pending_events b) { last_flush_time = now } else b

  -- `except KeyboardInterrupt`
  unfoldable pub stop : Buffer → Buffer
  stop b = if leb 1 (length b.pending) then flush_pending_events b else b

-- The bytes that the perf buffer hands to one of the two callbacks, `data` with its `size`.
pub data RawRecord : Type 0 where
  ipv4 ipv6 : List ℕ → RawRecord

-- The main loop. Each turn polls records, reads the clock, and flushes if it is time.
module _ (m : Platform) (collector_pid wall_clock_offset_ns : ℕ) where
  abbrev pub handle : RawRecord → List ApiEvent → List ApiEvent
  handle (ipv4 raw) pending = handle_event m collector_pid wall_clock_offset_ns raw pending
  handle (ipv6 raw) pending = handle_ipv6_event m collector_pid wall_clock_offset_ns raw pending

  unfoldable pub poll : List RawRecord → List ApiEvent → List ApiEvent
  poll [] pending = pending
  poll (r ∷ rs) pending = poll rs (handle r pending)

  module _ (api : Api) where
    unfoldable pub turn : List RawRecord × ℕ → Buffer → Buffer
    turn (records, now) b = round api now (record b { pending = poll records b.pending })

    unfoldable pub run : List (List RawRecord × ℕ) → Buffer → Buffer
    run [] b = b
    run (t ∷ ts) b = run ts (turn t b)
