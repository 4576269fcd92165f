-- ===== src/Collector/Buffer/Runs.antt =====
-- collector/collector.py, the main loop: the events that are captured, delivered and pending.
use trace_pilot.Prelude.{
  ℕ, ◌≡◌, refl, [], ◌∷◌, List, ◌++◌, not, select_if, sym, append-nil, ◌∙◌, ap, Bool-cases,
  append_assoc, inl, inr, arith,
}
use trace_pilot.Collector.Parser.{Parsed, ApiEvent}
use trace_pilot.Collector.Layout.{Platform}
use trace_pilot.Collector.Buffer.{
  RawRecord, keep_event, handle_event, poll, Api, parsed, ipv4, ignored, handle_ipv6_event, round,
  turn, run, stop, invalid_size, parse_ipv4_event, handle, Buffer, wrong_version, ipv6,
  parse_ipv6_event, flush_due, leb, length,
}
use trace_pilot.Collector.Buffer.Delivery.{all_events, flush_pending_events-Flushed}

-- What a record is kept as: the event that the parser returns, unless it is one to ignore.
abbrev pub parsed_events : Parsed → List ApiEvent
parsed_events (parsed e) = e ∷ []
parsed_events (invalid_size expected received) = []
parsed_events (wrong_version v) = []

module _ (m : Platform) (collector_pid wall_clock_offset_ns : ℕ) where
  abbrev pub parse_record : RawRecord → Parsed
  parse_record (ipv4 raw) = parse_ipv4_event m raw wall_clock_offset_ns
  parse_record (ipv6 raw) = parse_ipv6_event m raw wall_clock_offset_ns

  unfoldable pub captured : List RawRecord → List ApiEvent
  unfolding select_if
  captured [] = []
  captured (r ∷ rs) =
      select_if (λ e. not (ignored collector_pid e)) (parsed_events (parse_record r)) ++ captured rs

  unfoldable pub captured_in : List (List RawRecord × ℕ) → List ApiEvent
  captured_in [] = []
  captured_in (t ∷ ts) = captured t.0 ++ captured_in ts

  keep_event-captured :
      (q : Parsed) (pending : List ApiEvent)
      → keep_event collector_pid q pending
        ≡ pending ++ select_if (λ e. not (ignored collector_pid e)) (parsed_events q)
  unfolding keep_event select_if
  keep_event-captured (parsed e) pending = ground (arith, append-nil pending)
  keep_event-captured (invalid_size expected received) pending = sym (append-nil pending)
  keep_event-captured (wrong_version v) pending = sym (append-nil pending)

  handle-captured :
      (r : RawRecord) (pending : List ApiEvent)
      → handle m collector_pid wall_clock_offset_ns r pending
        ≡ pending ++ select_if (λ e. not (ignored collector_pid e)) (parsed_events (parse_record r))
  unfolding handle_event handle_ipv6_event
  handle-captured (ipv4 raw) pending = keep_event-captured (parse_record (ipv4 raw)) pending
  handle-captured (ipv6 raw) pending = keep_event-captured (parse_record (ipv6 raw)) pending

  pub poll-captured :
      (rs : List RawRecord) (pending : List ApiEvent)
      → poll m collector_pid wall_clock_offset_ns rs pending ≡ pending ++ captured rs
  unfolding poll captured
  poll-captured [] pending = sym (append-nil pending)
  poll-captured (r ∷ rs) pending =
      poll-captured rs (handle m collector_pid wall_clock_offset_ns r pending)
      ∙ ap (λ l. l ++ captured rs) (handle-captured r pending)
      ∙ append_assoc pending _ (captured rs)

  module _ (api : Api) where
    round-all_events : (now : ℕ) (b : Buffer) → all_events (round api now b) ≡ all_events b
    unfolding round
    round-all_events now b = elim (Bool-cases (flush_due api now b)) [
      | inl e ↦ rw e (flush_pending_events-Flushed api b).same
      | inr e ↦ rw e refl
    ]

    turn-all_events :
        (t : List RawRecord × ℕ) (b : Buffer)
        → all_events (turn m collector_pid wall_clock_offset_ns api t b)
          ≡ all_events b ++ captured t.0
    unfolding turn
    turn-all_events (rs, now) b =
        round-all_events now _
        ∙ ap (λ l. b.delivered ++ l) (poll-captured rs b.pending)
        ∙ sym (append_assoc b.delivered b.pending (captured rs))

    run-all_events :
        (ts : List (List RawRecord × ℕ)) (b : Buffer)
        → all_events (run m collector_pid wall_clock_offset_ns api ts b)
          ≡ all_events b ++ captured_in ts
    unfolding run captured_in
    run-all_events [] b = sym (append-nil (all_events b))
    run-all_events (t ∷ ts) b =
        run-all_events ts (turn m collector_pid wall_clock_offset_ns api t b)
        ∙ ap (λ l. l ++ captured_in ts) (turn-all_events t b)
        ∙ append_assoc (all_events b) (captured t.0) (captured_in ts)

    stop-all_events : (b : Buffer) → all_events (stop api b) ≡ all_events b
    unfolding stop
    stop-all_events b = elim (Bool-cases (leb 1 (length b.pending))) [
      | inl e ↦ rw e (flush_pending_events-Flushed api b).same
      | inr e ↦ rw e refl
    ]

    -- However the requests end, and whenever the collector is stopped after any turns of its
    -- loop: the events acknowledged by the API, followed by those never acknowledged, are
    -- exactly those it started with and those its callbacks captured, each once and in the order
    -- of capture.
    pub stop-run_all_events :
        (ts : List (List RawRecord × ℕ)) (b : Buffer)
        → all_events (stop api (run m collector_pid wall_clock_offset_ns api ts b))
          ≡ all_events b ++ captured_in ts
    stop-run_all_events ts b =
        stop-all_events (run m collector_pid wall_clock_offset_ns api ts b) ∙ run-all_events ts b
