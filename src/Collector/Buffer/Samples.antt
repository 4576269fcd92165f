-- ===== src/Collector/Buffer/Samples.antt =====
-- collector/collector.py and collector/event_parser.py on the samples of a perf buffer.
use trace_pilot.Prelude.{
  ℕ, ◌+◌, ◌%◌, ◌≡◌, refl, ◌∙◌, ap, List, [], ◌∷◌, ◌++◌, All, arith, select_if, append-nil,
}
use trace_pilot.Collector.Parser.{parse_ipv4_event, parse_ipv6_event}
use trace_pilot.Collector.Layout.{Platform}
use trace_pilot.Collector.Buffer.{
  RawRecord, ipv4, ipv6, Api, Buffer, round, turn, run, stop, length, eqb, false,
}
use trace_pilot.Collector.Buffer.Runs.{parse_record, parsed_events, captured, poll-captured}

abbrev size_of : RawRecord → ℕ
size_of (ipv4 raw) = length raw
size_of (ipv6 raw) = length raw

-- What perf_event_open(2) says of a raw sample: behind a size of 4 bytes, the data are padded so
-- that both together are a multiple of 8 bytes, and the size counts the padding. The callback gets
-- this size.
abbrev pub IsSample : RawRecord → Type 0
IsSample r = (4 + size_of r) % 8 ≡ 0

module _ (m : Platform) (collector_pid wall_clock_offset_ns : ℕ) where
  parse_record-IsSample :
      (r : RawRecord)
      → IsSample r
      → parsed_events (parse_record m collector_pid wall_clock_offset_ns r) ≡ []
  unfolding parse_ipv4_event parse_ipv6_event
  parse_record-IsSample (ipv4 raw) h =
      let other : eqb (length raw) 48 ≡ false = ground arith in rw other refl
  parse_record-IsSample (ipv6 raw) h =
      let other : eqb (length raw) 64 ≡ false = ground arith in rw other refl

  captured-IsSample :
      (rs : List RawRecord)
      → All IsSample rs
      → captured m collector_pid wall_clock_offset_ns rs ≡ []
  unfolding captured select_if
  captured-IsSample [] h = refl
  captured-IsSample (r ∷ rs) h = rw (parse_record-IsSample r h.0) (captured-IsSample rs h.1)

  module _ (api : Api) where
    round-idle : (now : ℕ) (b : Buffer) → b.pending ≡ [] → round api now b ≡ b
    unfolding round
    round-idle now b h = rw h refl

    turn-IsSample :
        (t : List RawRecord × ℕ) (b : Buffer)
        → All IsSample t.0
        → b.pending ≡ []
        → turn m collector_pid wall_clock_offset_ns api t b ≡ b
    unfolding turn
    turn-IsSample (rs, now) b h idle =
        let polled =
          poll-captured m collector_pid wall_clock_offset_ns rs b.pending
          ∙ ap (λ l. b.pending ++ l) (captured-IsSample rs h)
          ∙ append-nil b.pending in
        ap (λ l. round api now (record b { pending = l })) polled ∙ round-idle now b idle

    run-IsSample :
        (ts : List (List RawRecord × ℕ)) (b : Buffer)
        → All (λ t. All IsSample t.0) ts
        → b.pending ≡ []
        → run m collector_pid wall_clock_offset_ns api ts b ≡ b
    unfolding run
    run-IsSample [] b h idle = refl
    run-IsSample (t ∷ ts) b h idle =
        ap (run m collector_pid wall_clock_offset_ns api ts) (turn-IsSample t b h.0 idle)
        ∙ run-IsSample ts b h.1 idle

    stop-idle : (b : Buffer) → b.pending ≡ [] → stop api b ≡ b
    unfolding stop
    stop-idle b h = rw h refl

    -- If every record that the callbacks get is padded as perf_event_open(2) says, then neither
    -- parser takes any of them: a collector that starts with nothing pending, and polls any such
    -- records in any turns until it is stopped, captures nothing and posts nothing.
    pub stop-run_samples :
        (ts : List (List RawRecord × ℕ)) (b : Buffer)
        → All (λ t. All IsSample t.0) ts
        → b.pending ≡ []
        → stop api (run m collector_pid wall_clock_offset_ns api ts b) ≡ b
    stop-run_samples ts b h idle = ap (stop api) (run-IsSample ts b h idle) ∙ stop-idle b idle
