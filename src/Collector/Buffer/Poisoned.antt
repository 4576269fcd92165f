-- ===== src/Collector/Buffer/Poisoned.antt =====
-- collector/collector.py against backend/app/main.py: events at the head of the list that the API
-- never stores.
use trace_pilot.Prelude.{
  ◌≤◌, ◌^◌, zero, ℕ, ◌≡◌, refl, [], ◌∷◌, List, ◌++◌, map, Bool, ◌⊎◌, ◌≢◌, subst, ap, arith,
  Bool-cases, sym, append-nil, inl, ◌∙◌, inr, append_assoc,
}
use trace_pilot.Collector.Parser.{ApiEvent}
use trace_pilot.Store.{World, Store, ConnectionEvent}
use trace_pilot.Api.Events.{EventBody, create_event_batch, fits_columns}
use trace_pilot.Json.{pos, Value}
use trace_pilot.Collector.Buffer.{
  Api, is_created, Buffer, true, false, take, max_batch, go_on, flush, round, turn, run, length,
  suc, flush_pending_events, RawRecord, flush_body, send_one_batch, flush_due, poll,
}
use trace_pilot.Api.Events.Batches.{
  BatchOutcome, create_event_batch-BatchOutcome, IsBatch, stored, refused, not_inserted,
}
use trace_pilot.Api.Events.Validation.{IsEvent}
use trace_pilot.Collector.Layout.{Platform}
use trace_pilot.Api.Response.{Response, sends}
use trace_pilot.Collector.Buffer.Delivery.{
  unsent, BatchSent, nothing, sent, send_one_batch-BatchSent,
}
use trace_pilot.Collector.Buffer.Runs.{captured_in, captured, poll-captured}
use trace_pilot.Collector.Sending.{Reading, sent_body}

module _ (w : World) (ge_zero : ℕ → Bool) (details : Value) (reading : Reading) where
  -- A request may fail on its way, but 201 is what the handler answered in some state.
  abbrev pub Backed : Api → Type 0
  Backed api =
      (posted : List (List ApiEvent)) (batch : List ApiEvent)
      → is_created (api posted batch) ≡ true
      → (s : Store) × (rows : List ConnectionEvent) × ((create_event_batch w ge_zero details
            (map (sent_body reading) batch) s).0
          ≡ sends 201 rows)

  sends-IsBatch :
      (bodies : List EventBody) (s : Store) (q : Response (List ConnectionEvent) × Store)
      (rows : List ConnectionEvent)
      → BatchOutcome ge_zero w details bodies s q
      → q.0 ≡ sends 201 rows
      → IsBatch ge_zero bodies
  sends-IsBatch bodies s _ rows (stored _ h _) e = h
  sends-IsBatch bodies s _ rows (refused _) e = absurd cc
  sends-IsBatch bodies s _ rows (not_inserted _ _ _) e = absurd cc

  -- The collector would send a port or a name that the API does not take, or a user that does not
  -- fit into its column.
  abbrev pub IsRefused : ApiEvent → Type 0
  IsRefused e = (e.destination_port ≡ 0) ⊎ ((e.process_name ≡ []) ⊎ (2 ^ 31 ≤ e.uid))

  refused-IsEvent : (e : ApiEvent) → IsRefused e → ¬ (IsEvent ge_zero (sent_body reading e))
  unfolding sent_body fits_columns
  refused-IsEvent e h (d, same, fits, ok) =
      let port : pos d.destination_port ≡ pos e.destination_port =
        ap (λ b. b.destination_port) same in
      let user : pos d.uid ≡ pos e.uid = ap (λ b. b.uid) same in
      let name : d.process_name ≡ e.process_name = ap (λ b. b.process_name) same in
      let length_name : length d.process_name ≡ length e.process_name = ap length name in
      ground arith

  module _ (m : Platform) (collector_pid wall_clock_offset_ns : ℕ) (api : Api)
      (backed : Backed api) where
    not_created :
        (posted : List (List ApiEvent)) (e : ApiEvent) (es : List ApiEvent)
        → IsRefused e
        → is_created (api posted (e ∷ es)) ≢ true
    not_created posted e es bad k =
        let (s, rows, answer) = backed posted (e ∷ es) k in
        let bodies = map (sent_body reading) (e ∷ es) in
        let batch =
          sends-IsBatch bodies s (create_event_batch w ge_zero details bodies s) rows
            (create_event_batch-BatchOutcome ge_zero w details bodies s) answer in
        refused-IsEvent e bad batch.2.0

    -- Nothing has been delivered, and nothing has left the buffer.
    abbrev pub IsStuck : Buffer → Buffer → Type 0
    IsStuck b b' = (b'.delivered ≡ b.delivered) × (b'.pending ≡ b.pending)

    batch-IsStuck :
        (b : Buffer) (q : Bool × Buffer) (e : ApiEvent) (es : List ApiEvent)
        → b.pending ≡ e ∷ es
        → IsRefused e
        → BatchSent api b q
        → (q.0 ≡ false) × IsStuck b q.1
    batch-IsStuck b _ e es h bad (nothing k) = absurd cc
    batch-IsStuck b _ e es h bad (sent k) = absurd (
        not_created b.posted e (take 499 es) bad
          (subst (λ xs. is_created (api b.posted (take max_batch xs)) ≡ true) h k))
    batch-IsStuck b _ e es h bad (unsent k) = (refl, (refl, refl))

    go_on-IsStuck :
        (b : Buffer) (q : Bool × Buffer) (rest : Buffer → Buffer)
        → (q.0 ≡ false) × IsStuck b q.1
        → IsStuck b (go_on api q rest)
    go_on-IsStuck b (true, b') rest h = absurd cc
    go_on-IsStuck b (false, b') rest h = h.1

    flush-IsStuck :
        (fuel : ℕ) (b : Buffer) (e : ApiEvent) (es : List ApiEvent)
        → b.pending ≡ e ∷ es
        → IsRefused e
        → IsStuck b (flush api fuel b)
    unfolding flush
    flush-IsStuck zero b e es h bad = (refl, refl)
    flush-IsStuck (suc fuel) b e es h bad =
        subst (λ xs. IsStuck b (flush_body api xs b (flush api fuel))) (sym h)
          (go_on-IsStuck b (send_one_batch api b) (flush api fuel)
            (batch-IsStuck b (send_one_batch api b) e es h bad (send_one_batch-BatchSent api b)))

    round-IsStuck :
        (now : ℕ) (b : Buffer) (e : ApiEvent) (es : List ApiEvent)
        → b.pending ≡ e ∷ es
        → IsRefused e
        → IsStuck b (round api now b)
    unfolding round flush_pending_events
    round-IsStuck now b e es h bad = elim (Bool-cases (flush_due api now b)) [
      | inl k ↦ rw k (flush-IsStuck (length b.pending) b e es h bad)
      | inr k ↦ rw k (refl, refl)
    ]

    turn-IsStuck :
        (t : List RawRecord × ℕ) (b : Buffer) (e : ApiEvent) (es : List ApiEvent)
        → b.pending ≡ e ∷ es
        → IsRefused e
        → ((turn m collector_pid wall_clock_offset_ns api t b).delivered ≡ b.delivered)
          × ((turn m collector_pid wall_clock_offset_ns api t b).pending
              ≡ b.pending ++ captured m collector_pid wall_clock_offset_ns t.0)
    unfolding turn
    turn-IsStuck (rs, now) b e es h bad =
        let polled = poll-captured m collector_pid wall_clock_offset_ns rs b.pending in
        let more = captured m collector_pid wall_clock_offset_ns rs in
        let stuck =
          round-IsStuck now
            (record b { pending = poll m collector_pid wall_clock_offset_ns rs b.pending }) e
            (es ++ more) (polled ∙ ap (λ xs. xs ++ more) h) bad in
        (stuck.0, stuck.1 ∙ polled)

    -- The API, whose 201s come from the handler of a batch, never accepts a batch with an event
    -- whose port is 0, whose process name is empty, or whose user is at least 2^31. If such an
    -- event is the first one pending, then however many turns the loop takes and whatever else is
    -- captured, nothing is ever delivered, and all that is captured stays pending behind it.
    pub run-stuck :
        (ts : List (List RawRecord × ℕ)) (b : Buffer) (e : ApiEvent) (es : List ApiEvent)
        → b.pending ≡ e ∷ es
        → IsRefused e
        → ((run m collector_pid wall_clock_offset_ns api ts b).delivered ≡ b.delivered)
          × ((run m collector_pid wall_clock_offset_ns api ts b).pending
              ≡ b.pending ++ captured_in m collector_pid wall_clock_offset_ns ts)
    unfolding run captured_in
    run-stuck [] b e es h bad = (refl, sym (append-nil b.pending))
    run-stuck (t ∷ ts) b e es h bad =
        let first = turn-IsStuck t b e es h bad in
        let more = captured m collector_pid wall_clock_offset_ns t.0 in
        let later =
          run-stuck ts (turn m collector_pid wall_clock_offset_ns api t b) e (es ++ more)
            (first.1 ∙ ap (λ xs. xs ++ more) h) bad in
        (
          later.0 ∙ first.0,
          later.1
              ∙ ap (λ xs. xs ++ captured_in m collector_pid wall_clock_offset_ns ts) first.1
              ∙ append_assoc b.pending more (captured_in m collector_pid wall_clock_offset_ns ts),
        )
