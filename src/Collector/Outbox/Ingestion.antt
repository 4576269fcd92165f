-- ===== src/Collector/Outbox/Ingestion.antt =====
-- collector/collector.py and backend/app/main.py together: which captured events are in the table.
use mathlib.Core.List.{map-append}
use trace_pilot.Prelude.{
  ℕ, ◌+◌, ◌≤◌, ◌≡◌, ◌≢◌, true, false, List, [], ◌++◌, length, ap, ◌∙◌, arith, Bool, sym, count_if,
  count_if-append, append_assoc, append-nil,
}
use trace_pilot.Collector.Outbox.{
  Outbox, outbox, Steps, Step, start, further, capture, acknowledged, failed, ApiEvent,
}
use trace_pilot.Collector.Outbox.Network.{
  Fate, reply_lost, network, store_after, stored_bodies, Arrival, stored_seen, stored_unseen,
  not_stored, network-Arrival, bodies_of,
}
use trace_pilot.Collector.Buffer.{Buffer, stop, run, RawRecord, Api}
use trace_pilot.Store.{World, Store}
use trace_pilot.Json.{Value}
use trace_pilot.Collector.Sending.{Reading, sent_body}
use trace_pilot.Api.Events.{EventBody}
use trace_pilot.Collector.Layout.{Platform}
use trace_pilot.Collector.Outbox.Refinement.{stop-run_Steps}
use trace_pilot.Collector.Buffer.Runs.{captured_in, stop-run_all_events}

-- The collector when its loop starts.
abbrev pub starting : ℕ → Buffer
starting now = record { pending = []; delivered = []; posted = []; last_flush_time = now }

module _ (w : World) (ge_zero : ℕ → Bool) (details : Value) (reading : Reading) (fate : ℕ → Fate)
    (initial : Store) where
  abbrev api : Api
  api = network w ge_zero details reading fate initial

  -- The events in the table, as they were sent, after the requests so far.
  abbrev pub table_after : List (List ApiEvent) → List EventBody
  table_after posted = stored_bodies (store_after w ge_zero details reading fate initial posted)

  abbrev bodies : List ApiEvent → List EventBody
  bodies batch = bodies_of w ge_zero details reading fate initial batch

  module _ (f : Fate) (batch : List ApiEvent) (before after : List EventBody) (seen : Bool) where
    seen_stored :
        Arrival w ge_zero details reading fate initial f batch before after seen
        → seen ≡ true
        → after ≡ before ++ bodies batch
    seen_stored (stored_seen e same) k = same
    seen_stored (stored_unseen l e same) k = same
    seen_stored (not_stored e same) k = absurd cc

    unseen_kept :
        Arrival w ge_zero details reading fate initial f batch before after seen
        → seen ≡ false
        → f ≢ reply_lost
        → after ≡ before
    unseen_kept (stored_seen e same) k safe = absurd cc
    unseen_kept (stored_unseen l e same) k safe = absurd (safe l)
    unseen_kept (not_stored e same) k safe = same

    count_if-before :
        (p : EventBody → Bool)
        → Arrival w ge_zero details reading fate initial f batch before after seen
        → count_if p before ≤ count_if p after
    count_if-before p (stored_seen e same) =
        omega (arith, ap (count_if p) same, count_if-append p before (bodies batch))
    count_if-before p (stored_unseen l e same) =
        omega (arith, ap (count_if p) same, count_if-append p before (bodies batch))
    count_if-before p (not_stored e same) = omega (arith, ap (count_if p) same)

  module _ (p : EventBody → Bool) where
    abbrev HoldsAcknowledged : Outbox → Type 0
    HoldsAcknowledged o =
        count_if p (stored_bodies initial) + count_if p (bodies o.delivered)
        ≤ count_if p (table_after o.posted)

    Step-HoldsAcknowledged :
        (o o' : Outbox) → Step api o o' → HoldsAcknowledged o → HoldsAcknowledged o'
    Step-HoldsAcknowledged o _ (capture e) h = h
    Step-HoldsAcknowledged o _ (acknowledged batch rest front k) h = omega (
      arith,
      h,
      ap (count_if p) (
          seen_stored _ batch _ _ _
            (network-Arrival w ge_zero details reading fate initial o.posted batch) k),
      count_if-append p (table_after o.posted) (bodies batch),
      ap (count_if p) (map-append (sent_body reading) o.delivered batch),
      count_if-append p (bodies o.delivered) (bodies batch),
    )
    Step-HoldsAcknowledged o _ (failed batch rest front k) h = omega (
      arith,
      h,
      count_if-before _ batch _ _ _ p
          (network-Arrival w ge_zero details reading fate initial o.posted batch),
    )

    Steps-HoldsAcknowledged :
        (o o' : Outbox) → Steps api o o' → HoldsAcknowledged o → HoldsAcknowledged o'
    Steps-HoldsAcknowledged o _ start h = h
    Steps-HoldsAcknowledged o _ (further r s) h =
        Step-HoldsAcknowledged _ _ s (Steps-HoldsAcknowledged o _ r h)

  abbrev HoldsExactly : Outbox → Type 0
  HoldsExactly o = table_after o.posted ≡ stored_bodies initial ++ bodies o.delivered

  module _ (safe : (n : ℕ) → fate n ≢ reply_lost) where
    Step-HoldsExactly : (o o' : Outbox) → Step api o o' → HoldsExactly o → HoldsExactly o'
    Step-HoldsExactly o _ (capture e) h = h
    Step-HoldsExactly o _ (acknowledged batch rest front k) h =
        seen_stored _ batch _ _ _
          (network-Arrival w ge_zero details reading fate initial o.posted batch) k
        ∙ ap (λ l. l ++ bodies batch) h
        ∙ append_assoc (stored_bodies initial) (bodies o.delivered) (bodies batch)
        ∙ ap (λ l. stored_bodies initial ++ l)
            (sym (map-append (sent_body reading) o.delivered batch))
    Step-HoldsExactly o _ (failed batch rest front k) h =
        unseen_kept _ batch _ _ _
          (network-Arrival w ge_zero details reading fate initial o.posted batch) k
          (safe (length o.posted))
        ∙ h

    Steps-HoldsExactly : (o o' : Outbox) → Steps api o o' → HoldsExactly o → HoldsExactly o'
    Steps-HoldsExactly o _ start h = h
    Steps-HoldsExactly o _ (further r s) h = Step-HoldsExactly _ _ s (Steps-HoldsExactly o _ r h)

  module _ (m : Platform) (collector_pid wall_clock_offset_ns now : ℕ) where
    -- The collector, stopped after some turns of its loop.
    abbrev pub stopped : List (List RawRecord × ℕ) → Buffer
    stopped ts = stop api (run m collector_pid wall_clock_offset_ns api ts (starting now))

    stopped-Steps :
        (ts : List (List RawRecord × ℕ)) → Steps api (outbox (starting now)) (outbox (stopped ts))
    stopped-Steps ts = stop-run_Steps api m collector_pid wall_clock_offset_ns ts (starting now)

    -- Whatever the network does to the requests, and whatever the API refuses: the table never
    -- lacks an event that the collector has dropped from its buffer as sent. In other words, any
    -- property of events is met in the table at least as often as in what the table held at first
    -- and in what was acknowledged together.
    pub acknowledged_stored :
        (ts : List (List RawRecord × ℕ)) (p : EventBody → Bool)
        → count_if p (stored_bodies initial) + count_if p (bodies (stopped ts).delivered)
          ≤ count_if p (table_after (stopped ts).posted)
    unfolding store_after count_if
    acknowledged_stored ts p = Steps-HoldsAcknowledged p _ _ (stopped-Steps ts) (omega arith)

    -- If the network never loses the reply to a request that arrived, further the table holds the
    -- captured events exactly once and in order, but for those still in the buffer: what the table
    -- held at first and the captured events, as the API reads them, are the rows of the table
    -- followed by the pending events.
    pub captured_stored_once :
        (ts : List (List RawRecord × ℕ))
        → ((n : ℕ) → fate n ≢ reply_lost)
        → table_after (stopped ts).posted ++ bodies (stopped ts).pending
          ≡ stored_bodies initial ++ bodies (captured_in m collector_pid wall_clock_offset_ns ts)
    unfolding store_after
    captured_stored_once ts safe =
        ap (λ l. l ++ bodies (stopped ts).pending)
          (Steps-HoldsExactly safe _ _ (stopped-Steps ts)
            (sym (append-nil (stored_bodies initial))))
        ∙ append_assoc (stored_bodies initial) (bodies (stopped ts).delivered)
            (bodies (stopped ts).pending)
        ∙ ap (λ l. stored_bodies initial ++ l)
            (sym (map-append (sent_body reading) (stopped ts).delivered (stopped ts).pending)
              ∙ ap bodies
                  (stop-run_all_events m collector_pid wall_clock_offset_ns api ts (starting now)))
