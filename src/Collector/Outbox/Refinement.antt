-- ===== src/Collector/Outbox/Refinement.antt =====
-- collector/collector.py, the main loop, against the steps of the abstract queue.
use trace_pilot.Prelude.{
  ℕ, zero, suc, ◌≡◌, true, false, List, [], ◌∷◌, ◌++◌, length, refl, sym, ap, arith, Bool,
  Bool-cases, inl, inr, take, drop, take-append-drop, length-take, subst, append_assoc, append-nil,
  leb,
}
use trace_pilot.Collector.Outbox.{
  Outbox, outbox, IsFront, capture, acknowledged, failed, Steps, start, further, ApiEvent,
}
use trace_pilot.Collector.Buffer.{
  Buffer, Api, max_batch, go_on, flush, round, stop, flush_body, flush_pending_events, turn, run,
  RawRecord, send_one_batch, flush_due,
}
use trace_pilot.Collector.Layout.{Platform}
use trace_pilot.Collector.Buffer.Delivery.{
  BatchSent, nothing, sent, send_one_batch-BatchSent, unsent,
}
use trace_pilot.Collector.Buffer.Runs.{poll-captured, captured}

Steps-trans : {api : Api} {o o' o'' : Outbox} → Steps api o o' → Steps api o' o'' → Steps api o o''
Steps-trans r start = r
Steps-trans r (further r' s) = further (Steps-trans r r') s

take-IsFront :
    (xs : List ApiEvent) (x : ApiEvent) (r : List ApiEvent)
    → xs ≡ x ∷ r
    → IsFront xs (take max_batch xs) (drop max_batch xs)
take-IsFront xs x r e =
    let size : length xs ≡ suc (length r) = ap length e in
    record {
      whole = take-append-drop max_batch xs;
      not_empty = omega (arith, length-take max_batch xs, size);
      bounded = omega (arith, length-take max_batch xs);
    }

module _ (api : Api) where
  batch-Steps :
      (b : Buffer) (x : ApiEvent) (r : List ApiEvent) (q : Bool × Buffer)
      → b.pending ≡ x ∷ r
      → BatchSent api b q
      → Steps api (outbox b) (outbox q.1)
  batch-Steps b x r _ e (nothing k) = start
  batch-Steps b x r _ e (sent k) = further start (acknowledged _ _ (take-IsFront b.pending x r e) k)
  batch-Steps b x r _ e (unsent k) = further start (failed _ _ (take-IsFront b.pending x r e) k)

  go_on-Steps :
      (o : Outbox) (q : Bool × Buffer) (rest : Buffer → Buffer)
      → Steps api o (outbox q.1)
      → ((b : Buffer) → Steps api (outbox b) (outbox (rest b)))
      → Steps api o (outbox (go_on api q rest))
  go_on-Steps o (true, b) rest first later = Steps-trans first (later b)
  go_on-Steps o (false, b) rest first later = first

  flush_body-Steps :
      (b : Buffer) (xs : List ApiEvent) (rest : Buffer → Buffer)
      → b.pending ≡ xs
      → ((b' : Buffer) → Steps api (outbox b') (outbox (rest b')))
      → Steps api (outbox b) (outbox (flush_body api xs b rest))
  flush_body-Steps b [] rest e later = start
  flush_body-Steps b (x ∷ xs) rest e later =
      go_on-Steps (outbox b) (send_one_batch api b) rest
        (batch-Steps b x xs (send_one_batch api b) e (send_one_batch-BatchSent api b)) later

  flush-Steps : (fuel : ℕ) (b : Buffer) → Steps api (outbox b) (outbox (flush api fuel b))
  unfolding flush
  flush-Steps zero b = start
  flush-Steps (suc fuel) b = flush_body-Steps b b.pending (flush api fuel) refl (flush-Steps fuel)

  round-Steps : (now : ℕ) (b : Buffer) → Steps api (outbox b) (outbox (round api now b))
  unfolding round flush_pending_events
  round-Steps now b = elim (Bool-cases (flush_due api now b)) [
    | inl e ↦ rw e (flush-Steps (length b.pending) b)
    | inr e ↦ rw e start
  ]

  stop-Steps : (b : Buffer) → Steps api (outbox b) (outbox (stop api b))
  unfolding stop flush_pending_events
  stop-Steps b = elim (Bool-cases (leb 1 (length b.pending))) [
    | inl e ↦ rw e (flush-Steps (length b.pending) b)
    | inr e ↦ rw e start
  ]

  captures :
      (o : Outbox) (xs : List ApiEvent) → Steps api o (record o { pending = o.pending ++ xs })
  captures o [] =
      subst (λ l. Steps api o (record o { pending = l })) (sym (append-nil o.pending)) start
  captures o (x ∷ xs) = Steps-trans (further start (capture x)) (
      subst
        (λ l. Steps api (record o { pending = o.pending ++ (x ∷ []) }) (record o { pending = l }))
        (append_assoc o.pending (x ∷ []) xs)
        (captures (record o { pending = o.pending ++ (x ∷ []) }) xs))

  module _ (m : Platform) (collector_pid wall_clock_offset_ns : ℕ) where
    turn-Steps :
        (t : List RawRecord × ℕ) (b : Buffer)
        → Steps api (outbox b) (outbox (turn m collector_pid wall_clock_offset_ns api t b))
    unfolding turn
    turn-Steps (rs, now) b =
        Steps-trans
          (subst (λ l. Steps api (outbox b) (record (outbox b) { pending = l }))
            (sym (poll-captured m collector_pid wall_clock_offset_ns rs b.pending))
            (captures (outbox b) (captured m collector_pid wall_clock_offset_ns rs)))
          (round-Steps now _)

    run-Steps :
        (ts : List (List RawRecord × ℕ)) (b : Buffer)
        → Steps api (outbox b) (outbox (run m collector_pid wall_clock_offset_ns api ts b))
    unfolding run
    run-Steps [] b = start
    run-Steps (t ∷ ts) b =
        Steps-trans (turn-Steps t b)
          (run-Steps ts (turn m collector_pid wall_clock_offset_ns api t b))

    -- Whatever the records, the times and the answers of the API, the collector's loop until it is
    -- stopped is a sequence of steps of the abstract queue: an event is added at the end, or a
    -- prefix of 1 to 500 events is posted, and leaves the queue for the acknowledged events exactly
    -- if the API answered 201 to it.
    pub stop-run_Steps :
        (ts : List (List RawRecord × ℕ)) (b : Buffer)
        → Steps api
            (outbox b)
            (outbox (stop api (run m collector_pid wall_clock_offset_ns api ts b)))
    stop-run_Steps ts b =
        Steps-trans (run-Steps ts b)
          (stop-Steps (run m collector_pid wall_clock_offset_ns api ts b))
