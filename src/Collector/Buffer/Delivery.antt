-- ===== src/Collector/Buffer/Delivery.antt =====
-- collector/collector.py, `flush_pending_events`: the order and the number of the events on their
-- way to the API.
use trace_pilot.Prelude.{
  ℕ, zero, suc, ◌≤◌, ◌≡◌, refl, [], ◌∷◌, List, ◌++◌, take, drop, length, take-append-drop,
  append_assoc, length-drop, ◌⊎◌, inl, inr, Bool-cases, ◌∙◌, ◌≢◌, arith, ap, sym, append-nil,
}
use trace_pilot.Collector.Buffer.{
  Buffer, Api, Bool, send_one_batch, true, is_created, max_batch, false, acknowledge, flush, go_on,
  send, flush_body, flush_pending_events,
}
use trace_pilot.Collector.Parser.{ApiEvent}

-- The events delivered, then those still pending.
abbrev pub all_events : Buffer → List ApiEvent
all_events b = b.delivered ++ b.pending

pub pending_cases :
    (xs : List ApiEvent) → (xs ≡ []) ⊎ ((x : ApiEvent) × (r : List ApiEvent) × (xs ≡ x ∷ r))
pending_cases [] = inl refl
pending_cases (x ∷ xs) = inr (x, xs, refl)

regroup :
    (b : Buffer)
    → (b.delivered ++ take max_batch b.pending) ++ drop max_batch b.pending ≡ all_events b
regroup b =
    append_assoc b.delivered (take max_batch b.pending) (drop max_batch b.pending)
    ∙ ap (λ l. b.delivered ++ l) (take-append-drop max_batch b.pending)

fewer :
    (xs : List ApiEvent) (fuel : ℕ)
    → length xs ≤ suc fuel
    → xs ≢ []
    → length (drop max_batch xs) ≤ fuel
fewer [] fuel h k = absurd (k refl)
fewer (x ∷ xs) fuel h k = omega (arith, length-drop 499 xs)

length-zero : (xs : List ApiEvent) → length xs ≤ 0 → xs ≡ []
length-zero [] h = refl
length-zero (x ∷ xs) h = absurd (omega arith)

module _ (api : Api) where
  -- How one batch ends.
  pub data BatchSent (b : Buffer) : Bool × Buffer → Type 0 where
    nothing : b.pending ≡ [] → BatchSent b (true, b)
    sent :
        is_created (api b.posted (take max_batch b.pending)) ≡ true
        → BatchSent b (
          true,
          record b {
            pending = drop max_batch b.pending;
            delivered = b.delivered ++ take max_batch b.pending;
            posted = take max_batch b.pending ∷ b.posted;
          },
        )
    unsent :
        is_created (api b.posted (take max_batch b.pending)) ≡ false
        → BatchSent b (false, record b { posted = take max_batch b.pending ∷ b.posted })

  acknowledge-BatchSent :
      (b : Buffer) → BatchSent b (acknowledge api (api b.posted (take max_batch b.pending)) b)
  acknowledge-BatchSent b =
      elim (Bool-cases (is_created (api b.posted (take max_batch b.pending)))) [
        | inl k ↦ rw k (sent k)
        | inr k ↦ rw k (unsent k)
      ]

  send-BatchSent : (xs : List ApiEvent) (b : Buffer) → b.pending ≡ xs → BatchSent b (send api xs b)
  send-BatchSent [] b e = nothing e
  send-BatchSent (x ∷ xs) b e = acknowledge-BatchSent b

  pub send_one_batch-BatchSent : (b : Buffer) → BatchSent b (send_one_batch api b)
  unfolding send_one_batch
  send_one_batch-BatchSent b = send-BatchSent b.pending b refl

  -- What a flush leaves: the same events, and none pending, or a last request that failed.
  pub record Flushed (b b' : Buffer) : Type 0 where
    pub same : all_events b' ≡ all_events b
    pub more : List ApiEvent
    pub grown : b'.delivered ≡ b.delivered ++ more
    pub ends :
        (b'.pending ≡ [])
        ⊎ ((before : List (List ApiEvent)) × (b'.posted ≡ take max_batch b'.pending ∷ before)
            × (is_created (api before (take max_batch b'.pending)) ≡ false))

  go_on-Flushed :
      (fuel : ℕ) (b : Buffer) (q : Bool × Buffer)
      → BatchSent b q
      → (length b.pending ≤ suc fuel)
      → b.pending ≢ []
      → ((b' : Buffer) → length b'.pending ≤ fuel → Flushed b' (flush api fuel b'))
      → Flushed b (go_on api q (flush api fuel))
  go_on-Flushed fuel b _ (nothing e) h k next = absurd (k e)
  go_on-Flushed fuel b _ (sent e) h k next =
      let inner =
        next
          (record b {
            pending = drop max_batch b.pending;
            delivered = b.delivered ++ take max_batch b.pending;
            posted = take max_batch b.pending ∷ b.posted;
          })
          (fewer b.pending fuel h k) in
      record {
        same = inner.same ∙ regroup b;
        more = take max_batch b.pending ++ inner.more;
        grown = inner.grown ∙ append_assoc b.delivered (take max_batch b.pending) inner.more;
        ends = inner.ends;
      }
  go_on-Flushed fuel b _ (unsent e) h k next = record {
    same = refl;
    more = [];
    grown = sym (append-nil b.delivered);
    ends = inr (b.posted, refl, e);
  }

  flush_body-Flushed :
      (fuel : ℕ) (xs : List ApiEvent) (b : Buffer)
      → b.pending ≡ xs
      → length b.pending ≤ suc fuel
      → ((b' : Buffer) → length b'.pending ≤ fuel → Flushed b' (flush api fuel b'))
      → Flushed b (flush_body api xs b (flush api fuel))
  flush_body-Flushed fuel [] b e h next = record {
    same = refl;
    more = [];
    grown = sym (append-nil b.delivered);
    ends = inl e;
  }
  flush_body-Flushed fuel (x ∷ xs) b e h next =
      go_on-Flushed fuel b (send_one_batch api b) (send_one_batch-BatchSent b) h (λ k. cc) next

  flush-Flushed : (fuel : ℕ) (b : Buffer) → length b.pending ≤ fuel → Flushed b (flush api fuel b)
  unfolding flush
  flush-Flushed zero b h = record {
    same = refl;
    more = [];
    grown = sym (append-nil b.delivered);
    ends = inl (length-zero b.pending h);
  }
  flush-Flushed (suc fuel) b h =
      flush_body-Flushed fuel b.pending b refl h (λ b' k. flush-Flushed fuel b' k)

  -- A flush ends, with fuel for as many rounds as there are pending events. It leaves the events
  -- delivered and pending as they were, in order, and only adds to the delivered; and
  -- it ends with none pending, or right after a request for the first of them that did not
  -- succeed.
  pub flush_pending_events-Flushed : (b : Buffer) → Flushed b (flush_pending_events api b)
  unfolding flush_pending_events
  flush_pending_events-Flushed b = flush-Flushed (length b.pending) b (omega arith)
