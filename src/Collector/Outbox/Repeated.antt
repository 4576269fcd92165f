-- ===== src/Collector/Outbox/Repeated.antt =====
-- collector/collector.py, `send_one_batch`, against backend/app/main.py: what follows a reply that
-- is lost after the API has stored the batch.
use trace_pilot.Prelude.{
  inl, inr, ℕ, suc, zero, ◌≤◌, ◌≡◌, false, List, [], ◌∷◌, ◌++◌, length, refl, ap, ◌∙◌, arith, Bool,
  sym, take, drop, take-append-drop, append-nil, subst, true, length-map,
}
use trace_pilot.Collector.Outbox.Network.{
  Fate, network, store_after, stored_bodies, bodies_of, reply_lost, answered, network-IsBatch,
}
use trace_pilot.Collector.Buffer.{
  Buffer, flush_pending_events, is_created, Api, flush, send_one_batch, flush_body,
}
use trace_pilot.Store.{World, Store}
use trace_pilot.Json.{Value}
use trace_pilot.Collector.Sending.{Reading, sent_body}
use trace_pilot.Collector.Parser.{ApiEvent}
use trace_pilot.Api.Events.{EventBody}
use trace_pilot.Api.Events.Batches.{IsBatch}

drop_all : {A : Type 0} (n : ℕ) (xs : List A) → length xs ≤ n → drop n xs ≡ []
drop_all zero [] h = refl
drop_all zero (x ∷ xs) h = absurd (omega (arith, h))
drop_all (suc n) [] h = refl
drop_all (suc n) (x ∷ xs) h = drop_all n xs (omega (arith, h))

take_all : {A : Type 0} (n : ℕ) (xs : List A) → length xs ≤ n → take n xs ≡ xs
take_all n xs h =
    sym (append-nil (take n xs))
    ∙ ap (λ l. take n xs ++ l) (sym (drop_all n xs h))
    ∙ take-append-drop n xs

module _ (w : World) (ge_zero : ℕ → Bool) (details : Value) (reading : Reading) (fate : ℕ → Fate)
    (initial : Store) where
  abbrev api : Api
  api = network w ge_zero details reading fate initial

  abbrev table_after : List (List ApiEvent) → List EventBody
  table_after posted = stored_bodies (store_after w ge_zero details reading fate initial posted)

  abbrev bodies : List ApiEvent → List EventBody
  bodies batch = bodies_of w ge_zero details reading fate initial batch

  flush_empty : (fuel : ℕ) (b : Buffer) → b.pending ≡ [] → flush api fuel b ≡ b
  unfolding flush
  flush_empty zero b h = refl
  flush_empty (suc fuel) b h = subst (λ l. flush_body api l b (flush api fuel) ≡ b) (sym h) refl

  module _ (e : ApiEvent) (es delivered : List ApiEvent) (last_flush_time : ℕ) where
    abbrev holding : List (List ApiEvent) → Buffer
    holding posted = record {
      pending = e ∷ es;
      delivered = delivered;
      posted = posted;
      last_flush_time = last_flush_time;
    }

    flush_pending_events-false :
        length (e ∷ es) ≤ 500
        → (posted : List (List ApiEvent)) → is_created (api posted (e ∷ es)) ≡ false
        → flush_pending_events api (holding posted) ≡ holding ((e ∷ es) ∷ posted)
    unfolding flush_pending_events flush send_one_batch
    flush_pending_events-false small posted h = rw (take_all 500 (e ∷ es) small, h) refl

    flush_pending_events-true :
        length (e ∷ es) ≤ 500
        → (posted : List (List ApiEvent)) → is_created (api posted (e ∷ es)) ≡ true
        → flush_pending_events api (holding posted) ≡ record {
          pending = [];
          delivered = delivered ++ (e ∷ es);
          posted = (e ∷ es) ∷ posted;
          last_flush_time = last_flush_time;
        }
    unfolding flush_pending_events flush send_one_batch
    flush_pending_events-true small posted h =
        rw (take_all 500 (e ∷ es) small, drop_all 500 (e ∷ es) small, h)
          (flush_empty (length es) _ refl)

  -- The reply to a batch of acceptable events is lost, and the next request goes through. Then the
  -- collector sends the batch again, and the table holds each of its events twice.
  pub flush_pending_events_repeated :
      (e : ApiEvent) (es delivered : List ApiEvent) (posted : List (List ApiEvent)) (time : ℕ)
      → IsBatch ge_zero (bodies (e ∷ es))
      → fate (length posted) ≡ reply_lost
      → fate (suc (length posted)) ≡ answered
      → let b =
          flush_pending_events api
            (flush_pending_events api (holding e es delivered time posted)) in
        (b.pending ≡ [])
        × (b.delivered ≡ delivered ++ (e ∷ es))
        × (table_after b.posted ≡ (table_after posted ++ bodies (e ∷ es)) ++ bodies (e ∷ es))
  flush_pending_events_repeated e es delivered posted time ok f g =
      let small : length (e ∷ es) ≤ 500 = omega (arith, ok.1, length-map (sent_body reading) es) in
      let (unseen, once) =
        network-IsBatch w ge_zero details reading fate initial posted (e ∷ es) false ok
          (inl (f, refl)) in
      let (seen, twice) =
        network-IsBatch w ge_zero details reading fate initial ((e ∷ es) ∷ posted) (e ∷ es) true ok
          (inr (g, refl)) in
      rw
        (
          flush_pending_events-false e es delivered time small posted unseen,
          flush_pending_events-true e es delivered time small ((e ∷ es) ∷ posted) seen,
        )
        (refl, refl, twice ∙ ap (λ l. l ++ bodies (e ∷ es)) once)
