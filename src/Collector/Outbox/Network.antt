-- ===== src/Collector/Outbox/Network.antt =====
-- collector/collector.py, `send_one_batch`, against backend/app/main.py: the API that the collector
-- talks to is the handler on its own store, behind a network that may fail.
use mathlib.Core.List.{map-append}
use trace_pilot.Prelude.{
  ℕ, ◌≡◌, true, false, List, [], ◌∷◌, ◌++◌, length, refl, ap, ◌∙◌, Bool, map, ◌⊎◌, inl, inr,
}
use trace_pilot.Collector.Parser.{ApiEvent}
use trace_pilot.Collector.Sending.{Reading, sent_body}
use trace_pilot.Collector.Buffer.{
  Api, Reply, status, http_failure, url_error, timed_out, is_created,
}
use trace_pilot.Api.Events.{EventBody, create_event_batch}
use trace_pilot.Api.Events.Batches.{
  stored, BatchOutcome, refused, create_event_batch-BatchOutcome, IsBatch, not_inserted,
  IsBatch-IsValidBatch,
}
use trace_pilot.Api.Events.Validation.{row_body}
use trace_pilot.Api.Response.{Response, sends, http_error, server_error}
use trace_pilot.Store.{Store, World, ConnectionEvent}
use trace_pilot.Json.{Value}

-- What the network does to a request: it never arrives, its reply is lost, or all goes well.
pub data Fate : Type 0 where
  lost reply_lost answered : Fate

abbrev pub reply_of : {A : Type 0} → Response A → Reply
reply_of (sends n body) = status n
reply_of (http_error n detail) = http_failure n
reply_of (server_error e) = http_failure 500

abbrev reply_to : {A : Type 0} → Fate → Response A → Reply
reply_to lost r = url_error
reply_to reply_lost r = timed_out
reply_to answered r = reply_of r

abbrev store_left : {A : Type 0} → Fate → Store → A × Store → Store
store_left lost s q = s
store_left reply_lost s q = q.1
store_left answered s q = q.1

abbrev pub stored_bodies : Store → List EventBody
stored_bodies s = map row_body s.events

module _ (w : World) (ge_zero : ℕ → Bool) (details : Value) (reading : Reading) (fate : ℕ → Fate)
    (initial : Store) where
  abbrev pub bodies_of : List ApiEvent → List EventBody
  bodies_of batch = map (sent_body reading) batch

  -- What the handler does with a batch.
  abbrev pub handled : List ApiEvent → Store → Response (List ConnectionEvent) × Store
  handled batch s = create_event_batch w ge_zero details (bodies_of batch) s

  -- The API's store after the batches posted so far, the newest first.
  unfoldable pub store_after : List (List ApiEvent) → Store
  store_after [] = initial
  store_after (batch ∷ before) =
      store_left (fate (length before)) (store_after before) (handled batch (store_after before))

  unfoldable pub network : Api
  unfolding store_after
  network posted batch = reply_to (fate (length posted)) (handled batch (store_after posted)).0

  -- How a request leaves the events of the store, and whether the collector sees a 201.
  pub data Arrival (f : Fate) (batch : List ApiEvent) (before after : List EventBody) (seen : Bool)
      : Type 0 where
    stored_seen :
        seen ≡ true → after ≡ before ++ bodies_of batch → Arrival f batch before after seen
    stored_unseen :
        f ≡ reply_lost
        → seen ≡ false
        → after ≡ before ++ bodies_of batch
        → Arrival f batch before after seen
    not_stored : seen ≡ false → after ≡ before → Arrival f batch before after seen

  outcome-Arrival :
      (f : Fate) (batch : List ApiEvent) (s : Store) (q : Response (List ConnectionEvent) × Store)
      → BatchOutcome ge_zero w details (bodies_of batch) s q
      → Arrival f batch
          (stored_bodies s)
          (stored_bodies (store_left f s q))
          (is_created (reply_to f q.0))
  outcome-Arrival lost batch s q h = not_stored refl refl
  outcome-Arrival reply_lost batch s _ (stored rows k same) =
      stored_unseen refl refl
        (map-append row_body s.events rows ∙ ap (λ l. stored_bodies s ++ l) same)
  outcome-Arrival reply_lost batch s _ (refused k) = not_stored refl refl
  outcome-Arrival reply_lost batch s _ (not_inserted n k j) = not_stored refl refl
  outcome-Arrival answered batch s _ (stored rows k same) =
      stored_seen refl (map-append row_body s.events rows ∙ ap (λ l. stored_bodies s ++ l) same)
  outcome-Arrival answered batch s _ (refused k) = not_stored refl refl
  outcome-Arrival answered batch s _ (not_inserted n k j) = not_stored refl refl

  pub network-Arrival :
      (posted : List (List ApiEvent)) (batch : List ApiEvent)
      → Arrival
          (fate (length posted))
          batch
          (stored_bodies (store_after posted))
          (stored_bodies (store_after (batch ∷ posted)))
          (is_created (network posted batch))
  unfolding network
  network-Arrival posted batch =
      outcome-Arrival (fate (length posted)) batch (store_after posted)
        (handled batch (store_after posted))
        (create_event_batch-BatchOutcome ge_zero w details (bodies_of batch) (store_after posted))

  -- A batch that the API accepts arrives: it is stored, and only the reply tells whether the
  -- collector sees a 201.
  outcome-IsBatch :
      (f : Fate) (seen : Bool) (batch : List ApiEvent) (s : Store)
      (q : Response (List ConnectionEvent) × Store)
      → BatchOutcome ge_zero w details (bodies_of batch) s q
      → IsBatch ge_zero (bodies_of batch)
      → ((f ≡ reply_lost) × (seen ≡ false)) ⊎ ((f ≡ answered) × (seen ≡ true))
      → (is_created (reply_to f q.0) ≡ seen)
        × (stored_bodies (store_left f s q) ≡ stored_bodies s ++ bodies_of batch)
  outcome-IsBatch f seen batch s _ (refused bad) ok h =
      absurd (bad (IsBatch-IsValidBatch ge_zero (bodies_of batch) ok))
  outcome-IsBatch f seen batch s _ (not_inserted n valid bad) ok h = absurd (bad ok)
  outcome-IsBatch f seen batch s _ (stored rows k same) ok (inl (lose, e)) =
      rw (lose, e) (refl, map-append row_body s.events rows ∙ ap (λ l. stored_bodies s ++ l) same)
  outcome-IsBatch f seen batch s _ (stored rows k same) ok (inr (reach, e)) =
      rw (reach, e) (refl, map-append row_body s.events rows ∙ ap (λ l. stored_bodies s ++ l) same)

  pub network-IsBatch :
      (posted : List (List ApiEvent)) (batch : List ApiEvent) (seen : Bool)
      → IsBatch ge_zero (bodies_of batch)
      → ((fate (length posted) ≡ reply_lost) × (seen ≡ false))
        ⊎ ((fate (length posted) ≡ answered) × (seen ≡ true))
      → (is_created (network posted batch) ≡ seen)
        × (stored_bodies (store_after (batch ∷ posted))
            ≡ stored_bodies (store_after posted) ++ bodies_of batch)
  unfolding network
  network-IsBatch posted batch seen ok h =
      outcome-IsBatch (fate (length posted)) seen batch (store_after posted)
        (handled batch (store_after posted))
        (create_event_batch-BatchOutcome ge_zero w details (bodies_of batch) (store_after posted))
        ok h
