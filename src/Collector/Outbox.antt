-- ===== src/Collector/Outbox.antt =====
-- collector/collector.py, the abstract view: a queue of events from which a prefix leaves only when
-- the API has answered 201 to it.
pub mod Refinement
pub mod Network
pub mod Ingestion
pub mod Repeated
use trace_pilot.Prelude.{ℕ, ◌≤◌, ◌≡◌, true, false, List, [], ◌∷◌, ◌++◌, length}
use trace_pilot.Collector.Parser.{ApiEvent}
use trace_pilot.Collector.Buffer.{Api, is_created, Buffer}

-- What is captured and not acknowledged; what is acknowledged; and the batches posted, the newest
-- first.
pub record Outbox : Type 0 where
  pub pending : List ApiEvent
  pub delivered : List ApiEvent
  pub posted : List (List ApiEvent)

abbrev pub outbox : Buffer → Outbox
outbox b = record { pending = b.pending; delivered = b.delivered; posted = b.posted }

-- A batch that can be posted: 1 to 500 events from the front of the queue.
pub record IsFront (pending batch rest : List ApiEvent) : Type 0 where
  pub whole : batch ++ rest ≡ pending
  pub not_empty : 1 ≤ length batch
  pub bounded : length batch ≤ 500

module _ (api : Api) where
  pub data Step (o : Outbox) : Outbox → Type 0 where
    capture : (e : ApiEvent) → Step o (record o { pending = o.pending ++ (e ∷ []) })
    acknowledged :
        (batch rest : List ApiEvent)
        → IsFront o.pending batch rest
        → is_created (api o.posted batch) ≡ true
        → Step o
            (record { pending = rest; delivered = o.delivered ++ batch; posted = batch ∷ o.posted })
    failed :
        (batch rest : List ApiEvent)
        → IsFront o.pending batch rest
        → is_created (api o.posted batch) ≡ false
        → Step o (record o { posted = batch ∷ o.posted })

  pub data Steps (o : Outbox) : Outbox → Type 0 where
    start : Steps o o
    further : {o' o'' : Outbox} → Steps o o' → Step o' o'' → Steps o o''
