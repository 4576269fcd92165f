-- ===== src/Api/Events/Batches.antt =====
-- backend/app/main.py, `create_event_batch`: the outcomes of a request with a batch.
use trace_pilot.Prelude.{
  All-mono, Bool-cases, sym, false, ◌≢◌, ℕ, ◌≤◌, ◌≡◌, Bool, none, some, length, arith, true, map,
  All, Option-cases, inl, inr, ◌∙◌,
}
use trace_pilot.Store.{ConnectionEvent}
use trace_pilot.Api.Events.{
  ConnectionEventCreate, EventBody, validate_all, new_events, List, World, validate_batch, Value,
  Store, create_event_batch, Response, sends, insert_events, http_error, all_fit, insert_fails,
  answer_batch,
}
use trace_pilot.Api.Events.Validation.{
  row_body, IsValid, IsEvent, IsEvent-IsValid, validate_all-some, validate_all-none, map-row_body,
  all_fit-IsEvent, IsEvent-all_fit,
}

false_not_true : false ≢ true
false_not_true h = cc

module _ (ge_zero : ℕ → Bool) where
  -- A batch that the model takes, and one that the columns take as well.
  abbrev pub IsValidBatch : List EventBody → Type 0
  IsValidBatch bodies = (1 ≤ length bodies) × (length bodies ≤ 500) × All (IsValid ge_zero) bodies

  abbrev pub IsBatch : List EventBody → Type 0
  IsBatch bodies = (1 ≤ length bodies) × (length bodies ≤ 500) × All (IsEvent ge_zero) bodies

  pub IsBatch-IsValidBatch : (bodies : List EventBody) → IsBatch bodies → IsValidBatch bodies
  IsBatch-IsValidBatch bodies (low, high, events) = (
    low,
    high,
    All-mono (IsEvent ge_zero) (IsValid ge_zero) bodies (IsEvent-IsValid ge_zero) events,
  )

  -- Either the new rows are the events of the batch, or no row has changed.
  pub data BatchOutcome (w : World) (details : Value) (bodies : List EventBody) (s : Store)
      : Response (List ConnectionEvent) × Store → Type 0 where
    stored :
        (rows : List ConnectionEvent)
        → IsBatch bodies
        → map row_body rows ≡ bodies
        → BatchOutcome w details bodies s (sends 201 rows, insert_events w rows s)
    refused : ¬ (IsValidBatch bodies) → BatchOutcome w details bodies s (http_error 422 details, s)
    not_inserted :
        (drawn : ℕ)
        → IsValidBatch bodies
        → ¬ (IsBatch bodies)
        → BatchOutcome w details bodies s (insert_fails drawn s)

  pub validate_batch-some :
      (bodies : List EventBody) (ds : List ConnectionEventCreate)
      → validate_batch ge_zero bodies ≡ some ds
      → (1 ≤ length bodies) × (length bodies ≤ 500) × (validate_all ge_zero bodies ≡ some ds)
  unfolding validate_batch
  validate_batch-some bodies ds h = ground arith

  validate_batch-none :
      (bodies : List EventBody) → validate_batch ge_zero bodies ≡ none → ¬ (IsValidBatch bodies)
  unfolding validate_batch
  validate_batch-none bodies h (low, high, events) =
      validate_all-none ge_zero bodies (ground arith) events

  module _ (w : World) (details : Value) where
    answer_batch-BatchOutcome :
        (bodies : List EventBody) (ds : List ConnectionEventCreate) (s : Store)
        → validate_batch ge_zero bodies ≡ some ds
        → BatchOutcome w details bodies s (answer_batch w ge_zero details (some ds) s)
    answer_batch-BatchOutcome bodies ds s e =
        let (low, high, all) = validate_batch-some bodies ds e in
        let (same, valid) = validate_all-some ge_zero bodies ds all in
        elim (Bool-cases (all_fit ds)) [
          | inl fits ↦ rw fits (
              stored (new_events w ds s.drawn s.reads)
                (low, high, IsEvent-all_fit ge_zero bodies ds all fits)
                (map-row_body ge_zero w ds s.drawn s.reads ∙ same))
          | inr too_big ↦ rw too_big (
              not_inserted (length ds) (low, high, valid)
                (λ k. false_not_true (sym too_big ∙ all_fit-IsEvent ge_zero bodies ds all k.2)))
        ]

    -- A request with a batch of events is answered 201 exactly if it holds 1 to 500 events, all of
    -- them are acceptable, and they fit into the columns; then the new rows hold these events, all
    -- of them, in their order and with the values sent. If one is not acceptable, or there are
    -- none or too many, it is answered 422; if all are acceptable but one does not fit, the
    -- error of the database passes. In both cases no event is stored.
    pub create_event_batch-BatchOutcome :
        (bodies : List EventBody) (s : Store)
        → BatchOutcome w details bodies s (create_event_batch w ge_zero details bodies s)
    unfolding create_event_batch
    create_event_batch-BatchOutcome bodies s = elim (Option-cases (validate_batch ge_zero bodies)) [
      | inl e ↦ rw e (refused (validate_batch-none bodies e))
      | inr (ds, e) ↦ rw e (answer_batch-BatchOutcome bodies ds s e)
    ]
