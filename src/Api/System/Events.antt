-- ===== src/Api/System/Events.antt =====
-- backend/app/main.py: the requests that post events, and the tables.
use mathlib.Core.List.{map-append}
use trace_pilot.Prelude.{
  Bool-cases, length, some, ◌+◌, ◌≡◌, ◌++◌, list_eq, number_eq, Bool-cases, ◌∙◌, sym, refl, ap,
  arith, suc, inl, inr, ℕ, subst, List, [], ◌∷◌, All, All-append, map, Option-cases,
}
use trace_pilot.Store.{World, Store, ConnectionEvent}
use trace_pilot.Api.Ids.{Issued, Issued_later, Issued-new_events}
use trace_pilot.Api.System.{IsSound, Bool, Value, IsEvent, row_body, some}
use trace_pilot.Api.Events.{
  create_event, validate_event, EventBody, new_event, new_events, create_event_batch,
  ConnectionEventCreate, validate_batch, insert_events, insert_fails, answer_event, answer_batch,
  fits_columns, all_fit,
}
use trace_pilot.Api.Events.Batches.{validate_batch-some}
use trace_pilot.Api.Events.Validation.{
  validate_event-IsAcceptable, validate_all-some, map-row_body, IsEvent-all_fit,
}

pub All-map_back :
    {A B : Type 0} (P : B → Type 0) (f : A → B) (xs : List A)
    → All P (map f xs)
    → All (λ x. P (f x)) xs
All-map_back P f [] h = tt
All-map_back P f (x ∷ xs) h = (h.0, All-map_back P f xs h.1)

module _ (w : World) (ge_zero : ℕ → Bool) (details : Value) where
  insert_events-IsSound :
      (rows : List ConnectionEvent) (s : Store)
      → IsSound w ge_zero s
      → All (λ e. IsEvent ge_zero (row_body e)) rows
      → Issued w (s.drawn + length rows) (map (λ e. e.id) s.events ++ map (λ e. e.id) rows)
      → IsSound w ge_zero (insert_events w rows s)
  insert_events-IsSound rows s h acceptable issued = record {
    events_acceptable = All-append _ s.events rows h.events_acceptable acceptable;
    event_ids =
        subst (Issued w (s.drawn + length rows)) (sym (map-append (λ e. e.id) s.events rows))
          issued;
    investigations_finished = h.investigations_finished;
    investigation_ids = Issued_later w h.investigation_ids (omega arith);
    calls_known = h.calls_known;
    calls_are_dicts = h.calls_are_dicts;
    call_ids = Issued_later w h.call_ids (omega arith);
  }

  insert_fails-IsSound :
      (A : Type 0) (n : ℕ) (s : Store)
      → IsSound w ge_zero s
      → IsSound w ge_zero (insert_fails {A = A} n s).1
  insert_fails-IsSound A n s h = record {
    events_acceptable = h.events_acceptable;
    event_ids = Issued_later w h.event_ids (omega arith);
    investigations_finished = h.investigations_finished;
    investigation_ids = Issued_later w h.investigation_ids (omega arith);
    calls_known = h.calls_known;
    calls_are_dicts = h.calls_are_dicts;
    call_ids = Issued_later w h.call_ids (omega arith);
  }

  answer_event-IsSound :
      (body : EventBody) (d : ConnectionEventCreate) (s : Store)
      → validate_event ge_zero body ≡ some d
      → IsSound w ge_zero s
      → IsSound w ge_zero (answer_event w ge_zero details (some d) s).1
  unfolding new_events
  answer_event-IsSound body d s e h = elim (Bool-cases (fits_columns d)) [
    | inl fits ↦ rw fits (
        insert_events-IsSound (new_event w d s.drawn s.reads ∷ []) s h
          ((d, refl, fits, validate_event-IsAcceptable ge_zero body d e), tt)
          (Issued-new_events w (d ∷ []) s.drawn s.reads (map (λ e. e.id) s.events) h.event_ids))
    | inr too_big ↦ rw too_big (insert_fails-IsSound ConnectionEvent 1 s h)
  ]

  pub create_event-IsSound :
      (body : EventBody) (s : Store)
      → IsSound w ge_zero s
      → IsSound w ge_zero (create_event w ge_zero details body s).1
  unfolding create_event
  create_event-IsSound body s h = elim (Option-cases (validate_event ge_zero body)) [
    | inl e ↦ rw e h
    | inr (d, e) ↦ rw e (answer_event-IsSound body d s e h)
  ]

  length-new_events :
      (ds : List ConnectionEventCreate) (drawn reads : ℕ)
      → length (new_events w ds drawn reads) ≡ length ds
  unfolding new_events
  length-new_events [] drawn reads = refl
  length-new_events (d ∷ ds) drawn reads = ap suc (length-new_events ds (suc drawn) (suc reads))

  answer_batch-IsSound :
      (bodies : List EventBody) (ds : List ConnectionEventCreate) (s : Store)
      → validate_batch ge_zero bodies ≡ some ds
      → IsSound w ge_zero s
      → IsSound w ge_zero (answer_batch w ge_zero details (some ds) s).1
  answer_batch-IsSound bodies ds s e h =
      let (low, high, all) = validate_batch-some ge_zero bodies ds e in
      let (same, valid) = validate_all-some ge_zero bodies ds all in
      let rows = new_events w ds s.drawn s.reads in
      elim (Bool-cases (all_fit ds)) [
        | inl fits ↦ rw fits (
            insert_events-IsSound rows s h
              (All-map_back (IsEvent ge_zero) row_body rows (
                subst (All (IsEvent ge_zero))
                  (sym (map-row_body ge_zero w ds s.drawn s.reads ∙ same))
                  (IsEvent-all_fit ge_zero bodies ds all fits)))
              (subst
                (λ n. Issued w (s.drawn + n) (map (λ e. e.id) s.events ++ map (λ e. e.id) rows))
                (sym (length-new_events ds s.drawn s.reads))
                (Issued-new_events w ds s.drawn s.reads (map (λ e. e.id) s.events) h.event_ids)))
        | inr too_big ↦ rw too_big (insert_fails-IsSound (List ConnectionEvent) (length ds) s h)
      ]

  pub create_event_batch-IsSound :
      (bodies : List EventBody) (s : Store)
      → IsSound w ge_zero s
      → IsSound w ge_zero (create_event_batch w ge_zero details bodies s).1
  unfolding create_event_batch
  create_event_batch-IsSound bodies s h = elim (Option-cases (validate_batch ge_zero bodies)) [
    | inl e ↦ rw e h
    | inr (ds, e) ↦ rw e (answer_batch-IsSound bodies ds s e h)
  ]
