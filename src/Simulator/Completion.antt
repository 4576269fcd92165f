-- ===== src/Simulator/Completion.antt =====
-- simulator/simulator.py, `main`: the wait for the API, and the request.
use trace_pilot.Prelude.{
  refl, ◌≡◌, ℕ, zero, suc, ◌<◌, ◌+◌, ◌≡◌, true, Bool, arith, map, some, Text, Bool-cases, subst,
  inl, inr, List, length, length-append, range, ◌∙◌, ap₂, length-map, length-range, ap,
}
use trace_pilot.Simulator.{
  wait_for_api, is_ready, run_simulator, send_events, generate_events, Poll, generated,
  baseline_event, burst_event, ten, ApiEvent,
}
use trace_pilot.Collector.Sending.{Reading, sent_body}
use trace_pilot.Simulator.Batch.{IsReading, incident_bodies, create_event_batch-generate_events}
use trace_pilot.Store.{World, Store, ConnectionEvent}
use trace_pilot.Json.{Value}
use trace_pilot.Api.Response.{Response, sends, http_error, server_error}
use trace_pilot.Api.Events.{create_event_batch, insert_events}
use trace_pilot.Api.Events.Validation.{row_body}

wait_for_api-ready :
    (poll : ℕ → Poll) (fuel n k : ℕ)
    → is_ready (poll (n + k)) ≡ true
    → k < fuel
    → (m : ℕ) × (wait_for_api poll fuel n ≡ some m)
unfolding wait_for_api
wait_for_api-ready poll zero n k up l = absurd (omega (arith, l))
wait_for_api-ready poll (suc fuel) n zero up l =
    let here : is_ready (poll n) ≡ true = subst (λ j. is_ready (poll j) ≡ true) (omega arith) up in
    (n, rw here refl)
wait_for_api-ready poll (suc fuel) n (suc k) up l = elim (Bool-cases (is_ready (poll n))) [
  | inl here ↦ (n, rw here refl)
  | inr not_yet ↦
      let (m, found) =
        wait_for_api-ready poll fuel (suc n) k
          (subst (λ j. is_ready (poll j) ≡ true) (omega arith) up) (omega (arith, l)) in
      (m, rw not_yet found)
]

module _ (isoformat : ℕ → Text) (reading : Reading) (law : IsReading isoformat reading) (w : World)
    (ge_zero : ℕ → Bool) (details : Value) (positive : ge_zero ten ≡ true) where
  abbrev status_of : {A : Type 0} → Response A → ℕ
  status_of (sends status body) = status
  status_of (http_error status detail) = status
  status_of (server_error e) = 500

  -- `POST /events/batch`
  abbrev pub post_batch : List ApiEvent → Store → ℕ × Store
  post_batch events s =
      let (response, s') =
        create_event_batch w ge_zero details (map (sent_body reading) events) s in
      (status_of response, s')

  length-generate_events : (now : ℕ) → length (generate_events isoformat now) ≡ 130
  unfolding generate_events
  length-generate_events now =
      length-append (map (baseline_event isoformat now) (range 0 10))
        (map (burst_event isoformat now) (range 0 120))
      ∙ ap₂ (λ a b. a + b)
          (length-map (baseline_event isoformat now) (range 0 10) ∙ length-range 0 10)
          (length-map (burst_event isoformat now) (range 0 120) ∙ length-range 0 120)

  -- Once the API answers 200 to a poll of its health, however many were in vain before, and within
  -- the polls allowed, a run of the simulator posts its batch, prints that it generated 130 events,
  -- and leaves exactly these events added to the table.
  pub run_simulator-posts :
      (poll : ℕ → Poll) (fuel n now : ℕ) (s : Store)
      → is_ready (poll n) ≡ true
      → n < fuel
      → (rows : List ConnectionEvent) × (run_simulator isoformat poll fuel now post_batch s
          ≡ some (generated 130, insert_events w rows s))
        × (map row_body rows ≡ incident_bodies now)
  unfolding run_simulator send_events
  run_simulator-posts poll fuel n now s up enough =
      let (m, found) =
        wait_for_api-ready poll fuel 0 n (subst (λ j. is_ready (poll j) ≡ true) (omega arith) up)
          enough in
      let (rows, answer, same) =
        create_event_batch-generate_events isoformat reading law w ge_zero details positive now s in
      (
        rows,
        rw (found, run_simulator)
            (rw answer
              (ap (λ n. some (generated n, insert_events w rows s)) (length-generate_events now))),
        same,
      )
