-- ===== src/Simulator/Batch.antt =====
-- simulator/simulator.py against backend/app/main.py: the generated batch at the API.
use mathlib.Core.List.{map-append, map-map}
use trace_pilot.Prelude.{
  length-append, length-map, length-range, ◌*◌, ◌++◌, ◌*◌, ◌+◌, ◌-◌, ◌<◌, ◌≡◌, ◌∙◌, ap₂, refl, ℕ,
  Bool, true, Text, codes, List, [], ◌∷◌, map, range, length, ltb, Bool-cases, inl, inr, arith,
  false, All, subst, sym, some, All-range, All-append, All-map, contains,
}
use trace_pilot.Collector.Sending.{Reading, sent_body}
use trace_pilot.Simulator.{
  burst_address, baseline_address, generate_events, hours_us, minute_start, make_event,
  simulated_pid, ten, baseline_event, burst_event,
}
use trace_pilot.Collector.Layout.{inet_ntoa}
use trace_pilot.Api.Events.{EventBody, create_event_batch, insert_events, fits_columns}
use trace_pilot.Json.{pos, Value}
use trace_pilot.Store.{World, Store, ConnectionEvent}
use trace_pilot.Api.Events.Batches.{
  IsBatch, BatchOutcome, stored, create_event_batch-BatchOutcome, refused, IsBatch-IsValidBatch,
  not_inserted,
}
use trace_pilot.Api.Events.Validation.{IsEvent, row_body}
use trace_pilot.Api.Response.{Response, sends}

-- Times and addresses come through JSON as they were.
pub record IsReading (isoformat : ℕ → Text) (reading : Reading) : Type 0 where
  pub time_back : (t : ℕ) → reading.read_time (isoformat t) ≡ t
  pub address_back :
      (a b c d : ℕ)
      → a < 256
      → b < 256
      → c < 256
      → d < 256
      → reading.read_address (inet_ntoa (a ∷ b ∷ c ∷ d ∷ [])) ≡ inet_ntoa (a ∷ b ∷ c ∷ d ∷ [])

burst_address_low :
    (i : ℕ) → ltb i 90 ≡ true → burst_address i ≡ inet_ntoa (203 ∷ 0 ∷ 113 ∷ 50 ∷ [])
unfolding burst_address inet_ntoa
burst_address_low i h = rw h refl

burst_address_high :
    (i : ℕ) → ltb i 90 ≡ false → burst_address i ≡ inet_ntoa (203 ∷ 0 ∷ 113 ∷ (100 + (i - 90)) ∷ [])
unfolding burst_address inet_ntoa
burst_address_high i h = rw h refl

map_cong :
    {A B : Type 0} (f g : A → B) (xs : List A) → All (λ x. f x ≡ g x) xs → map f xs ≡ map g xs
map_cong f g [] h = refl
map_cong f g (x ∷ xs) h = ap₂ (λ y ys. y ∷ ys) h.0 (map_cong f g xs h.1)

-- What the API reads of an event of the simulator.
abbrev pub incident_body : ℕ → Text → EventBody
incident_body timestamp destination_ip = record {
  timestamp = timestamp;
  pid = pos simulated_pid;
  process_name = codes "python3";
  uid = pos 1000;
  destination_ip = destination_ip;
  destination_port = pos 443;
  ip_version = pos 4;
  duration_ms = some ten;
  source = codes "simulator";
}

abbrev pub baseline_body : ℕ → ℕ → EventBody
baseline_body now i = incident_body ((now - hours_us 2) + i * 1_000_000) baseline_address

abbrev pub burst_body : ℕ → ℕ → EventBody
burst_body now i = incident_body (minute_start now + i * 100 * 1_000) (burst_address i)

abbrev pub incident_bodies : ℕ → List EventBody
incident_bodies now = map (baseline_body now) (range 0 10) ++ map (burst_body now) (range 0 120)

module _ (isoformat : ℕ → Text) (reading : Reading) (law : IsReading isoformat reading) where
  read_address-burst_address :
      (i : ℕ) → i < 120 → reading.read_address (burst_address i) ≡ burst_address i
  read_address-burst_address i h = elim (Bool-cases (ltb i 90)) [
    | inl e ↦
        let same = burst_address_low i e in
        subst (λ t. reading.read_address t ≡ t) (sym same)
          (law.address_back 203 0 113 50 (omega arith) (omega arith) (omega arith) (omega arith))
    | inr e ↦
        let same = burst_address_high i e in
        subst (λ t. reading.read_address t ≡ t) (sym same)
          (law.address_back 203 0 113 (100 + (i - 90)) (omega arith) (omega arith) (omega arith)
            (omega arith))
  ]

  read_address-baseline_address : reading.read_address baseline_address ≡ baseline_address
  unfolding inet_ntoa
  read_address-baseline_address =
      law.address_back 198 51 100 10 (omega arith) (omega arith) (omega arith) (omega arith)

  sent_body-make_event :
      (t : ℕ) (ip : Text)
      → reading.read_address ip ≡ ip
      → sent_body reading (make_event isoformat t ip 443) ≡ incident_body t ip
  unfolding sent_body make_event
  sent_body-make_event t ip h = ap₂ (λ t' ip'. incident_body t' ip') (law.time_back t) h

  pub sent_body-generate_events :
      (now : ℕ) → map (sent_body reading) (generate_events isoformat now) ≡ incident_bodies now
  unfolding generate_events
  sent_body-generate_events now =
      map-append (sent_body reading) (map (baseline_event isoformat now) (range 0 10))
        (map (burst_event isoformat now) (range 0 120))
      ∙ ap₂ (λ xs ys. xs ++ ys)
          (map-map (sent_body reading) (baseline_event isoformat now) (range 0 10)
            ∙ map_cong _ (baseline_body now) (range 0 10) (
                All-range _ 0 10
                  (λ i h. sent_body-make_event _ baseline_address read_address-baseline_address)))
          (map-map (sent_body reading) (burst_event isoformat now) (range 0 120)
            ∙ map_cong _ (burst_body now) (range 0 120) (
                All-range _ 0 120 (λ i h.
                  sent_body-make_event _ (burst_address i)
                    (read_address-burst_address i (omega (arith, h))))))

  module _ (w : World) (ge_zero : ℕ → Bool) (details : Value) (positive : ge_zero ten ≡ true) where
    incident_body-IsEvent : (t : ℕ) (ip : Text) → IsEvent ge_zero (incident_body t ip)
    unfolding fits_columns contains
    incident_body-IsEvent t ip = (
      record {
        timestamp = t;
        pid = simulated_pid;
        process_name = codes "python3";
        uid = 1000;
        destination_ip = ip;
        destination_port = 443;
        ip_version = 4;
        duration_ms = some ten;
        source = codes "simulator";
      },
      refl,
      refl,
      ground arith,
    )

    incident_bodies-IsBatch : (now : ℕ) → IsBatch ge_zero (incident_bodies now)
    incident_bodies-IsBatch now =
        let size : length (incident_bodies now) ≡ 130 =
          length-append (map (baseline_body now) (range 0 10)) (map (burst_body now) (range 0 120))
          ∙ ap₂ (λ a b. a + b) (length-map (baseline_body now) (range 0 10) ∙ length-range 0 10)
              (length-map (burst_body now) (range 0 120) ∙ length-range 0 120) in
        (
          omega (arith, size),
          omega (arith, size),
          All-append (IsEvent ge_zero) (map (baseline_body now) (range 0 10))
              (map (burst_body now) (range 0 120))
              (All-map (IsEvent ge_zero) (baseline_body now) (range 0 10)
                (All-range _ 0 10 (λ i h. incident_body-IsEvent _ baseline_address)))
              (All-map (IsEvent ge_zero) (burst_body now) (range 0 120)
                (All-range _ 0 120 (λ i h. incident_body-IsEvent _ (burst_address i)))),
        )

    stores-bodies :
        (bodies : List EventBody) (s : Store) (q : Response (List ConnectionEvent) × Store)
        → BatchOutcome ge_zero w details bodies s q
        → IsBatch ge_zero bodies
        → (rows : List ConnectionEvent) × (q ≡ (sends 201 rows, insert_events w rows s))
          × (map row_body rows ≡ bodies)
    stores-bodies bodies s _ (stored rows h same) k = (rows, refl, same)
    stores-bodies bodies s _ (refused bad) k = absurd (bad (IsBatch-IsValidBatch ge_zero bodies k))
    stores-bodies bodies s _ (not_inserted n valid bad) k = absurd (bad k)

    pub create_event_batch-generate_events :
        (now : ℕ) (s : Store)
        → (rows : List ConnectionEvent) × (create_event_batch w ge_zero details
              (map (sent_body reading) (generate_events isoformat now))
              s
            ≡ (sends 201 rows, insert_events w rows s))
          × (map row_body rows ≡ incident_bodies now)
    create_event_batch-generate_events now s =
        let bodies = map (sent_body reading) (generate_events isoformat now) in
        let same = sent_body-generate_events now in
        let (rows, answer, kept) =
          stores-bodies bodies s (create_event_batch w ge_zero details bodies s)
            (create_event_batch-BatchOutcome ge_zero w details bodies s)
            (subst (IsBatch ge_zero) (sym same) (incident_bodies-IsBatch now)) in
        (rows, answer, kept ∙ same)
