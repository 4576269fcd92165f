-- ===== src/Simulator/Incident.antt =====
-- simulator/simulator.py against backend/app/agent_tools.py: the incident under the statements of
-- the anomaly tools.
use trace_pilot.Prelude.{
  if◌then◌else◌, ◌==◌, HasEq, pair_eq, list_eq, number_eq, ℕ, ◌-◌, ◌+◌, ◌*◌, ◌++◌, ◌&&◌, ◌≤◌, ◌<◌,
  [], ◌∷◌, List, map, true, false, refl, arith, range, count_if, leb, eqb, contains, codes, ap,
  count_if-map, count_if-append, count_if_none, count_if-All, All, All-range, All-mono,
  length-range, ◌∙◌, ◌≡◌, Bool, pair_beq, list_beq, ltb, Bool-cases, inl, count_if_cong, subst, sym,
  pair_beq_iff, inr,
}
use trace_pilot.Json.{ℤ, pos, negsuc}
use trace_pilot.Store.{ConnectionEvent, minute_start, hours_us, minutes_us}
use trace_pilot.Api.Events.{EventBody}
use trace_pilot.Tools.Queries.{Destination, ProcessKey, bursts_query}
use trace_pilot.Simulator.{burst_address, simulated_pid, decimal, baseline_address, seconds_us}
use trace_pilot.Api.Events.Validation.{row_body}
use trace_pilot.Simulator.Batch.{incident_bodies, baseline_body, burst_body}
use trace_pilot.Tools.Arguments.{ConnectionBurstsArguments}
use trace_pilot.Sql.Statement.{Engine, IsEngine}
use trace_pilot.Tools.Detection.{
  in_burst, bursts_reported, in_baseline_to, in_recent, unusual_reported,
}
use trace_pilot.Tools.Results.{unusual_groups}

abbrev pub Unrelated : ConnectionEvent → Type 0
Unrelated e = eqb e.pid simulated_pid ≡ false

abbrev nat_of : ℤ → ℕ
nat_of (pos n) = n
nat_of (negsuc n) = 0

-- The burst's address and port pairs.
abbrev burst_destination : ℕ → Destination
burst_destination i = (burst_address i, 443)

abbrev pub burst_destinations : List Destination
burst_destinations = map burst_destination (range 0 120)

leb-count_if-contains :
    {A : Type 0} ⦃e : HasEq A⦄ (d : A) (xs : List A)
    → leb 1 (count_if (λ x. x == d) xs) ≡ contains xs d
unfolding count_if contains
leb-count_if-contains d [] = refl
leb-count_if-contains ⦃e⦄ d (x ∷ xs) =
    ground (arith, leb-count_if-contains d xs, e.equals_iff x d, e.equals_iff d x)

baseline_not_burst : contains burst_destinations (baseline_address, 443) ≡ false
unfolding contains range burst_address trace_pilot.Prelude.Decimal.decimal list_beq pair_beq
baseline_not_burst = refl

elsewhere :
    (d : Destination)
    → contains burst_destinations d ≡ true
    → ((baseline_address, 443) == d) ≡ false
elsewhere d h = elim (Bool-cases ((baseline_address, 443) == d)) [
  | inl here ↦ cc (
    subst (λ x. contains burst_destinations x ≡ true)
        (sym ((pair_beq_iff (baseline_address, 443) d).0 here)) h,
    baseline_not_burst,
  )
  | inr other ↦ other
]

minute_start_before :
    (now i : ℕ)
    → hours_us 2 ≤ now
    → i < 10
    → (minute_start ((now - hours_us 2) + i * 1_000_000) == minute_start now) ≡ false
unfolding minute_start
minute_start_before now i h l = ground arith

minute_start_within :
    (now i : ℕ)
    → i < 120
    → (minute_start (minute_start now + i * 100 * 1_000) == minute_start now) ≡ true
unfolding minute_start
minute_start_within now i l = ground arith

module _ (now : ℕ) (late : hours_us 2 ≤ now) (old rows : List ConnectionEvent)
    (fresh : All Unrelated old) (same : map row_body rows ≡ incident_bodies now) where
  count_if-incident :
      (p : EventBody → Bool)
      → ((e : ConnectionEvent) → Unrelated e → p (row_body e) ≡ false)
      → count_if (λ e. p (row_body e)) (old ++ rows)
        ≡ count_if (λ i. p (baseline_body now i)) (range 0 10)
          + count_if (λ i. p (burst_body now i)) (range 0 120)
  count_if-incident p h = omega (
    arith,
    count_if-append (λ e. p (row_body e)) old rows,
    count_if_none (λ e. p (row_body e)) old (All-mono Unrelated _ old h fresh),
    count_if-map p row_body rows,
    ap (count_if p) same,
    count_if-append p (map (baseline_body now) (range 0 10)) (map (burst_body now) (range 0 120)),
    count_if-map p (baseline_body now) (range 0 10),
    count_if-map p (burst_body now) (range 0 120),
  )

  abbrev pub incident_key : ProcessKey × ℕ
  incident_key = ((simulated_pid, codes "python3"), minute_start now)

  abbrev body_in_burst : ℕ → EventBody → Bool
  body_in_burst start b =
      leb start b.timestamp
      && ((nat_of b.pid, b.process_name), minute_start b.timestamp) == incident_key

  body_in_burst-Unrelated :
      (start : ℕ) (e : ConnectionEvent) → Unrelated e → body_in_burst start (row_body e) ≡ false
  unfolding pair_beq
  body_in_burst-Unrelated start e h = ground (arith, h)

  body_in_burst-baseline_body :
      (start i : ℕ) → i < 10 → body_in_burst start (baseline_body now i) ≡ false
  unfolding pair_beq
  body_in_burst-baseline_body start i l = ground (arith, minute_start_before now i late l)

  body_in_burst-burst_body :
      (start i : ℕ)
      → start ≤ minute_start now
      → i < 120
      → body_in_burst start (burst_body now i) ≡ true
  unfolding pair_beq list_beq
  body_in_burst-burst_body start i h l = ground (arith, minute_start_within now i l)

  module _ (E : Engine) (lawful : IsEngine E) (at : ℕ) where
    count_if-in_burst :
        (a : ConnectionBurstsArguments)
        → at - minutes_us a.minutes ≤ minute_start now
        → count_if (in_burst E lawful at (old ++ rows) a incident_key) (old ++ rows) ≡ 120
    count_if-in_burst a h =
        let start = at - minutes_us a.minutes in
        omega (
          arith,
          count_if-incident (body_in_burst start) (body_in_burst-Unrelated start),
          count_if_none (λ i. body_in_burst start (baseline_body now i)) (range 0 10)
              (All-range _ 0 10 (λ i l. body_in_burst-baseline_body start i l)),
          count_if-All (λ i. body_in_burst start (burst_body now i)) (range 0 120)
              (All-range _ 0 120 (λ i l. body_in_burst-burst_body start i h l)),
          length-range 0 120,
        )

    pub burst_reported :
        (a : ConnectionBurstsArguments)
        → at - minutes_us a.minutes ≤ minute_start now
        → a.threshold < 120
        → count_if (λ g. g.key == incident_key) (E.group (bursts_query at a) (old ++ rows)) ≡ 1
    burst_reported a h low =
        bursts_reported E lawful at (old ++ rows) a incident_key
        ∙ ground (arith, count_if-in_burst a h)

    abbrev body_in_recent : ℕ → Destination → EventBody → Bool
    body_in_recent start d b =
        (nat_of b.pid == simulated_pid && leb start b.timestamp && leb b.timestamp at)
        && (b.destination_ip, nat_of b.destination_port) == d

    abbrev body_in_baseline : ℕ → Destination → EventBody → Bool
    body_in_baseline start d b =
        (nat_of b.pid == simulated_pid
          && leb (start - hours_us 24) b.timestamp
          && ltb b.timestamp start)
        && (b.destination_ip, nat_of b.destination_port) == d

    module _ (start : ℕ) (early : start ≤ minute_start now) where
      count_if-in_recent :
          (d : Destination)
          → now - hours_us 2 + seconds_us 10 ≤ start
          → minute_start now + seconds_us 12 ≤ at
          → count_if (in_recent E lawful at (old ++ rows) simulated_pid start d) (old ++ rows)
            ≡ count_if (λ x. x == d) burst_destinations
      count_if-in_recent d passed ended =
          let p = body_in_recent start d in
          omega (
            arith,
            count_if-incident p (λ e h. ground (arith, h)),
            count_if_none (λ i. p (baseline_body now i)) (range 0 10)
                (All-range _ 0 10 (λ i l. ground (arith, l, passed))),
            count_if_cong (λ i. p (burst_body now i)) (λ i. burst_destination i == d) (range 0 120)
                (All-range _ 0 120 (λ i l. ground (arith, l, early, ended))),
            count_if-map (λ x. x == d) burst_destination (range 0 120),
          )

      count_if-in_baseline :
          (d : Destination)
          → contains burst_destinations d ≡ true
          → count_if
              (in_baseline_to E lawful at (old ++ rows) simulated_pid (start - hours_us 24) start d)
              (old ++ rows)
            ≡ 0
      count_if-in_baseline d burst =
          let p = body_in_baseline start d in
          omega (
            arith,
            count_if-incident p (λ e h. ground (arith, h)),
            count_if_none (λ i. p (baseline_body now i)) (range 0 10)
                (All-range _ 0 10 (λ i l. ground (arith, elsewhere d burst))),
            count_if_none (λ i. p (burst_body now i)) (range 0 120)
                (All-range _ 0 120 (λ i l. ground (arith, early))),
          )

      pub unusual_exactly :
          (d : Destination)
          → now - hours_us 2 + seconds_us 10 ≤ start
          → minute_start now + seconds_us 12 ≤ at
          → count_if
              (λ g. g.key == d)
              (unusual_groups E at (old ++ rows) simulated_pid (start - hours_us 24) start)
            ≡ (if contains burst_destinations d then 1 else 0)
      unusual_exactly d passed ended =
          unusual_reported E lawful at (old ++ rows) simulated_pid (start - hours_us 24) start d
          ∙ elim (Bool-cases (contains burst_destinations d)) [
            | inl burst ↦ ground (
              arith,
              count_if-in_recent d passed ended,
              count_if-in_baseline d burst,
              leb-count_if-contains d burst_destinations,
              burst,
            )
            | inr other ↦ ground (
              arith,
              count_if-in_recent d passed ended,
              leb-count_if-contains d burst_destinations,
              other,
            )
          ]
