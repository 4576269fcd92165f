-- ===== src/Simulator.antt =====
-- simulator/simulator.py: the demo incident, and how it is posted to the API.
pub mod Batch
pub mod Incident
pub mod Detected
pub mod Completion
use trace_pilot.Prelude.{
  ℕ, zero, suc, ◌+◌, ◌-◌, ◌*◌, ◌≤◌, Text, codes, Bool, true, false, ◌&&◌, List, [], ◌∷◌, ◌++◌, map,
  range, length, leb, ltb, eqb, if◌then◌else◌, Option, none, some,
}
use trace_pilot.Prelude.Decimal.{decimal}
use trace_pilot.Store.{hours_us, minute_start}
use trace_pilot.Collector.Parser.{ApiEvent}

abbrev pub simulated_pid : ℕ
simulated_pid = 4242

-- The bit pattern of 10.0.
abbrev pub ten : ℕ
ten = 0x4024000000000000

-- `timedelta(seconds=n)`, `timedelta(milliseconds=n)`
abbrev pub seconds_us : ℕ → ℕ
seconds_us n = n * 1_000_000

abbrev milliseconds_us : ℕ → ℕ
milliseconds_us n = n * 1_000

module _ (isoformat : ℕ → Text) where
  unfoldable pub make_event : ℕ → Text → ℕ → ApiEvent
  make_event timestamp destination_ip destination_port = record {
    timestamp = isoformat timestamp;
    pid = simulated_pid;
    process_name = codes "python3";
    uid = 1000;
    destination_ip = destination_ip;
    destination_port = destination_port;
    ip_version = 4;
    duration_ms = ten;
    source = codes "simulator";
  }

abbrev pub baseline_address : Text
baseline_address = codes "198.51.100.10"

-- The address of the i-th event of the burst.
unfoldable pub burst_address : ℕ → Text
unfolding decimal
burst_address i =
    if ltb i 90 then codes "203.0.113.50" else codes "203.0.113." ++ decimal (100 + (i - 90))

module _ (isoformat : ℕ → Text) where
  abbrev pub baseline_event : ℕ → ℕ → ApiEvent
  baseline_event now i =
      make_event isoformat ((now - hours_us 2) + seconds_us i) baseline_address 443

  -- `now.replace(second=0, microsecond=0)` is where the minute begins.
  abbrev pub burst_event : ℕ → ℕ → ApiEvent
  burst_event now i =
      make_event isoformat (minute_start now + milliseconds_us (i * 100)) (burst_address i) 443

  unfoldable pub generate_events : ℕ → List ApiEvent
  generate_events now = map (baseline_event now) (range 0 10) ++ map (burst_event now) (range 0 120)

-- What a GET of /health ends in: a status, or an `httpx.RequestError`.
pub data Poll : Type 0 where
  responds : ℕ → Poll
  request_error : Poll

abbrev pub is_ready : Poll → Bool
is_ready (responds n) = eqb n 200
is_ready request_error = false

-- The number of the poll that finds the API ready; `none` means that the fuel ran out.
unfoldable pub wait_for_api : (ℕ → Poll) → ℕ → ℕ → Option ℕ
wait_for_api poll zero n = none
wait_for_api poll (suc fuel) n =
    let rest = wait_for_api poll fuel (suc n) in if is_ready (poll n) then some n else rest

-- The count that is printed, or the `HTTPStatusError` of `raise_for_status`.
pub data Sent : Type 0 where
  generated : ℕ → Sent
  status_error : ℕ → Sent

unfoldable pub send_events : ℕ → List ApiEvent → Sent
send_events status events =
    if leb 200 status && ltb status 300 then generated (length events) else status_error status

-- `post` is what the API does with the batch, and gives its status.
unfoldable pub run_simulator :
    {S : Type 0}
    → (ℕ → Text)
    → (ℕ → Poll)
    → ℕ
    → ℕ
    → (List ApiEvent → S → ℕ × S)
    → S
    → Option (Sent × S)
unfolding wait_for_api generate_events send_events
run_simulator isoformat poll fuel now post s = elim (wait_for_api poll fuel 0) [
  | none ↦ none
  | some n ↦
      let events = generate_events isoformat now in
      let (status, s') = post events s in some (send_events status events, s')
]
