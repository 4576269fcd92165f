-- ===== src/Tests/Simulator.antt =====
-- The simulator.
use trace_pilot.Prelude.{
  zero, suc, ◌==◌, pair_eq, list_eq, number_eq, ◌≡◌, refl, ℕ, Text, codes, List, [], ◌∷◌, some, map,
  count_if, ◌+◌, ◌-◌, arith, true, Bool, suc,
}
use trace_pilot.Json.{null}
use trace_pilot.Tests.Fixtures.{world}
use trace_pilot.Collector.Sending.{Reading}
use trace_pilot.Simulator.Batch.{IsReading, incident_bodies}
use trace_pilot.Store.{hours_us, ConnectionEvent, minute_start, minutes_us, empty_store}
use trace_pilot.Simulator.{Poll, request_error, run_simulator, responds, generate_events, generated}
use trace_pilot.Tools.Arguments.{ConnectionBurstsArguments}
use trace_pilot.Tools.Results.{unusual_groups}
use trace_pilot.Api.Events.{insert_events}
use trace_pilot.Simulator.Detected.{
  after_incident, simulated_destinations_reported, simulated_burst_reported,
}
use trace_pilot.Sql.Reference.{reference, reference-IsEngine}
use trace_pilot.Simulator.Completion.{post_batch, run_simulator-posts}
use trace_pilot.Tools.Queries.{bursts_query}
use trace_pilot.Api.Events.Validation.{row_body}

-- A time is written as one character, and an address as it is.
abbrev one_character : ℕ → Text
one_character n = n ∷ []

abbrev first_character : Text → ℕ
first_character [] = 0
first_character (x ∷ xs) = x

abbrev reading : Reading
reading = record { read_time = first_character; read_address = λ t. t }

reading-IsReading : IsReading one_character reading
reading-IsReading = record { time_back = λ t. refl; address_back = λ a b c d p q r s. refl }

abbrev anything : ℕ → Bool
anything x = true

abbrev start : ℕ
start = hours_us 1000 + minutes_us 30

abbrev starting : ℕ → Poll
starting zero = request_error
starting (suc zero) = responds 503
starting (suc (suc n)) = responds 200

run_simulator-posts_example :
    (rows : List ConnectionEvent) × (run_simulator one_character starting 5 start
        (post_batch one_character reading reading-IsReading world anything null refl)
        empty_store
      ≡ some (generated 130, insert_events world rows empty_store))
    × (map row_body rows ≡ incident_bodies start)
run_simulator-posts_example =
    run_simulator-posts one_character reading reading-IsReading world anything null refl starting 5
      2 start empty_store refl (omega arith)

abbrev after : List ConnectionEvent
after =
    after_incident one_character reading reading-IsReading world anything null refl reference
      reference-IsEngine start (omega arith) empty_store tt (start + minutes_us 1)

abbrev default_bursts : ConnectionBurstsArguments
default_bursts = record { threshold = 100; minutes = 60 }

simulated_burst_reported_example :
    count_if
      (λ g. g.key == ((4242, codes "python3"), minute_start start))
      (reference.group (bursts_query (start + minutes_us 1) default_bursts) after)
    ≡ 1
unfolding minute_start
simulated_burst_reported_example =
    simulated_burst_reported one_character reading reading-IsReading world anything null refl
      reference reference-IsEngine start (omega arith) empty_store tt (start + minutes_us 1)
      default_bursts (omega arith) (omega arith)

simulated_destinations_reported_example :
    count_if
      (λ g. g.key == (codes "203.0.113.50", 443))
      (unusual_groups reference
        (start + minutes_us 1)
        after
        4242
        (hours_us 975 + minutes_us 31)
        (hours_us 999 + minutes_us 31))
    ≡ 1
unfolding minute_start trace_pilot.Prelude.contains trace_pilot.Prelude.range
    trace_pilot.Prelude.pair_beq trace_pilot.Prelude.list_beq trace_pilot.Simulator.burst_address
simulated_destinations_reported_example =
    simulated_destinations_reported one_character reading reading-IsReading world anything null refl
      reference reference-IsEngine start (omega arith) empty_store tt (start + minutes_us 1)
      (codes "203.0.113.50", 443) (omega arith) (omega arith)
