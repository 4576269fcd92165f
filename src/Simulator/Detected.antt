-- ===== src/Simulator/Detected.antt =====
-- simulator/simulator.py, backend/app/main.py and backend/app/agent_tools.py together: what the
-- agent's tools find once the simulator has posted its events.
use trace_pilot.Prelude.{
  List, Text, codes, Bool, arith, ◌==◌, pair_eq, list_eq, number_eq, ℕ, ◌-◌, ◌+◌, ◌≤◌, ◌<◌, map,
  count_if, All, ◌≡◌, true, if◌then◌else◌, contains, subst, sym, Text, Bool,
}
use trace_pilot.Store.{minute_start}
use trace_pilot.Simulator.Incident.{burst_reported, unusual_exactly}
use trace_pilot.Tools.Arguments.{ConnectionBurstsArguments}
use trace_pilot.Tools.Queries.{Destination, bursts_query}
use trace_pilot.Simulator.{generate_events, simulated_pid, ten, hours_us, minute_start, seconds_us}
use trace_pilot.Collector.Sending.{Reading, sent_body}
use trace_pilot.Simulator.Batch.{IsReading, create_event_batch-generate_events}
use trace_pilot.Store.{World, Store, ConnectionEvent, minutes_us}
use trace_pilot.Json.{Value}
use trace_pilot.Sql.Statement.{Engine, IsEngine}
use trace_pilot.Simulator.Incident.{Unrelated, burst_destinations}
use trace_pilot.Api.Events.{create_event_batch}
use trace_pilot.Tools.Results.{unusual_groups}

baseline_passed :
    (now at : ℕ)
    → hours_us 2 ≤ now
    → minute_start now + seconds_us 12 ≤ at
    → now - hours_us 2 + seconds_us 10 ≤ at - minutes_us 60
unfolding minute_start
baseline_passed now at late ended = omega (arith, late, ended)

module _ (isoformat : ℕ → Text) (reading : Reading) (law : IsReading isoformat reading) (w : World)
    (ge_zero : ℕ → Bool) (details : Value) (positive : ge_zero ten ≡ true) (E : Engine)
    (lawful : IsEngine E) (now : ℕ) (late : hours_us 2 ≤ now) (s : Store)
    (fresh : All Unrelated s.events) (at : ℕ) where
  -- The events after the simulator's batch has been posted.
  abbrev pub after_incident : List ConnectionEvent
  after_incident =
      (create_event_batch w ge_zero details
        (map (sent_body reading) (generate_events isoformat now)) s).1.events

  -- The simulator is run at a time `now`, against a table without events of its PID. Asked within
  -- the lookback after the minute of the burst began, with any threshold under 120, the burst tool
  -- reports that minute of the process once.
  pub simulated_burst_reported :
      (a : ConnectionBurstsArguments)
      → at - minutes_us a.minutes ≤ minute_start now
      → a.threshold < 120
      → count_if
          (λ g. g.key == ((simulated_pid, codes "python3"), minute_start now))
          (E.group (bursts_query at a) after_incident)
        ≡ 1
  simulated_burst_reported a h low =
      let (rows, answer, same) =
        create_event_batch-generate_events isoformat reading law w ge_zero details positive now s in
      subst
        (λ q.
          count_if (λ g. g.key == ((simulated_pid, codes "python3"), minute_start now))
            (E.group (bursts_query at a) q.1.events)
          ≡ 1)
        (sym answer) (burst_reported now late s.events rows fresh same E lawful at a h low)

  -- The same, asked from 12 seconds after the minute of the burst began to an hour after:
  -- the destinations that the tool for unusual destinations reports for the simulated PID are
  -- those of the burst, each of them once, and no other.
  pub simulated_destinations_reported :
      (d : Destination)
      → at - minutes_us 60 ≤ minute_start now
      → minute_start now + seconds_us 12 ≤ at
      → count_if
          (λ g. g.key == d)
          (unusual_groups E at after_incident simulated_pid
            ((at - minutes_us 60) - hours_us 24)
            (at - minutes_us 60))
        ≡ (if contains burst_destinations d then 1 else 0)
  simulated_destinations_reported d early ended =
      let (rows, answer, same) =
        create_event_batch-generate_events isoformat reading law w ge_zero details positive now s in
      subst
        (λ q.
          count_if (λ g. g.key == d)
            (unusual_groups E at q.1.events simulated_pid ((at - minutes_us 60) - hours_us 24)
              (at - minutes_us 60))
          ≡ (if contains burst_destinations d then 1 else 0))
        (sym answer)
        (unusual_exactly now late s.events rows fresh same E lawful at (at - minutes_us 60) early d
          (baseline_passed now at late ended) ended)
