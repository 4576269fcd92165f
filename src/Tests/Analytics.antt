-- ===== src/Tests/Analytics.antt =====
-- The analytics endpoints on two events.
use trace_pilot.Prelude.{
  ◌||◌, ◌+◌, false, leb, if◌then◌else◌, arith, ◌==◌, pair_eq, list_eq, number_eq, refl, codes, List,
  [], ◌∷◌, count_if, contains, ◌≡◌,
}
use trace_pilot.Json.{items, dict, field, nat, list, end}
use trace_pilot.Tests.Fixtures.{world, events}
use trace_pilot.Tools.Arguments.{
  ConnectionBurstsArguments, UnusualDestinationsArguments, connection_bursts, unusual_destinations,
}
use trace_pilot.Tools.Results.{run_tool}
use trace_pilot.Sql.Reference.{reference, reference-IsEngine}
use trace_pilot.Store.{hours_us}
use trace_pilot.Api.Analytics.Tools.{burst_item, unusual_item, detections_agree}
use trace_pilot.Api.Analytics.{burst_rows, unusual_rows, high_unique_query}
use trace_pilot.Tools.Queries.{ProcessKey, Destination}
use trace_pilot.Api.Analytics.Fanout.{AreDestinations, high_unique_reported}
use trace_pilot.Api.Analytics.Distinct.{eq_comm}

abbrev any_event : ConnectionBurstsArguments
any_event = record { threshold = 1; minutes = 60 }

abbrev of_4242 : UnusualDestinationsArguments
of_4242 = record { pid = 4242 }

detections_agree_example :
    (run_tool world reference (hours_us 1000) events (connection_bursts any_event)
      ≡ dict (
          field "threshold" (nat 1) (
            field "minutes" (nat 60) (
              field "bursts"
                (list (items (burst_item world) (burst_rows reference (hours_us 1000) events 1 60)))
                end))))
    × (run_tool world reference (hours_us 1000) events (unusual_destinations of_4242)
        ≡ dict (
            field "pid" (nat 4242) (
              field "recent_minutes" (nat 60) (
                field "baseline_minutes" (nat 1440) (
                  field "unusual_destinations"
                    (list (
                      items
                        (unusual_item world)
                        (unusual_rows reference (hours_us 1000) events 4242 60 1440)))
                    end)))))
detections_agree_example = detections_agree world reference (hours_us 1000) events any_event of_4242

abbrev process : ProcessKey
process = (4242, codes "python3")

two_contacted :
    (a b d : Destination)
    → (d == a || (d == b || false))
      ≡ leb 1 ((if a == d then 1 else 0) + ((if b == d then 1 else 0) + 0))
two_contacted a b d = ground (arith, eq_comm d a, eq_comm d b)

both_destinations :
    AreDestinations reference reference-IsEngine
      (hours_us 1000)
      events
      180
      process
      ((codes "198.51.100.10", 443) ∷ (codes "203.0.113.50", 443) ∷ [])
unfolding contains count_if trace_pilot.Prelude.list_beq trace_pilot.Prelude.pair_beq
both_destinations = record {
  distinct = (refl, (refl, tt));
  all_of_them = λ d. two_contacted (codes "198.51.100.10", 443) (codes "203.0.113.50", 443) d;
}

high_unique_reported_example :
    count_if
      (λ g. g.key == process)
      (reference.group (high_unique_query (hours_us 1000) 1 180) events)
    ≡ 1
high_unique_reported_example =
    high_unique_reported reference reference-IsEngine (hours_us 1000) events 1 180 process
      ((codes "198.51.100.10", 443) ∷ (codes "203.0.113.50", 443) ∷ []) both_destinations
