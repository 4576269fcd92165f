-- ===== src/Tests/Tools.antt =====
-- The tools.
use trace_pilot.Prelude.{
  length, ◌≤◌, ◌<◌, ◌≡◌, refl, Text, codes, List, [], ◌∷◌, ◌++◌, All, some, count_if, ◌==◌, pair_eq,
  list_eq, number_eq, ltb, if◌then◌else◌, ℕ, ◌*◌,
}
use trace_pilot.Json.{field, end, nat, Fields, Value, int, negsuc}
use trace_pilot.Exec.{raises, tool_not_allowed, validation_error}
use trace_pilot.Store.{hours_us, minute_start, World}
use trace_pilot.Sql.Reference.{reference, reference-IsEngine}
use trace_pilot.Evidence.Extract.{extract_tool_event_ids}
use trace_pilot.Tools.Arguments.{
  Arguments, Tool, find_connection_bursts, event_timeline, connection_bursts,
  ConnectionBurstsArguments, model_validate, TopNetworkProcessesArguments,
}
use trace_pilot.Tools.Arguments.Ranges.{IsInRange, model_validate-IsInRange}
use trace_pilot.Tools.Queries.{ProcessKey, bursts_query}
use trace_pilot.Tools.Results.{run_tool, unusual_groups}
use trace_pilot.Tools.Timeline.{timeline_by_minute}
use trace_pilot.Tools.Timeline.Counts.{IsTimeline, counted, timeline_by_minute-counts, in_minute}
use trace_pilot.Tools.Evidence.{IsStored, run_tool-IsStored}
use trace_pilot.Tools.Execute.{execute_agent_tool}
use trace_pilot.Tools.Execute.Audit.{Audited, execute_agent_tool-Audited}
use trace_pilot.Tools.Detection.{bursts_reported, unusual_reported}
use trace_pilot.Tests.Fixtures.{event_1, event_2, world, pydantic, events, store}
use trace_pilot.Tools.Ranking.{
  top_groups, HasCount, Outranks, reports_of, connections_of, top_processes_ranked,
}

timeline_shows :
    extract_tool_event_ids
      (run_tool world reference (hours_us 1000) events (event_timeline (record { pid = 4242 })))
    ≡ event_1 ∷ event_2 ∷ []
unfolding run_tool extract_tool_event_ids reference trace_pilot.Prelude.list_beq
    trace_pilot.Prelude.Decimal.sorted_texts trace_pilot.Evidence.Extract.string_items
timeline_shows = refl

unknown_tool :
    (execute_agent_tool world reference pydantic "run_shell" end (codes "i") store).0
    ≡ raises (tool_not_allowed "run_shell")
unfolding execute_agent_tool trace_pilot.Tools.Arguments.registered
unknown_tool = refl

abbrev negative_pid : Fields
negative_pid = field "pid" (int (negsuc 4)) end

bad_pid :
    (execute_agent_tool world reference pydantic "get_event_timeline" negative_pid
      (codes "i")
      store).0
    ≡ raises (validation_error Value.null)
unfolding execute_agent_tool trace_pilot.Tools.Arguments.registered
    trace_pilot.Tools.Execute.call_tool model_validate trace_pilot.Tools.Arguments.required_int
bad_pid = refl

execute_agent_tool-Audited_example :
    Audited world reference pydantic "run_shell" negative_pid
      (codes "i")
      store
      (execute_agent_tool world reference pydantic "run_shell" negative_pid (codes "i") store)
execute_agent_tool-Audited_example =
    execute_agent_tool-Audited world reference pydantic negative_pid (codes "i") store "run_shell"

run_tool-IsStored_example : All (IsStored events) (
    extract_tool_event_ids
      (run_tool world reference (hours_us 1000) events (event_timeline (record { pid = 4242 }))))
run_tool-IsStored_example =
    run_tool-IsStored world reference reference-IsEngine (hours_us 1000) events
      (event_timeline (record { pid = 4242 }))

abbrev one_a_minute : ConnectionBurstsArguments
one_a_minute = record { threshold = 1; minutes = 60 }

abbrev process : ProcessKey
process = (4242, codes "python3")

bursts_reported_example :
    count_if
      (λ g. g.key == (process, hours_us 999))
      (reference.group (bursts_query (hours_us 1000) one_a_minute) events)
    ≡ 0
unfolding count_if trace_pilot.Prelude.pair_beq trace_pilot.Prelude.list_beq minute_start
bursts_reported_example =
    bursts_reported reference reference-IsEngine (hours_us 1000) events one_a_minute
      (process, hours_us 999)

unusual_reported_example :
    count_if
      (λ g. g.key == (codes "203.0.113.50", 443))
      (unusual_groups reference (hours_us 1000) events 4242 (hours_us 975) (hours_us 999))
    ≡ 1
unfolding count_if trace_pilot.Prelude.pair_beq trace_pilot.Prelude.list_beq
unusual_reported_example =
    unusual_reported reference reference-IsEngine (hours_us 1000) events 4242 (hours_us 975)
      (hours_us 999) (codes "203.0.113.50", 443)

-- A world that writes a time as one character.
abbrev terse_world : World
terse_world = record world { isoformat = λ t. t ∷ [] }

timeline_by_minute-counts_example :
    IsTimeline (timeline_by_minute terse_world events [])
    × ((k : ℕ)
        → counted ((k * 60_000_000) ∷ []) (timeline_by_minute terse_world events [])
          ≡ count_if (in_minute k) events)
timeline_by_minute-counts_example = timeline_by_minute-counts terse_world (λ a b h. cc) events

burst_arguments :
    model_validate pydantic find_connection_bursts (field "threshold" (nat 5) end)
    ≡ some (connection_bursts (record { threshold = 5; minutes = 60 }))
unfolding model_validate trace_pilot.Tools.Arguments.optional_int
burst_arguments = refl

model_validate-IsInRange_example :
    IsInRange (connection_bursts (record { threshold = 5; minutes = 60 }))
model_validate-IsInRange_example =
    model_validate-IsInRange pydantic find_connection_bursts (field "threshold" (nat 5) end) _
      burst_arguments

abbrev top_ten : TopNetworkProcessesArguments
top_ten = record { minutes = 60; limit = 10 }

top_processes_ranked_example :
    (length (top_groups reference reference-IsEngine (hours_us 1000) events top_ten) ≤ 10)
    × All
        (λ g.
          HasCount reference reference-IsEngine (hours_us 1000) events top_ten g
          × Outranks reference reference-IsEngine (hours_us 1000) events top_ten g)
        (top_groups reference reference-IsEngine (hours_us 1000) events top_ten)
    × ((k : ProcessKey)
        → reports_of reference reference-IsEngine (hours_us 1000) events top_ten k ≤ 1)
    × ((k : ProcessKey)
        → reports_of reference reference-IsEngine (hours_us 1000) events top_ten k ≡ 0
        → 0 < connections_of reference reference-IsEngine (hours_us 1000) events top_ten k
        → length (top_groups reference reference-IsEngine (hours_us 1000) events top_ten) ≡ 10)
top_processes_ranked_example =
    top_processes_ranked reference reference-IsEngine (hours_us 1000) events top_ten
