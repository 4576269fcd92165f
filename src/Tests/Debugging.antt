-- ===== src/Tests/Debugging.antt =====
-- The debug endpoint on a known investigation.
use trace_pilot.Prelude.{codes, none, [], ◌∷◌}
use trace_pilot.Json.{end, field, nat}
use trace_pilot.Store.{Store, running}
use trace_pilot.Tests.Fixtures.{world, pydantic, store}
use trace_pilot.Api.Investigations.Debugging.{DebugOutcome, debug_execute_agent_tool-DebugOutcome}
use trace_pilot.Sql.Reference.{reference}
use trace_pilot.Api.Investigations.{debug_execute_agent_tool}

abbrev investigated : Store
investigated = record store {
  investigations =
      record {
        id = codes "inv";
        question = codes "Why so many connections?";
        status = running;
        answer = none;
        created_at = 1;
        completed_at = none;
      }
      ∷ [];
}

debug_execute_agent_tool-DebugOutcome_example :
    DebugOutcome world reference pydantic
      (codes "inv")
      "get_event_timeline"
      (field "pid" (nat 4242) end)
      investigated
      (debug_execute_agent_tool world reference pydantic
        (codes "inv")
        "get_event_timeline"
        (field "pid" (nat 4242) end)
        investigated)
debug_execute_agent_tool-DebugOutcome_example =
    debug_execute_agent_tool-DebugOutcome world reference pydantic (codes "inv")
      "get_event_timeline" (field "pid" (nat 4242) end) investigated
