-- ===== src/Tests/System.antt =====
-- A sequence of requests to the API.
use trace_pilot.Prelude.{
  ℕ, ◌≡◌, refl, true, Text, codes, some, List, [], ◌∷◌, map, IsDistinct, SameElements, list_eq,
  number_eq, ap,
}
use trace_pilot.Json.{null, end}
use trace_pilot.Exec.{returns}
use trace_pilot.Store.{World, Store, empty_store, AgentToolCall}
use trace_pilot.Sql.{IsSorted, ascending}
use trace_pilot.Sql.Reference.{reference, reference-IsEngine}
use trace_pilot.Tests.Fixtures.{world, pydantic, scripted}
use trace_pilot.Tests.Collector.{ge_zero, body_to}
use trace_pilot.Api.Ids.{IsInjective}
use trace_pilot.Api.System.{
  IsSound, Reachable, at_first, after, post_batch, investigate, call_by_hand, is_valid_tool_name,
}
use trace_pilot.Api.System.Invariant.{Reachable-IsSound, Reachable-trail}
use trace_pilot.Api.Events.{create_event_batch}
use trace_pilot.Api.Investigations.{
  create_investigation, debug_execute_agent_tool, is_valid_question, get_investigation,
  get_investigation_tool_calls,
}
use trace_pilot.Api.Investigations.Closing.{Closes}
use trace_pilot.Api.Response.{sends}

-- The n-th UUID is written as one character.
abbrev numbered : World
numbered = record world { uuid4 = λ n. n ∷ [] }

first_character : Text → ℕ
first_character [] = 0
first_character (c ∷ cs) = c

numbered-IsInjective : IsInjective numbered
unfolding first_character
numbered-IsInjective i j h = ap first_character h

abbrev with_event : Store
with_event =
    (create_event_batch numbered ge_zero null (body_to 443 ∷ body_to 80 ∷ []) empty_store).1

abbrev with_investigation : Store
with_investigation =
    (create_investigation numbered reference pydantic (some (codes "gemini")) (returns scripted)
      (codes "Look at PID 4242") with_event).1

abbrev with_call : Store
with_call =
    (debug_execute_agent_tool numbered reference pydantic (2 ∷ []) "run_shell" end
      with_investigation).1

question_is_valid : is_valid_question (codes "Look at PID 4242") ≡ true
unfolding is_valid_question
question_is_valid = refl

tool_name_is_valid : is_valid_tool_name "run_shell" ≡ true
unfolding is_valid_tool_name
tool_name_is_valid = refl

with_call-Reachable : Reachable numbered reference pydantic ge_zero null with_call
with_call-Reachable =
    after
      (after (after at_first (post_batch (body_to 443 ∷ body_to 80 ∷ []))) (
        investigate (some (codes "gemini")) (returns scripted) (codes "Look at PID 4242")
          question_is_valid))
      (call_by_hand (2 ∷ []) "run_shell" end tool_name_is_valid)

Reachable-IsSound_example :
    IsSound numbered ge_zero with_call
    × IsDistinct (map (λ e. e.id) with_call.events)
    × IsDistinct (map (λ i. i.id) with_call.investigations)
    × IsDistinct (map (λ c. c.id) with_call.tool_calls)
Reachable-IsSound_example =
    Reachable-IsSound numbered reference pydantic reference-IsEngine ge_zero null
      numbered-IsInjective with_call with_call-Reachable

Reachable-trail_example :
    let q =
      create_investigation numbered reference pydantic
        (some (codes "gemini"))
        (returns scripted)
        (codes "Look again")
        with_call in
    (closes : Closes (numbered.uuid4 with_call.drawn) (codes "Look again") with_call q)
    × (get_investigation (numbered.uuid4 with_call.drawn) q.1 ≡ sends 200 closes.row)
    × (rows : List AgentToolCall) × (get_investigation_tool_calls reference
          (numbered.uuid4 with_call.drawn)
          q.1
        ≡ sends 200 rows)
    × SameElements rows closes.calls
    × IsSorted (ascending (λ c. c.created_at)) rows
Reachable-trail_example =
    Reachable-trail numbered reference pydantic reference-IsEngine ge_zero null numbered-IsInjective
      with_call with_call-Reachable (some (codes "gemini")) (returns scripted) (codes "Look again")
