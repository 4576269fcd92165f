-- ===== src/Tests/Gemini.antt =====
-- A response with a text and two calls, of which the second has no ID.
use trace_pilot.Prelude.{
  IsDistinct, list_eq, number_eq, ℕ, ◌≡◌, refl, codes, some, none, List, [], ◌∷◌, All, false,
  contains, ◌==◌, key_eq,
}
use trace_pilot.Json.{null, end, field, nat}
use trace_pilot.Tests.Fixtures.{world}
use trace_pilot.Llm.Gemini.{ContentPart, convert_response, function_responses}
use trace_pilot.Llm.Base.{ToolResult, Answers}
use trace_pilot.Llm.Gemini.Calls.{responses_to, function_responses-convert_response, call_ids}

abbrev pub parts : List ContentPart
parts =
    record { text = some (codes "I will look at the process."); function_call = none }
    ∷ record {
      text = none;
      function_call = some (record {
        id = some (codes "call-a");
        name = "get_event_timeline";
        args = some (field "pid" (nat 4242) end);
      });
    }
    ∷ record {
      text = some [];
      function_call = some (record { id = none; name = "find_connection_bursts"; args = none });
    }
    ∷ []

abbrev results : List ToolResult
results =
    record { call_id = codes "call-a"; tool_name = "get_event_timeline"; result = nat 1 }
    ∷ record { call_id = world.uuid4 7; tool_name = "find_connection_bursts"; result = null }
    ∷ []

distinct : IsDistinct (call_ids (convert_response world.uuid4 7 parts).tool_requests)
unfolding convert_response contains trace_pilot.Prelude.list_beq
distinct = (refl, (refl, tt))

named : All (λ q. (q.name == "") ≡ false) (convert_response world.uuid4 7 parts).tool_requests
unfolding convert_response
named = (refl, (refl, tt))

answered : Answers (convert_response world.uuid4 7 parts).tool_requests results
unfolding convert_response
answered = (refl, (refl, tt))

function_responses-convert_response_example :
    function_responses (convert_response world.uuid4 7 parts).state results
    ≡ some (responses_to (convert_response world.uuid4 7 parts).tool_requests results)
function_responses-convert_response_example =
    function_responses-convert_response world.uuid4 7 parts results distinct named answered
