-- ===== src/Tests/OpenAi.antt =====
-- A conversation with one function call.
use trace_pilot.Prelude.{refl, codes, Text, Option, some, none, List, [], ◌∷◌, ◌++◌}
use trace_pilot.Json.{Fields, null, end}
use trace_pilot.Exec.{returns}
use trace_pilot.Llm.OpenAi.{
  Client, other_item, InputItem, openai_provider, function_call, user_message, output_item,
  call_outputs,
}
use trace_pilot.Llm.Base.{ProviderResponse, ToolResult}
use trace_pilot.Llm.OpenAi.Conversation.{AwaitsOrRaises, IsAnswered, openai_provider-Awaits}

abbrev pub loads : Text → Option Fields
loads [] = none
loads (c ∷ cs) = some end

abbrev pub client : Client
client instructions tools input_items = returns (record {
  output = other_item null ∷ function_call (codes "call-b") "get_event_timeline" (codes "{}") ∷ [];
  output_text = [];
})

-- The response that asked for the timeline of a PID.
abbrev first_response : ProviderResponse (List InputItem)
first_response = record {
  text = none;
  tool_requests =
      record { call_id = codes "call-a"; name = "get_event_timeline"; arguments = end } ∷ [];
  state =
      user_message (codes "Look at PID 4242")
      ∷ output_item (function_call (codes "call-a") "get_event_timeline" (codes "{}"))
      ∷ [];
}

abbrev first_results : List ToolResult
first_results =
    record { call_id = codes "call-a"; tool_name = "get_event_timeline"; result = null } ∷ []

openai_provider-Awaits_example :
    AwaitsOrRaises loads
      ((openai_provider loads client).start (codes "Look at PID 4242") [] (codes "Be brief."))
    × IsAnswered (first_response.state ++ call_outputs loads client first_results)
    × AwaitsOrRaises loads (
        (openai_provider loads client).continue_with_tool_results first_response.state first_results
          []
          (codes "Be brief."))
openai_provider-Awaits_example =
    openai_provider-Awaits loads client (codes "Look at PID 4242") [] (codes "Be brief.")
      first_response first_results refl refl
