-- ===== src/Api/Investigations/Debugging.antt =====
-- backend/app/main.py, `debug_execute_agent_tool`: the outcomes of a call by hand.
use trace_pilot.Prelude.{String, Text, ◌≡◌, refl, Option, none, some, [], ◌∷◌, ◌++◌, subst, ◌∙◌}
use trace_pilot.Json.{Value, str, Fields}
use trace_pilot.Store.{World, Store, Investigation, AgentToolCall}
use trace_pilot.Exec.{Result}
use trace_pilot.Sql.{Engine}
use trace_pilot.Tools.Arguments.{Pydantic, registered, Tool, Arguments, model_validate}
use trace_pilot.Tools.Execute.{execute_agent_tool, not_permitted}
use trace_pilot.Tools.Execute.Audit.{
  Records, records_result, records_not_allowed, records_invalid, execute_agent_tool-Audited,
}
use trace_pilot.Api.Response.{Response, sends, http_error}
use trace_pilot.Api.Investigations.{
  find_investigation, not_found, debug_reply, debug_call, debug_execute_agent_tool,
}
use trace_pilot.Tools.Results.{run_tool}

-- The response that goes with a call, by whether the tool is registered and its arguments are
-- valid; `s` is the store before the call.
pub data Tells (w : World) (E : Engine) (p : Pydantic) (s : Store) (name : String) (raw : Fields)
    (call : AgentToolCall) : Response Value → Type 0 where
  tells_result :
      (tool : Tool) (arguments : Arguments)
      → registered name ≡ some tool
      → model_validate p tool raw ≡ some arguments
      → call.result ≡ run_tool w E (w.now s.reads) s.events arguments
      → Tells w E p s name raw call (sends 200 call.result)
  tells_forbidden :
      registered name ≡ none
      → Tells w E p s name raw call (http_error 403 (str (not_permitted name)))
  tells_invalid :
      (tool : Tool)
      → registered name ≡ some tool
      → model_validate p tool raw ≡ none
      → Tells w E p s name raw call (http_error 422 (p.errors name raw))

pub data DebugOutcome (w : World) (E : Engine) (p : Pydantic) (id : Text) (name : String)
    (raw : Fields) (s : Store) : Response Value × Store → Type 0 where
  missing :
      find_investigation id s.investigations ≡ none
      → DebugOutcome w E p id name raw s (http_error 404 not_found, s)
  answered :
      (row : Investigation) (call : AgentToolCall) (response : Response Value) (s' : Store)
      → find_investigation id s.investigations ≡ some row
      → s'.tool_calls ≡ s.tool_calls ++ (call ∷ [])
      → call.investigation_id ≡ id
      → call.tool_name ≡ name
      → s'.events ≡ s.events
      → s'.investigations ≡ s.investigations
      → Tells w E p s name raw call response
      → DebugOutcome w E p id name raw s (response, s')

module _ (w : World) (E : Engine) (p : Pydantic) (id : Text) (name : String) (raw : Fields)
    (s : Store) where
  debug_reply-Tells :
      (call : AgentToolCall) (r : Result Value)
      → Records w E p s name raw call r
      → Tells w E p s name raw call (debug_reply w E p r)
  debug_reply-Tells call _ (records_result tool arguments v found valid written made result) =
      subst (λ x. Tells w E p s name raw call (sends 200 x)) result
        (tells_result tool arguments found valid (result ∙ made))
  debug_reply-Tells call _ (records_not_allowed unknown written result) = tells_forbidden unknown
  debug_reply-Tells call _ (records_invalid tool found invalid written result) =
      tells_invalid tool found invalid

  debug_call-DebugOutcome :
      (row : Option Investigation)
      → find_investigation id s.investigations ≡ row
      → DebugOutcome w E p id name raw s (debug_call w E p row name raw id s)
  debug_call-DebugOutcome none e = missing e
  debug_call-DebugOutcome (some row) e =
      let audited = execute_agent_tool-Audited w E p raw id s name in
      answered row audited.call _ _ e audited.logged audited.of_investigation audited.of_tool
        audited.events audited.investigations
        (debug_reply-Tells audited.call (execute_agent_tool w E p name raw id s).0 audited.outcome)

  -- While the database answers every statement, a tool call by hand for an unknown investigation
  -- is answered 404 and changes nothing. For a known one it leaves exactly one audit record, and no
  -- other change of the tables; and it is answered 200 with the recorded result of the tool if the
  -- tool is registered and its arguments are valid, 403 if it is not registered, and 422 with the
  -- errors if it is and its arguments are not valid. No exception of the tool call passes.
  pub debug_execute_agent_tool-DebugOutcome :
      DebugOutcome w E p id name raw s (debug_execute_agent_tool w E p id name raw s)
  unfolding debug_execute_agent_tool
  debug_execute_agent_tool-DebugOutcome =
      debug_call-DebugOutcome (find_investigation id s.investigations) refl
