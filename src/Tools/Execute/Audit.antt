-- ===== src/Tools/Execute/Audit.antt =====
-- backend/app/agent_tools.py, `execute_agent_tool`: the audit records of a call.
use trace_pilot.Prelude.{String, Text, ◌≡◌, refl, ◌∷◌, [], ◌++◌, Option, none, some, codes, arith}
use text.Mathlib.TextEquality.{eq_iff}
use trace_pilot.Json.{Value, str, dict, Fields, field, end}
use trace_pilot.Store.{World, Store, AgentToolCall}
use trace_pilot.Exec.{Result, returns, raises, tool_not_allowed, validation_error}
use trace_pilot.Sql.{Engine}
use trace_pilot.Tools.Arguments.{
  Pydantic, Arguments, Tool, tool_name, registered, model_validate, model_dump,
}
use trace_pilot.Tools.Execute.{
  not_permitted, add_tool_call, call_tool, execute_agent_tool, dispatch, run_tool,
}

-- A registered name is the name of the tool that it stands for.
pub tool_name-registered :
    (name : String) (tool : Tool) → registered name ≡ some tool → tool_name tool ≡ name
unfolding registered
tool_name-registered name tool h = ground (
  arith,
  eq_iff name "get_process_connections",
  eq_iff name "get_top_network_processes",
  eq_iff name "find_connection_bursts",
  eq_iff name "find_unusual_destinations",
  eq_iff name "get_event_timeline",
)

-- What an audit record says of the outcome: the result with the validated arguments, or the error
-- with the raw ones.
pub data Records (w : World) (E : Engine) (p : Pydantic) (s : Store) (name : String) (raw : Fields)
    (call : AgentToolCall) : Result Value → Type 0 where
  records_result :
      (tool : Tool) (arguments : Arguments) (v : Value)
      → registered name ≡ some tool
      → model_validate p tool raw ≡ some arguments
      → call.arguments ≡ model_dump w arguments
      → v ≡ run_tool w E (w.now s.reads) s.events arguments
      → call.result ≡ v
      → Records w E p s name raw call (returns v)
  records_not_allowed :
      registered name ≡ none
      → call.arguments ≡ dict raw
      → call.result
        ≡ dict (
            field "error"
              (str (codes "tool_not_allowed"))
              (field "message" (str (not_permitted name)) end))
      → Records w E p s name raw call (raises (tool_not_allowed name))
  records_invalid :
      (tool : Tool)
      → registered name ≡ some tool
      → model_validate p tool raw ≡ none
      → call.arguments ≡ dict raw
      → call.result
        ≡ dict (
            field "error"
              (str (codes "invalid_arguments"))
              (field "details" (p.errors name raw) end))
      → Records w E p s name raw call (raises (validation_error (p.errors name raw)))

-- One call more in the audit table, for this investigation and tool; the other tables are kept.
pub record Audited (w : World) (E : Engine) (p : Pydantic) (name : String) (raw : Fields)
    (investigation_id : Text) (s : Store) (r : Result Value × Store) : Type 0 where
  pub call : AgentToolCall
  pub logged : r.1.tool_calls ≡ s.tool_calls ++ (call ∷ [])
  pub of_investigation : call.investigation_id ≡ investigation_id
  pub of_tool : call.tool_name ≡ name
  pub outcome : Records w E p s name raw call r.0
  pub events : r.1.events ≡ s.events
  pub investigations : r.1.investigations ≡ s.investigations

module _ (w : World) (E : Engine) (p : Pydantic) (raw : Fields) (investigation_id : Text)
    (s : Store) where
  call_tool-Audited :
      (name : String) (tool : Tool) (validated : Option Arguments)
      → registered name ≡ some tool
      → tool_name tool ≡ name
      → model_validate p tool raw ≡ validated
      → Audited w E p name raw investigation_id s
          (call_tool w E p tool validated raw investigation_id s)
  unfolding call_tool add_tool_call
  call_tool-Audited name tool none found same e = rw same (record {
    call = _;
    logged = refl;
    of_investigation = refl;
    of_tool = refl;
    outcome = records_invalid tool found e refl refl;
    events = refl;
    investigations = refl;
  })
  call_tool-Audited name tool (some arguments) found same e = record {
    call = _;
    logged = refl;
    of_investigation = refl;
    of_tool = same;
    outcome = records_result tool arguments _ found e refl refl refl;
    events = refl;
    investigations = refl;
  }

  dispatch-Audited :
      (name : String) (tool : Option Tool)
      → registered name ≡ tool
      → Audited w E p name raw investigation_id s (dispatch w E p tool name raw investigation_id s)
  unfolding add_tool_call
  dispatch-Audited name none e = record {
    call = _;
    logged = refl;
    of_investigation = refl;
    of_tool = refl;
    outcome = records_not_allowed e refl refl;
    events = refl;
    investigations = refl;
  }
  dispatch-Audited name (some tool) e =
      call_tool-Audited name tool (model_validate p tool raw) e (tool_name-registered name tool e)
        refl

  -- While the database answers every statement, every tool call, permitted or not, with valid
  -- arguments or not, adds exactly one audit record that names the investigation, the tool and the
  -- outcome, and changes no event or investigation.
  pub execute_agent_tool-Audited :
      (name : String)
      → Audited w E p name raw investigation_id s
          (execute_agent_tool w E p name raw investigation_id s)
  unfolding execute_agent_tool
  execute_agent_tool-Audited name = dispatch-Audited name (registered name) refl
