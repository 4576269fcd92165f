-- ===== src/Tools/Execute.antt =====
-- backend/app/agent_tools.py, `execute_agent_tool`: the allowlist, the argument check, the call,
-- and the audit record that each outcome leaves.
pub mod Audit
use trace_pilot.Prelude.{String, Text, Option, none, some, codes, List, ◌∷◌, [], ◌++◌, ◌+◌}
use trace_pilot.Json.{Value, str, dict, Fields, field, end}
use trace_pilot.Store.{World, Store, AgentToolCall}
use trace_pilot.Exec.{Exec, returns, raises, tool_not_allowed, validation_error}
use trace_pilot.Sql.{Engine}
use trace_pilot.Tools.Arguments.{
  Pydantic, Arguments, Tool, tool_name, registered, model_validate, model_dump,
}
use trace_pilot.Tools.Results.{run_tool}

-- `f"Tool '{tool_name}' is not permitted."`
abbrev pub not_permitted : String → Text
not_permitted name = codes "Tool '" ++ (codes name ++ codes "' is not permitted.")

module _ (w : World) where
  -- `session.add(AgentToolCall(…))` and `session.commit()`: the row gets its ID and its time.
  unfoldable pub add_tool_call : Text → String → Value → Value → Store → Store
  add_tool_call investigation_id name arguments result s = record s {
    tool_calls =
        s.tool_calls
        ++ (record {
          id = w.uuid4 s.drawn;
          investigation_id = investigation_id;
          tool_name = name;
          arguments = arguments;
          result = result;
          created_at = w.now s.reads;
        }
            ∷ []);
    drawn = s.drawn + 1;
    reads = s.reads + 1;
  }

module _ (w : World) (E : Engine) (p : Pydantic) where
  -- The part after the allowlist.
  unfoldable pub call_tool : Tool → Option Arguments → Fields → Text → Exec Store Value
  call_tool tool none raw investigation_id s =
      let details = p.errors (tool_name tool) raw in
      (
        raises (validation_error details),
        add_tool_call w investigation_id (tool_name tool) (dict raw)
            (dict (field "error" (str (codes "invalid_arguments")) (field "details" details end)))
            s,
      )
  call_tool tool (some arguments) raw investigation_id s =
      -- the tool reads the clock before the audit record does
      let result = run_tool w E (w.now s.reads) s.events arguments in
      (
        returns result,
        add_tool_call w investigation_id (tool_name tool) (model_dump w arguments) result
            (record s { reads = s.reads + 1 }),
      )

  abbrev pub dispatch : Option Tool → String → Fields → Text → Exec Store Value
  dispatch none name raw investigation_id s = (
    raises (tool_not_allowed name),
    add_tool_call w investigation_id name (dict raw)
        (dict (
          field "error" (str (codes "tool_not_allowed"))
            (field "message" (str (not_permitted name)) end)))
        s,
  )
  dispatch (some tool) name raw investigation_id s =
      call_tool tool (model_validate p tool raw) raw investigation_id s

  unfoldable pub execute_agent_tool : String → Fields → Text → Exec Store Value
  execute_agent_tool name raw investigation_id =
      dispatch (registered name) name raw investigation_id
