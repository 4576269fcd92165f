-- ===== src/Api/System/Calls.antt =====
-- backend/app/agent_tools.py, the audit records: what a tool call, and a run of the agent, adds to
-- their table.
use mathlib.Core.List.{map-append}
use trace_pilot.Prelude.{
  ℕ, ◌+◌, ◌≡◌, ◌≤◌, true, refl, sym, subst, Text, String, List, [], ◌∷◌, All, All-append, map,
  arith, Option, none, some,
}
use trace_pilot.Json.{Value, Fields, is_dict}
use trace_pilot.Exec.{Result, returns, raises}
use trace_pilot.Api.Investigations.{
  create_investigation, close_investigation, run_investigation_agent, add_investigation,
  new_investigation, chosen,
}
use trace_pilot.Store.{World, Store, ConnectionEvent}
use trace_pilot.Api.Ids.{Issued, issue, Issued_later}
use trace_pilot.Api.System.{
  IsDictCall, Engine, Pydantic, Result, create_investigation, LlmProvider, suc,
}
use trace_pilot.Tools.Execute.{add_tool_call, call_tool, execute_agent_tool, dispatch}
use trace_pilot.Tools.Arguments.{
  model_dump, Arguments, process_connections, Tool, top_network_processes, tool_name, registered,
  connection_bursts, model_validate, unusual_destinations, event_timeline,
}
use trace_pilot.Tools.Results.{run_tool}
use trace_pilot.Api.Investigations.{close_investigation, run_chosen, run_investigation_agent}
use trace_pilot.Agent.Preservation.{run_with_provider_kept}

module _ (w : World) where
  -- The records stay ones that can be sent, with IDs that were drawn in turn.
  pub record KeepsCalls (s s' : Store) : Type 0 where
    pub more_drawn : s.drawn ≤ s'.drawn
    pub dicts : All IsDictCall s.tool_calls → All IsDictCall s'.tool_calls
    pub issued :
        Issued w s.drawn (map (λ c. c.id) s.tool_calls)
        → Issued w s'.drawn (map (λ c. c.id) s'.tool_calls)

  KeepsCalls-refl : (s : Store) → KeepsCalls s s
  KeepsCalls-refl s = record { more_drawn = omega arith; dicts = λ h. h; issued = λ h. h }

  KeepsCalls-trans : (s t u : Store) → KeepsCalls s t → KeepsCalls t u → KeepsCalls s u
  KeepsCalls-trans s t u h k = record {
    more_drawn = omega (arith, h.more_drawn, k.more_drawn);
    dicts = λ x. k.dicts (h.dicts x);
    issued = λ x. k.issued (h.issued x);
  }

  add_tool_call-KeepsCalls :
      (id : Text) (name : String) (arguments result : Value) (s : Store)
      → is_dict arguments ≡ true
      → is_dict result ≡ true
      → KeepsCalls s (add_tool_call w id name arguments result s)
  unfolding add_tool_call
  add_tool_call-KeepsCalls id name arguments result s a r = record {
    more_drawn = omega arith;
    dicts = λ h. All-append IsDictCall s.tool_calls (_ ∷ []) h ((a, r), tt);
    issued = λ h.
        subst (Issued w (s.drawn + 1)) (sym (map-append (λ c. c.id) s.tool_calls (_ ∷ [])))
          (issue s.drawn h (omega arith) (omega arith));
  }

  is_dict-model_dump : (a : Arguments) → is_dict (model_dump w a) ≡ true
  unfolding model_dump
  is_dict-model_dump (process_connections a) = refl
  is_dict-model_dump (top_network_processes a) = refl
  is_dict-model_dump (connection_bursts a) = refl
  is_dict-model_dump (unusual_destinations a) = refl
  is_dict-model_dump (event_timeline a) = refl

module _ (w : World) (E : Engine) (p : Pydantic) where
  is_dict-run_tool :
      (now : ℕ) (events : List ConnectionEvent) (a : Arguments)
      → is_dict (run_tool w E now events a) ≡ true
  unfolding run_tool
  is_dict-run_tool now events (process_connections a) = refl
  is_dict-run_tool now events (top_network_processes a) = refl
  is_dict-run_tool now events (connection_bursts a) = refl
  is_dict-run_tool now events (unusual_destinations a) = refl
  is_dict-run_tool now events (event_timeline a) = refl

  call_tool-KeepsCalls :
      (tool : Tool) (validated : Option Arguments) (raw : Fields) (id : Text) (s : Store)
      → KeepsCalls w s (call_tool w E p tool validated raw id s).1
  unfolding call_tool
  call_tool-KeepsCalls tool none raw id s =
      add_tool_call-KeepsCalls w id (tool_name tool) _ _ s refl refl
  call_tool-KeepsCalls tool (some a) raw id s =
      KeepsCalls-trans w s (record s { reads = s.reads + 1 }) _
        (record { more_drawn = omega arith; dicts = λ h. h; issued = λ h. h })
        (add_tool_call-KeepsCalls w id (tool_name tool) _ _ (record s { reads = s.reads + 1 })
          (is_dict-model_dump w a) (is_dict-run_tool (w.now s.reads) s.events a))

  dispatch-KeepsCalls :
      (tool : Option Tool) (name : String) (raw : Fields) (id : Text) (s : Store)
      → KeepsCalls w s (dispatch w E p tool name raw id s).1
  dispatch-KeepsCalls none name raw id s = add_tool_call-KeepsCalls w id name _ _ s refl refl
  dispatch-KeepsCalls (some tool) name raw id s =
      call_tool-KeepsCalls tool (model_validate p tool raw) raw id s

  pub execute_agent_tool-KeepsCalls :
      (name : String) (raw : Fields) (id : Text) (s : Store)
      → KeepsCalls w s (execute_agent_tool w E p name raw id s).1
  unfolding execute_agent_tool
  execute_agent_tool-KeepsCalls name raw id s = dispatch-KeepsCalls (registered name) name raw id s

  run_chosen-KeepsCalls :
      (provider : Result LlmProvider) (question id : Text) (s : Store)
      → KeepsCalls w s (run_chosen w E p provider question id s).1
  run_chosen-KeepsCalls (raises e) question id s = KeepsCalls-refl w s
  run_chosen-KeepsCalls (returns provider) question id s =
      run_with_provider_kept w E p id (KeepsCalls w)
        (record {
          none_called = KeepsCalls-refl w;
          in_sequence = KeepsCalls-trans w;
          one_called = λ name raw t. execute_agent_tool-KeepsCalls name raw id t;
        })
        provider question s

  -- A request to investigate draws the investigation's own ID first.
  pub create_investigation-KeepsCalls :
      (env : Option Text) (gemini : Result LlmProvider) (question : Text) (s : Store)
      → (suc s.drawn ≤ (create_investigation w E p env gemini question s).1.drawn)
        × KeepsCalls w s (create_investigation w E p env gemini question s).1
  unfolding create_investigation close_investigation run_investigation_agent add_investigation
  create_investigation-KeepsCalls env gemini question s =
      let row = new_investigation w question s in
      let s1 = add_investigation w row s in
      let ran = run_chosen-KeepsCalls (chosen w E p none env gemini) question row.id s1 in
      (
        omega (arith, ran.more_drawn),
        record {
          more_drawn = omega (arith, ran.more_drawn);
          dicts = ran.dicts;
          issued = λ h. ran.issued (Issued_later w h (omega arith));
        },
      )
