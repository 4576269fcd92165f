-- ===== src/Llm/Mock/Requests.antt =====
-- backend/app/agent.py, the tool requests of one round, as the demo provider makes them.
use trace_pilot.Prelude.{
  ◌==◌, list_eq, number_eq, list_beq_iff, ◌≡◌, refl, Text, String, List, [], ◌∷◌, ◌++◌, All, some,
  count_if, arith, Bool-cases, inl, subst, append-nil, inr, ap, ◌∙◌, ap₂, append_assoc, All-append,
  sym,
}
use trace_pilot.Tools.Arguments.{Pydantic, Tool, Arguments, registered, model_validate}
use trace_pilot.Store.{ConnectionEvent, World, Store}
use trace_pilot.Llm.Base.{ToolRequest, ToolResult}
use trace_pilot.Evidence.RoundTrip.{IsEventId}
use trace_pilot.Sql.Statement.{Engine, IsEngine}
use trace_pilot.Tools.Evidence.{IsStored, run_tool-IsStored}
use trace_pilot.Tools.Execute.{execute_agent_tool, call_tool}
use trace_pilot.Agent.Loop.{run_requests}
use trace_pilot.Llm.Mock.Acceptance.{returned}
use trace_pilot.Json.{Fields, Value}
use trace_pilot.Exec.{Result, returns, Exec, continue}
use trace_pilot.Tools.Results.{run_tool}
use trace_pilot.Tools.Execute.Audit.{execute_agent_tool-Audited}
use trace_pilot.Evidence.Extract.{extract_tool_event_ids}

-- A request for a tool that is registered, with arguments that its model takes.
abbrev pub IsValidRequest : Pydantic → ToolRequest → Type 0
IsValidRequest p request =
    (tool : Tool) × (arguments : Arguments) × (registered request.name ≡ some tool)
    × (model_validate p tool request.arguments ≡ some arguments)

pub stored-IsEventId :
    (events : List ConnectionEvent) (id : Text)
    → All (λ e. IsEventId e.id) events
    → IsStored events id
    → IsEventId id
unfolding count_if
stored-IsEventId [] id h k = absurd (omega arith)
stored-IsEventId (e ∷ events) id h k = elim (Bool-cases (e.id == id)) [
  | inl same ↦ subst IsEventId ((list_beq_iff e.id id).0 same) h.0
  | inr other ↦ stored-IsEventId events id h.1 (ground (arith, k, other))
]

module _ (w : World) (E : Engine) (p : Pydantic) (investigation_id : Text)
    (lawful : IsEngine E) where
  execute_valid :
      (tool : Tool) (arguments : Arguments) (name : String) (raw : Fields) (s : Store)
      → registered name ≡ some tool
      → model_validate p tool raw ≡ some arguments
      → (execute_agent_tool w E p name raw investigation_id s).0
        ≡ returns (run_tool w E (w.now s.reads) s.events arguments)
  unfolding execute_agent_tool call_tool
  execute_valid tool arguments name raw s h k = rw (h, k) refl

  -- All requests were answered, with IDs of stored events.
  pub record Answered (allowed : List Text) (results : List ToolResult) (s : Store)
      (r : Result (List Text × List ToolResult) × Store) : Type 0 where
    pub given : List ToolResult
    pub answer : r.0 ≡ returns (allowed ++ returned given, results ++ given)
    pub stored : All (IsStored s.events) (returned given)

  abbrev next_requests :
      ToolRequest
      → List ToolRequest
      → List Text
      → List ToolResult
      → Value
      → Exec Store (List Text × List ToolResult)
  next_requests request requests allowed results v =
      run_requests w E p investigation_id requests (allowed ++ extract_tool_event_ids v) (
        results
        ++ (record { call_id = request.call_id; tool_name = request.name; result = v } ∷ []))

  pub run_requests-Answered :
      (requests : List ToolRequest) (allowed : List Text) (results : List ToolResult) (s : Store)
      → All (IsValidRequest p) requests
      → Answered allowed results s (run_requests w E p investigation_id requests allowed results s)
  unfolding run_requests returned
  run_requests-Answered [] allowed results s h = record {
    given = [];
    answer = ap₂ (λ a b. returns (a, b)) (sym (append-nil allowed)) (sym (append-nil results));
    stored = tt;
  }
  run_requests-Answered (request ∷ requests) allowed results s ((tool, arguments, h, k), valid) =
      let v = run_tool w E (w.now s.reads) s.events arguments in
      let q = execute_agent_tool w E p request.name request.arguments investigation_id s in
      let audited =
        execute_agent_tool-Audited w E p request.arguments investigation_id s request.name in
      let result : ToolResult = record {
        call_id = request.call_id;
        tool_name = request.name;
        result = v;
      } in
      let rest =
        run_requests-Answered requests (allowed ++ extract_tool_event_ids v)
          (results ++ (result ∷ [])) q.1 valid in
      record {
        given = result ∷ rest.given;
        answer =
            ap (λ r. (continue r (next_requests request requests allowed results) q.1).0)
              (execute_valid tool arguments request.name request.arguments s h k)
            ∙ rest.answer
            ∙ ap₂ (λ a b. returns (a, b))
                (append_assoc allowed (extract_tool_event_ids v) (returned rest.given))
                (append_assoc results (result ∷ []) rest.given);
        stored =
            All-append (IsStored s.events) (extract_tool_event_ids v) (returned rest.given)
              (run_tool-IsStored w E lawful (w.now s.reads) s.events arguments)
              (subst (λ es. All (IsStored es) (returned rest.given)) audited.events rest.stored);
      }
