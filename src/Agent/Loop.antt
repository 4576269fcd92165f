-- ===== src/Agent/Loop.antt =====
-- backend/app/agent.py, `run_investigation_agent`.
use trace_pilot.Prelude.{ℕ, zero, suc, Text, Option, none, some, List, [], ◌∷◌, ◌++◌}
use trace_pilot.Store.{World, Store}
use trace_pilot.Exec.{
  Exec, Result, returns, raises, raise, lift, pure, ◌>>=◌, evidence_error, no_report,
  too_many_rounds,
}
use trace_pilot.Sql.{Engine}
use trace_pilot.Evidence.Extract.{extract_tool_event_ids}
use trace_pilot.Evidence.Validate.{Verdict, accepted, rejected, validate_report_evidence}
use trace_pilot.Tools.Arguments.{Pydantic}
use trace_pilot.Tools.Execute.{execute_agent_tool}
use trace_pilot.Llm.Base.{LlmProvider, ToolRequest, ProviderResponse, ToolResult}
use trace_pilot.Agent.Definitions.{tools, system_prompt}

-- `maximum_rounds`
abbrev pub maximum_rounds : ℕ
maximum_rounds = 8

-- The report is returned if its evidence is accepted.
abbrev pub checked : Text → Verdict → Result Text
checked report accepted = returns report
checked report (rejected e) = raises (evidence_error e)

-- A response with no tool requests: `None` and the empty text are no report.
unfoldable pub finish : Option Text → List Text → Result Text
finish none allowed = raises no_report
finish (some []) allowed = raises no_report
finish (some (c ∷ cs)) allowed = checked (c ∷ cs) (validate_report_evidence (c ∷ cs) allowed)

module _ (w : World) (E : Engine) (p : Pydantic) (investigation_id : Text) where
  -- The tool requests of one round in turn, with the IDs allowed so far and the results so far.
  unfoldable pub run_requests :
      List ToolRequest → List Text → List ToolResult → Exec Store (List Text × List ToolResult)
  run_requests [] allowed results = pure (allowed, results)
  run_requests (request ∷ requests) allowed results = do
    result ← execute_agent_tool w E p request.name request.arguments investigation_id
    run_requests requests (allowed ++ extract_tool_event_ids result) (
        results
        ++ (record { call_id = request.call_id; tool_name = request.name; result = result } ∷ []))

  module _ (provider : LlmProvider) where
    -- The loop with the rounds that are left.
    unfoldable pub rounds : ℕ → ProviderResponse provider.State → List Text → Exec Store Text
    rounds zero response allowed = raise too_many_rounds
    rounds (suc n) response allowed = elim response.tool_requests [
      | [] ↦ lift (finish response.text allowed)
      | _ ∷ _ ↦ do
        (allowed', results) ← run_requests response.tool_requests allowed []
        next ← lift (provider.continue_with_tool_results response.state results tools system_prompt)
        rounds n next allowed'
    ]

    unfoldable pub run_with_provider : Text → Exec Store Text
    run_with_provider question = do
      response ← lift (provider.start question tools system_prompt)
      rounds maximum_rounds response []
