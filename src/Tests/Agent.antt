-- ===== src/Tests/Agent.antt =====
-- Investigations.
use trace_pilot.Prelude.{
  ◌≡◌, ◌≢◌, refl, Text, codes, List, [], ◌∷◌, ◌++◌, All, some, none, SameElements,
}
use trace_pilot.Exec.{returns}
use trace_pilot.Sql.Reference.{reference, reference-IsEngine}
use trace_pilot.Agent.Loop.{run_with_provider}
use trace_pilot.Agent.Report.{ReportRun, run_with_provider-ReportRun}
use trace_pilot.Api.Investigations.{create_investigation}
use trace_pilot.Api.Investigations.Closing.{Closes, create_investigation-Closes}
use trace_pilot.Json.{str}
use trace_pilot.Tests.Fixtures.{event_2, world, pydantic, store, scripted}
use trace_pilot.Evidence.RoundTrip.{citation}
use trace_pilot.Llm.Factory.{provider_setting}
use trace_pilot.Api.Response.{http_error}
use trace_pilot.Api.Investigations.Setting.{create_investigation_other_provider}

abbrev question : Text
question = codes "Why did PID 4242 open connections?"

scripted_report :
    (run_with_provider world reference pydantic (codes "i") scripted question store).0
    ≡ returns (codes "New: " ++ citation event_2)
unfolding run_with_provider trace_pilot.Agent.Loop.rounds trace_pilot.Agent.Loop.run_requests
    trace_pilot.Tools.Execute.execute_agent_tool trace_pilot.Tools.Arguments.registered
    trace_pilot.Tools.Execute.call_tool trace_pilot.Tools.Arguments.model_validate
    trace_pilot.Tools.Arguments.required_int trace_pilot.Agent.Loop.finish
    trace_pilot.Evidence.Validate.validate_report_evidence trace_pilot.Prelude.list_beq
    trace_pilot.Prelude.contains trace_pilot.Evidence.Extract.extract_tool_event_ids
    trace_pilot.Tools.Results.run_tool reference trace_pilot.Prelude.Decimal.sorted_texts
    trace_pilot.Evidence.Extract.string_items
scripted_report = refl

run_with_provider-ReportRun_example :
    ReportRun world reference pydantic
      (codes "i")
      reference-IsEngine
      []
      store
      (run_with_provider world reference pydantic (codes "i") scripted question store)
run_with_provider-ReportRun_example =
    run_with_provider-ReportRun world reference pydantic (codes "i") reference-IsEngine scripted
      question store

create_investigation-Closes_example : Closes (codes "id-0") question store (
    create_investigation world reference pydantic
      (some (codes " Gemini\n"))
      (returns scripted)
      question
      store)
unfolding trace_pilot.Prelude.Decimal.decimal
create_investigation-Closes_example =
    create_investigation-Closes world reference pydantic reference-IsEngine
      (some (codes " Gemini\n")) (returns scripted) question store tt

create_investigation_other_provider_example :
    ((create_investigation world reference pydantic none (returns scripted) question store).0
      ≡ http_error 502 (str (codes "Investigation agent failed.")))
    × ((create_investigation world reference pydantic none
          (returns scripted)
          question
          store).1.tool_calls
        ≡ store.tool_calls)
unfolding provider_setting
create_investigation_other_provider_example =
    create_investigation_other_provider world reference pydantic none (returns scripted) question
      store (λ e. cc)
