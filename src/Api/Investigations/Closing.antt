-- ===== src/Api/Investigations/Closing.antt =====
-- backend/app/main.py, `create_investigation`: the ways in which an investigation ends.
use trace_pilot.Prelude.{
  ℕ, ◌==◌, list_eq, number_eq, ◌≡◌, ◌≢◌, refl, ◌∙◌, ap, false, Text, codes, List, [], ◌∷◌, ◌++◌,
  All, All-mono, Option, none, some, list_beq_iff, contains-All, ◌⊎◌,
}
use trace_pilot.Json.{str}
use trace_pilot.Store.{
  World, Store, Investigation, AgentToolCall, completed, failed, ConnectionEvent,
}
use trace_pilot.Exec.{Result, returns, raises}
use trace_pilot.Sql.{Engine, IsEngine}
use trace_pilot.Tools.Arguments.{Pydantic}
use trace_pilot.Tools.Evidence.{IsStored}
use trace_pilot.Evidence.Citations.{cited_event_ids}
use trace_pilot.Evidence.Verdicts.{AllReturned, validate_report_evidence-accepted}
use trace_pilot.Llm.Base.{LlmProvider}
use trace_pilot.Agent.Trace.{Extends-refl, returned_ids}
use trace_pilot.Agent.Report.{ReportRun, Justified, run_with_provider-ReportRun}
use trace_pilot.Api.Response.{Response, sends, http_error}
use trace_pilot.Api.Investigations.{
  find_investigation, update_investigation, failure_answer, new_investigation, add_investigation,
  closed, reply, close_investigation, run_chosen, chosen, run_investigation_agent,
  create_investigation,
}

-- No row has the ID.
abbrev pub IsFresh : Text → List Investigation → Type 0
IsFresh id = All (λ i. (i.id == id) ≡ false)

update-fresh :
    (id : Text) (f : Investigation → Investigation) (is : List Investigation) (row : Investigation)
    → IsFresh id is
    → row.id ≡ id
    → update_investigation id f (is ++ (row ∷ [])) ≡ is ++ (f row ∷ [])
unfolding update_investigation
update-fresh id f [] row h e = rw ((list_beq_iff row.id id).1 e)
update-fresh id f (i ∷ is) row h e = rw h.0 (ap (λ l. i ∷ l) (update-fresh id f is row h.1 e))

pub find-fresh :
    (id : Text) (is : List Investigation) (row : Investigation)
    → IsFresh id is
    → row.id ≡ id
    → find_investigation id (is ++ (row ∷ [])) ≡ some row
find-fresh id [] row h e = rw ((list_beq_iff row.id id).1 e)
find-fresh id (i ∷ is) row h e = rw h.0 (find-fresh id is row h.1 e)

-- What the response and the row say, with the audit records of the run.
pub data Outcome (events : List ConnectionEvent) (calls : List AgentToolCall) (row : Investigation)
    : Response Investigation → Type 0 where
  completes :
      (report : Text)
      → row.status ≡ completed
      → row.answer ≡ some report
      → report ≢ []
      → AllReturned (cited_event_ids report) (returned_ids calls)
      → All (IsStored events) (cited_event_ids report)
      → (returned_ids calls ≡ []) ⊎ (cited_event_ids report ≢ [])
      → Outcome events calls row (sends 201 row)
  fails :
      row.status ≡ failed
      → row.answer ≡ some failure_answer
      → Outcome events calls row (http_error 502 (str (codes "Investigation agent failed.")))

pub record Closes (id question : Text) (s : Store) (r : Response Investigation × Store)
    : Type 0 where
  pub row : Investigation
  pub calls : List AgentToolCall
  pub added : r.1.investigations ≡ s.investigations ++ (row ∷ [])
  pub row_id : row.id ≡ id
  pub row_question : row.question ≡ question
  pub finished : row.completed_at ≢ none
  pub outcome : Outcome s.events calls row r.0
  pub logged : r.1.tool_calls ≡ s.tool_calls ++ calls
  pub own : All (λ c. c.investigation_id ≡ id) calls
  pub events : r.1.events ≡ s.events

module _ (w : World) (E : Engine) (p : Pydantic) (lawful : IsEngine E) where
  run_chosen-ReportRun :
      (provider : Result LlmProvider) (question id : Text) (s : Store)
      → ReportRun w E p id lawful [] s (run_chosen w E p provider question id s)
  run_chosen-ReportRun (returns provider) question id s =
      run_with_provider-ReportRun w E p id lawful provider question s
  run_chosen-ReportRun (raises e) question id s = record { run = Extends-refl id s; justified = tt }

  closed_fields :
      (r : Result Text) (now : ℕ) (row : Investigation)
      → ((closed w r now row).id ≡ row.id)
        × ((closed w r now row).question ≡ row.question)
        × ((closed w r now row).completed_at ≢ none)
  closed_fields (returns report) now row = (refl, refl, λ e. cc)
  closed_fields (raises e) now row = (refl, refl, λ x. cc)

  Outcome-of :
      (id : Text) (s : Store) (calls : List AgentToolCall) (r : Result Text) (now : ℕ)
      (row : Investigation)
      → Justified w E p id lawful [] s calls r
      → Outcome s.events calls (closed w r now row) (reply w r (closed w r now row))
  Outcome-of id s calls (raises e) now row h = fails refl refl
  Outcome-of id s calls (returns report) now row h =
      let (returned, cites) =
        (validate_report_evidence-accepted report (returned_ids calls)).0 h.1 in
      completes report refl refl h.0 returned
        (All-mono _ _ (cited_event_ids report) (λ cited k. contains-All _ _ cited h.2 k) returned)
        cites

  -- With an ID that no investigation has, and while the database answers every statement, a
  -- request adds exactly one investigation, which keeps its question and ends completed or failed.
  -- If it is completed, the response is 201 with the row, and its answer is a report that cites
  -- only IDs of stored events that the audited tool calls of this run returned, and at least one if
  -- they returned any. If it failed, the response is 502, and the answer is the fixed text. Earlier
  -- rows and all events stay as they were.
  pub create_investigation-Closes :
      (env : Option Text) (gemini : Result LlmProvider) (question : Text) (s : Store)
      → IsFresh (w.uuid4 s.drawn) s.investigations
      → Closes (w.uuid4 s.drawn) question s (create_investigation w E p env gemini question s)
  unfolding create_investigation close_investigation add_investigation run_investigation_agent
  create_investigation-Closes env gemini question s fresh =
      let row = new_investigation w question s in
      let s1 = add_investigation w row s in
      let q = run_chosen w E p (chosen w E p none env gemini) question row.id s1 in
      let ran = run_chosen-ReportRun (chosen w E p none env gemini) question row.id s1 in
      record {
        row = closed w q.0 (w.now q.1.reads) row;
        calls = ran.run.calls;
        added =
            ap (update_investigation row.id (closed w q.0 (w.now q.1.reads))) ran.run.investigations
            ∙ update-fresh row.id (closed w q.0 (w.now q.1.reads)) s.investigations row fresh refl;
        row_id = (closed_fields q.0 _ row).0;
        row_question = (closed_fields q.0 _ row).1;
        finished = (closed_fields q.0 _ row).2;
        outcome = Outcome-of row.id s1 ran.run.calls q.0 _ row ran.justified;
        logged = ran.run.logged;
        own = ran.run.own;
        events = ran.run.events;
      }
