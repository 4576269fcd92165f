-- ===== src/Api/Investigations.antt =====
-- backend/app/main.py: `/investigations` and the debug endpoint, with `InvestigationCreate` of
-- backend/app/schemas.py.
pub mod Closing
pub mod Trail
pub mod Setting
pub mod Debugging
use trace_pilot.Prelude.{
  ℕ, ◌+◌, Text, codes, String, Bool, Option, none, some, List, [], ◌∷◌, ◌++◌, map, length, leb,
  ◌&&◌, ◌==◌, list_eq, number_eq, if◌then◌else◌,
}
use trace_pilot.Json.{Value, str, Fields}
use trace_pilot.Store.{World, Store, Investigation, AgentToolCall, running, completed, failed}
use trace_pilot.Exec.{Exec, Result, returns, raises, raise, tool_not_allowed, validation_error}
use trace_pilot.Sql.{Engine, Select, ascending}
use trace_pilot.Tools.Arguments.{Pydantic}
use trace_pilot.Tools.Execute.{execute_agent_tool, not_permitted}
use trace_pilot.Llm.Base.{LlmProvider}
use trace_pilot.Llm.Factory.{create_llm_provider}
use trace_pilot.Agent.Loop.{run_with_provider}
use trace_pilot.Api.Response.{Response, sends, http_error, server_error}

abbrev pub find_investigation : Text → List Investigation → Option Investigation
find_investigation id [] = none
find_investigation id (i ∷ is) = if i.id == id then some i else find_investigation id is

-- An UPDATE of the row with this ID.
unfoldable pub update_investigation :
    Text → (Investigation → Investigation) → List Investigation → List Investigation
update_investigation id f = map (λ i. if i.id == id then f i else i)

abbrev pub not_found : Value
not_found = str (codes "Investigation not found")

abbrev pub failure_answer : Text
failure_answer = codes "The investigation could not be completed."

module _ (w : World) where
  -- `Investigation(question=…, status="running")`, as it is committed
  abbrev pub new_investigation : Text → Store → Investigation
  new_investigation question s = record {
    id = w.uuid4 s.drawn;
    question = question;
    status = running;
    answer = none;
    created_at = w.now s.reads;
    completed_at = none;
  }

  unfoldable pub add_investigation : Investigation → Store → Store
  add_investigation row s = record s {
    investigations = s.investigations ++ (row ∷ []);
    drawn = s.drawn + 1;
    reads = s.reads + 1;
  }

  -- The end of the `try`, and the `except` block.
  abbrev pub closed : Result Text → ℕ → Investigation → Investigation
  closed (returns answer) now row = record row {
    answer = some answer;
    status = completed;
    completed_at = some now;
  }
  closed (raises e) now row = record row {
    status = failed;
    answer = some failure_answer;
    completed_at = some now;
  }

  abbrev pub reply : Result Text → Investigation → Response Investigation
  reply (returns answer) row = sends 201 row
  reply (raises e) row = http_error 502 (str (codes "Investigation agent failed."))

  unfoldable pub close_investigation :
      Investigation → Result Text → Store → Response Investigation × Store
  unfolding update_investigation
  close_investigation row r s =
      let now = w.now s.reads in
      (
        reply r (closed r now row),
        record s {
          investigations = update_investigation row.id (closed r now) s.investigations;
          reads = s.reads + 1;
        },
      )

module _ (w : World) (E : Engine) (p : Pydantic) where
  -- `if provider is None: provider = create_llm_provider()`
  abbrev pub chosen : Option LlmProvider → Option Text → Result LlmProvider → Result LlmProvider
  chosen none env gemini = create_llm_provider env gemini
  chosen (some provider) env gemini = returns provider

  abbrev pub run_chosen : Result LlmProvider → Text → Text → Exec Store Text
  run_chosen (returns provider) question investigation_id =
      run_with_provider w E p investigation_id provider question
  run_chosen (raises e) question investigation_id = raise e

  unfoldable pub run_investigation_agent :
      Option LlmProvider → Option Text → Result LlmProvider → Text → Text → Exec Store Text
  run_investigation_agent provider env gemini question investigation_id =
      run_chosen (chosen provider env gemini) question investigation_id

  -- `env` is the variable LLM_PROVIDER, and `gemini` what `GeminiProvider()` gives.
  unfoldable pub create_investigation :
      Option Text → Result LlmProvider → Text → Store → Response Investigation × Store
  create_investigation env gemini question s =
      let row = new_investigation w question s in
      let (r, s') =
        run_investigation_agent none env gemini question row.id (add_investigation w row s) in
      close_investigation w row r s'

  -- The `except` clauses of the debug endpoint.
  abbrev pub debug_reply : Result Value → Response Value
  debug_reply (returns v) = sends 200 v
  debug_reply (raises (tool_not_allowed name)) = http_error 403 (str (not_permitted name))
  debug_reply (raises (validation_error details)) = http_error 422 details
  debug_reply (raises e) = server_error e

  abbrev pub debug_call :
      Option Investigation → String → Fields → Text → Store → Response Value × Store
  debug_call none name raw id s = (http_error 404 not_found, s)
  debug_call (some row) name raw id s =
      let (r, s') = execute_agent_tool w E p name raw id s in (debug_reply r, s')

  unfoldable pub debug_execute_agent_tool : Text → String → Fields → Store → Response Value × Store
  debug_execute_agent_tool id name raw s =
      debug_call (find_investigation id s.investigations) name raw id s

unfoldable pub get_investigation : Text → Store → Response Investigation
get_investigation id s = elim (find_investigation id s.investigations) [
  | none ↦ http_error 404 not_found
  | some row ↦ sends 200 row
]

abbrev pub tool_calls_query : Text → Select AgentToolCall
tool_calls_query id = record {
  where_holds = λ c. c.investigation_id == id;
  order = ascending (λ c. c.created_at);
  limit = none;
}

unfoldable pub get_investigation_tool_calls : Engine → Text → Store → Response (List AgentToolCall)
get_investigation_tool_calls E id s = elim (find_investigation id s.investigations) [
  | none ↦ http_error 404 not_found
  | some row ↦ sends 200 (E.select (tool_calls_query id) s.tool_calls)
]

-- `InvestigationCreate`: the length of the question.
unfoldable pub is_valid_question : Text → Bool
is_valid_question question = leb 5 (length question) && leb (length question) 2000
