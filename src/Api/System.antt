-- ===== src/Api/System.antt =====
-- backend/app/main.py: sequences of requests, and the stores that they lead to.
pub mod Calls
pub mod Events
pub mod Rows
pub mod Invariant
use trace_pilot.Prelude.{
  leb, length, codes, ◌&&◌, ℕ, ◌≡◌, ◌≢◌, ◌⊎◌, ◌<◌, ◌≤◌, true, Bool, Option, some, none, Text,
  String, List, [], All, map, contains, list_eq, number_eq, if◌then◌else◌, suc, ◌∷◌, ◌++◌,
}
use trace_pilot.Json.{Value, Fields, is_dict}
use trace_pilot.Exec.{Result}
use trace_pilot.Store.{World, Store, Investigation, AgentToolCall, completed, failed, empty_store}
use trace_pilot.Api.Events.{EventBody, create_event, create_event_batch}
use trace_pilot.Api.Events.Validation.{IsEvent, row_body}
use trace_pilot.Api.Investigations.{
  create_investigation, is_valid_question, debug_execute_agent_tool, failure_answer,
}
use trace_pilot.Sql.Statement.{Engine}
use trace_pilot.Api.Ids.{Issued}
use trace_pilot.Tools.Arguments.{Pydantic}
use trace_pilot.Llm.Base.{LlmProvider}

-- `AgentToolExecutionRequest`: the length of the tool's name.
unfoldable pub is_valid_tool_name : String → Bool
is_valid_tool_name name = leb 1 (length (codes name)) && leb (length (codes name)) 100

module _ (w : World) (E : Engine) (p : Pydantic) (ge_zero : ℕ → Bool) (details : Value) where
  -- The requests that can write. A question or a tool name of another length is answered 422.
  pub data Request (s : Store) : Store → Type 1 where
    post_event : (body : EventBody) → Request s (create_event w ge_zero details body s).1
    post_batch :
        (bodies : List EventBody) → Request s (create_event_batch w ge_zero details bodies s).1
    investigate :
        (env : Option Text) (gemini : Result LlmProvider) (question : Text)
        → is_valid_question question ≡ true
        → Request s (create_investigation w E p env gemini question s).1
    call_by_hand :
        (id : Text) (name : String) (raw : Fields)
        → is_valid_tool_name name ≡ true
        → Request s (debug_execute_agent_tool w E p id name raw s).1

  -- The stores after some requests on empty tables.
  pub data Reachable : Store → Type 1 where
    at_first : Reachable empty_store
    after : {s s' : Store} → Reachable s → Request s s' → Reachable s'

-- Completed with a report, or failed with the fixed answer, at a known time.
abbrev pub IsFinished : Investigation → Type 0
IsFinished i =
    (i.completed_at ≢ none)
    × (((i.status ≡ completed) × (report : Text) × (i.answer ≡ some report) × (report ≢ []))
        ⊎ ((i.status ≡ failed) × (i.answer ≡ some failure_answer)))

-- The record can be sent as an `AgentToolCallResponse`.
abbrev pub IsDictCall : AgentToolCall → Type 0
IsDictCall c = (is_dict c.arguments ≡ true) × (is_dict c.result ≡ true)

module _ (w : World) (ge_zero : ℕ → Bool) where
  -- Every event meets the constraints of its model; every investigation is finished; every audit
  -- record belongs to an investigation; and the IDs of each table were drawn one after another.
  pub record IsSound (s : Store) : Type 0 where
    pub events_acceptable : All (λ e. IsEvent ge_zero (row_body e)) s.events
    pub event_ids : Issued w s.drawn (map (λ e. e.id) s.events)
    pub investigations_finished : All IsFinished s.investigations
    pub investigation_ids : Issued w s.drawn (map (λ i. i.id) s.investigations)
    pub calls_known :
        All
          (λ c. contains (map (λ i. i.id) s.investigations) c.investigation_id ≡ true)
          s.tool_calls
    pub calls_are_dicts : All IsDictCall s.tool_calls
    pub call_ids : Issued w s.drawn (map (λ c. c.id) s.tool_calls)
