-- ===== src/Llm/Base.antt =====
-- backend/app/llm/base.py. A provider is a parameter of the agent: any pair of functions, of which
-- the agent assumes nothing. What a call raises is a `Result`.
use trace_pilot.Prelude.{◌≡◌, [], ◌∷◌, String, Text, Option, List}
use trace_pilot.Json.{Value, Fields}
use trace_pilot.Exec.{Result}

pub record ToolRequest : Type 0 where
  pub call_id : Text
  pub name : String
  pub arguments : Fields

pub record ProviderResponse (State : Type 0) : Type 0 where
  pub text : Option Text
  pub tool_requests : List ToolRequest
  pub state : State

-- An element of `tool_results`.
pub record ToolResult : Type 0 where
  pub call_id : Text
  pub tool_name : String
  pub result : Value

-- Results for some requests: one for each, in order, with its call ID.
abbrev pub Answers : List ToolRequest → List ToolResult → Type 0
Answers [] [] = Unit
Answers (q ∷ qs) (r ∷ rs) = (r.call_id ≡ q.call_id) × Answers qs rs
Answers [] (r ∷ rs) = ⊥
Answers (q ∷ qs) [] = ⊥

pub record LlmProvider : Type 1 where
  pub State : Type 0
  -- question, tools, instructions
  pub start : Text → List Value → Text → Result (ProviderResponse State)
  -- state, tool results, tools, instructions
  pub continue_with_tool_results :
      State → List ToolResult → List Value → Text → Result (ProviderResponse State)
