-- ===== src/Llm/OpenAi.antt =====
-- backend/app/llm/openai_provider.py: `OpenAIProvider`, on the client's `responses.create` and on
-- `json.loads`, which are not part of the repository.
pub mod Conversation
use trace_pilot.Prelude.{Text, String, Option, none, some, List, [], ◌∷◌, ◌++◌, map}
use trace_pilot.Json.{Value, Fields}
use trace_pilot.Exec.{Result, returns, raises, value_error}
use trace_pilot.Llm.Base.{LlmProvider, ProviderResponse, ToolRequest, ToolResult}

-- An element of `response.output`: a function call, with its arguments as JSON text, or another.
pub data OutputItem : Type 0 where
  function_call : Text → String → Text → OutputItem
  other_item : Value → OutputItem

-- An element of `input`. `json.dumps` of a result is shown as the result.
pub data InputItem : Type 0 where
  user_message : Text → InputItem
  output_item : OutputItem → InputItem
  function_call_output : Text → Value → InputItem

pub record OpenAiResponse : Type 0 where
  pub output : List OutputItem
  pub output_text : Text

-- instructions, tools, input
abbrev pub Client : Type 0
Client = Text → List Value → List InputItem → Result OpenAiResponse

-- `response.output_text or None`
abbrev pub text_or_none : Text → Option Text
text_or_none [] = none
text_or_none (c ∷ cs) = some (c ∷ cs)

module _ (loads : Text → Option Fields) where
  abbrev pub add_request :
      Text → String → Option Fields → Option (List ToolRequest) → Option (List ToolRequest)
  add_request call_id name none rest = none
  add_request call_id name (some arguments) none = none
  add_request call_id name (some arguments) (some rest) =
      some (record { call_id = call_id; name = name; arguments = arguments } ∷ rest)

  -- `none` is the `JSONDecodeError` of arguments that are no JSON. The service documents the
  -- arguments of a call as a JSON object; other JSON, which `json.loads` would take, is left out.
  unfoldable pub requests_of : List OutputItem → Option (List ToolRequest)
  requests_of [] = some []
  requests_of (function_call call_id name arguments ∷ items) =
      add_request call_id name (loads arguments) (requests_of items)
  requests_of (other_item v ∷ items) = requests_of items

  abbrev pub with_requests :
      Option (List ToolRequest)
      → OpenAiResponse
      → List InputItem
      → Result (ProviderResponse (List InputItem))
  with_requests none response input_items = raises (value_error "JSONDecodeError")
  with_requests (some requests) response input_items = returns (record {
    text = text_or_none response.output_text;
    tool_requests = requests;
    state = input_items ++ map output_item response.output;
  })

  unfoldable pub convert_response :
      OpenAiResponse → List InputItem → Result (ProviderResponse (List InputItem))
  unfolding requests_of
  convert_response response input_items =
      with_requests (requests_of response.output) response input_items

  module _ (client : Client) where
    abbrev pub converted :
        Result OpenAiResponse → List InputItem → Result (ProviderResponse (List InputItem))
    converted (returns response) input_items = convert_response response input_items
    converted (raises e) input_items = raises e

    unfoldable pub create :
        List Value → Text → List InputItem → Result (ProviderResponse (List InputItem))
    unfolding convert_response
    create tools instructions input_items =
        converted (client instructions tools input_items) input_items

    abbrev pub call_outputs : List ToolResult → List InputItem
    call_outputs = map (λ r. function_call_output r.call_id r.result)

    -- The state is `input_items`.
    abbrev pub openai_provider : LlmProvider
    openai_provider = record {
      State = List InputItem;
      start = λ question tools instructions. create tools instructions (user_message question ∷ []);
      continue_with_tool_results = λ state results tools instructions.
          create tools instructions (state ++ call_outputs results);
    }
