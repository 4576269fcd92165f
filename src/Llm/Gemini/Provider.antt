-- ===== src/Llm/Gemini/Provider.antt =====
-- backend/app/llm/gemini_provider.py: `GeminiProvider`, on the client's `generate_content`, which is
-- not part of the repository.
use trace_pilot.Prelude.{ℕ, Text, Bool, true, Option, none, some, List, [], ◌∷◌, ◌++◌}
use trace_pilot.Json.{Value}
use trace_pilot.Exec.{Result, returns, raises, provider_error}
use trace_pilot.Llm.Base.{LlmProvider, ProviderResponse}
use trace_pilot.Llm.Gemini.{
  ContentPart, PendingCalls, FunctionResponse, convert_parts, convert_response, function_responses,
}
use trace_pilot.Llm.Gemini.Declarations.{FunctionDeclaration, convert_tools}

-- `part.text` and `part.function_call` of the parts, of which there may be none.
pub record ModelContent : Type 0 where
  pub parts : Option (List ContentPart)

-- An element of `contents`: the question, an answer of the model, or function responses.
pub data Content : Type 0 where
  user_text : Text → Content
  model_content : ModelContent → Content
  user_responses : List FunctionResponse → Content

-- `GenerateContentConfig`
pub record GenerateConfig : Type 0 where
  pub system_instruction : Text
  pub tools : List (List FunctionDeclaration)
  pub automatic_function_calling_disabled : Bool

-- The content of each candidate; an empty list is also no list.
pub record GeminiResponse : Type 0 where
  pub candidates : List (Option ModelContent)

abbrev pub Client : Type 0
Client = List Content → GenerateConfig → Result GeminiResponse

-- `drawn` counts the UUIDs that the provider has drawn.
pub record GeminiState : Type 0 where
  pub contents : List Content
  pub pending_calls : PendingCalls
  pub drawn : ℕ

abbrev pub config_with : Text → Result (List (List FunctionDeclaration)) → Result GenerateConfig
config_with instructions (raises e) = raises e
config_with instructions (returns tools) = returns (record {
  system_instruction = instructions;
  tools = tools;
  automatic_function_calling_disabled = true;
})

unfoldable pub build_config : List Value → Text → Result GenerateConfig
unfolding convert_tools
build_config tools instructions = config_with instructions (convert_tools tools)

-- `model_content.parts or []`
abbrev pub parts_of : Option (List ContentPart) → List ContentPart
parts_of none = []
parts_of (some parts) = parts

module _ (uuid4 : ℕ → Text) where
  abbrev drawn_after : ℕ → List ContentPart → ℕ
  drawn_after drawn parts =
      (convert_parts uuid4 parts
        (record { text_parts = []; tool_requests = []; pending_calls = []; drawn = drawn })).drawn

  abbrev pub with_contents :
      List Content → ℕ → ProviderResponse PendingCalls → ProviderResponse GeminiState
  with_contents contents drawn r = record {
    text = r.text;
    tool_requests = r.tool_requests;
    state = record { contents = contents; pending_calls = r.state; drawn = drawn };
  }

  abbrev pub convert_content : Option ModelContent → List Content → ℕ → ProviderResponse GeminiState
  convert_content none contents drawn =
      with_contents contents drawn (convert_response uuid4 drawn [])
  convert_content (some content) contents drawn =
      let parts = parts_of content.parts in
      with_contents (contents ++ (model_content content ∷ [])) (drawn_after drawn parts)
        (convert_response uuid4 drawn parts)

  -- The first candidate counts.
  abbrev pub convert_candidates :
      List (Option ModelContent) → List Content → ℕ → ProviderResponse GeminiState
  convert_candidates [] contents drawn = record {
    text = none;
    tool_requests = [];
    state = record { contents = contents; pending_calls = []; drawn = drawn };
  }
  convert_candidates (content ∷ others) contents drawn = convert_content content contents drawn

  module _ (client : Client) where
    abbrev pub converted :
        Result GeminiResponse → List Content → ℕ → Result (ProviderResponse GeminiState)
    converted (raises e) contents drawn = raises e
    converted (returns response) contents drawn =
        returns (convert_candidates response.candidates contents drawn)

    abbrev pub generate_with :
        Result GenerateConfig → List Content → ℕ → Result (ProviderResponse GeminiState)
    generate_with (raises e) contents drawn = raises e
    generate_with (returns config) contents drawn =
        converted (client contents config) contents drawn

    unfoldable pub generate :
        List Value → Text → List Content → ℕ → Result (ProviderResponse GeminiState)
    unfolding build_config
    generate tools instructions contents drawn =
        generate_with (build_config tools instructions) contents drawn

    -- A call ID that is not known is a `RuntimeError`.
    abbrev pub continue_with :
        Option (List FunctionResponse)
        → GeminiState
        → List Value
        → Text
        → Result (ProviderResponse GeminiState)
    continue_with none state tools instructions = raises provider_error
    continue_with (some responses) state tools instructions =
        generate tools instructions (state.contents ++ (user_responses responses ∷ [])) state.drawn

    abbrev pub gemini_provider : LlmProvider
    gemini_provider = record {
      State = GeminiState;
      start =
          λ question tools instructions. generate tools instructions (user_text question ∷ []) 0;
      continue_with_tool_results = λ state results tools instructions.
          continue_with (function_responses state.pending_calls results) state tools instructions;
    }

    -- `GeminiProvider()`, which needs the API key of the environment.
    abbrev pub new_gemini_provider : Option Text → Result LlmProvider
    new_gemini_provider none = raises provider_error
    new_gemini_provider (some []) = raises provider_error
    new_gemini_provider (some (c ∷ key)) = returns gemini_provider
