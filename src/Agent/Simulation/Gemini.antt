-- ===== src/Agent/Simulation/Gemini.antt =====
-- backend/app/agent.py with backend/app/llm/gemini_provider.py: looking up a call by its ID,
-- against answering the calls one by one.
use trace_pilot.Prelude.{
  IsDistinct, list_eq, number_eq, ◌≡◌, refl, subst, ap, ◌==◌, key_eq, Text, Option, some, none,
  List, [], ◌∷◌, ◌++◌, All, false, ℕ,
}
use trace_pilot.Exec.{Result, returns, raises}
use trace_pilot.Json.{Value}
use trace_pilot.Llm.Base.{LlmProvider, ProviderResponse, ToolResult, ToolRequest, Answers}
use trace_pilot.Llm.Gemini.{convert_response, function_responses}
use trace_pilot.Llm.Gemini.Calls.{call_ids, responses_to, function_responses-convert_response}
use trace_pilot.Llm.Gemini.Provider.{
  Client, Content, ModelContent, GeminiState, GenerateConfig, GeminiResponse, gemini_provider,
  generate, generate_with, converted, convert_candidates, convert_content, user_text,
  user_responses, parts_of, build_config,
}
use trace_pilot.Agent.Simulation.{
  Agree, Alike, both_return, both_raise, run_with_provider-Agree, World, Engine, Pydantic, Store,
  run_with_provider,
}

-- A provider that remembers the requests of its last response, and sends the results as the
-- responses to these, one by one, without looking at any ID.
pub record Asked : Type 0 where
  pub contents : List Content
  pub requests : List ToolRequest
  pub drawn : ℕ

abbrev asked : ProviderResponse GeminiState → ProviderResponse Asked
asked r = record {
  text = r.text;
  tool_requests = r.tool_requests;
  state = record { contents = r.state.contents; requests = r.tool_requests; drawn = r.state.drawn };
}

abbrev all_asked : Result (ProviderResponse GeminiState) → Result (ProviderResponse Asked)
all_asked (returns r) = returns (asked r)
all_asked (raises e) = raises e

module _ (uuid4 : ℕ → Text) (client : Client) where
  abbrev pub answering_in_order : LlmProvider
  answering_in_order = record {
    State = Asked;
    start = λ question tools instructions.
        all_asked (generate uuid4 client tools instructions (user_text question ∷ []) 0);
    continue_with_tool_results = λ state results tools instructions. all_asked (
        generate uuid4 client tools instructions
          (state.contents ++ (user_responses (responses_to state.requests results) ∷ []))
          state.drawn);
  }

  -- The calls of a content have names, and IDs that are different, whichever UUIDs are drawn for
  -- those that have none.
  abbrev pub HasDistinctCalls : Option ModelContent → Type 0
  HasDistinctCalls none = Unit
  HasDistinctCalls (some content) =
      (drawn : ℕ)
      → IsDistinct (call_ids (convert_response uuid4 drawn (parts_of content.parts)).tool_requests)
        × All (λ q. (q.name == "") ≡ false)
            (convert_response uuid4 drawn (parts_of content.parts)).tool_requests

  abbrev pub IsOrderly : Type 0
  IsOrderly =
      (contents : List Content) (config : GenerateConfig) (response : GeminiResponse)
      → client contents config ≡ returns response
      → All HasDistinctCalls response.candidates

  abbrev IsKnown : ProviderResponse GeminiState → Type 0
  IsKnown r =
      (results : List ToolResult)
      → Answers r.tool_requests results
      → function_responses r.state.pending_calls results
        ≡ some (responses_to r.tool_requests results)

  abbrev IsAsked : ProviderResponse GeminiState → ProviderResponse Asked → Type 0
  IsAsked r r' = (asked r ≡ r') × IsKnown r

  no_calls-IsKnown :
      (contents : List Content) (drawn : ℕ) → IsKnown (convert_candidates uuid4 [] contents drawn)
  unfolding function_responses
  no_calls-IsKnown contents drawn [] h = refl
  no_calls-IsKnown contents drawn (r ∷ rs) h = absurd h

  convert_content-IsKnown :
      (content : Option ModelContent) (contents : List Content) (drawn : ℕ)
      → HasDistinctCalls content
      → IsKnown (convert_content uuid4 content contents drawn)
  unfolding convert_response
  convert_content-IsKnown none contents drawn h results k =
      function_responses-convert_response uuid4 drawn [] results tt tt k
  convert_content-IsKnown (some content) contents drawn h results k =
      function_responses-convert_response uuid4 drawn (parts_of content.parts) results (h drawn).0
        (h drawn).1 k

  convert_candidates-IsKnown :
      (candidates : List (Option ModelContent)) (contents : List Content) (drawn : ℕ)
      → All HasDistinctCalls candidates
      → IsKnown (convert_candidates uuid4 candidates contents drawn)
  convert_candidates-IsKnown [] contents drawn h = no_calls-IsKnown contents drawn
  convert_candidates-IsKnown (content ∷ others) contents drawn h =
      convert_content-IsKnown content contents drawn h.0

  module _ (orderly : IsOrderly) where
    converted-IsAsked :
        (x : Result GeminiResponse) (contents : List Content) (config : GenerateConfig) (drawn : ℕ)
        → client contents config ≡ x
        → Alike IsAsked
            (converted uuid4 client x contents drawn)
            (all_asked (converted uuid4 client x contents drawn))
    converted-IsAsked (raises e) contents config drawn h = both_raise e
    converted-IsAsked (returns response) contents config drawn h = both_return (
      refl,
      convert_candidates-IsKnown response.candidates contents drawn
          (orderly contents config response h),
    )

    generate_with-IsAsked :
        (x : Result GenerateConfig) (contents : List Content) (drawn : ℕ)
        → Alike IsAsked
            (generate_with uuid4 client x contents drawn)
            (all_asked (generate_with uuid4 client x contents drawn))
    generate_with-IsAsked (raises e) contents drawn = both_raise e
    generate_with-IsAsked (returns config) contents drawn =
        converted-IsAsked (client contents config) contents config drawn refl

    generate-IsAsked :
        (tools : List Value) (instructions : Text) (contents : List Content) (drawn : ℕ)
        → Alike IsAsked
            (generate uuid4 client tools instructions contents drawn)
            (all_asked (generate uuid4 client tools instructions contents drawn))
    unfolding generate
    generate-IsAsked tools instructions contents drawn =
        generate_with-IsAsked (build_config tools instructions) contents drawn

    continue-IsAsked :
        (r : ProviderResponse GeminiState) (r' : ProviderResponse Asked) (results : List ToolResult)
        (tools : List Value) (instructions : Text)
        → IsAsked r r'
        → Answers r.tool_requests results
        → Alike IsAsked
            ((gemini_provider uuid4 client).continue_with_tool_results r.state results tools
              instructions)
            (answering_in_order.continue_with_tool_results r'.state results tools instructions)
    continue-IsAsked r r' results tools instructions (same, known) h =
        subst
          (λ x.
            Alike IsAsked
              ((gemini_provider uuid4 client).continue_with_tool_results r.state results tools
                instructions)
              (answering_in_order.continue_with_tool_results x.state results tools instructions))
          same (rw (known results h) (generate-IsAsked tools instructions _ r.state.drawn))

    gemini_provider-Agree : Agree (gemini_provider uuid4 client) answering_in_order
    gemini_provider-Agree = record {
      Related = IsAsked;
      same_text = λ h. ap (λ r. r.text) h.0;
      same_requests = λ h. ap (λ r. r.tool_requests) h.0;
      starts = λ question tools instructions.
          generate-IsAsked tools instructions (user_text question ∷ []) 0;
      continues = λ r r' results tools instructions same h.
          continue-IsAsked r r' results tools instructions same h;
    }

    module _ (w : World) (E : Engine) (p : Pydantic) (investigation_id : Text) where
      -- If the function calls of a response of the service have names and different IDs, an
      -- investigation with the Gemini provider runs as with one that has no look-up: every result
      -- goes back, in the order of the calls, as the response of the function that was called, and
      -- the error for an unknown call ID does not occur.
      pub run_with_provider-answering_in_order :
          (question : Text) (s : Store)
          → run_with_provider w E p investigation_id (gemini_provider uuid4 client) question s
            ≡ run_with_provider w E p investigation_id answering_in_order question s
      run_with_provider-answering_in_order question s =
          run_with_provider-Agree w E p investigation_id (gemini_provider uuid4 client)
            answering_in_order gemini_provider-Agree question s
