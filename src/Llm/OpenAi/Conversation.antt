-- ===== src/Llm/OpenAi/Conversation.antt =====
-- backend/app/llm/openai_provider.py: the input that is sent to the service.
use trace_pilot.Prelude.{
  ◌≡◌, refl, ap, ap₂, sym, ◌∙◌, append_assoc, append-nil, Text, String, Option, none, some, List,
  [], ◌∷◌, ◌++◌, map, some-injective,
}
use trace_pilot.Llm.OpenAi.{
  OutputItem, InputItem, function_call, user_message, output_item, requests_of, Result, other_item,
  function_call_output, add_request, returns, OpenAiResponse, raises, with_requests, Client,
  convert_response, create, converted, call_outputs, openai_provider,
}
use trace_pilot.Llm.Base.{ProviderResponse, ToolRequest, ToolResult}
use trace_pilot.Json.{Fields, Value}

-- The call IDs of the function calls in the input, and of the outputs.
abbrev pub call_of : OutputItem → List Text
call_of (function_call call_id name arguments) = call_id ∷ []
call_of (other_item v) = []

abbrev pub calls_in : List InputItem → List Text
calls_in [] = []
calls_in (user_message t ∷ items) = calls_in items
calls_in (output_item item ∷ items) = call_of item ++ calls_in items
calls_in (function_call_output id v ∷ items) = calls_in items

abbrev pub outputs_in : List InputItem → List Text
outputs_in [] = []
outputs_in (user_message t ∷ items) = outputs_in items
outputs_in (output_item item ∷ items) = outputs_in items
outputs_in (function_call_output id v ∷ items) = id ∷ outputs_in items

-- Every call in the input has its output, in order, but those of the requests, which are the last.
abbrev pub IsAwaiting : ProviderResponse (List InputItem) → Type 0
IsAwaiting r = calls_in r.state ≡ outputs_in r.state ++ map (λ q. q.call_id) r.tool_requests

abbrev pub IsAnswered : List InputItem → Type 0
IsAnswered items = calls_in items ≡ outputs_in items

calls_in-append : (xs ys : List InputItem) → calls_in (xs ++ ys) ≡ calls_in xs ++ calls_in ys
calls_in-append [] ys = refl
calls_in-append (user_message t ∷ xs) ys = calls_in-append xs ys
calls_in-append (output_item item ∷ xs) ys =
    ap (λ l. call_of item ++ l) (calls_in-append xs ys)
    ∙ sym (append_assoc (call_of item) (calls_in xs) (calls_in ys))
calls_in-append (function_call_output id v ∷ xs) ys = calls_in-append xs ys

outputs_in-append :
    (xs ys : List InputItem) → outputs_in (xs ++ ys) ≡ outputs_in xs ++ outputs_in ys
outputs_in-append [] ys = refl
outputs_in-append (user_message t ∷ xs) ys = outputs_in-append xs ys
outputs_in-append (output_item item ∷ xs) ys = outputs_in-append xs ys
outputs_in-append (function_call_output id v ∷ xs) ys = ap (λ l. id ∷ l) (outputs_in-append xs ys)

outputs_in-output_items : (items : List OutputItem) → outputs_in (map output_item items) ≡ []
outputs_in-output_items [] = refl
outputs_in-output_items (item ∷ items) = outputs_in-output_items items

module _ (loads : Text → Option Fields) where
  add_request-call_id :
      (id : Text) (name : String) (arguments : Option Fields) (rest : Option (List ToolRequest))
      (requests : List ToolRequest)
      → add_request loads id name arguments rest ≡ some requests
      → (tail : List ToolRequest) × (rest ≡ some tail)
        × (map (λ q. q.call_id) requests ≡ id ∷ map (λ q. q.call_id) tail)
  add_request-call_id id name none rest requests h = absurd cc
  add_request-call_id id name (some a) none requests h = absurd cc
  add_request-call_id id name (some a) (some tail) requests h =
      (tail, refl, ap (map (λ q. q.call_id)) (sym (some-injective _ requests h)))

  calls_in-requests_of :
      (items : List OutputItem) (requests : List ToolRequest)
      → requests_of loads items ≡ some requests
      → calls_in (map output_item items) ≡ map (λ q. q.call_id) requests
  unfolding requests_of
  calls_in-requests_of [] requests h = ap (map (λ q. q.call_id)) (some-injective _ requests h)
  calls_in-requests_of (function_call id name a ∷ items) requests h =
      let (tail, e, ids) =
        add_request-call_id id name (loads a) (requests_of loads items) requests h in
      ap (λ l. id ∷ l) (calls_in-requests_of items tail e) ∙ sym ids
  calls_in-requests_of (other_item v ∷ items) requests h = calls_in-requests_of items requests h

  -- What a call of the service gives: an exception, or a response whose requests are awaited.
  abbrev pub AwaitsOrRaises : Result (ProviderResponse (List InputItem)) → Type 0
  AwaitsOrRaises (returns r) = IsAwaiting r
  AwaitsOrRaises (raises e) = Unit

  with_requests-Awaits :
      (o : Option (List ToolRequest)) (response : OpenAiResponse) (input_items : List InputItem)
      → IsAnswered input_items
      → requests_of loads response.output ≡ o
      → AwaitsOrRaises (with_requests loads o response input_items)
  with_requests-Awaits none response input_items h e = tt
  with_requests-Awaits (some requests) response input_items h e =
      let items = map output_item response.output in
      calls_in-append input_items items
      ∙ ap₂ (λ a b. a ++ b) h (calls_in-requests_of response.output requests e)
      ∙ ap (λ l. l ++ map (λ q. q.call_id) requests)
          (sym (append-nil (outputs_in input_items))
            ∙ ap (λ l. outputs_in input_items ++ l) (sym (outputs_in-output_items response.output))
            ∙ sym (outputs_in-append input_items items))

  module _ (client : Client) where
    converted-Awaits :
        (o : Result OpenAiResponse) (input_items : List InputItem)
        → IsAnswered input_items
        → AwaitsOrRaises (converted loads client o input_items)
    unfolding convert_response
    converted-Awaits (raises e) input_items h = tt
    converted-Awaits (returns response) input_items h =
        with_requests-Awaits (requests_of loads response.output) response input_items h refl

    create-Awaits :
        (tools : List Value) (instructions : Text) (input_items : List InputItem)
        → IsAnswered input_items
        → AwaitsOrRaises (create loads client tools instructions input_items)
    unfolding create
    create-Awaits tools instructions input_items h =
        converted-Awaits (client instructions tools input_items) input_items h

    calls_in-call_outputs :
        (results : List ToolResult) → calls_in (call_outputs loads client results) ≡ []
    calls_in-call_outputs [] = refl
    calls_in-call_outputs (r ∷ rs) = calls_in-call_outputs rs

    outputs_in-call_outputs :
        (results : List ToolResult)
        → outputs_in (call_outputs loads client results) ≡ map (λ r. r.call_id) results
    outputs_in-call_outputs [] = refl
    outputs_in-call_outputs (r ∷ rs) = ap (λ l. r.call_id ∷ l) (outputs_in-call_outputs rs)

    call_outputs-IsAnswered :
        (r : ProviderResponse (List InputItem)) (results : List ToolResult)
        → IsAwaiting r
        → map (λ x. x.call_id) results ≡ map (λ q. q.call_id) r.tool_requests
        → IsAnswered (r.state ++ call_outputs loads client results)
    call_outputs-IsAnswered r results h same =
        let sent = call_outputs loads client results in
        calls_in-append r.state sent
        ∙ ap (λ l. calls_in r.state ++ l) (calls_in-call_outputs results)
        ∙ append-nil (calls_in r.state)
        ∙ h
        ∙ ap (λ l. outputs_in r.state ++ l) (sym same ∙ sym (outputs_in-call_outputs results))
        ∙ sym (outputs_in-append r.state sent)

    -- In the first response, and in each one after results with the call IDs of the requests
    -- before, in order, the conversation holds an output for every function call, in the order of
    -- the calls, but for those that the new response asks for, which come last. So every input
    -- that is sent to the service answers all calls in it. An exception of the client, or of
    -- arguments that are no JSON, is the other outcome.
    pub openai_provider-Awaits :
        (question : Text) (tools : List Value) (instructions : Text)
        (r : ProviderResponse (List InputItem)) (results : List ToolResult)
        → IsAwaiting r
        → map (λ x. x.call_id) results ≡ map (λ q. q.call_id) r.tool_requests
        → AwaitsOrRaises ((openai_provider loads client).start question tools instructions)
          × IsAnswered (r.state ++ call_outputs loads client results)
          × AwaitsOrRaises (
              (openai_provider loads client).continue_with_tool_results r.state results tools
                instructions)
    openai_provider-Awaits question tools instructions r results h same =
        let answered = call_outputs-IsAnswered r results h same in
        (
          create-Awaits tools instructions (user_message question ∷ []) refl,
          answered,
          create-Awaits tools instructions (r.state ++ call_outputs loads client results) answered,
        )
