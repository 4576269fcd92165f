-- ===== src/Agent/Simulation/OpenAi.antt =====
-- backend/app/agent.py with backend/app/llm/openai_provider.py, on a service that checks that
-- every function call is answered.
use trace_pilot.Prelude.{
  ◌≡◌, refl, subst, ap, ap₂, ◌==◌, list_eq, number_eq, if◌then◌else◌, list_beq_iff, Text, Option,
  List, [], ◌∷◌, ◌++◌, map, none,
}
use trace_pilot.Exec.{Result, returns, raises, provider_error}
use trace_pilot.Json.{Value, Fields}
use trace_pilot.Llm.Base.{ProviderResponse, ToolResult, ToolRequest, Answers}
use trace_pilot.Llm.OpenAi.{Client, InputItem, openai_provider, create, user_message, call_outputs}
use trace_pilot.Llm.OpenAi.Conversation.{
  calls_in, outputs_in, IsAwaiting, IsAnswered, AwaitsOrRaises, openai_provider-Awaits,
}
use trace_pilot.Agent.Simulation.{
  Agree, Alike, both_return, both_raise, run_with_provider-Agree, World, Engine, Pydantic, Store,
  run_with_provider,
}

-- A service that refuses an input in which a function call lacks its output, in order.
abbrev pub strict : Client → Client
strict client instructions tools input_items =
    if calls_in input_items == outputs_in input_items
    then client instructions tools input_items
    else raises provider_error

strict-IsAnswered :
    (client : Client) (instructions : Text) (tools : List Value) (items : List InputItem)
    → IsAnswered items
    → strict client instructions tools items ≡ client instructions tools items
strict-IsAnswered client instructions tools items h =
    rw ((list_beq_iff (calls_in items) (outputs_in items)).1 h) refl

Answers-call_ids :
    (qs : List ToolRequest) (rs : List ToolResult)
    → Answers qs rs
    → map (λ x. x.call_id) rs ≡ map (λ q. q.call_id) qs
Answers-call_ids [] [] h = refl
Answers-call_ids [] (r ∷ rs) h = absurd h
Answers-call_ids (q ∷ qs) [] h = absurd h
Answers-call_ids (q ∷ qs) (r ∷ rs) h = ap₂ (λ x xs. x ∷ xs) h.0 (Answers-call_ids qs rs h.1)

module _ (loads : Text → Option Fields) (client : Client) where
  abbrev IsSame : ProviderResponse (List InputItem) → ProviderResponse (List InputItem) → Type 0
  IsSame r r' = (r ≡ r') × IsAwaiting r

  AwaitsOrRaises-Alike :
      (x : Result (ProviderResponse (List InputItem))) → AwaitsOrRaises loads x → Alike IsSame x x
  AwaitsOrRaises-Alike (returns r) h = both_return (refl, h)
  AwaitsOrRaises-Alike (raises e) h = both_raise e

  create-strict :
      (tools : List Value) (instructions : Text) (items : List InputItem)
      → IsAnswered items
      → AwaitsOrRaises loads (create loads client tools instructions items)
      → Alike IsSame
          (create loads (strict client) tools instructions items)
          (create loads client tools instructions items)
  unfolding create
  create-strict tools instructions items h awaits =
      rw (strict-IsAnswered client instructions tools items h) (AwaitsOrRaises-Alike _ awaits)

  continue-strict :
      (r r' : ProviderResponse (List InputItem)) (results : List ToolResult) (tools : List Value)
      (instructions : Text)
      → IsSame r r'
      → Answers r.tool_requests results
      → Alike IsSame
          (create loads
            (strict client)
            tools
            instructions
            (r.state ++ call_outputs loads client results))
          (create loads client tools instructions (r'.state ++ call_outputs loads client results))
  continue-strict r r' results tools instructions (same, awaits) h =
      let (_, answered, next) =
        openai_provider-Awaits loads client [] tools instructions r results awaits
          (Answers-call_ids r.tool_requests results h) in
      subst
        (λ x.
          Alike IsSame
            (create loads (strict client) tools instructions
              (r.state ++ call_outputs loads client results))
            (create loads client tools instructions (x.state ++ call_outputs loads client results)))
        same
        (create-strict tools instructions (r.state ++ call_outputs loads client results) answered
          next)

  strict-Agree : Agree (openai_provider loads (strict client)) (openai_provider loads client)
  strict-Agree = record {
    Related = IsSame;
    same_text = λ h. ap (λ r. r.text) h.0;
    same_requests = λ h. ap (λ r. r.tool_requests) h.0;
    starts = λ question tools instructions.
        create-strict tools instructions (user_message question ∷ []) refl
          (openai_provider-Awaits loads client question tools instructions
            (record { text = none; tool_requests = []; state = [] }) [] refl refl).0;
    continues = λ r r' results tools instructions same h.
        continue-strict r r' results tools instructions same h;
  }

  module _ (w : World) (E : Engine) (p : Pydantic) (investigation_id : Text) where
    -- An investigation with the OpenAI provider does not change when the service refuses every
    -- input in which a function call has no output, or outputs stand in another order than the
    -- calls: the agent with this provider never sends such an input.
    pub run_with_provider-strict :
        (question : Text) (s : Store)
        → run_with_provider w E p investigation_id
            (openai_provider loads (strict client))
            question
            s
          ≡ run_with_provider w E p investigation_id (openai_provider loads client) question s
    run_with_provider-strict question s =
        run_with_provider-Agree w E p investigation_id (openai_provider loads (strict client))
          (openai_provider loads client) strict-Agree question s
