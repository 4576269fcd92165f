-- ===== src/Tests/Providers.antt =====
-- Investigations with the OpenAI and the Gemini provider.
use trace_pilot.Prelude.{
  ◌≡◌, refl, codes, Text, some, none, List, [], ◌∷◌, All, map, sym, subst, ◌==◌, key_eq, ℕ, false,
}
use trace_pilot.Json.{Value}
use trace_pilot.Exec.{Result, returns, raises}
use trace_pilot.Sql.Reference.{reference}
use trace_pilot.Tests.Fixtures.{world, pydantic, store}
use trace_pilot.Tests.OpenAi.{loads, client}
use trace_pilot.Tests.Gemini.{parts}
use trace_pilot.Llm.OpenAi.{openai_provider}
use trace_pilot.Llm.Gemini.Declarations.{declarations, FunctionDeclaration}
use trace_pilot.Llm.Gemini.Provider.{
  Content, GeminiResponse, ModelContent, GenerateConfig, Client, gemini_provider,
}
use trace_pilot.Agent.Definitions.{tools, text}
use trace_pilot.Agent.Simulation.OpenAi.{strict, run_with_provider-strict}
use trace_pilot.Agent.Simulation.Gemini.{
  HasDistinctCalls, IsOrderly, answering_in_order, run_with_provider-answering_in_order,
}
use trace_pilot.Agent.Loop.{run_with_provider}

run_with_provider-strict_example :
    run_with_provider world reference pydantic
      (codes "i")
      (openai_provider loads (strict client))
      (codes "Look at PID 4242")
      store
    ≡ run_with_provider world reference pydantic
        (codes "i")
        (openai_provider loads client)
        (codes "Look at PID 4242")
        store
run_with_provider-strict_example =
    run_with_provider-strict loads client world reference pydantic (codes "i")
      (codes "Look at PID 4242") store

-- Asks for two tools, and then writes a text.
abbrev calls : ModelContent
calls = record { parts = some parts }

abbrev last_words : ModelContent
last_words = record {
  parts = some (record { text = some (codes "No evidence."); function_call = none } ∷ []);
}

abbrev gemini_client : Client
gemini_client [] config = returns (record { candidates = [] })
gemini_client (c ∷ []) config = returns (record { candidates = some calls ∷ [] })
gemini_client (c ∷ d ∷ cs) config = returns (record { candidates = some last_words ∷ none ∷ [] })

abbrev AllDistinct : Result GeminiResponse → Type 0
AllDistinct (returns response) =
    All (HasDistinctCalls world.uuid4 gemini_client) response.candidates
AllDistinct (raises e) = Unit

calls-HasDistinctCalls : HasDistinctCalls world.uuid4 gemini_client (some calls)
unfolding trace_pilot.Llm.Gemini.convert_response trace_pilot.Prelude.contains
    trace_pilot.Prelude.list_beq
calls-HasDistinctCalls drawn = ((refl, (refl, tt)), (refl, (refl, tt)))

last_words-HasDistinctCalls : HasDistinctCalls world.uuid4 gemini_client (some last_words)
unfolding trace_pilot.Llm.Gemini.convert_response
last_words-HasDistinctCalls drawn = (tt, tt)

gemini_client-AllDistinct :
    (contents : List Content) (config : GenerateConfig)
    → AllDistinct (gemini_client contents config)
gemini_client-AllDistinct [] config = tt
gemini_client-AllDistinct (c ∷ []) config = (calls-HasDistinctCalls, tt)
gemini_client-AllDistinct (c ∷ d ∷ cs) config = (last_words-HasDistinctCalls, (tt, tt))

gemini_client-IsOrderly : IsOrderly world.uuid4 gemini_client
gemini_client-IsOrderly contents config response h =
    subst AllDistinct h (gemini_client-AllDistinct contents config)

run_with_provider-answering_in_order_example :
    run_with_provider world reference pydantic
      (codes "i")
      (gemini_provider world.uuid4 gemini_client)
      (codes "Look at PID 4242")
      store
    ≡ run_with_provider world reference pydantic
        (codes "i")
        (answering_in_order world.uuid4 gemini_client)
        (codes "Look at PID 4242")
        store
run_with_provider-answering_in_order_example =
    run_with_provider-answering_in_order world.uuid4 gemini_client gemini_client-IsOrderly world
      reference pydantic (codes "i") (codes "Look at PID 4242") store

-- The agent's tools are declared under their names.
abbrev declared_names : Result (List FunctionDeclaration) → List Value
declared_names (returns ds) = map (λ d. d.name) ds
declared_names (raises e) = []

tools_declared :
    declared_names (declarations tools)
    ≡ text "get_process_connections"
      ∷ text "get_top_network_processes"
      ∷ text "find_connection_bursts"
      ∷ text "find_unusual_destinations"
      ∷ text "get_event_timeline"
      ∷ []
unfolding declarations tools trace_pilot.Prelude.list_beq
tools_declared = refl
