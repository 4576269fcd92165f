-- ===== src/Api/Investigations/Setting.antt =====
-- backend/app/llm/factory.py under `create_investigation`: the settings of the provider.
use trace_pilot.Prelude.{
  ◌≡◌, ◌≢◌, Text, codes, Option, Bool-cases, inl, inr, ◌==◌, list_eq, number_eq, list_beq_iff,
}
use trace_pilot.Json.{str}
use trace_pilot.Exec.{Result, raises, name_error}
use trace_pilot.Llm.Factory.{create_llm_provider, provider_setting}
use trace_pilot.Store.{World, Store}
use trace_pilot.Sql.{Engine}
use trace_pilot.Tools.Arguments.{Pydantic}
use trace_pilot.Llm.Base.{LlmProvider}
use trace_pilot.Api.Response.{http_error}
use trace_pilot.Api.Investigations.{
  create_investigation, add_investigation, close_investigation, run_investigation_agent,
}

create_llm_provider-other :
    (env : Option Text) (gemini : Result LlmProvider)
    → provider_setting env ≢ codes "gemini"
    → create_llm_provider env gemini ≡ raises (name_error "provider_name")
unfolding create_llm_provider
create_llm_provider-other env gemini h =
    elim (Bool-cases (provider_setting env == codes "gemini")) [
      | inl e ↦ absurd (h ((list_beq_iff (provider_setting env) (codes "gemini")).0 e))
      | inr e ↦ rw e
    ]

-- With any LLM_PROVIDER that does not read as "gemini", the documented default "mock" and "openai"
-- included, every request to start an investigation is answered 502, and no tool is called.
pub create_investigation_other_provider :
    (w : World) (E : Engine) (p : Pydantic) (env : Option Text) (gemini : Result LlmProvider)
    (question : Text) (s : Store)
    → provider_setting env ≢ codes "gemini"
    → ((create_investigation w E p env gemini question s).0
        ≡ http_error 502 (str (codes "Investigation agent failed.")))
      × ((create_investigation w E p env gemini question s).1.tool_calls ≡ s.tool_calls)
unfolding create_investigation close_investigation add_investigation run_investigation_agent
create_investigation_other_provider w E p env gemini question s h =
    let e = create_llm_provider-other env gemini h in (rw e, rw e)
