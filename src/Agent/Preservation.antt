-- ===== src/Agent/Preservation.antt =====
-- backend/app/agent.py, `run_investigation_agent`: relations between the stores before and after a
-- run.
use trace_pilot.Prelude.{ℕ, zero, suc, Text, String, List, [], ◌∷◌, inl, inr}
use trace_pilot.Json.{Fields}
use trace_pilot.Exec.{Result, returns, raises, Exec, continue}
use trace_pilot.Store.{World, Store}
use trace_pilot.Agent.Report.{List-cases}
use trace_pilot.Agent.Loop.{run_requests, rounds, run_with_provider, maximum_rounds}
use trace_pilot.Agent.Definitions.{tools, system_prompt}
use trace_pilot.Sql.Statement.{Engine}
use trace_pilot.Tools.Arguments.{Pydantic}
use trace_pilot.Tools.Execute.{execute_agent_tool}
use trace_pilot.Llm.Base.{ToolRequest, LlmProvider, ToolResult, ProviderResponse}

-- A relation of the store before to the store after, of a call and of calls in sequence.
pub record IsKept (w : World) (E : Engine) (p : Pydantic) (investigation_id : Text)
    (R : Store → Store → Type 0) : Type 0 where
  pub none_called : (s : Store) → R s s
  pub in_sequence : (s t u : Store) → R s t → R t u → R s u
  pub one_called :
      (name : String) (raw : Fields) (s : Store)
      → R s (execute_agent_tool w E p name raw investigation_id s).1

module _ (w : World) (E : Engine) (p : Pydantic) (investigation_id : Text)
    (R : Store → Store → Type 0) (kept : IsKept w E p investigation_id R) where
  then_kept :
      {A B : Type 0} (s : Store) (u : Result A × Store) (f : A → Exec Store B)
      → R s u.1
      → ((a : A) (t : Store) → R t (f a t).1)
      → R s (continue u.0 f u.1).1
  then_kept s (returns a, t) f h later = kept.in_sequence s t _ h (later a t)
  then_kept s (raises e, t) f h later = h

  run_requests_kept :
      (requests : List ToolRequest) (allowed : List Text) (results : List ToolResult) (s : Store)
      → R s (run_requests w E p investigation_id requests allowed results s).1
  unfolding run_requests
  run_requests_kept [] allowed results s = kept.none_called s
  run_requests_kept (q ∷ qs) allowed results s =
      then_kept s (execute_agent_tool w E p q.name q.arguments investigation_id s) _
        (kept.one_called q.name q.arguments s) (λ v t. run_requests_kept qs _ _ t)

  module _ (provider : LlmProvider) where
    rounds_kept :
        (n : ℕ) (response : ProviderResponse provider.State) (allowed : List Text) (s : Store)
        → R s (rounds w E p investigation_id provider n response allowed s).1
    unfolding rounds
    rounds_kept zero response allowed s = kept.none_called s
    rounds_kept (suc n) response allowed s = elim (List-cases response.tool_requests) [
      | inl e ↦ rw (e, rounds) (kept.none_called s)
      | inr (q, qs, e) ↦
          rw (e, rounds)
            (then_kept s (run_requests w E p investigation_id response.tool_requests allowed [] s)
              (λ (allowed', results).
                continue
                  (provider.continue_with_tool_results response.state results tools system_prompt)
                  (λ next. rounds w E p investigation_id provider n next allowed'))
              (run_requests_kept response.tool_requests allowed [] s)
              (λ x t.
                then_kept t
                  (provider.continue_with_tool_results response.state x.1 tools system_prompt, t)
                  (λ next. rounds w E p investigation_id provider n next x.0) (kept.none_called t)
                  (λ next t'. rounds_kept n next x.0 t')))
    ]

    pub run_with_provider_kept :
        (question : Text) (s : Store)
        → R s (run_with_provider w E p investigation_id provider question s).1
    unfolding run_with_provider
    run_with_provider_kept question s =
        then_kept s (provider.start question tools system_prompt, s) _ (kept.none_called s)
          (λ response t. rounds_kept maximum_rounds response [] t)
