-- ===== src/Agent/Simulation.antt =====
-- backend/app/agent.py, `run_investigation_agent`, with two providers side by side.
pub mod OpenAi
pub mod Gemini
use trace_pilot.Prelude.{
  ℕ, zero, suc, ◌≡◌, refl, Text, List, [], ◌∷◌, ◌++◌, append_assoc, ap, ◌∙◌, sym, Option, ◌⊎◌, inl,
  inr, append-nil, subst,
}
use trace_pilot.Json.{Value}
use trace_pilot.Exec.{Result, returns, raises, Exec, continue, Exception}
use trace_pilot.Llm.Base.{LlmProvider, ProviderResponse, ToolRequest, ToolResult, Answers}
use trace_pilot.Agent.Definitions.{tools, system_prompt}
use trace_pilot.Agent.Loop.{run_requests, rounds, run_with_provider, maximum_rounds}
use trace_pilot.Store.{World, Store}
use trace_pilot.Sql.Statement.{Engine}
use trace_pilot.Tools.Arguments.{Pydantic, Tool}
use trace_pilot.Tools.Execute.{execute_agent_tool}

-- What some requests add to the results, if none of them raises.
abbrev pub AnswersAll :
    List ToolRequest → List ToolResult → Result (List Text × List ToolResult) → Type 0
AnswersAll requests results (returns (allowed, all_results)) =
    (new : List ToolResult) × (all_results ≡ results ++ new) × Answers requests new
AnswersAll requests results (raises e) = Unit

requests_cases :
    (qs : List ToolRequest)
    → (qs ≡ []) ⊎ ((q : ToolRequest) × (rest : List ToolRequest) × (qs ≡ q ∷ rest))
requests_cases [] = inl refl
requests_cases (q ∷ qs) = inr (q, qs, refl)

module _ (w : World) (E : Engine) (p : Pydantic) (investigation_id : Text) where
  AnswersAll-cons :
      (q : ToolRequest) (qs : List ToolRequest) (results : List ToolResult) (r : ToolResult)
      (u : Result (List Text × List ToolResult))
      → r.call_id ≡ q.call_id
      → AnswersAll qs (results ++ (r ∷ [])) u
      → AnswersAll (q ∷ qs) results u
  AnswersAll-cons q qs results r (raises e) same h = tt
  AnswersAll-cons q qs results r (returns (allowed, all_results)) same (new, more, h) =
      (r ∷ new, more ∙ append_assoc results (r ∷ []) new, (same, h))

  after_call :
      (q : ToolRequest) (qs : List ToolRequest) (results : List ToolResult)
      (f : Value → Exec Store (List Text × List ToolResult)) (u : Result Value × Store)
      → ((v : Value) (s : Store)
          → AnswersAll qs
              (results ++ (record { call_id = q.call_id; tool_name = q.name; result = v } ∷ []))
              (f v s).0)
      → AnswersAll (q ∷ qs) results (continue u.0 f u.1).0
  after_call q qs results f (raises e, s) later = tt
  after_call q qs results f (returns v, s) later =
      AnswersAll-cons q qs results _ (f v s).0 refl (later v s)

  pub run_requests-AnswersAll :
      (qs : List ToolRequest) (allowed : List Text) (results : List ToolResult) (s : Store)
      → AnswersAll qs results (run_requests w E p investigation_id qs allowed results s).0
  unfolding run_requests
  run_requests-AnswersAll [] allowed results s = ([], sym (append-nil results), tt)
  run_requests-AnswersAll (q ∷ qs) allowed results s =
      after_call q qs results _ (execute_agent_tool w E p q.name q.arguments investigation_id s)
        (λ v t. run_requests-AnswersAll qs _ _ t)

-- Two calls of providers that both return related responses, or raise the same.
pub data Alike {A B : Type 0} (R : A → B → Type 0) : Result A → Result B → Type 0 where
  both_return : {a : A} {b : B} → R a b → Alike R (returns a) (returns b)
  both_raise : (e : Exception) → Alike R (raises e) (raises e)

-- Providers that agree on the text and the requests of every response, as long as the results that
-- they are given answer the requests of the response before.
pub record Agree (P Q : LlmProvider) : Type 1 where
  pub Related : ProviderResponse P.State → ProviderResponse Q.State → Type 0
  pub same_text :
      {r : ProviderResponse P.State} {r' : ProviderResponse Q.State}
      → Related r r'
      → r.text ≡ r'.text
  pub same_requests :
      {r : ProviderResponse P.State} {r' : ProviderResponse Q.State}
      → Related r r'
      → r.tool_requests ≡ r'.tool_requests
  pub starts :
      (question : Text) (tools : List Value) (instructions : Text)
      → Alike Related (P.start question tools instructions) (Q.start question tools instructions)
  pub continues :
      (r : ProviderResponse P.State) (r' : ProviderResponse Q.State) (results : List ToolResult)
      (tools : List Value) (instructions : Text)
      → Related r r'
      → Answers r.tool_requests results
      → Alike Related
          (P.continue_with_tool_results r.state results tools instructions)
          (Q.continue_with_tool_results r'.state results tools instructions)

module _ (w : World) (E : Engine) (p : Pydantic) (investigation_id : Text) (P Q : LlmProvider)
    (agree : Agree P Q) where
  continue-Alike :
      (x : Result (ProviderResponse P.State)) (y : Result (ProviderResponse Q.State))
      (f : ProviderResponse P.State → Exec Store Text)
      (g : ProviderResponse Q.State → Exec Store Text) (s : Store)
      → Alike agree.Related x y
      → ((r : ProviderResponse P.State) (r' : ProviderResponse Q.State) (t : Store)
          → agree.Related r r'
          → f r t ≡ g r' t)
      → continue x f s ≡ continue y g s
  continue-Alike _ _ f g s (both_return {a} {b} h) same = same a b s h
  continue-Alike _ _ f g s (both_raise e) same = refl

  continue_answered :
      (qs : List ToolRequest) (u : Result (List Text × List ToolResult) × Store)
      (f g : List Text × List ToolResult → Exec Store Text)
      → AnswersAll qs [] u.0
      → ((allowed : List Text) (results : List ToolResult) (t : Store)
          → Answers qs results
          → f (allowed, results) t ≡ g (allowed, results) t)
      → continue u.0 f u.1 ≡ continue u.0 g u.1
  continue_answered qs (raises e, t) f g h same = refl
  continue_answered qs (returns (allowed, results), t) f g (new, e, h) same =
      same allowed results t (subst (Answers qs) (sym e) h)

  rounds-agree :
      (n : ℕ) (r : ProviderResponse P.State) (r' : ProviderResponse Q.State) (allowed : List Text)
      (s : Store)
      → agree.Related r r'
      → rounds w E p investigation_id P n r allowed s
        ≡ rounds w E p investigation_id Q n r' allowed s
  unfolding rounds
  rounds-agree zero r r' allowed s h = refl
  rounds-agree (suc n) r r' allowed s h = elim (requests_cases r.tool_requests) [
    | inl e ↦ rw (e, sym (agree.same_requests h) ∙ e, agree.same_text h) refl
    | inr (q, qs, e) ↦
        rw (e, sym (agree.same_requests h) ∙ e)
          (continue_answered (q ∷ qs) (run_requests w E p investigation_id (q ∷ qs) allowed [] s) _
            _ (run_requests-AnswersAll w E p investigation_id (q ∷ qs) allowed [] s)
            (λ allowed' results t k.
              continue-Alike _ _ _ _ t
                (agree.continues r r' results tools system_prompt h
                  (subst (λ l. Answers l results) (sym e) k))
                (λ next next' t' rel. rounds-agree n next next' allowed' t' rel)))
  ]

  -- The agent cannot tell apart two providers that agree: an investigation with either gives the
  -- same report or exception, and leaves the same store.
  pub run_with_provider-Agree :
      (question : Text) (s : Store)
      → run_with_provider w E p investigation_id P question s
        ≡ run_with_provider w E p investigation_id Q question s
  unfolding run_with_provider
  run_with_provider-Agree question s =
      continue-Alike _ _ _ _ s (agree.starts question tools system_prompt)
        (λ r r' t h. rounds-agree maximum_rounds r r' [] t h)
