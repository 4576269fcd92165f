-- ===== src/Agent/Report.antt =====
-- backend/app/agent.py, `run_investigation_agent`: the report that a run returns, and the writes
-- of the run.
use trace_pilot.Prelude.{
  ℕ, zero, suc, ◌≡◌, ◌≢◌, refl, Text, List, [], ◌∷◌, ◌++◌, All, All-append, append-nil,
  append_assoc, Option, none, some, ◌⊎◌, inl, inr, subst,
}
use trace_pilot.Store.{World, Store, AgentToolCall}
use trace_pilot.Exec.{Result, returns, raises, continue, Exec}
use trace_pilot.Sql.{Engine, IsEngine}
use trace_pilot.Agent.Trace.{
  Extends, Extends-refl, Extends-trans, returned_ids, returned_ids-append, RequestsRun,
  run_requests-RequestsRun,
}
use trace_pilot.Tools.Arguments.{Pydantic}
use trace_pilot.Evidence.Validate.{validate_report_evidence, accepted, Verdict, rejected}
use trace_pilot.Agent.Loop.{
  finish, rounds, run_with_provider, checked, run_requests, maximum_rounds,
}
use trace_pilot.Tools.Evidence.{IsStored}
use trace_pilot.Llm.Base.{ToolResult, LlmProvider, ProviderResponse}
use trace_pilot.Agent.Definitions.{tools, system_prompt}

pub List-cases {ℓ} :
    {A : Type ℓ} (xs : List A) → (xs ≡ []) ⊎ ((x : A) × (r : List A) × (xs ≡ x ∷ r))
List-cases [] = inl refl
List-cases (x ∷ xs) = inr (x, xs, refl)

module _ (w : World) (E : Engine) (p : Pydantic) (investigation_id : Text)
    (lawful : IsEngine E) where
  -- A report is returned only if it passes the evidence check against the allowed IDs and those
  -- of the new records, which are IDs of stored events.
  abbrev pub Justified : List Text → (s : Store) → List AgentToolCall → Result Text → Type 0
  Justified allowed s calls (returns report) =
      (report ≢ [])
      × (validate_report_evidence report (allowed ++ returned_ids calls) ≡ accepted)
      × All (IsStored s.events) (returned_ids calls)
  Justified allowed s calls (raises e) = Unit

  pub record ReportRun (allowed : List Text) (s : Store) (r : Result Text × Store) : Type 0 where
    pub run : Extends investigation_id s r.1
    pub justified : Justified allowed s run.calls r.0

  finish-ReportRun :
      (text : Option Text) (allowed : List Text) (s : Store)
      → ReportRun allowed s (finish text allowed, s)
  unfolding finish
  finish-ReportRun text allowed s = record {
    run = Extends-refl investigation_id s;
    justified = passed text;
  }
    where
      verdict :
          (report : Text) (v : Verdict)
          → report ≢ []
          → validate_report_evidence report (allowed ++ []) ≡ v
          → Justified allowed s [] (checked report v)
      verdict report accepted full e = (full, e, tt)
      verdict report (rejected x) full e = tt

      passed : (t : Option Text) → Justified allowed s [] (finish t allowed)
      passed none = tt
      passed (some []) = tt
      passed (some (c ∷ cs)) = verdict (c ∷ cs) _ (λ e. cc) (rw append-nil)

  Justified-append :
      (allowed allowed' : List Text) (s t : Store) (calls later : List AgentToolCall)
      (r : Result Text)
      → allowed' ≡ allowed ++ returned_ids calls
      → All (IsStored s.events) (returned_ids calls)
      → t.events ≡ s.events
      → Justified allowed' t later r
      → Justified allowed s (calls ++ later) r
  Justified-append allowed allowed' s t calls later (raises e) same stored events h = tt
  Justified-append allowed allowed' s t calls later (returns report) same stored events h =
      rw
        (
          returned_ids-append calls later,
          ← append_assoc allowed (returned_ids calls) (returned_ids later),
          ← same,
        )
        (
          h.0,
          h.1,
          All-append (IsStored s.events) (returned_ids calls) (returned_ids later) stored
              (subst (λ es. All (IsStored es) (returned_ids later)) events h.2),
        )

  round-ReportRun :
      (allowed : List Text) (s : Store) (rest : List Text × List ToolResult → Exec Store Text)
      (q : Result (List Text × List ToolResult) × Store)
      → RequestsRun w E p investigation_id lawful allowed s q
      → ((allowed' : List Text) (results : List ToolResult) (t : Store)
          → ReportRun allowed' t (rest (allowed', results) t))
      → ReportRun allowed s (continue q.0 rest q.1)
  round-ReportRun allowed s rest (raises e, t) h later = record { run = h.run; justified = tt }
  round-ReportRun allowed s rest (returns (allowed', results), t) h later =
      let inner = later allowed' results t in
      record {
        run = Extends-trans investigation_id s t _ h.run inner.run;
        justified =
            Justified-append allowed allowed' s t h.run.calls inner.run.calls _ h.adds.0 h.adds.1
              h.run.events inner.justified;
      }

  lift-ReportRun :
      {A : Type 0} (r : Result A) (rest : A → Exec Store Text) (allowed : List Text) (s : Store)
      → ((a : A) → ReportRun allowed s (rest a s))
      → ReportRun allowed s (continue r rest s)
  lift-ReportRun (returns a) rest allowed s h = h a
  lift-ReportRun (raises e) rest allowed s h = record {
    run = Extends-refl investigation_id s;
    justified = tt;
  }

  module _ (provider : LlmProvider) where
    rounds-ReportRun :
        (n : ℕ) (response : ProviderResponse provider.State) (allowed : List Text) (s : Store)
        → ReportRun allowed s (rounds w E p investigation_id provider n response allowed s)
    unfolding rounds
    rounds-ReportRun zero response allowed s = record {
      run = Extends-refl investigation_id s;
      justified = tt;
    }
    rounds-ReportRun (suc n) response allowed s = elim (List-cases response.tool_requests) [
      | inl e ↦ rw (e, rounds) (finish-ReportRun response.text allowed s)
      | inr (request, requests, e) ↦
          rw (e, rounds)
            (round-ReportRun allowed s
              (λ (allowed', results).
                continue
                  (provider.continue_with_tool_results response.state results tools system_prompt)
                  (λ next. rounds w E p investigation_id provider n next allowed'))
              (run_requests w E p investigation_id response.tool_requests allowed [] s)
              (run_requests-RequestsRun w E p investigation_id lawful response.tool_requests allowed
                [] s)
              (λ allowed' results t.
                lift-ReportRun
                  (provider.continue_with_tool_results response.state results tools system_prompt)
                  (λ next. rounds w E p investigation_id provider n next allowed') allowed' t
                  (λ next. rounds-ReportRun n next allowed' t)))
    ]

    -- A run of the agent with any provider, ending in a report or in an exception, adds to the
    -- database only audit records of its investigation. A returned report is not empty and passes
    -- the evidence check against the event IDs in the results of those records; and all of these
    -- are IDs of stored events.
    pub run_with_provider-ReportRun :
        (question : Text) (s : Store)
        → ReportRun [] s (run_with_provider w E p investigation_id provider question s)
    unfolding run_with_provider
    run_with_provider-ReportRun question s =
        lift-ReportRun (provider.start question tools system_prompt)
          (λ response. rounds w E p investigation_id provider maximum_rounds response []) [] s
          (λ response. rounds-ReportRun maximum_rounds response [] s)
