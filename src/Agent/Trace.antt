-- ===== src/Agent/Trace.antt =====
-- backend/app/agent.py, `run_investigation_agent`: what a run leaves in the audit table, and what
-- it takes for a report to be returned.
use trace_pilot.Prelude.{
  ◌≡◌, refl, sym, ap, ◌∙◌, Text, List, [], ◌∷◌, ◌++◌, All, All-append, append-nil, append_assoc,
  String, subst,
}
use trace_pilot.Store.{Store, AgentToolCall, World}
use trace_pilot.Evidence.Extract.{extract_tool_event_ids}
use trace_pilot.Sql.Statement.{Engine, IsEngine}
use trace_pilot.Tools.Arguments.{Pydantic}
use trace_pilot.Exec.{Result, returns, raises, Exec, continue}
use trace_pilot.Json.{Value, Fields}
use trace_pilot.Agent.Loop.{run_requests}
use trace_pilot.Llm.Base.{ToolResult, ToolRequest}
use trace_pilot.Tools.Evidence.{IsStored, run_tool-IsStored}
use trace_pilot.Tools.Execute.Audit.{execute_agent_tool-Audited, Records, Audited, records_result}

-- The event IDs in the results of audited calls.
abbrev pub returned_ids : List AgentToolCall → List Text
returned_ids [] = []
returned_ids (c ∷ calls) = extract_tool_event_ids c.result ++ returned_ids calls

pub returned_ids-append :
    (xs ys : List AgentToolCall) → returned_ids (xs ++ ys) ≡ returned_ids xs ++ returned_ids ys
returned_ids-append [] ys = refl
returned_ids-append (x ∷ xs) ys =
    ap (λ l. extract_tool_event_ids x.result ++ l) (returned_ids-append xs ys)
    ∙ sym (append_assoc (extract_tool_event_ids x.result) (returned_ids xs) (returned_ids ys))

-- From `s` to `s'` only audit records of the investigation were added.
pub record Extends (investigation_id : Text) (s s' : Store) : Type 0 where
  pub calls : List AgentToolCall
  pub logged : s'.tool_calls ≡ s.tool_calls ++ calls
  pub own : All (λ c. c.investigation_id ≡ investigation_id) calls
  pub events : s'.events ≡ s.events
  pub investigations : s'.investigations ≡ s.investigations

module _ (investigation_id : Text) where
  abbrev pub Extends-refl : (s : Store) → Extends investigation_id s s
  Extends-refl s = record {
    calls = [];
    logged = sym (append-nil s.tool_calls);
    own = tt;
    events = refl;
    investigations = refl;
  }

  abbrev pub Extends-trans :
      (s t u : Store)
      → Extends investigation_id s t
      → Extends investigation_id t u
      → Extends investigation_id s u
  Extends-trans s t u h k = record {
    calls = h.calls ++ k.calls;
    logged = k.logged ∙ ap (λ l. l ++ k.calls) h.logged ∙ append_assoc s.tool_calls h.calls k.calls;
    own = All-append _ h.calls k.calls h.own k.own;
    events = k.events ∙ h.events;
    investigations = k.investigations ∙ h.investigations;
  }

module _ (w : World) (E : Engine) (p : Pydantic) (investigation_id : Text)
    (lawful : IsEngine E) where
  -- What the requests of a round return: the IDs of the new records are added to the allowed
  -- ones, and they are IDs of stored events.
  abbrev pub Adds :
      List Text → (s : Store) → List AgentToolCall → Result (List Text × List ToolResult) → Type 0
  Adds allowed s calls (returns (allowed', results)) =
      (allowed' ≡ allowed ++ returned_ids calls) × All (IsStored s.events) (returned_ids calls)
  Adds allowed s calls (raises e) = Unit

  pub record RequestsRun (allowed : List Text) (s : Store)
      (r : Result (List Text × List ToolResult) × Store) : Type 0 where
    pub run : Extends investigation_id s r.1
    pub adds : Adds allowed s run.calls r.0

  Records-returns :
      {s : Store} {name : String} {raw : Fields} {call : AgentToolCall} {v : Value}
      → Records w E p s name raw call (returns v)
      → (call.result ≡ v) × All (IsStored s.events) (extract_tool_event_ids v)
  Records-returns {s} (records_result tool arguments v _ _ _ computed same) =
      (same, rw computed (run_tool-IsStored w E lawful (w.now s.reads) s.events arguments))

  abbrev Audited-Extends :
      {name : String} {raw : Fields} {s : Store} {r : Result Value × Store}
      → Audited w E p name raw investigation_id s r
      → Extends investigation_id s r.1
  Audited-Extends h = record {
    calls = h.call ∷ [];
    logged = h.logged;
    own = (h.of_investigation, tt);
    events = h.events;
    investigations = h.investigations;
  }

  Adds-cons :
      (allowed : List Text) (s t : Store) (call : AgentToolCall) (v : Value)
      (calls : List AgentToolCall) (r : Result (List Text × List ToolResult))
      → t.events ≡ s.events
      → call.result ≡ v
      → All (IsStored s.events) (extract_tool_event_ids v)
      → Adds (allowed ++ extract_tool_event_ids v) t calls r
      → Adds allowed s (call ∷ calls) r
  Adds-cons allowed s t call v calls (raises e) events same stored h = tt
  Adds-cons allowed s t call v calls (returns (allowed', results)) events same stored h = (
    h.0
        ∙ append_assoc allowed (extract_tool_event_ids v) (returned_ids calls)
        ∙ ap (λ u. allowed ++ (extract_tool_event_ids u ++ returned_ids calls)) (sym same),
    rw same (
        All-append (IsStored s.events) (extract_tool_event_ids v) (returned_ids calls) stored
          (subst (λ es. All (IsStored es) (returned_ids calls)) events h.1)),
  )

  -- One executed call, then the rest of the round.
  call-RequestsRun :
      {name : String} {raw : Fields} (allowed : List Text) (s : Store)
      (rest : Value → Exec Store (List Text × List ToolResult)) (q : Result Value × Store)
      → Audited w E p name raw investigation_id s q
      → ((v : Value) (t : Store) → RequestsRun (allowed ++ extract_tool_event_ids v) t (rest v t))
      → RequestsRun allowed s (continue q.0 rest q.1)
  call-RequestsRun allowed s rest (raises e, t) h later = record {
    run = Audited-Extends h;
    adds = tt;
  }
  call-RequestsRun allowed s rest (returns v, t) h later =
      let inner = later v t in
      let (same, stored) = Records-returns h.outcome in
      record {
        run = Extends-trans investigation_id s t _ (Audited-Extends h) inner.run;
        adds = Adds-cons allowed s t h.call v inner.run.calls _ h.events same stored inner.adds;
      }

  pub run_requests-RequestsRun :
      (requests : List ToolRequest) (allowed : List Text) (results : List ToolResult) (s : Store)
      → RequestsRun allowed s (run_requests w E p investigation_id requests allowed results s)
  unfolding run_requests
  run_requests-RequestsRun [] allowed results s = record {
    run = Extends-refl investigation_id s;
    adds = (sym (append-nil allowed), tt);
  }
  run_requests-RequestsRun (request ∷ requests) allowed results s =
      call-RequestsRun allowed s _ _
        (execute_agent_tool-Audited w E p request.arguments investigation_id s request.name)
        (λ v t. run_requests-RequestsRun requests _ _ t)
