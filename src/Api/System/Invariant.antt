-- ===== src/Api/System/Invariant.antt =====
-- backend/app/main.py: the tables after any sequence of requests.
use trace_pilot.Prelude.{
  ℕ, ◌≡◌, refl, Text, Option, List, All-mono, map, contains-All, IsDistinct, SameElements, list_eq,
  number_eq, arith,
}
use trace_pilot.Store.{World, Store, AgentToolCall}
use trace_pilot.Api.Ids.{IsInjective, none_issued, Issued_fresh, Issued-IsDistinct}
use trace_pilot.Api.System.{
  IsSound, Request, post_event, post_batch, investigate, call_by_hand, Reachable, at_first, after,
  Engine, Pydantic, Bool, Value, Result, LlmProvider,
}
use trace_pilot.Api.System.Events.{create_event-IsSound, create_event_batch-IsSound}
use trace_pilot.Api.System.Rows.{debug_call-IsSound, create_investigation-IsSound, IsSound-IsFresh}
use trace_pilot.Api.Investigations.{
  create_investigation, get_investigation, get_investigation_tool_calls, debug_execute_agent_tool,
  find_investigation,
}
use trace_pilot.Api.Investigations.Closing.{Closes, create_investigation-Closes}
use trace_pilot.Api.Investigations.Trail.{create_investigation-trail, NoCalls}
use trace_pilot.Api.Response.{sends}
use trace_pilot.Sql.Statement.{IsEngine, IsSorted, ascending}

module _ (w : World) (E : Engine) (p : Pydantic) (lawful : IsEngine E) (ge_zero : ℕ → Bool)
    (details : Value) (injective : IsInjective w) where
  Request-IsSound :
      (s s' : Store)
      → Request w E p ge_zero details s s'
      → IsSound w ge_zero s
      → IsSound w ge_zero s'
  unfolding debug_execute_agent_tool
  Request-IsSound s _ (post_event body) h = create_event-IsSound w ge_zero details body s h
  Request-IsSound s _ (post_batch bodies) h =
      create_event_batch-IsSound w ge_zero details bodies s h
  Request-IsSound s _ (investigate env gemini question valid) h =
      create_investigation-IsSound w E p lawful ge_zero details injective env gemini question s h
  Request-IsSound s _ (call_by_hand id name raw valid) h =
      debug_call-IsSound w E p lawful ge_zero details id name raw s
        (find_investigation id s.investigations) refl h

  Reachable-Sound : (s : Store) → Reachable w E p ge_zero details s → IsSound w ge_zero s
  Reachable-Sound _ at_first = record {
    events_acceptable = tt;
    event_ids = none_issued;
    investigations_finished = tt;
    investigation_ids = none_issued;
    calls_known = tt;
    calls_are_dicts = tt;
    call_ids = none_issued;
  }
  Reachable-Sound s' (after r q) = Request-IsSound _ s' q (Reachable-Sound _ r)

  -- If `uuid4` does not repeat, and the database answers every statement but the insertion of
  -- events that do not fit, then after any requests on empty tables, with whatever providers,
  -- settings and arguments: every stored event meets the constraints of the model that it is
  -- answered with and fits into its columns, every investigation is completed with a non-empty report or failed with the
  -- fixed answer, every audit record holds objects and belongs to a stored investigation, and no
  -- table has an ID twice.
  pub Reachable-IsSound :
      (s : Store)
      → Reachable w E p ge_zero details s
      → IsSound w ge_zero s
        × IsDistinct (map (λ e. e.id) s.events)
        × IsDistinct (map (λ i. i.id) s.investigations)
        × IsDistinct (map (λ c. c.id) s.tool_calls)
  Reachable-IsSound s r =
      let h = Reachable-Sound s r in
      (
        h,
        Issued-IsDistinct w injective h.event_ids,
        Issued-IsDistinct w injective h.investigation_ids,
        Issued-IsDistinct w injective h.call_ids,
      )

  IsSound-NoCalls : (s : Store) → IsSound w ge_zero s → NoCalls (w.uuid4 s.drawn) s.tool_calls
  IsSound-NoCalls s h =
      All-mono _ _ s.tool_calls
        (λ c k.
          contains-All _ (map (λ i. i.id) s.investigations) c.investigation_id
            (Issued_fresh w injective s.drawn h.investigation_ids (omega arith)) k)
        h.calls_known

  -- After any requests, a request to investigate closes its investigation, completed or failed as
  -- its response says, and both can be read back under the new ID: the investigation as it was
  -- closed, and, in the order of time, exactly the audit records of its run.
  pub Reachable-trail :
      (s : Store)
      → Reachable w E p ge_zero details s
      → (env : Option Text) (gemini : Result LlmProvider) (question : Text)
      → let q = create_investigation w E p env gemini question s in
        (closes : Closes (w.uuid4 s.drawn) question s q) × (get_investigation (w.uuid4 s.drawn) q.1
          ≡ sends 200 closes.row)
        × (rows : List AgentToolCall) × (get_investigation_tool_calls E (w.uuid4 s.drawn) q.1
            ≡ sends 200 rows)
        × SameElements rows closes.calls
        × IsSorted (ascending (λ c. c.created_at)) rows
  Reachable-trail s r env gemini question =
      let h = Reachable-Sound s r in
      let fresh = IsSound-IsFresh w E p lawful ge_zero details injective s h in
      let (found, rows, answered, same, ordered) =
        create_investigation-trail w E p lawful env gemini question s fresh (IsSound-NoCalls s h) in
      (
        create_investigation-Closes w E p lawful env gemini question s fresh,
        found,
        rows,
        answered,
        same,
        ordered,
      )
