-- ===== src/Api/System/Rows.antt =====
-- backend/app/main.py: the requests about investigations, and the tables.
use mathlib.Core.List.{map-append}
use trace_pilot.Prelude.{
  contains-append, ◌≢◌, All-mono, none, some, ◌≡◌, ◌++◌, ◌==◌, list_eq, number_eq, contains,
  Bool-cases, list_beq_iff, ◌∙◌, sym, refl, ap, arith, inl, inr, beq_refl, ℕ, subst, List, [], ◌∷◌,
  All, All-append, map,
}
use trace_pilot.Store.{World, Store, ConnectionEvent}
use trace_pilot.Api.System.Events.{All-map_back}
use trace_pilot.Api.Ids.{Issued, issue, Issued_later, IsInjective, Issued_fresh}
use trace_pilot.Api.System.{
  IsSound, Engine, Pydantic, Bool, Value, IsEvent, row_body, contains, Text, String, Fields, Option,
  Investigation, some, true, AgentToolCall, IsFinished, Result, LlmProvider,
}
use trace_pilot.Sql.Statement.{IsEngine}
use trace_pilot.Api.Investigations.{find_investigation, debug_call, create_investigation}
use trace_pilot.Tools.Execute.Audit.{execute_agent_tool-Audited}
use trace_pilot.Api.System.Calls.{
  execute_agent_tool-KeepsCalls, KeepsCalls, create_investigation-KeepsCalls,
}
use trace_pilot.Tools.Execute.{execute_agent_tool}
use trace_pilot.Api.Response.{Response}
use trace_pilot.Api.Investigations.Closing.{
  IsFresh, Outcome, completes, fails, create_investigation-Closes,
}

module _ (w : World) (E : Engine) (p : Pydantic) (lawful : IsEngine E) (ge_zero : ℕ → Bool)
    (details : Value) where
  contains-find :
      (id : Text) (is : List Investigation) (row : Investigation)
      → find_investigation id is ≡ some row
      → contains (map (λ i. i.id) is) id ≡ true
  unfolding contains
  contains-find id [] row h = absurd cc
  contains-find id (i ∷ is) row h = elim (Bool-cases (i.id == id)) [
    | inl same ↦ rw ((list_beq_iff i.id id).0 same, beq_refl id) refl
    | inr other ↦ ground (arith, contains-find id is row (ground (arith, h, other)))
  ]

  abbrev investigation_ids_of : Store → List Text
  investigation_ids_of s = map (λ i. i.id) s.investigations

  -- More audit records of one investigation, and no more events.
  calls_added :
      (s t : Store) (id : Text) (calls : List AgentToolCall)
      → IsSound w ge_zero s
      → KeepsCalls w s t
      → t.events ≡ s.events
      → t.tool_calls ≡ s.tool_calls ++ calls
      → All (λ c. c.investigation_id ≡ id) calls
      → All IsFinished t.investigations
      → Issued w t.drawn (investigation_ids_of t)
      → ((other : Text)
          → contains (investigation_ids_of s) other ≡ true
          → contains (investigation_ids_of t) other ≡ true)
      → contains (investigation_ids_of t) id ≡ true
      → IsSound w ge_zero t
  calls_added s t id calls h kept events logged own finished ids known here = record {
    events_acceptable =
        subst (All (λ e. IsEvent ge_zero (row_body e))) (sym events) h.events_acceptable;
    event_ids =
        subst (λ es. Issued w t.drawn (map (λ e. e.id) es)) (sym events)
          (Issued_later w h.event_ids kept.more_drawn);
    investigations_finished = finished;
    investigation_ids = ids;
    calls_known =
        subst (All (λ c. contains (investigation_ids_of t) c.investigation_id ≡ true)) (sym logged)
          (All-append _ s.tool_calls calls
            (All-mono _ _ s.tool_calls (λ c k. known c.investigation_id k) h.calls_known)
            (All-mono _ _ calls
              (λ c same. subst (λ x. contains (investigation_ids_of t) x ≡ true) (sym same) here)
              own));
    calls_are_dicts = kept.dicts h.calls_are_dicts;
    call_ids = kept.issued h.call_ids;
  }

  pub debug_call-IsSound :
      (id : Text) (name : String) (raw : Fields) (s : Store) (found : Option Investigation)
      → find_investigation id s.investigations ≡ found
      → IsSound w ge_zero s
      → IsSound w ge_zero (debug_call w E p found name raw id s).1
  debug_call-IsSound id name raw s none e h = h
  debug_call-IsSound id name raw s (some row) e h =
      let audited = execute_agent_tool-Audited w E p raw id s name in
      let kept = execute_agent_tool-KeepsCalls w E p name raw id s in
      let t = (execute_agent_tool w E p name raw id s).1 in
      let same = sym audited.investigations in
      calls_added s t id (audited.call ∷ []) h kept audited.events audited.logged
        (audited.of_investigation, tt) (subst (All IsFinished) same h.investigations_finished)
        (subst (λ is. Issued w t.drawn (map (λ i. i.id) is)) same
          (Issued_later w h.investigation_ids kept.more_drawn))
        (λ other k. subst (λ is. contains (map (λ i. i.id) is) other ≡ true) same k)
        (subst (λ is. contains (map (λ i. i.id) is) id ≡ true) same
          (contains-find id s.investigations row e))

  contains_last : (ids : List Text) (id : Text) → contains (ids ++ (id ∷ [])) id ≡ true
  unfolding contains
  contains_last [] id = rw (beq_refl id) refl
  contains_last (x ∷ ids) id = ground (arith, contains_last ids id)

  Outcome-IsFinished :
      (events : List ConnectionEvent) (calls : List AgentToolCall) (row : Investigation)
      (r : Response Investigation)
      → row.completed_at ≢ none
      → Outcome events calls row r
      → IsFinished row
  Outcome-IsFinished events calls row _ time (completes report status answer full _ _ _) =
      (time, inl (status, report, answer, full))
  Outcome-IsFinished events calls row _ time (fails status answer) = (time, inr (status, answer))

  module _ (injective : IsInjective w) where
    pub IsSound-IsFresh :
        (s : Store) → IsSound w ge_zero s → IsFresh (w.uuid4 s.drawn) s.investigations
    IsSound-IsFresh s h =
        All-map_back _ (λ i. i.id) s.investigations
          (Issued_fresh w injective s.drawn h.investigation_ids (omega arith))

    pub create_investigation-IsSound :
        (env : Option Text) (gemini : Result LlmProvider) (question : Text) (s : Store)
        → IsSound w ge_zero s
        → IsSound w ge_zero (create_investigation w E p env gemini question s).1
    create_investigation-IsSound env gemini question s h =
        let t = (create_investigation w E p env gemini question s).1 in
        let closes =
          create_investigation-Closes w E p lawful env gemini question s (IsSound-IsFresh s h) in
        let (drawn, kept) = create_investigation-KeepsCalls w E p env gemini question s in
        let ids : investigation_ids_of t ≡ investigation_ids_of s ++ (w.uuid4 s.drawn ∷ []) =
          ap (map (λ i. i.id)) closes.added
          ∙ map-append (λ i. i.id) s.investigations (closes.row ∷ [])
          ∙ ap (λ x. investigation_ids_of s ++ (x ∷ [])) closes.row_id in
        calls_added s t (w.uuid4 s.drawn) closes.calls h kept closes.events closes.logged closes.own
          (subst (All IsFinished) (sym closes.added) (
            All-append IsFinished s.investigations (closes.row ∷ []) h.investigations_finished (
              Outcome-IsFinished s.events closes.calls closes.row _ closes.finished closes.outcome,
              tt,
            )))
          (subst (Issued w t.drawn) (sym ids)
            (issue s.drawn h.investigation_ids (omega arith) (omega (arith, drawn))))
          (λ other k.
            subst (λ xs. contains xs other ≡ true) (sym ids)
              (rw (contains-append (investigation_ids_of s) (w.uuid4 s.drawn ∷ []) other, k) refl))
          (subst (λ xs. contains xs (w.uuid4 s.drawn) ≡ true) (sym ids)
            (contains_last (investigation_ids_of s) (w.uuid4 s.drawn)))
