-- ===== src/Api/Investigations/Trail.antt =====
-- backend/app/main.py: an investigation and its audit trail, read back after it was created.
use trace_pilot.Prelude.{
  ◌≡◌, refl, ◌∙◌, ap, false, Text, List, [], ◌∷◌, All, Option, some, ◌==◌, list_eq, number_eq,
  SameElements, count_if, arith, count_if-append, ◌&&◌, list_beq_iff,
}
use trace_pilot.Store.{World, Store, Investigation, AgentToolCall}
use trace_pilot.Exec.{Result}
use trace_pilot.Sql.{Engine, IsEngine, IsSorted, ascending}
use trace_pilot.Tools.Arguments.{Pydantic}
use trace_pilot.Llm.Base.{LlmProvider}
use trace_pilot.Api.Response.{sends}
use trace_pilot.Api.Investigations.{
  find_investigation, get_investigation, get_investigation_tool_calls, tool_calls_query,
  create_investigation, Bool,
}
use trace_pilot.Api.Investigations.Closing.{
  IsFresh, find-fresh, Closes, create_investigation-Closes,
}
use trace_pilot.Sql.Answers.{select-SameElements, IsSorted-left}

-- No audit record is about the investigation.
abbrev pub NoCalls : Text → List AgentToolCall → Type 0
NoCalls id = All (λ c. (c.investigation_id == id) ≡ false)

module _ (id : Text) (p : AgentToolCall → Bool) where
  count_if-NoCalls :
      (calls : List AgentToolCall)
      → NoCalls id calls
      → count_if (λ c. c.investigation_id == id && p c) calls ≡ 0
  unfolding count_if
  count_if-NoCalls [] h = refl
  count_if-NoCalls (c ∷ calls) h = rw (h.0) (omega (arith, count_if-NoCalls calls h.1))

  count_if-own :
      (calls : List AgentToolCall)
      → All (λ c. c.investigation_id ≡ id) calls
      → count_if (λ c. c.investigation_id == id && p c) calls ≡ count_if p calls
  unfolding count_if
  count_if-own [] h = refl
  count_if-own (c ∷ calls) h =
      rw ((list_beq_iff c.investigation_id id).1 h.0) (omega (arith, count_if-own calls h.1))

get-found :
    (id : Text) (row : Investigation) (t : Store)
    → find_investigation id t.investigations ≡ some row
    → get_investigation id t ≡ sends 200 row
unfolding get_investigation
get-found id row t h = rw (h, get_investigation)

calls-found :
    (E : Engine) (id : Text) (row : Investigation) (t : Store)
    → find_investigation id t.investigations ≡ some row
    → get_investigation_tool_calls E id t ≡ sends 200 (E.select (tool_calls_query id) t.tool_calls)
unfolding get_investigation_tool_calls
calls-found E id row t h = rw (h, get_investigation_tool_calls)

module _ (w : World) (E : Engine) (p : Pydantic) (lawful : IsEngine E) where
  module _ (env : Option Text) (gemini : Result LlmProvider) (question : Text) (s : Store)
      (fresh : IsFresh (w.uuid4 s.drawn) s.investigations)
      (unused : NoCalls (w.uuid4 s.drawn) s.tool_calls) where
    abbrev pub closes :
        Closes (w.uuid4 s.drawn) question s (create_investigation w E p env gemini question s)
    closes = create_investigation-Closes w E p lawful env gemini question s fresh

    -- After a request the investigation and its trail can be read under its ID: the former is
    -- the row that the request left, and the latter is, in the order of time, exactly the audit
    -- records of its run, each once.
    pub create_investigation-trail :
        let t = (create_investigation w E p env gemini question s).1 in
        (get_investigation (w.uuid4 s.drawn) t ≡ sends 200 closes.row)
        × (rows : List AgentToolCall) × (get_investigation_tool_calls E (w.uuid4 s.drawn) t
            ≡ sends 200 rows)
        × SameElements rows closes.calls
        × IsSorted (ascending (λ c. c.created_at)) rows
    create_investigation-trail =
        let id = w.uuid4 s.drawn in
        let t = (create_investigation w E p env gemini question s).1 in
        let q = tool_calls_query id in
        let answered = lawful.select_lem q t.tool_calls in
        let found =
          ap (find_investigation id) closes.added
          ∙ find-fresh id s.investigations closes.row fresh closes.row_id in
        (
          get-found id closes.row t found,
          E.select q t.tool_calls,
          calls-found E id closes.row t found,
          λ test.
              select-SameElements q t.tool_calls (E.select q t.tool_calls) answered refl test
              ∙ ap (count_if (λ c. c.investigation_id == id && test c)) closes.logged
              ∙ omega (
                arith,
                count_if-append (λ c. c.investigation_id == id && test c) s.tool_calls closes.calls,
                count_if-NoCalls id test s.tool_calls unused,
                count_if-own id test closes.calls closes.own,
              ),
          IsSorted-left (ascending (λ c. c.created_at)) (E.select q t.tool_calls) answered.cut
              answered.ordered,
        )
