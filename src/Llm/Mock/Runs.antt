-- ===== src/Llm/Mock/Runs.antt =====
-- backend/app/agent.py with backend/app/llm/mock_provider.py: runs of the demo mode.
use trace_pilot.Prelude.{
  zero, suc, ◌⊎◌, ◌≢◌, ◌==◌, list_eq, number_eq, list_beq_iff, ℕ, ◌≤◌, ◌<◌, ◌≡◌, refl, Text, String,
  List, [], ◌∷◌, ◌++◌, All, Option, none, some, count_if, arith, Bool-cases, inl, subst, append-nil,
  inr, ap, ◌∙◌, ap₂, append_assoc, All-append, le→leb, All-mono, Option-cases, sym, ◌^◌,
}
use trace_pilot.Tools.Arguments.{
  unusual_destinations, event_timeline, connection_bursts, get_event_timeline,
  find_connection_bursts, find_unusual_destinations, Pydantic, registered, model_validate,
  required_int, optional_int, get, in_bounds,
}
use trace_pilot.Store.{World, Store}
use trace_pilot.Llm.Base.{ToolResult}
use trace_pilot.Evidence.RoundTrip.{IsEventId}
use trace_pilot.Sql.Statement.{Engine, IsEngine}
use trace_pilot.Tools.Evidence.{IsStored}
use trace_pilot.Agent.Loop.{run_requests, finish, checked, run_with_provider, rounds}
use trace_pilot.Llm.Mock.Acceptance.{returned, mock_report-accepted}
use trace_pilot.Json.{nat, pos}
use trace_pilot.Exec.{Result, returns, Exec, continue}
use trace_pilot.Llm.Mock.{
  mock_report, mock_requests, Unicode, mock_provider, search_pid, false, mock_continue, from_keys,
  no_pid_text, collected_ids, mock_start,
}
use trace_pilot.Evidence.Validate.{validate_report_evidence, accepted}
use trace_pilot.Llm.Mock.Requests.{IsValidRequest, stored-IsEventId, run_requests-Answered}

finish-accepted :
    (report : Text) (allowed : List Text)
    → report ≢ []
    → validate_report_evidence report allowed ≡ accepted
    → finish (some report) allowed ≡ returns report
unfolding finish
finish-accepted [] allowed h k = absurd (h refl)
finish-accepted (c ∷ cs) allowed h k = ap (checked (c ∷ cs)) k

no_pid_text-accepted : validate_report_evidence no_pid_text [] ≡ accepted
unfolding validate_report_evidence trace_pilot.Prelude.list_beq
no_pid_text-accepted = refl

mock_report-nonempty : (pid : ℕ) (ids : List Text) → mock_report pid ids ≢ []
unfolding mock_report
mock_report-nonempty pid [] e = cc
mock_report-nonempty pid (id ∷ ids) e = cc

module _ (w : World) (E : Engine) (p : Pydantic) (investigation_id : Text)
    (lawful : IsEngine E) where
  module _ (reads_nat : (n : ℕ) → p.int_of (nat n) ≡ some (pos n)) where
    mock_requests-IsValidRequest : (pid : ℕ) → 1 ≤ pid → All (IsValidRequest p) (mock_requests pid)
    unfolding registered model_validate required_int optional_int get in_bounds
    mock_requests-IsValidRequest pid h =
        let enough = le→leb 1 pid h in
        (
          (
            get_event_timeline,
            event_timeline (record { pid = pid }),
            refl,
            rw (reads_nat pid, enough) refl,
          ),
          (
            (
              find_connection_bursts,
              connection_bursts (record { threshold = 100; minutes = 1440 }),
              refl,
              rw (reads_nat 100, reads_nat 1440) refl,
            ),
            (
              (
                find_unusual_destinations,
                unusual_destinations (record { pid = pid }),
                refl,
                rw (reads_nat pid, enough) refl,
              ),
              tt,
            ),
          ),
        )

    module _ (u : Unicode) (question : Text) (s : Store) where
      abbrev demo_run : Result Text × Store
      demo_run = run_with_provider w E p investigation_id (mock_provider u) question s

      abbrev second_round : ℕ → List Text × List ToolResult → Exec Store Text
      second_round pid (allowed, results) =
          rounds w E p investigation_id (mock_provider u) 7 (mock_continue pid results) allowed

      second_round-report :
          (pid : ℕ) (given : List ToolResult) (s' : Store)
          → All IsEventId (returned given)
          → (second_round pid (returned given, given) s').0
            ≡ returns (mock_report pid (from_keys (collected_ids given)))
      unfolding rounds
      second_round-report pid given s' uuids =
          finish-accepted (mock_report pid (from_keys (collected_ids given))) (returned given)
            (mock_report-nonempty pid (from_keys (collected_ids given)))
            (mock_report-accepted pid given uuids)

      asked_for :
          (pid : ℕ)
          → 1 ≤ pid
          → All (λ e. IsEventId e.id) s.events
          → search_pid u false question ≡ some pid
          → (given : List ToolResult) × (demo_run.0
              ≡ returns (mock_report pid (from_keys (collected_ids given))))
            × All (IsStored s.events) (returned given)
      unfolding run_with_provider rounds
      asked_for pid h uuids e =
          let q = run_requests w E p investigation_id (mock_requests pid) [] [] s in
          let run =
            run_requests-Answered w E p investigation_id lawful (mock_requests pid) [] [] s
              (mock_requests-IsValidRequest pid h) in
          let ids : All IsEventId (returned run.given) =
            All-mono (IsStored s.events) IsEventId (returned run.given)
              (λ id k. stored-IsEventId s.events id uuids k) run.stored in
          (
            run.given,
            ap (λ o. (rounds w E p investigation_id (mock_provider u) 8 (mock_start o) [] s).0) e
                ∙ ap (λ r. (continue r (second_round pid) q.1).0) run.answer
                ∙ second_round-report pid run.given q.1 ids,
            run.stored,
          )

      not_asked_for : search_pid u false question ≡ none → demo_run.0 ≡ returns no_pid_text
      unfolding run_with_provider rounds
      not_asked_for e =
          ap (λ o. (rounds w E p investigation_id (mock_provider u) 8 (mock_start o) [] s).0) e
          ∙ finish-accepted no_pid_text [] (λ k. cc) no_pid_text-accepted

      -- What a demo run answers: the request for a PID, or the report on the PID of the question
      -- with the events of some tool results.
      abbrev pub IsDemoReport : Text → Type 0
      IsDemoReport report =
          ((search_pid u false question ≡ none) × (report ≡ no_pid_text))
          ⊎ ((pid : ℕ) × (given : List ToolResult) × (search_pid u false question ≡ some pid)
              × (report ≡ mock_report pid (from_keys (collected_ids given)))
              × All (IsStored s.events) (returned given))

      -- If event IDs are UUIDs, integers are read as themselves, and a PID in the question is from 1
      -- to 2^31 - 1, which are those that the column holds, then while the database answers every
      -- statement a run of the agent with the demo provider returns a report; no tool call and no
      -- evidence check stops it. Without a PID in the question it asks for one; with one, it reports
      -- on this PID and on IDs of stored events.
      pub run_with_provider-mock :
          All (λ e. IsEventId e.id) s.events
          → ((pid : ℕ) → search_pid u false question ≡ some pid → (1 ≤ pid) × (pid < 2 ^ 31))
          → (report : Text) × (demo_run.0 ≡ returns report) × IsDemoReport report
      run_with_provider-mock uuids fits = elim (Option-cases (search_pid u false question)) [
        | inl e ↦ (no_pid_text, not_asked_for e, inl (e, refl))
        | inr (pid, e) ↦
            let (given, answer, stored) = asked_for pid (fits pid e).0 uuids e in
            (_, answer, inr (pid, given, e, refl, stored))
      ]
