-- ===== src/Tests/Mock.antt =====
-- The demo provider on a concrete question, database and tool results.
use trace_pilot.Json.{str, list, dict, cons, nil, field, end}
use trace_pilot.Prelude.{
  ℕ, ◌+◌, ◌-◌, ◌≡◌, ◌≢◌, refl, codes, Bool, ◌&&◌, ◌||◌, leb, if◌then◌else◌, Option, some, none,
  List, [], ◌∷◌, Text, All, false, sym, ◌∙◌, ◌≤◌, ◌<◌, ◌^◌, some-injective, arith,
}
use trace_pilot.Tests.Fixtures.{world, pydantic, store, event_1, event_2}
use trace_pilot.Llm.Mock.{
  Unicode, search_pid, match_pid, mock_report, read_digits, mock_provider, from_keys, skip_spaces,
  collected_ids, skip_separator,
}
use trace_pilot.Evidence.Citations.{all_id_chars}
use trace_pilot.Agent.Loop.{run_with_provider}
use trace_pilot.Llm.Base.{ToolResult}
use trace_pilot.Llm.Mock.Acceptance.{returned, mock_report-accepted}
use trace_pilot.Evidence.Validate.{validate_report_evidence, accepted}
use trace_pilot.Evidence.RoundTrip.{IsEventId}
use trace_pilot.Sql.Reference.{reference, reference-IsEngine}
use trace_pilot.Exec.{returns}
use trace_pilot.Llm.Mock.Runs.{IsDemoReport, run_with_provider-mock}
use trace_pilot.Llm.Factory.{is_space}

abbrev ascii : Unicode
ascii = record {
  digit = λ c. if leb b'0' c && leb c b'9' then some (c - b'0') else none;
  is_alnum =
      λ c. leb b'0' c && leb c b'9' || (leb b'A' c && leb c b'Z' || leb b'a' c && leb c b'z');
}

abbrev question : Text
question = codes "Why does pid #4242 connect so often?"

asks_for_4242 : search_pid ascii false question ≡ some 4242
unfolding search_pid match_pid read_digits skip_spaces skip_separator is_space
    trace_pilot.Prelude.contains
asks_for_4242 = refl

asks_for_none : search_pid ascii false (codes "Look at rapid 7, PIDs 8 and pid 9x") ≡ none
unfolding search_pid match_pid read_digits skip_spaces skip_separator is_space
    trace_pilot.Prelude.contains
asks_for_none = refl

pid_fits : (pid : ℕ) → search_pid ascii false question ≡ some pid → (1 ≤ pid) × (pid < 2 ^ 31)
pid_fits pid h =
    let same : 4242 ≡ pid = some-injective 4242 pid (sym asks_for_4242 ∙ h) in
    (omega arith, omega arith)

events-IsEventId : All (λ e. IsEventId e.id) store.events
unfolding all_id_chars
events-IsEventId =
    (record { chars = refl; size = refl }, (record { chars = refl; size = refl }, tt))

run_with_provider-mock_example :
    (report : Text) × ((run_with_provider world reference pydantic event_1
        (mock_provider ascii)
        question
        store).0
      ≡ returns report)
    × IsDemoReport world reference pydantic event_1 reference-IsEngine
        (λ n. refl)
        ascii
        question
        store
        report
run_with_provider-mock_example =
    run_with_provider-mock world reference pydantic event_1 reference-IsEngine (λ n. refl) ascii
      question store events-IsEventId pid_fits

abbrev results : List ToolResult
results =
    record {
      call_id = codes "mock-unusual";
      tool_name = "find_unusual_destinations";
      result = dict (
          field "event_ids"
            (list (cons (str event_2) (cons (str event_1) (cons (str event_2) nil)))) end);
    }
    ∷ []

results-IsEventId : All IsEventId (returned results)
unfolding returned all_id_chars trace_pilot.Evidence.Extract.extract_tool_event_ids
    trace_pilot.Evidence.Extract.string_items
results-IsEventId = (
  record { chars = refl; size = refl },
  (record { chars = refl; size = refl }, (record { chars = refl; size = refl }, tt)),
)

mock_report-accepted_example :
    validate_report_evidence
      (mock_report 4242 (from_keys (collected_ids results)))
      (returned results)
    ≡ accepted
mock_report-accepted_example = mock_report-accepted 4242 results results-IsEventId
