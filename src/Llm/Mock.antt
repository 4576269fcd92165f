-- ===== src/Llm/Mock.antt =====
-- backend/app/llm/mock_provider.py: the provider of the demo mode.
pub mod Reports
pub mod Acceptance
pub mod Requests
pub mod Runs
use trace_pilot.Prelude.{
  ℕ, ◌+◌, ◌*◌, Text, codes, String, Bool, true, false, not, ◌&&◌, ◌||◌, Option, none, some, List,
  [], ◌∷◌, ◌++◌, ◌==◌, list_eq, number_eq, key_eq, map, take, eqb, contains, select_if,
  if◌then◌else◌,
}
use trace_pilot.Prelude.Decimal.{decimal}
use trace_pilot.Json.{
  Value, null, boolean, int, float, str, list, dict, Items, nil, cons, Fields, end, field, nat,
}
use trace_pilot.Exec.{Result, returns}
use trace_pilot.Evidence.Extract.{entry_ids}
use trace_pilot.Llm.Base.{LlmProvider, ProviderResponse, ToolRequest, ToolResult}
use trace_pilot.Llm.Factory.{is_space}

-- `list(dict.fromkeys(ids))`: the first occurrence of each ID, in order.
unfoldable pub from_keys : List Text → List Text
unfolding select_if
from_keys [] = []
from_keys (id ∷ ids) = id ∷ select_if (λ other. not (other == id)) (from_keys ids)

-- `entry_ids` is the branch for one entry of a dict, which is the same in agent.py.
unfoldable mutual
  unfolding from_keys

  pub extract_event_ids : Value → List Text
  extract_event_ids null = []
  extract_event_ids (boolean b) = []
  extract_event_ids (int n) = []
  extract_event_ids (float x) = []
  extract_event_ids (str s) = []
  extract_event_ids (list xs) = from_keys (ids_of_items xs)
  extract_event_ids (dict fs) = from_keys (ids_of_fields fs)

  pub ids_of_items : Items → List Text
  ids_of_items nil = []
  ids_of_items (cons x xs) = extract_event_ids x ++ ids_of_items xs

  pub ids_of_fields : Fields → List Text
  ids_of_fields end = []
  ids_of_fields (field key child fs) =
      entry_ids key child (extract_event_ids child) ++ ids_of_fields fs

-- The Unicode classes of `re`: the value of a decimal digit, and `str.isalnum`.
pub record Unicode : Type 0 where
  pub digit : ℕ → Option ℕ
  pub is_alnum : ℕ → Bool

-- The letters that match P, I and D under IGNORECASE; I also has its dotted and dotless forms.
abbrev pub is_letter_p : ℕ → Bool
is_letter_p c = eqb c b'P' || eqb c b'p'

abbrev pub is_letter_i : ℕ → Bool
is_letter_i c = eqb c b'I' || (eqb c b'i' || (eqb c 0x130 || eqb c 0x131))

abbrev pub is_letter_d : ℕ → Bool
is_letter_d c = eqb c b'D' || eqb c b'd'

-- `\s*`
unfoldable pub skip_spaces : Text → Text
unfolding is_space
skip_spaces [] = []
skip_spaces (c ∷ s) = let rest = skip_spaces s in if is_space c then rest else c ∷ s

-- `[:#]?`
unfoldable pub skip_separator : Text → Text
skip_separator [] = []
skip_separator (c ∷ s) = if eqb c b':' || eqb c b'#' then s else c ∷ s

module _ (u : Unicode) where
  -- A character of `\w`
  abbrev pub is_word : ℕ → Bool
  is_word c = u.is_alnum c || eqb c b'_'

  abbrev pub extended : Option ℕ → ℕ → ℕ
  extended none d = d
  extended (some n) d = 10 * n + d

  -- `(\d+)\b`, as the number that `int` reads: all digits are taken, since a boundary is not
  -- followed by one. `read` is what was read so far.
  unfoldable pub read_digits : Option ℕ → Text → Option ℕ
  read_digits read [] = read
  read_digits read (c ∷ s) = elim (u.digit c) [
    | some d ↦ read_digits (some (extended read d)) s
    | none ↦ if is_word c then none else read
  ]

  -- The pattern after its first boundary. Each part takes all that it can, and no other way to
  -- match is left.
  unfoldable pub match_pid : Text → Option ℕ
  unfolding skip_spaces skip_separator
  match_pid (p ∷ i ∷ d ∷ s) =
      if is_letter_p p && (is_letter_i i && is_letter_d d)
      then read_digits none (skip_spaces (skip_separator (skip_spaces s)))
      else none
  match_pid _ = none

  -- `re.search`. `after_word` tells whether the character before is a word character.
  unfoldable pub search_pid : Bool → Text → Option ℕ
  search_pid after_word [] = none
  search_pid after_word (c ∷ s) =
      let later = search_pid (is_word c) s in
      if after_word then later else elim (match_pid (c ∷ s)) [ some n ↦ some n | none ↦ later ]

abbrev pub no_pid_text : Text
no_pid_text = codes "Demo mode requires the question to include a PID."

abbrev pub mock_requests : ℕ → List ToolRequest
mock_requests pid =
    record {
      call_id = codes "mock-timeline";
      name = "get_event_timeline";
      arguments = field "pid" (nat pid) end;
    }
    ∷ record {
      call_id = codes "mock-bursts";
      name = "find_connection_bursts";
      arguments = field "threshold" (nat 100) (field "minutes" (nat 1440) end);
    }
    ∷ record {
      call_id = codes "mock-unusual";
      name = "find_unusual_destinations";
      arguments = field "pid" (nat pid) end;
    }
    ∷ []

-- The state is the PID; the code gives none when it asks for no tool, and then never reads it.
abbrev pub mock_start : Option ℕ → ProviderResponse ℕ
mock_start none = record { text = some no_pid_text; tool_requests = []; state = 0 }
mock_start (some pid) = record { text = none; tool_requests = mock_requests pid; state = pid }

-- `" ".join(f"[event:{event_id}]" for event_id in ids)`
unfoldable pub joined_citations : List Text → Text
joined_citations [] = []
joined_citations (id ∷ []) = codes "[event:" ++ (id ++ (b']' ∷ []))
joined_citations (id ∷ id' ∷ ids) =
    codes "[event:" ++ (id ++ (b']' ∷ b' ' ∷ joined_citations (id' ∷ ids)))

-- The fixed parts of the two reports.
abbrev pub nothing_for : Text
nothing_for = codes "No supporting connection events were found for PID "

abbrev pub nothing_end : Text
nothing_end = codes ". No conclusion can be made from the available telemetry."

abbrev pub pid_is : Text
pid_is = codes "PID "

abbrev pub by_tools : Text
by_tools =
    codes
      " produced network activity identified by TracePilot's deterministic investigation tools. "

abbrev pub caveat : Text
caveat =
    codes "\n\nThis demo report does not determine that the process was malicious. "
    ++ codes
        "Application logs and process context would be required to establish the underlying cause."

unfoldable pub mock_report : ℕ → List Text → Text
unfolding joined_citations decimal
mock_report pid [] = nothing_for ++ (decimal pid ++ nothing_end)
mock_report pid (id ∷ ids) =
    pid_is ++ (decimal pid ++ (by_tools ++ (joined_citations (take 3 (id ∷ ids)) ++ caveat)))

-- The IDs of all results, each once.
unfoldable pub collected_ids : List ToolResult → List Text
unfolding extract_event_ids
collected_ids [] = []
collected_ids (r ∷ rs) = extract_event_ids r.result ++ collected_ids rs

abbrev pub mock_continue : ℕ → List ToolResult → ProviderResponse ℕ
mock_continue pid results = record {
  text = some (mock_report pid (from_keys (collected_ids results)));
  tool_requests = [];
  state = pid;
}

abbrev pub mock_provider : Unicode → LlmProvider
mock_provider u = record {
  State = ℕ;
  start = λ question tools instructions. returns (mock_start (search_pid u false question));
  continue_with_tool_results =
      λ state results tools instructions. returns (mock_continue state results);
}
