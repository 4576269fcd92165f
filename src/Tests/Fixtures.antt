-- ===== src/Tests/Fixtures.antt =====
-- Concrete surroundings: a world, a reading of arguments, events, and a scripted provider.
use trace_pilot.Prelude.{ℕ, Text, codes, none, some, List, [], ◌∷◌, ◌++◌, Option, ◌+◌}
use trace_pilot.Prelude.Decimal.{decimal}
use trace_pilot.Json.{ℤ, pos, Value, int, null, Fields, end, field, nat}
use trace_pilot.Exec.{returns}
use trace_pilot.Store.{World, ConnectionEvent, Store, empty_store, minutes_us, hours_us}
use trace_pilot.Tools.Arguments.{Pydantic}
use trace_pilot.Llm.Base.{LlmProvider}
use trace_pilot.Evidence.RoundTrip.{citation}

abbrev pub event_1 : Text
event_1 = codes "11111111-1111-4111-8111-111111111111"

abbrev pub event_2 : Text
event_2 = codes "22222222-2222-4222-8222-222222222222"

abbrev pub world : World
world = record {
  uuid4 = λ n. codes "id-" ++ decimal n;
  now = λ n. hours_us 1000 + n;
  isoformat = decimal;
}

-- Integers stand for themselves, and for times.
abbrev pub read_int : Value → Option ℤ
read_int (int n) = some n
read_int _ = none

abbrev pub read_time : Value → Option ℕ
read_time (int (pos n)) = some n
read_time _ = none

abbrev pub pydantic : Pydantic
pydantic = record { int_of = read_int; datetime_of = read_time; errors = λ model fields. null }

abbrev pub event_at : Text → ℕ → Text → ConnectionEvent
event_at id time ip = record {
  id = id;
  timestamp = time;
  pid = 4242;
  process_name = codes "python3";
  uid = 1000;
  destination_ip = ip;
  destination_port = 443;
  ip_version = 4;
  duration_ms = none;
  source = codes "simulator";
  created_at = time;
}

-- One event in the baseline of the recent hour, and one in the hour.
abbrev pub events : List ConnectionEvent
events =
    event_at event_1 (hours_us 998) (codes "198.51.100.10")
    ∷ event_at event_2 (hours_us 999 + minutes_us 30) (codes "203.0.113.50")
    ∷ []

abbrev pub store : Store
store = record empty_store { events = events }

abbrev pub pid_arguments : Fields
pid_arguments = field "pid" (nat 4242) end

-- Asks for the timeline, and then cites the second event.
abbrev pub scripted : LlmProvider
scripted = record {
  State = Unit;
  start = λ question tools instructions. returns (record {
    text = none;
    tool_requests =
        record { call_id = codes "a"; name = "get_event_timeline"; arguments = pid_arguments } ∷ [];
    state = tt;
  });
  continue_with_tool_results = λ state results tools instructions.
      returns (record {
        text = some (codes "New: " ++ citation event_2);
        tool_requests = [];
        state = tt;
      });
}
