-- ===== src/Store.antt =====
-- backend/app/models.py: the three tables, and what the handlers take from their surroundings.
-- A UUID is its canonical text. A time is the number of microseconds since `datetime.min`, in
-- UTC. A float is its bit pattern.
use trace_pilot.Prelude.{ℕ, String, Text, Option, List, [], ◌*◌, ◌-◌, ◌%◌}
use trace_pilot.Json.{Value}

pub record ConnectionEvent : Type 0 where
  pub id : Text
  pub timestamp : ℕ
  pub pid : ℕ
  pub process_name : Text
  pub uid : ℕ
  pub destination_ip : Text
  pub destination_port : ℕ
  pub ip_version : ℕ
  pub duration_ms : Option ℕ
  pub source : Text
  pub created_at : ℕ

pub data Status : Type 0 where
  pending running completed failed : Status

pub record Investigation : Type 0 where
  pub id : Text
  pub question : Text
  pub status : Status
  pub answer : Option Text
  pub created_at : ℕ
  pub completed_at : Option ℕ

pub record AgentToolCall : Type 0 where
  pub id : Text
  pub investigation_id : Text
  pub tool_name : String
  pub arguments : Value
  pub result : Value
  pub created_at : ℕ

-- The committed rows, each table in the order of insertion. `drawn` counts the calls of `uuid4`
-- and `reads` the readings of the clock so far.
pub record Store : Type 0 where
  pub events : List ConnectionEvent
  pub investigations : List Investigation
  pub tool_calls : List AgentToolCall
  pub drawn : ℕ
  pub reads : ℕ

-- `uuid.uuid4`, `datetime.now(timezone.utc)` and `datetime.isoformat`: the n-th result of the
-- first two, and a function.
pub record World : Type 0 where
  pub uuid4 : ℕ → Text
  pub now : ℕ → ℕ
  pub isoformat : ℕ → Text

abbrev pub empty_store : Store
empty_store = record { events = []; investigations = []; tool_calls = []; drawn = 0; reads = 0 }

-- `timedelta(minutes=n)`, `timedelta(hours=n)`
abbrev pub minutes_us : ℕ → ℕ
minutes_us n = n * 60_000_000

abbrev pub hours_us : ℕ → ℕ
hours_us n = n * 3_600_000_000

-- `date_trunc('minute', t)`, and `t.replace(second=0, microsecond=0)`
unfoldable pub minute_start : ℕ → ℕ
minute_start t = t - t % 60_000_000
