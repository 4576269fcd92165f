-- ===== src/Api/Events.antt =====
-- backend/app/main.py: `/events`, `/events/batch` and `/processes/{pid}/connections`, with the
-- models `ConnectionEventCreate` and `ConnectionEventBatch` of backend/app/schemas.py.
pub mod Batches
pub mod Validation
use trace_pilot.Prelude.{
  true, ltb, not, contains, number_eq, ◌^◌, ℕ, suc, ◌+◌, Text, Bool, ◌&&◌, Option, none, some, List,
  [], ◌∷◌, ◌++◌, length, leb, eqb, ◌||◌, if◌then◌else◌,
}
use trace_pilot.Json.{ℤ, Value}
use trace_pilot.Store.{World, Store, ConnectionEvent}
use trace_pilot.Sql.{Engine, Select, descending}
use trace_pilot.Tools.Arguments.{◌>>=◌, in_bounds}
use trace_pilot.Exec.{database_error}
use trace_pilot.Api.Response.{Response, sends, http_error, server_error}

-- The fields of an event in a request, as pydantic reads them by their types.
pub record EventBody : Type 0 where
  pub timestamp : ℕ
  pub pid : ℤ
  pub process_name : Text
  pub uid : ℤ
  pub destination_ip : Text
  pub destination_port : ℤ
  pub ip_version : ℤ
  pub duration_ms : Option ℕ
  pub source : Text

-- `ConnectionEventCreate`
pub record ConnectionEventCreate : Type 0 where
  pub timestamp : ℕ
  pub pid : ℕ
  pub process_name : Text
  pub uid : ℕ
  pub destination_ip : Text
  pub destination_port : ℕ
  pub ip_version : ℕ
  pub duration_ms : Option ℕ
  pub source : Text

-- `Field(min_length=low, max_length=high)`
abbrev pub text_within : ℕ → ℕ → Text → Option Text
text_within low high t = if leb low (length t) && leb (length t) high then some t else none

-- `Literal[4, 6]`
abbrev pub ip_version_of : Option ℕ → Option ℕ
ip_version_of none = none
ip_version_of (some n) = if eqb n 4 || eqb n 6 then some n else none

-- `Field(default=None, ge=0)` of a float
abbrev pub duration_of : (ℕ → Bool) → Option ℕ → Option (Option ℕ)
duration_of ge_zero none = some none
duration_of ge_zero (some x) = if ge_zero x then some (some x) else none

-- What pydantic makes of a request: whether a float is at least 0, and the body of a 422.
module _ (ge_zero : ℕ → Bool) where
  unfoldable pub validate_event : EventBody → Option ConnectionEventCreate
  unfolding in_bounds
  validate_event body = do
    pid ← in_bounds 1 none body.pid
    process_name ← text_within 1 64 body.process_name
    uid ← in_bounds 0 none body.uid
    destination_port ← in_bounds 1 (some 65535) body.destination_port
    ip_version ← ip_version_of (in_bounds 0 none body.ip_version)
    duration_ms ← duration_of ge_zero body.duration_ms
    source ← text_within 0 20 body.source
    some (record {
      timestamp = body.timestamp;
      pid = pid;
      process_name = process_name;
      uid = uid;
      destination_ip = body.destination_ip;
      destination_port = destination_port;
      ip_version = ip_version;
      duration_ms = duration_ms;
      source = source;
    })

  unfoldable pub validate_all : List EventBody → Option (List ConnectionEventCreate)
  validate_all [] = some []
  validate_all (body ∷ bodies) = do e ← validate_event body; es ← validate_all bodies; some (e ∷ es)

  -- `ConnectionEventBatch`
  unfoldable pub validate_batch : List EventBody → Option (List ConnectionEventCreate)
  unfolding validate_all
  validate_batch bodies =
      if leb 1 (length bodies) && leb (length bodies) 500 then validate_all bodies else none

-- What the columns take: `Integer` is a signed 32-bit column, and text has no NUL.
unfoldable pub fits_columns : ConnectionEventCreate → Bool
unfolding contains
fits_columns d =
    (ltb d.pid (2 ^ 31) && ltb d.uid (2 ^ 31))
    && (not (contains d.process_name 0) && not (contains d.source 0))

unfoldable pub all_fit : List ConnectionEventCreate → Bool
unfolding fits_columns
all_fit [] = true
all_fit (d ∷ ds) = fits_columns d && all_fit ds

module _ (w : World) where
  -- `ConnectionEvent(…)` of a request, with the defaults of the ID and of the time.
  abbrev pub new_event : ConnectionEventCreate → ℕ → ℕ → ConnectionEvent
  new_event d drawn reads = record {
    id = w.uuid4 drawn;
    timestamp = d.timestamp;
    pid = d.pid;
    process_name = d.process_name;
    uid = d.uid;
    destination_ip = d.destination_ip;
    destination_port = d.destination_port;
    ip_version = d.ip_version;
    duration_ms = d.duration_ms;
    source = d.source;
    created_at = w.now reads;
  }

  unfoldable pub new_events : List ConnectionEventCreate → ℕ → ℕ → List ConnectionEvent
  new_events [] drawn reads = []
  new_events (d ∷ ds) drawn reads = new_event d drawn reads ∷ new_events ds (suc drawn) (suc reads)

  abbrev pub insert_events : List ConnectionEvent → Store → Store
  insert_events rows s = record s {
    events = s.events ++ rows;
    drawn = s.drawn + length rows;
    reads = s.reads + length rows;
  }

-- The defaults of `n` rows are evaluated, and the INSERT fails.
abbrev pub insert_fails : {A : Type 0} → ℕ → Store → Response A × Store
insert_fails n s =
    (server_error database_error, record s { drawn = s.drawn + n; reads = s.reads + n })

module _ (w : World) (ge_zero : ℕ → Bool) (details : Value) where
  abbrev pub answer_event : Option ConnectionEventCreate → Store → Response ConnectionEvent × Store
  answer_event none s = (http_error 422 details, s)
  answer_event (some d) s =
      let row = new_event w d s.drawn s.reads in
      if fits_columns d then (sends 201 row, insert_events w (row ∷ []) s) else insert_fails 1 s

  -- The request, with the validation in front of the handler.
  unfoldable pub create_event : EventBody → Store → Response ConnectionEvent × Store
  unfolding validate_event
  create_event body s = answer_event (validate_event ge_zero body) s

  abbrev pub answer_batch :
      Option (List ConnectionEventCreate) → Store → Response (List ConnectionEvent) × Store
  answer_batch none s = (http_error 422 details, s)
  answer_batch (some ds) s =
      let rows = new_events w ds s.drawn s.reads in
      if all_fit ds then (sends 201 rows, insert_events w rows s) else insert_fails (length ds) s

  unfoldable pub create_event_batch :
      List EventBody → Store → Response (List ConnectionEvent) × Store
  create_event_batch bodies s = answer_batch (validate_batch ge_zero bodies) s

abbrev pub connections_query : ℕ → Select ConnectionEvent
connections_query pid = record {
  where_holds = λ e. eqb e.pid pid;
  order = descending (λ e. e.timestamp);
  limit = none;
}

unfoldable pub get_process_connections : Engine → ℕ → Store → Response (List ConnectionEvent)
get_process_connections E pid s = sends 200 (E.select (connections_query pid) s.events)
