-- ===== src/Tools/Arguments.antt =====
-- backend/app/agent_tools.py: the argument models. How pydantic reads an `int` or a `datetime`
-- from a value is a parameter; the bounds of each `Field` are the source's.
pub mod Ranges
use trace_pilot.Prelude.{ℕ, String, ◌&&◌, Option, none, some, leb, ◌==◌, key_eq, if◌then◌else◌}
use trace_pilot.Json.{ℤ, pos, negsuc, Value, Fields, end, field, dict, nat, str}
use trace_pilot.Store.{World}

pub record Pydantic : Type 0 where
  -- The integer, or the time, that a value is read as in lax mode.
  pub int_of : Value → Option ℤ
  pub datetime_of : Value → Option ℕ
  -- `error.errors()` of the model's validation of these fields.
  pub errors : String → Fields → Value

-- `raw.get(key)`
unfoldable pub get : String → Fields → Option Value
get key end = none
get key (field k v fs) = if k == key then some v else get key fs

infixl 5 ◌>>=◌
abbrev pub ◌>>=◌ {ℓ κ} : {A : Type ℓ} {B : Type κ} → Option A → (A → Option B) → Option B
none >>= f = none
some a >>= f = f a

-- `Field(ge=low, le=high)` of an int; `none` for no upper bound.
unfoldable pub in_bounds : ℕ → Option ℕ → ℤ → Option ℕ
in_bounds low high (negsuc n) = none
in_bounds low none (pos n) = if leb low n then some n else none
in_bounds low (some high) (pos n) = if leb low n && leb n high then some n else none

pub record ProcessConnectionsArguments : Type 0 where
  pub pid : ℕ
  pub start_time : ℕ
  pub end_time : ℕ

pub record TopNetworkProcessesArguments : Type 0 where
  pub minutes : ℕ
  pub limit : ℕ

pub record ConnectionBurstsArguments : Type 0 where
  pub threshold : ℕ
  pub minutes : ℕ

pub record UnusualDestinationsArguments : Type 0 where
  pub pid : ℕ

pub record EventTimelineArguments : Type 0 where
  pub pid : ℕ

-- The validated arguments of one of the tools of `TOOL_REGISTRY`.
pub data Arguments : Type 0 where
  process_connections : ProcessConnectionsArguments → Arguments
  top_network_processes : TopNetworkProcessesArguments → Arguments
  connection_bursts : ConnectionBurstsArguments → Arguments
  unusual_destinations : UnusualDestinationsArguments → Arguments
  event_timeline : EventTimelineArguments → Arguments

pub data Tool : Type 0 where
  get_process_connections get_top_network_processes find_connection_bursts : Tool
  find_unusual_destinations get_event_timeline : Tool

abbrev pub tool_name : Tool → String
tool_name get_process_connections = "get_process_connections"
tool_name get_top_network_processes = "get_top_network_processes"
tool_name find_connection_bursts = "find_connection_bursts"
tool_name find_unusual_destinations = "find_unusual_destinations"
tool_name get_event_timeline = "get_event_timeline"

-- `TOOL_REGISTRY.get(tool_name)`
unfoldable pub registered : String → Option Tool
registered name =
    if name == "get_process_connections"
    then some get_process_connections
    else if name == "get_top_network_processes"
    then some get_top_network_processes
    else if name == "find_connection_bursts"
    then some find_connection_bursts
    else if name == "find_unusual_destinations"
    then some find_unusual_destinations
    else if name == "get_event_timeline"
    then some get_event_timeline
    else none

module _ (p : Pydantic) where
  -- A field with no default, and one with a default, which is not validated.
  unfoldable pub required_int : String → ℕ → Option ℕ → Fields → Option ℕ
  unfolding get in_bounds
  required_int key low high raw = do v ← get key raw; n ← p.int_of v; in_bounds low high n

  abbrev or_default : ℕ → Option ℕ → Option Value → (Value → Option ℕ) → Option ℕ
  or_default default high none read = some default
  or_default default high (some v) read = read v

  unfoldable pub optional_int : String → ℕ → ℕ → Option ℕ → Fields → Option ℕ
  unfolding get in_bounds
  optional_int key default low high raw =
      or_default default high (get key raw) (λ v. do n ← p.int_of v; in_bounds low high n)

  unfoldable pub required_datetime : String → Fields → Option ℕ
  unfolding get
  required_datetime key raw = do v ← get key raw; p.datetime_of v

  -- `arguments_model.model_validate(raw_arguments)`; `none` is a `ValidationError`.
  unfoldable pub model_validate : Tool → Fields → Option Arguments
  model_validate get_process_connections raw = do
    pid ← required_int "pid" 1 none raw
    start_time ← required_datetime "start_time" raw
    end_time ← required_datetime "end_time" raw
    some (process_connections (record { pid = pid; start_time = start_time; end_time = end_time }))
  model_validate get_top_network_processes raw = do
    minutes ← optional_int "minutes" 60 1 (some 1440) raw
    limit ← optional_int "limit" 10 1 (some 100) raw
    some (top_network_processes (record { minutes = minutes; limit = limit }))
  model_validate find_connection_bursts raw = do
    threshold ← optional_int "threshold" 100 1 (some 10000) raw
    minutes ← optional_int "minutes" 60 1 (some 1440) raw
    some (connection_bursts (record { threshold = threshold; minutes = minutes }))
  model_validate find_unusual_destinations raw = do
    pid ← required_int "pid" 1 none raw
    some (unusual_destinations (record { pid = pid }))
  model_validate get_event_timeline raw = do
    pid ← required_int "pid" 1 none raw
    some (event_timeline (record { pid = pid }))

-- `jsonable_encoder(validated_arguments.model_dump())`
unfoldable pub model_dump : World → Arguments → Value
model_dump w (process_connections a) = dict (
    field "pid" (nat a.pid) (
      field "start_time" (str (w.isoformat a.start_time))
        (field "end_time" (str (w.isoformat a.end_time)) end)))
model_dump w (top_network_processes a) =
    dict (field "minutes" (nat a.minutes) (field "limit" (nat a.limit) end))
model_dump w (connection_bursts a) =
    dict (field "threshold" (nat a.threshold) (field "minutes" (nat a.minutes) end))
model_dump w (unusual_destinations a) = dict (field "pid" (nat a.pid) end)
model_dump w (event_timeline a) = dict (field "pid" (nat a.pid) end)
