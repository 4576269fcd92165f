-- ===== src/Tools/Arguments/Ranges.antt =====
-- backend/app/agent_tools.py: the ranges of validated arguments.
use trace_pilot.Prelude.{ℕ, ◌≤◌, ◌≡◌, String, none, some, arith}
use trace_pilot.Json.{ℤ, Fields}
use trace_pilot.Tools.Arguments.{
  Pydantic, Arguments, process_connections, top_network_processes, connection_bursts,
  unusual_destinations, event_timeline, get_process_connections, get_top_network_processes,
  find_connection_bursts, find_unusual_destinations, get_event_timeline, Tool, model_validate,
  in_bounds, required_int, optional_int,
}

abbrev pub IsInRange : Arguments → Type 0
IsInRange (process_connections a) = 1 ≤ a.pid
IsInRange (top_network_processes a) =
    (1 ≤ a.minutes) × (a.minutes ≤ 1440) × (1 ≤ a.limit) × (a.limit ≤ 100)
IsInRange (connection_bursts a) =
    (1 ≤ a.threshold) × (a.threshold ≤ 10000) × (1 ≤ a.minutes) × (a.minutes ≤ 1440)
IsInRange (unusual_destinations a) = 1 ≤ a.pid
IsInRange (event_timeline a) = 1 ≤ a.pid

in_bounds-range :
    (low high : ℕ) (n : ℤ) (m : ℕ) → in_bounds low (some high) n ≡ some m → (low ≤ m) × (m ≤ high)
unfolding in_bounds
in_bounds-range low high n m h = ground arith

in_bounds-low : (low : ℕ) (n : ℤ) (m : ℕ) → in_bounds low none n ≡ some m → low ≤ m
unfolding in_bounds
in_bounds-low low n m h = ground arith

module _ (p : Pydantic) where
  required_int-low :
      (key : String) (low : ℕ) (raw : Fields) (m : ℕ)
      → required_int p key low none raw ≡ some m
      → low ≤ m
  unfolding required_int
  required_int-low key low raw m h = ground arith

  optional_int-range :
      (key : String) (default low high : ℕ) (raw : Fields) (m : ℕ)
      → low ≤ default
      → default ≤ high
      → optional_int p key default low (some high) raw ≡ some m
      → (low ≤ m) × (m ≤ high)
  unfolding optional_int
  optional_int-range key default low high raw m h k e = ground arith

  -- Whatever the raw arguments, those that a tool is called with lie in the ranges of its model:
  -- PIDs from 1, windows from 1 to 1440 minutes, limits from 1 to 100, thresholds from 1 to 10000.
  pub model_validate-IsInRange :
      (tool : Tool) (raw : Fields) (arguments : Arguments)
      → model_validate p tool raw ≡ some arguments
      → IsInRange arguments
  unfolding model_validate
  model_validate-IsInRange get_process_connections raw (process_connections a) h =
      ground (arith, required_int-low "pid" 1 raw a.pid)
  model_validate-IsInRange get_top_network_processes raw (top_network_processes a) h = ground (
    arith,
    optional_int-range "minutes" 60 1 1440 raw a.minutes,
    optional_int-range "limit" 10 1 100 raw a.limit,
  )
  model_validate-IsInRange find_connection_bursts raw (connection_bursts a) h = ground (
    arith,
    optional_int-range "threshold" 100 1 10000 raw a.threshold,
    optional_int-range "minutes" 60 1 1440 raw a.minutes,
  )
  model_validate-IsInRange find_unusual_destinations raw (unusual_destinations a) h =
      ground (arith, required_int-low "pid" 1 raw a.pid)
  model_validate-IsInRange get_event_timeline raw (event_timeline a) h =
      ground (arith, required_int-low "pid" 1 raw a.pid)
  model_validate-IsInRange get_process_connections raw _ h = ground arith
  model_validate-IsInRange get_top_network_processes raw _ h = ground arith
  model_validate-IsInRange find_connection_bursts raw _ h = ground arith
  model_validate-IsInRange find_unusual_destinations raw _ h = ground arith
  model_validate-IsInRange get_event_timeline raw _ h = ground arith
