-- ===== src/Tools/Queries.antt =====
-- backend/app/agent_tools.py: the SELECT statements of the tools.
use trace_pilot.Prelude.{
  ℕ, Text, Bool, ◌&&◌, none, some, List, [], ◌∷◌, length, leb, ltb, min, ◌==◌, number_eq, map, ◌-◌,
  true,
}
use trace_pilot.Store.{ConnectionEvent, minutes_us, hours_us, minute_start}
use trace_pilot.Sql.{Select, Grouping, Group, ascending, descending}
use trace_pilot.Tools.Arguments.{
  ProcessConnectionsArguments, TopNetworkProcessesArguments, ConnectionBurstsArguments,
}

-- The key that the rows of one process share: PID and process name.
abbrev pub ProcessKey : Type 0
ProcessKey = ℕ × Text

-- Destination address and port.
abbrev pub Destination : Type 0
Destination = Text × ℕ

abbrev pub destination : ConnectionEvent → Destination
destination e = (e.destination_ip, e.destination_port)

-- `func.count(ConnectionEvent.id)`
abbrev pub connection_count : {K : Type 0} → Group ConnectionEvent K → ℕ
connection_count g = length g.members

-- `func.array_agg(ConnectionEvent.id)`
abbrev pub event_ids : {K : Type 0} → Group ConnectionEvent K → List Text
event_ids g = map (λ e. e.id) g.members

-- `func.min(ConnectionEvent.timestamp)`; a group has at least one row
unfoldable pub min_timestamp : List ConnectionEvent → ℕ
min_timestamp [] = 0
min_timestamp (e ∷ []) = e.timestamp
min_timestamp (e ∷ e' ∷ es) = min e.timestamp (min_timestamp (e' ∷ es))

abbrev pub process_connections_query : ProcessConnectionsArguments → Select ConnectionEvent
process_connections_query a = record {
  where_holds = λ e. e.pid == a.pid && leb a.start_time e.timestamp && leb e.timestamp a.end_time;
  order = ascending (λ e. e.timestamp);
  limit = some 500;
}

abbrev pub top_processes_query :
    ℕ → TopNetworkProcessesArguments → Grouping ConnectionEvent ProcessKey
top_processes_query now a = record {
  where_holds = λ e. leb (now - minutes_us a.minutes) e.timestamp;
  key = λ e. (e.pid, e.process_name);
  having = λ members. true;
  order = descending connection_count;
  limit = some a.limit;
}

abbrev pub bursts_query : ℕ → ConnectionBurstsArguments → Grouping ConnectionEvent (ProcessKey × ℕ)
bursts_query now a = record {
  where_holds = λ e. leb (now - minutes_us a.minutes) e.timestamp;
  key = λ e. ((e.pid, e.process_name), minute_start e.timestamp);
  having = λ members. ltb a.threshold (length members);
  order = descending connection_count;
  limit = none;
}

-- The baseline: from `baseline_start` up to, and without, `recent_start`.
abbrev pub in_baseline : ℕ → ℕ → ℕ → ConnectionEvent → Bool
in_baseline pid baseline_start recent_start e =
    e.pid == pid && leb baseline_start e.timestamp && ltb e.timestamp recent_start

abbrev pub recent_destinations_query : ℕ → ℕ → ℕ → Grouping ConnectionEvent Destination
recent_destinations_query pid recent_start now = record {
  where_holds = λ e. e.pid == pid && leb recent_start e.timestamp && leb e.timestamp now;
  key = destination;
  having = λ members. true;
  order = ascending (λ g. min_timestamp g.members);
  limit = none;
}

abbrev pub timeline_query : ℕ → ℕ → Select ConnectionEvent
timeline_query now pid = record {
  where_holds = λ e. e.pid == pid && leb (now - hours_us 24) e.timestamp;
  order = descending (λ e. e.timestamp);
  limit = some 500;
}
