-- ===== src/Tools/Results.antt =====
-- backend/app/agent_tools.py: the five tool functions. A tool reads the events and the time, and
-- returns a dict; it has no way to write.
use mathlib.Core.List.{reverse, []}
use trace_pilot.Prelude.{
  ℕ, Text, not, Option, none, some, List, contains, select_if, length, eqb, pair_eq, list_eq,
  number_eq, ◌-◌,
}
use trace_pilot.Prelude.Decimal.{sorted_texts}
use trace_pilot.Json.{Value, null, boolean, float, str, dict, end, field, nat, list_of, items}
use trace_pilot.Store.{World, ConnectionEvent, minutes_us, hours_us}
use trace_pilot.Sql.{Engine, Group}
use trace_pilot.Tools.Arguments.{
  ProcessConnectionsArguments, TopNetworkProcessesArguments, ConnectionBurstsArguments,
  UnusualDestinationsArguments, EventTimelineArguments, Arguments, process_connections,
  top_network_processes, connection_bursts, unusual_destinations, event_timeline,
}
use trace_pilot.Tools.Queries.{
  ProcessKey, Destination, destination, connection_count, event_ids, min_timestamp,
  process_connections_query, top_processes_query, bursts_query, in_baseline,
  recent_destinations_query, timeline_query,
}
use trace_pilot.Tools.Timeline.{TimelineEntry, timeline_by_minute}

-- A nullable float.
abbrev pub optional_float : Option ℕ → Value
optional_float none = null
optional_float (some x) = float x

-- A list of IDs, as strings.
abbrev pub id_list : List Text → Value
id_list ids = list_of str ids

module _ (w : World) where
  abbrev pub event_value : ConnectionEvent → Value
  event_value e = dict (
      field "event_id" (str e.id) (
        field "timestamp" (str (w.isoformat e.timestamp)) (
          field "process_name" (str e.process_name) (
            field "uid" (nat e.uid) (
              field "destination_ip" (str e.destination_ip) (
                field "destination_port" (nat e.destination_port) (
                  field "ip_version" (nat e.ip_version)
                    (field "duration_ms" (optional_float e.duration_ms) end))))))))

  abbrev pub process_value : Group ConnectionEvent ProcessKey → Value
  process_value g = dict (
      field "pid" (nat g.key.0) (
        field "process_name" (str g.key.1) (
          field "connection_count" (nat (connection_count g))
            (field "event_ids" (id_list (event_ids g)) end))))

  abbrev pub burst_value : Group ConnectionEvent (ProcessKey × ℕ) → Value
  burst_value g = dict (
      field "pid" (nat g.key.0.0) (
        field "process_name" (str g.key.0.1) (
          field "window_start" (str (w.isoformat g.key.1)) (
            field "connection_count" (nat (connection_count g))
              (field "event_ids" (id_list (event_ids g)) end)))))

  abbrev pub unusual_value : Group ConnectionEvent Destination → Value
  unusual_value g = dict (
      field "destination_ip" (str g.key.0) (
        field "destination_port" (nat g.key.1) (
          field "first_seen" (str (w.isoformat (min_timestamp g.members)))
            (field "event_ids" (id_list (event_ids g)) end))))

  abbrev pub timeline_value : TimelineEntry → Value
  timeline_value entry = dict (
      field "window_start" (str entry.window_start) (
        field "connection_count" (nat entry.connection_count) (
          field "destinations" (list_of str (sorted_texts entry.destinations))
            (field "event_ids" (id_list entry.event_ids) end))))

module _ (E : Engine) (now : ℕ) (events : List ConnectionEvent) where
  -- The recent destinations that the baseline lacks. `str` of an address is its text.
  unfoldable pub unusual_groups : ℕ → ℕ → ℕ → List (Group ConnectionEvent Destination)
  unfolding select_if contains
  unusual_groups pid baseline_start recent_start =
      let baseline = E.distinct (in_baseline pid baseline_start recent_start) destination events in
      select_if (λ g. not (contains baseline g.key))
        (E.group (recent_destinations_query pid recent_start now) events)

  -- The newest 500 events, oldest first.
  abbrev pub timeline_events : ℕ → List ConnectionEvent
  timeline_events pid = reverse (E.select (timeline_query now pid) events)

-- The tool functions at the time `now`.
module _ (w : World) (E : Engine) (now : ℕ) (events : List ConnectionEvent) where
  unfoldable pub get_process_connections : ProcessConnectionsArguments → Value
  unfolding items
  get_process_connections a =
      let rows = E.select (process_connections_query a) events in
      dict (
        field "pid" (nat a.pid) (
          field "event_count" (nat (length rows))
            (field "events" (list_of (event_value w) rows) end)))

  unfoldable pub get_top_network_processes : TopNetworkProcessesArguments → Value
  unfolding items
  get_top_network_processes a =
      let groups = E.group (top_processes_query now a) events in
      dict
        (field "minutes" (nat a.minutes) (field "processes" (list_of (process_value w) groups) end))

  unfoldable pub find_connection_bursts : ConnectionBurstsArguments → Value
  unfolding items
  find_connection_bursts a =
      let groups = E.group (bursts_query now a) events in
      dict (
        field "threshold" (nat a.threshold)
          (field "minutes" (nat a.minutes) (field "bursts" (list_of (burst_value w) groups) end)))

  unfoldable pub find_unusual_destinations : UnusualDestinationsArguments → Value
  unfolding items unusual_groups
  find_unusual_destinations a =
      let recent_start = now - minutes_us 60 in
      let baseline_start = recent_start - hours_us 24 in
      let unusual = unusual_groups E now events a.pid baseline_start recent_start in
      dict (
        field "pid" (nat a.pid) (
          field "recent_minutes" (nat 60) (
            field "baseline_minutes" (nat 1440)
              (field "unusual_destinations" (list_of (unusual_value w) unusual) end))))

  unfoldable pub get_event_timeline : EventTimelineArguments → Value
  unfolding items timeline_by_minute
  get_event_timeline a =
      let rows = timeline_events E now events a.pid in
      dict (
        field "pid" (nat a.pid) (
          field "lookback_hours" (nat 24) (
            field "returned_event_count" (nat (length rows)) (
              field "truncated" (boolean (eqb (length rows) 500)) (
                field "timeline" (list_of (timeline_value w) (timeline_by_minute w rows []))
                  end)))))

  -- `tool_function(session=session, arguments=validated_arguments)`
  unfoldable pub run_tool : Arguments → Value
  unfolding get_process_connections get_top_network_processes find_connection_bursts
      find_unusual_destinations get_event_timeline
  run_tool (process_connections a) = get_process_connections a
  run_tool (top_network_processes a) = get_top_network_processes a
  run_tool (connection_bursts a) = find_connection_bursts a
  run_tool (unusual_destinations a) = find_unusual_destinations a
  run_tool (event_timeline a) = get_event_timeline a
