-- ===== src/Tools/Timeline.antt =====
-- backend/app/agent_tools.py, `get_event_timeline`: the loop that builds `timeline_by_minute`.
-- A dict keeps its keys in the order of insertion, and each key is its entry's `window_start`.
pub mod Counts
use trace_pilot.Prelude.{
  ℕ, Text, List, [], ◌∷◌, ◌++◌, contains, ◌==◌, list_eq, number_eq, if◌then◌else◌, ◌+◌,
}
use trace_pilot.Prelude.Decimal.{decimal}
use trace_pilot.Store.{World, ConnectionEvent, minute_start}

pub record TimelineEntry : Type 0 where
  pub window_start : Text
  pub connection_count : ℕ
  pub destinations : List Text
  pub event_ids : List Text

-- `minute.isoformat()`
unfoldable pub minute_key : World → ConnectionEvent → Text
unfolding minute_start
minute_key w e = w.isoformat (minute_start e.timestamp)

-- `f"{event.destination_ip}:{event.destination_port}"`
unfoldable pub destination_text : ConnectionEvent → Text
unfolding decimal
destination_text e = e.destination_ip ++ (b':' ∷ decimal e.destination_port)

-- `set.add`
unfoldable pub add_text : Text → List Text → List Text
unfolding contains
add_text t ts = if contains ts t then ts else t ∷ ts

-- What the loop's body does to the entry of the event's minute.
unfoldable pub record_event : ConnectionEvent → TimelineEntry → TimelineEntry
unfolding add_text destination_text
record_event e entry = record entry {
  connection_count = entry.connection_count + 1;
  destinations = add_text (destination_text e) entry.destinations;
  event_ids = entry.event_ids ++ (e.id ∷ []);
}

abbrev pub new_entry : Text → TimelineEntry
new_entry key = record {
  window_start = key;
  connection_count = 0;
  destinations = [];
  event_ids = [];
}

-- One round of the loop: the entry under the key, made first if it is missing.
unfoldable pub add_event : Text → ConnectionEvent → List TimelineEntry → List TimelineEntry
unfolding record_event
add_event key e [] = record_event e (new_entry key) ∷ []
add_event key e (x ∷ xs) =
    let rest = add_event key e xs in
    if x.window_start == key then record_event e x ∷ xs else x ∷ rest

unfoldable pub timeline_by_minute :
    World → List ConnectionEvent → List TimelineEntry → List TimelineEntry
unfolding add_event minute_key
timeline_by_minute w [] entries = entries
timeline_by_minute w (e ∷ es) entries =
    timeline_by_minute w es (add_event (minute_key w e) e entries)
