-- ===== src/Tools/Evidence.antt =====
-- backend/app/agent_tools.py with `extract_tool_event_ids`: the event IDs in a tool's result.
use trace_pilot.Prelude.{
  pair_eq, ℕ, Text, ◌≡◌, ◌≤◌, ◌<◌, List, [], ◌∷◌, ◌++◌, All, All-left, All-mono, append-nil, map,
  count_if, count_if_mono, count_if-append, list_eq, number_eq, ◌==◌, arith, beq_refl, ap,
  All-append, Bool, refl, HasEq, ◌&&◌, Bool-cases, and_right, inl, inr, count_if-reverse,
  All-select_if, ◌-◌,
}
use trace_pilot.Json.{Value, str, items}
use trace_pilot.Evidence.Extract.{extract_tool_event_ids, extract_from_items, string_items}
use trace_pilot.Store.{World, ConnectionEvent, minutes_us}
use trace_pilot.Sql.{Engine, IsEngine, Group, Select, IsSelected, Grouping, IsGrouped, IsGroup}
use trace_pilot.Tools.Timeline.{
  TimelineEntry, record_event, add_event, timeline_by_minute, new_entry, minute_key,
}
use trace_pilot.Tools.Queries.{
  ProcessKey, Destination, event_ids, top_processes_query, process_connections_query, bursts_query,
  timeline_query, recent_destinations_query,
}
use trace_pilot.Tools.Results.{
  event_value, process_value, burst_value, unusual_value, timeline_value, run_tool, unusual_groups,
  timeline_events,
}
use trace_pilot.Prelude.Decimal.{sorted_texts}
use trace_pilot.Tools.Arguments.{
  Arguments, process_connections, top_network_processes, connection_bursts, unusual_destinations,
  event_timeline, EventTimelineArguments,
}

-- An event of the table has the ID.
abbrev pub IsStored : List ConnectionEvent → Text → Type 0
IsStored events id = 0 < count_if (λ e. e.id == id) events

string_items-items : (ids : List Text) → string_items (items str ids) ≡ ids
unfolding string_items items
string_items-items [] = refl
string_items-items (id ∷ ids) = ap (λ l. id ∷ l) (string_items-items ids)

extract-strings : (texts : List Text) → extract_from_items (items str texts) ≡ []
unfolding extract_tool_event_ids items
extract-strings [] = refl
extract-strings (t ∷ texts) = extract-strings texts

ids_then_nil : (ids : List Text) → string_items (items str ids) ++ [] ≡ ids
ids_then_nil ids = rw (string_items-items ids) (append-nil ids)

module _ (w : World) where
  extract-event_value : (e : ConnectionEvent) → extract_tool_event_ids (event_value w e) ≡ e.id ∷ []
  unfolding extract_tool_event_ids
  extract-event_value e = ground arith

  extract-process_value :
      (g : Group ConnectionEvent ProcessKey)
      → extract_tool_event_ids (process_value w g) ≡ event_ids g
  unfolding extract_tool_event_ids
  extract-process_value g = ids_then_nil (event_ids g)

  extract-burst_value :
      (g : Group ConnectionEvent (ProcessKey × ℕ))
      → extract_tool_event_ids (burst_value w g) ≡ event_ids g
  unfolding extract_tool_event_ids
  extract-burst_value g = ids_then_nil (event_ids g)

  extract-unusual_value :
      (g : Group ConnectionEvent Destination)
      → extract_tool_event_ids (unusual_value w g) ≡ event_ids g
  unfolding extract_tool_event_ids
  extract-unusual_value g = ids_then_nil (event_ids g)

  extract-timeline_value :
      (entry : TimelineEntry) → extract_tool_event_ids (timeline_value w entry) ≡ entry.event_ids
  unfolding extract_tool_event_ids
  extract-timeline_value entry =
      rw (extract-strings (sorted_texts entry.destinations)) (ids_then_nil entry.event_ids)

-- All IDs that a value shows have a property.
abbrev pub Shows : (Text → Type 0) → Value → Type 0
Shows P v = All P (extract_tool_event_ids v)

Shows-items :
    {A : Type 0} (P : Text → Type 0) (f : A → Value) (xs : List A)
    → All (λ x. Shows P (f x)) xs
    → All P (extract_from_items (items f xs))
unfolding extract_tool_event_ids items
Shows-items P f [] h = tt
Shows-items P f (x ∷ xs) h =
    All-append P (extract_tool_event_ids (f x)) _ h.0 (Shows-items P f xs h.1)

-- A list that no test counts more often than the table holds stored events.
IsStored-of_count :
    (events rows : List ConnectionEvent)
    → ((p : ConnectionEvent → Bool) → count_if p rows ≤ count_if p events)
    → All (IsStored events) (map (λ e. e.id) rows)
unfolding count_if
IsStored-of_count events [] h = tt
IsStored-of_count events (e ∷ rows) h = (
  ground (arith, h (λ a. a.id == e.id), beq_refl e.id),
  IsStored-of_count events rows (λ p. ground (arith, h p)),
)

module _ (events : List ConnectionEvent) where
  count_if-selected :
      (q : Select ConnectionEvent) (rows : List ConnectionEvent) (p : ConnectionEvent → Bool)
      → IsSelected q events rows
      → count_if p rows ≤ count_if p events
  count_if-selected q rows p h = omega (
    arith,
    h.same p,
    count_if-append p rows h.cut,
    count_if_mono (λ a. q.where_holds a && p a) p events (λ a k. and_right _ _ k),
  )

  selected-IsStored :
      (q : Select ConnectionEvent) (rows : List ConnectionEvent)
      → IsSelected q events rows
      → All (IsStored events) (map (λ e. e.id) rows)
  selected-IsStored q rows h = IsStored-of_count events rows (λ p. count_if-selected q rows p h)

  -- Every group holds stored events only.
  grouped-IsStored :
      {K : Type 0} ⦃k : HasEq K⦄ (q : Grouping ConnectionEvent K)
      (groups : List (Group ConnectionEvent K))
      → IsGrouped q events groups
      → All (λ g. All (IsStored events) (event_ids g)) groups
  grouped-IsStored q groups h =
      All-left (λ g. All (IsStored events) (event_ids g)) groups h.cut
        (All-mono (IsGroup q events) _ (groups ++ h.cut)
          (λ g sound.
            IsStored-of_count events g.members
              (λ p. rw (sound.members p) (count_if_mono _ p events (λ a k. and_right _ _ k))))
          h.sound)

module _ (P : Text → Type 0) where
  record_event-All :
      (e : ConnectionEvent) (x : TimelineEntry)
      → P e.id
      → All P x.event_ids
      → All P (record_event e x).event_ids
  unfolding record_event
  record_event-All e x h k = All-append P x.event_ids (e.id ∷ []) k (h, tt)

  abbrev EntriesShow : List TimelineEntry → Type 0
  EntriesShow = All (λ x. All P x.event_ids)

  add_event-All :
      (key : Text) (e : ConnectionEvent) (xs : List TimelineEntry)
      → P e.id
      → EntriesShow xs
      → EntriesShow (add_event key e xs)
  unfolding add_event
  add_event-All key e [] h k = (record_event-All e (new_entry key) h tt, tt)
  add_event-All key e (x ∷ xs) h k = elim (Bool-cases (x.window_start == key)) [
    | inl same ↦ rw same (record_event-All e x h k.0, k.1)
    | inr other ↦ rw other (k.0, add_event-All key e xs h k.1)
  ]

  timeline_by_minute-All :
      (w : World) (es : List ConnectionEvent) (xs : List TimelineEntry)
      → All P (map (λ e. e.id) es)
      → EntriesShow xs
      → EntriesShow (timeline_by_minute w es xs)
  unfolding timeline_by_minute
  timeline_by_minute-All w [] xs h k = k
  timeline_by_minute-All w (e ∷ es) xs h k =
      timeline_by_minute-All w es _ h.1 (add_event-All (minute_key w e) e xs h.0 k)

each_id :
    (P : Text → Type 0) (rows : List ConnectionEvent)
    → All P (map (λ e. e.id) rows)
    → All (λ e. All P (e.id ∷ [])) rows
each_id P [] h = tt
each_id P (e ∷ rows) h = ((h.0, tt), each_id P rows h.1)

-- The groups of a result, with their IDs shown under `event_ids`.
Shows-groups :
    {A : Type 0} (P : Text → Type 0) (f : A → Value) (ids : A → List Text)
    → ((x : A) → extract_tool_event_ids (f x) ≡ ids x)
    → (xs : List A) → All (λ x. All P (ids x)) xs
    → All P (extract_from_items (items f xs))
Shows-groups P f ids same xs h =
    Shows-items P f xs (All-mono (λ x. All P (ids x)) _ xs (λ x k. rw (same x) k) h)

module _ (w : World) (E : Engine) (lawful : IsEngine E) (now : ℕ)
    (events : List ConnectionEvent) where
  reversed-IsStored :
      (a : EventTimelineArguments)
      → All (IsStored events) (map (λ e. e.id) (timeline_events E now events a.pid))
  reversed-IsStored a = IsStored-of_count events (timeline_events E now events a.pid) (λ p.
      rw count_if-reverse (
        count_if-selected events (timeline_query now a.pid) _ p
          (lawful.select_lem (timeline_query now a.pid) events)))

  -- Whatever the arguments, the IDs that the evidence check would accept from the tool's result
  -- are IDs of events in the table.
  pub run_tool-IsStored :
      (arguments : Arguments)
      → All (IsStored events) (extract_tool_event_ids (run_tool w E now events arguments))
  unfolding run_tool extract_tool_event_ids unusual_groups
  run_tool-IsStored (process_connections a) = rw append-nil (
      Shows-groups (IsStored events) (event_value w) (λ e. e.id ∷ []) (extract-event_value w) _
        (each_id (IsStored events) _
          (selected-IsStored events _ _ (lawful.select_lem (process_connections_query a) events))))
  run_tool-IsStored (top_network_processes a) = rw append-nil (
      Shows-groups (IsStored events) (process_value w) event_ids (extract-process_value w) _
        (grouped-IsStored events _ _ (lawful.group_lem (top_processes_query now a) events)))
  run_tool-IsStored (connection_bursts a) = rw append-nil (
      Shows-groups (IsStored events) (burst_value w) event_ids (extract-burst_value w) _
        (grouped-IsStored events _ _ (lawful.group_lem (bursts_query now a) events)))
  run_tool-IsStored (unusual_destinations a) = rw append-nil (
      Shows-groups (IsStored events) (unusual_value w) event_ids (extract-unusual_value w) _ (
        All-select_if _ _ _ (
          grouped-IsStored events _ _
            (lawful.group_lem (recent_destinations_query a.pid (now - minutes_us 60) now) events))))
  run_tool-IsStored (event_timeline a) = rw append-nil (
      Shows-groups (IsStored events) (timeline_value w) (λ x. x.event_ids)
        (extract-timeline_value w) _
        (timeline_by_minute-All (IsStored events) w _ [] (reversed-IsStored a) tt))
