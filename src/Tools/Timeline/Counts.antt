-- ===== src/Tools/Timeline/Counts.antt =====
-- backend/app/agent_tools.py, `get_event_timeline`: the counts of the entries.
use trace_pilot.Prelude.{
  ℕ, ◌+◌, ◌≡◌, ◌≤◌, Text, List, [], ◌∷◌, All, length, length-append, count_if, ◌==◌, list_eq,
  number_eq, arith, if◌then◌else◌, Bool-cases, inl, inr, list_beq_iff, leb, ◌∙◌, Bool, ◌*◌, ◌&&◌,
  ◌<◌, ltb, ap, count_if_ext, sym,
}
use trace_pilot.Store.{World, ConnectionEvent, minute_start}
use trace_pilot.Tools.Timeline.{
  TimelineEntry, minute_key, record_event, add_event, timeline_by_minute,
}

-- The connections that the entries of one minute count.
pub counted : Text → List TimelineEntry → ℕ
counted key [] = 0
counted key (x ∷ xs) = (if x.window_start == key then x.connection_count else 0) + counted key xs

abbrev pub entries_of : Text → List TimelineEntry → ℕ
entries_of key = count_if (λ x. x.window_start == key)

-- At most one entry for each minute, and each entry has as many IDs as it counts connections.
pub record IsTimeline (xs : List TimelineEntry) : Type 0 where
  pub once : (key : Text) → entries_of key xs ≤ 1
  pub ids : All (λ x. length x.event_ids ≡ x.connection_count) xs

module _ (key : Text) (e : ConnectionEvent) where
  counted-add_event :
      (j : Text) (xs : List TimelineEntry)
      → counted j (add_event key e xs) ≡ (if key == j then 1 else 0) + counted j xs
  unfolding counted add_event record_event
  counted-add_event j [] = ground arith
  counted-add_event j (x ∷ xs) = ground (
    arith,
    counted-add_event j xs,
    list_beq_iff x.window_start key,
    list_beq_iff x.window_start j,
    list_beq_iff key j,
  )

  entries_of-add_event :
      (j : Text) (xs : List TimelineEntry)
      → entries_of j (add_event key e xs) ≡ (
          if key == j
          then (if leb 1 (entries_of j xs) then entries_of j xs else 1)
          else entries_of j xs)
  unfolding add_event record_event count_if
  entries_of-add_event j [] = ground arith
  entries_of-add_event j (x ∷ xs) = ground (
    arith,
    entries_of-add_event j xs,
    list_beq_iff x.window_start key,
    list_beq_iff x.window_start j,
    list_beq_iff key j,
  )

  ids-add_event :
      (xs : List TimelineEntry)
      → All (λ x. length x.event_ids ≡ x.connection_count) xs
      → All (λ x. length x.event_ids ≡ x.connection_count) (add_event key e xs)
  unfolding add_event record_event
  ids-add_event [] h = (omega arith, tt)
  ids-add_event (x ∷ xs) h = elim (Bool-cases (x.window_start == key)) [
    | inl same ↦ rw same (omega (arith, length-append x.event_ids (e.id ∷ []), h.0), h.1)
    | inr other ↦ rw other (h.0, ids-add_event xs h.1)
  ]

no_entries : IsTimeline []
unfolding count_if
no_entries = record { once = λ key. omega arith; ids = tt }

nothing_more : (key : Text) (n : ℕ) → n + counted key [] ≡ n
unfolding counted
nothing_more key n = omega arith

module _ (w : World) where
  IsTimeline-onto :
      (es : List ConnectionEvent) (xs : List TimelineEntry)
      → IsTimeline xs
      → IsTimeline (timeline_by_minute w es xs)
        × ((key : Text)
            → counted key (timeline_by_minute w es xs)
              ≡ count_if (λ e. minute_key w e == key) es + counted key xs)
  unfolding timeline_by_minute count_if
  IsTimeline-onto [] xs h = (h, λ key. omega arith)
  IsTimeline-onto (e ∷ es) xs h =
      let next : IsTimeline (add_event (minute_key w e) e xs) = record {
        once = λ j. ground (arith, h.once j, entries_of-add_event (minute_key w e) e j xs);
        ids = ids-add_event (minute_key w e) e xs h.ids;
      } in
      let (timeline, counts) = IsTimeline-onto es (add_event (minute_key w e) e xs) next in
      (timeline, λ key. omega (arith, counts key, counted-add_event (minute_key w e) e key xs))

-- The events of the k-th minute, by the time itself.
abbrev pub in_minute : ℕ → ConnectionEvent → Bool
in_minute k e = leb (k * 60_000_000) e.timestamp && ltb e.timestamp (k * 60_000_000 + 60_000_000)

minute_start-in_minute :
    (k t : ℕ)
    → ((minute_start t ≡ k * 60_000_000) → (k * 60_000_000 ≤ t) × (t < k * 60_000_000 + 60_000_000))
      × ((k * 60_000_000 ≤ t) → (t < k * 60_000_000 + 60_000_000) → minute_start t ≡ k * 60_000_000)
unfolding minute_start
minute_start-in_minute k t = (λ h. (omega arith, omega arith), λ low high. omega arith)

module _ (w : World) (isoformat_injective : (a b : ℕ) → w.isoformat a ≡ w.isoformat b → a ≡ b) where
  minute_key-in_minute :
      (k : ℕ) (e : ConnectionEvent)
      → (minute_key w e == w.isoformat (k * 60_000_000)) ≡ in_minute k e
  unfolding minute_key
  minute_key-in_minute k e =
      let t = e.timestamp in
      let (inside, start) = minute_start-in_minute k t in
      let same = list_beq_iff (w.isoformat (minute_start t)) (w.isoformat (k * 60_000_000)) in
      elim (Bool-cases (in_minute k e)) [
        | inl h ↦
            let (low, high) : (k * 60_000_000 ≤ t) × (t < k * 60_000_000 + 60_000_000) =
              ground (arith, h) in
            same.1 (ap w.isoformat (start low high)) ∙ sym h
        | inr h ↦ elim (Bool-cases (minute_key w e == w.isoformat (k * 60_000_000))) [
          | inl found ↦
              let (low, high) =
                inside (isoformat_injective (minute_start t) (k * 60_000_000) (same.0 found)) in
              absurd (ground (arith, h, low, high))
          | inr other ↦ other ∙ sym h
        ]
      ]

  -- If `isoformat` writes different times differently, then the timeline of a list of events has at
  -- most one entry for a window, each entry lists as many event IDs as it counts connections, and
  -- the k-th minute counts exactly the events whose time lies in it.
  pub timeline_by_minute-counts :
      (es : List ConnectionEvent)
      → IsTimeline (timeline_by_minute w es [])
        × ((k : ℕ)
            → counted (w.isoformat (k * 60_000_000)) (timeline_by_minute w es [])
              ≡ count_if (in_minute k) es)
  timeline_by_minute-counts es =
      let (timeline, counts) = IsTimeline-onto w es [] no_entries in
      (
        timeline,
        λ k.
            counts (w.isoformat (k * 60_000_000))
            ∙ nothing_more (w.isoformat (k * 60_000_000)) _
            ∙ count_if_ext _ (in_minute k) es (minute_key-in_minute k),
      )
