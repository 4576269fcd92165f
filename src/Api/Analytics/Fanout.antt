-- ===== src/Api/Analytics/Fanout.antt =====
-- backend/app/main.py, `find_high_unique_destinations`: what it reports.
use trace_pilot.Prelude.{
  ◌<◌, count_if_mono, leb→le, ℕ, ◌-◌, ◌≡◌, refl, ap, ◌∙◌, sym, Bool, true, not, ◌&&◌, List, [], ◌∷◌,
  length, count_if, leb, ltb, ◌==◌, pair_eq, list_eq, number_eq, contains, IsDistinct, beq_refl,
  arith, if◌then◌else◌,
}
use trace_pilot.Store.{ConnectionEvent, minutes_us}
use trace_pilot.Sql.{Engine, IsEngine}
use trace_pilot.Sql.Answers.{count_if-grouped}
use trace_pilot.Tools.Queries.{ProcessKey, Destination, destination}
use trace_pilot.Api.Analytics.{high_unique_query, distinct_destinations}
use trace_pilot.Api.Analytics.Distinct.{
  eq_comm, contains-select_if, IsDistinct-select_if, length-IsDistinct,
}

distinct_destinations-IsDistinct :
    (es : List ConnectionEvent) → IsDistinct (distinct_destinations es)
unfolding distinct_destinations
distinct_destinations-IsDistinct [] = tt
distinct_destinations-IsDistinct (e ∷ es) =
    let new : Destination → Bool = λ d. not (d == destination e) in
    (
      contains-select_if new (distinct_destinations es) (destination e)
          ∙ ground (arith, beq_refl (destination e)),
      IsDistinct-select_if new (distinct_destinations es) (distinct_destinations-IsDistinct es),
    )

contains-distinct_destinations :
    (es : List ConnectionEvent) (d : Destination)
    → contains (distinct_destinations es) d ≡ leb 1 (count_if (λ e. destination e == d) es)
unfolding distinct_destinations contains count_if
contains-distinct_destinations [] d = refl
contains-distinct_destinations (e ∷ es) d = ground (
  arith,
  contains-select_if (λ d'. not (d' == destination e)) (distinct_destinations es) d,
  contains-distinct_destinations es d,
  eq_comm d (destination e),
)

module _ (E : Engine) (lawful : IsEngine E) (now : ℕ) (events : List ConnectionEvent) where
  -- The connections of a process to a destination in the window.
  abbrev pub connects : ℕ → ProcessKey → Destination → ConnectionEvent → Bool
  connects minutes k d e =
      (leb (now - minutes_us minutes) e.timestamp && (e.pid, e.process_name) == k)
      && destination e == d

  -- The different destinations of a process in the window, in any order.
  pub record AreDestinations (minutes : ℕ) (k : ProcessKey) (ds : List Destination) : Type 0 where
    pub distinct : IsDistinct ds
    pub all_of_them :
        (d : Destination) → contains ds d ≡ leb 1 (count_if (connects minutes k d) events)

  destinations_need_rows :
      (minutes : ℕ) (k : ProcessKey) (ds : List Destination)
      → AreDestinations minutes k ds
      → 0 < length ds
      → 0
        < count_if
            (λ e. leb (now - minutes_us minutes) e.timestamp && (e.pid, e.process_name) == k)
            events
  unfolding contains
  destinations_need_rows minutes k [] h more = absurd (omega (arith, more))
  destinations_need_rows minutes k (d ∷ ds) h more =
      let some_rows : leb 1 (count_if (connects minutes k d) events) ≡ true =
        sym (h.all_of_them d) ∙ rw (beq_refl d) refl in
      omega (
        arith,
        leb→le 1 _ some_rows,
        count_if_mono (connects minutes k d)
            (λ e. leb (now - minutes_us minutes) e.timestamp && (e.pid, e.process_name) == k) events
            (λ e p. ground (arith, p)),
      )

  -- A process is reported, and once, exactly if it connected to more different destinations, an
  -- address with a port each, than the threshold within the window, however often to each.
  pub high_unique_reported :
      (threshold minutes : ℕ) (k : ProcessKey) (ds : List Destination)
      → AreDestinations minutes k ds
      → count_if (λ g. g.key == k) (E.group (high_unique_query now threshold minutes) events)
        ≡ (if ltb threshold (length ds) then 1 else 0)
  high_unique_reported threshold minutes k ds h =
      let q = high_unique_query now threshold minutes in
      count_if-grouped q events (E.group q events) (lawful.group_lem q events) refl k
        (ltb threshold (length ds))
        (λ members same. ap (ltb threshold) (
          length-IsDistinct (distinct_destinations members) ds
            (distinct_destinations-IsDistinct members) h.distinct
            (λ d.
              contains-distinct_destinations members d
              ∙ ap (leb 1) (same (λ e. destination e == d))
              ∙ sym (h.all_of_them d))))
      ∙ ground (arith, destinations_need_rows minutes k ds h)
