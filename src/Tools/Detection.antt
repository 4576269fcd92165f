-- ===== src/Tools/Detection.antt =====
-- backend/app/agent_tools.py: what the anomaly tools report.
use trace_pilot.Prelude.{
  [], ◌∷◌, ℕ, ◌≡◌, refl, Bool, true, not, ◌&&◌, List, count_if, leb, ltb, ◌==◌, pair_eq, list_eq,
  number_eq, contains, arith, if◌then◌else◌, ap, ◌∙◌, ◌-◌, HasEq, count_if-select_if, ◌∷◌, ap₂,
}
use trace_pilot.Store.{ConnectionEvent, minutes_us, minute_start}
use trace_pilot.Sql.{Engine, IsEngine, Group}
use trace_pilot.Sql.Answers.{count_if-grouped, length-HasMembers}
use trace_pilot.Tools.Arguments.{ConnectionBurstsArguments}
use trace_pilot.Tools.Queries.{
  ProcessKey, Destination, destination, bursts_query, in_baseline, recent_destinations_query,
}
use trace_pilot.Tools.Results.{unusual_groups}

report_unless_seen :
    (seen recent : Bool)
    → ◌≡◌ {A = ℕ}
        (if seen then 0 else (if recent && true then 1 else 0))
        (if recent && not seen then 1 else 0)
report_unless_seen seen recent = ground arith

count_if-absent_keys :
    {A K : Type 0} ⦃e : HasEq K⦄ (keys : List K) (k : K) (groups : List (Group A K))
    → count_if (λ g. not (contains keys g.key) && g.key == k) groups
      ≡ (if contains keys k then 0 else count_if (λ g. g.key == k) groups)
unfolding count_if
count_if-absent_keys keys k [] = ground arith
count_if-absent_keys ⦃e⦄ keys k (g ∷ groups) =
    ground (arith, count_if-absent_keys keys k groups, e.equals_iff g.key k)

module _ (E : Engine) (lawful : IsEngine E) (now : ℕ) (events : List ConnectionEvent) where
  -- The events of one process in one minute, as far as they lie in the window.
  abbrev pub in_burst : ConnectionBurstsArguments → ProcessKey × ℕ → ConnectionEvent → Bool
  in_burst a k e =
      leb (now - minutes_us a.minutes) e.timestamp
      && ((e.pid, e.process_name), minute_start e.timestamp) == k

  -- A process and minute are reported, and once, exactly if more events than the threshold fall
  -- into that minute within the window.
  pub bursts_reported :
      (a : ConnectionBurstsArguments) (k : ProcessKey × ℕ)
      → count_if (λ g. g.key == k) (E.group (bursts_query now a) events)
        ≡ (if ltb a.threshold (count_if (in_burst a k) events) then 1 else 0)
  bursts_reported a k =
      count_if-grouped (bursts_query now a) events _ (lawful.group_lem (bursts_query now a) events)
        refl k (ltb a.threshold (count_if (in_burst a k) events))
        (λ members h.
          ap (ltb a.threshold) (length-HasMembers (bursts_query now a) events k members h))
      ∙ ground arith

  -- The events of one PID to a destination in the recent window, and in the baseline.
  abbrev pub in_recent : ℕ → ℕ → Destination → ConnectionEvent → Bool
  in_recent pid recent_start d e =
      (e.pid == pid && leb recent_start e.timestamp && leb e.timestamp now)
      && (e.destination_ip, e.destination_port) == d

  abbrev pub in_baseline_to : ℕ → ℕ → ℕ → Destination → ConnectionEvent → Bool
  in_baseline_to pid baseline_start recent_start d e =
      (e.pid == pid && leb baseline_start e.timestamp && ltb e.timestamp recent_start)
      && (e.destination_ip, e.destination_port) == d

  -- A destination is reported, and once, exactly if the PID contacted it in the recent window and
  -- not in the baseline period before that.
  pub unusual_reported :
      (pid baseline_start recent_start : ℕ) (d : Destination)
      → count_if (λ g. g.key == d) (unusual_groups E now events pid baseline_start recent_start) ≡ (
          if leb 1 (count_if (in_recent pid recent_start d) events)
            && not (leb 1 (count_if (in_baseline_to pid baseline_start recent_start d) events))
          then 1
          else 0)
  unfolding unusual_groups
  unusual_reported pid baseline_start recent_start d =
      let q = recent_destinations_query pid recent_start now in
      let baseline = E.distinct (in_baseline pid baseline_start recent_start) destination events in
      count_if-select_if (λ g. g.key == d) (λ g. not (contains baseline g.key)) (E.group q events)
      ∙ count_if-absent_keys baseline d (E.group q events)
      ∙ ap₂ (λ seen n. if seen then 0 else n)
          (lawful.distinct_lem (in_baseline pid baseline_start recent_start) destination events d)
          (count_if-grouped q events (E.group q events) (lawful.group_lem q events) refl d true
            (λ members h. refl))
      ∙ report_unless_seen _ _
