-- ===== src/Api/Analytics/Tools.antt =====
-- backend/app/main.py against backend/app/agent_tools.py: the analytics endpoints and the agent's
-- tools.
use trace_pilot.Prelude.{pair_eq, list_eq, number_eq, ℕ, ◌≡◌, refl, ap, List, [], ◌∷◌, map, sym}
use trace_pilot.Json.{items, Value, cons, dict, field, nat, str, list, end}
use trace_pilot.Store.{World, ConnectionEvent}
use trace_pilot.Sql.Statement.{Engine}
use trace_pilot.Api.Analytics.{
  ConnectionBurstResponse, UnusualDestinationResponse, burst_rows, unusual_rows,
}
use trace_pilot.Tools.Queries.{bursts_query}
use trace_pilot.Tools.Results.{run_tool, id_list, unusual_groups}
use trace_pilot.Tools.Arguments.{
  ConnectionBurstsArguments, UnusualDestinationsArguments, unusual_destinations,
}
use trace_pilot.Tools.Arguments.{connection_bursts, unusual_destinations}

items-map :
    {A B : Type 0} (f : B → Value) (g : A → B) (xs : List A)
    → items f (map g xs) ≡ items (λ x. f (g x)) xs
unfolding items
items-map f g [] = refl
items-map f g (x ∷ xs) = ap (cons (f (g x))) (items-map f g xs)

module _ (w : World) where
  -- An item of the endpoint's response, with the keys of the tool's result.
  abbrev pub burst_item : ConnectionBurstResponse → Value
  burst_item r = dict (
      field "pid" (nat r.pid) (
        field "process_name" (str r.process_name) (
          field "window_start" (str (w.isoformat r.window_start)) (
            field "connection_count" (nat r.connection_count)
              (field "event_ids" (id_list r.event_ids) end)))))

  abbrev pub unusual_item : UnusualDestinationResponse → Value
  unusual_item r = dict (
      field "destination_ip" (str r.destination_ip) (
        field "destination_port" (nat r.destination_port) (
          field "first_seen" (str (w.isoformat r.first_seen))
            (field "event_ids" (id_list r.event_ids) end))))

module _ (w : World) (E : Engine) (now : ℕ) (events : List ConnectionEvent) where
  bursts_agree :
      (a : ConnectionBurstsArguments)
      → run_tool w E now events (connection_bursts a)
        ≡ dict (
            field "threshold" (nat a.threshold) (
              field "minutes" (nat a.minutes) (
                field "bursts"
                  (list (items (burst_item w) (burst_rows E now events a.threshold a.minutes)))
                  end)))
  unfolding run_tool burst_rows
  bursts_agree a =
      ap
        (λ xs. dict (
          field "threshold" (nat a.threshold)
            (field "minutes" (nat a.minutes) (field "bursts" (list xs) end))))
        (sym (items-map (burst_item w) _ (E.group (bursts_query now a) events)))

  unusual_agree :
      (a : UnusualDestinationsArguments)
      → run_tool w E now events (unusual_destinations a)
        ≡ dict (
            field "pid" (nat a.pid) (
              field "recent_minutes" (nat 60) (
                field "baseline_minutes" (nat 1440) (
                  field "unusual_destinations"
                    (list (items (unusual_item w) (unusual_rows E now events a.pid 60 1440)))
                    end))))
  unfolding run_tool unusual_groups unusual_rows
  unusual_agree a =
      ap
        (λ xs. dict (
          field "pid" (nat a.pid) (
            field "recent_minutes" (nat 60)
              (field "baseline_minutes" (nat 1440) (field "unusual_destinations" (list xs) end)))))
        (sym (items-map (unusual_item w) _ (unusual_groups E now events a.pid _ _)))

  -- At the same time and on the same events, the burst tool reports exactly the bursts that the
  -- endpoint reports for its threshold and window, in the same order; and the tool for unusual
  -- destinations those that the endpoint reports for the PID with its defaults, 60 and 1440
  -- minutes.
  pub detections_agree :
      (a : ConnectionBurstsArguments) (b : UnusualDestinationsArguments)
      → (run_tool w E now events (connection_bursts a)
          ≡ dict (
              field "threshold" (nat a.threshold) (
                field "minutes" (nat a.minutes) (
                  field "bursts"
                    (list (items (burst_item w) (burst_rows E now events a.threshold a.minutes)))
                    end))))
        × (run_tool w E now events (unusual_destinations b)
            ≡ dict (
                field "pid" (nat b.pid) (
                  field "recent_minutes" (nat 60) (
                    field "baseline_minutes" (nat 1440) (
                      field "unusual_destinations"
                        (list (items (unusual_item w) (unusual_rows E now events b.pid 60 1440)))
                        end)))))
  detections_agree a b = (bursts_agree a, unusual_agree b)
