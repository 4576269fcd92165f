-- ===== src/Api/Analytics.antt =====
-- backend/app/main.py: the four analytics endpoints, with their responses of
-- backend/app/schemas.py.
pub mod Tools
pub mod Distinct
pub mod Fanout
use trace_pilot.Prelude.{
  ℕ, ◌-◌, Text, Bool, Option, none, some, List, [], ◌∷◌, map, length, leb, ltb, not, select_if,
  true, ◌&&◌, contains, ◌==◌, pair_eq, list_eq, number_eq,
}
use trace_pilot.Json.{ℤ, Value}
use trace_pilot.Store.{World, Store, ConnectionEvent, minutes_us, minute_start}
use trace_pilot.Sql.{Engine, Group, Grouping, ascending, descending}
use trace_pilot.Tools.Arguments.{in_bounds}
use trace_pilot.Tools.Queries.{
  ProcessKey, Destination, destination, connection_count, event_ids, min_timestamp,
}
use trace_pilot.Api.Response.{Response, sends, http_error}

pub record TopProcessResponse : Type 0 where
  pub pid : ℕ
  pub process_name : Text
  pub connection_count : ℕ

pub record ConnectionBurstResponse : Type 0 where
  pub pid : ℕ
  pub process_name : Text
  pub window_start : ℕ
  pub connection_count : ℕ
  pub event_ids : List Text

pub record UnusualDestinationResponse : Type 0 where
  pub pid : ℕ
  pub destination_ip : Text
  pub destination_port : ℕ
  pub first_seen : ℕ
  pub event_ids : List Text

pub record HighUniqueDestinationsResponse : Type 0 where
  pub pid : ℕ
  pub process_name : Text
  pub unique_destination_count : ℕ
  pub connection_count : ℕ
  pub event_ids : List Text

-- `Query(default=…, ge=low, le=high)`: a parameter that is missing takes the default.
abbrev pub query_int : ℕ → ℕ → ℕ → Option ℤ → Option ℕ
query_int default low high none = some default
query_int default low high (some n) = in_bounds low (some high) n

-- `func.count(func.distinct(tuple_(destination_ip, destination_port)))`
unfoldable pub distinct_destinations : List ConnectionEvent → List Destination
unfolding select_if
distinct_destinations [] = []
distinct_destinations (e ∷ es) =
    destination e ∷ select_if (λ d. not (d == destination e)) (distinct_destinations es)

abbrev pub unique_destination_count : {K : Type 0} → Group ConnectionEvent K → ℕ
unique_destination_count g = length (distinct_destinations g.members)

abbrev pub high_unique_query : ℕ → ℕ → ℕ → Grouping ConnectionEvent ProcessKey
high_unique_query now threshold minutes = record {
  where_holds = λ e. leb (now - minutes_us minutes) e.timestamp;
  key = λ e. (e.pid, e.process_name);
  having = λ members. ltb threshold (length (distinct_destinations members));
  order = descending unique_destination_count;
  limit = none;
}

-- The statements of the endpoints that the agent's tools have too, as they stand here.
abbrev pub top_endpoint_query : ℕ → ℕ → ℕ → Grouping ConnectionEvent ProcessKey
top_endpoint_query now minutes limit = record {
  where_holds = λ e. leb (now - minutes_us minutes) e.timestamp;
  key = λ e. (e.pid, e.process_name);
  having = λ members. true;
  order = descending connection_count;
  limit = some limit;
}

abbrev pub bursts_endpoint_query : ℕ → ℕ → ℕ → Grouping ConnectionEvent (ProcessKey × ℕ)
bursts_endpoint_query now threshold minutes = record {
  where_holds = λ e. leb (now - minutes_us minutes) e.timestamp;
  key = λ e. ((e.pid, e.process_name), minute_start e.timestamp);
  having = λ members. ltb threshold (length members);
  order = descending connection_count;
  limit = none;
}

abbrev pub baseline_query_holds : ℕ → ℕ → ℕ → ConnectionEvent → Bool
baseline_query_holds pid baseline_start recent_start e =
    e.pid == pid && leb baseline_start e.timestamp && ltb e.timestamp recent_start

abbrev pub recent_endpoint_query : ℕ → ℕ → ℕ → Grouping ConnectionEvent Destination
recent_endpoint_query pid recent_start now = record {
  where_holds = λ e. e.pid == pid && leb recent_start e.timestamp && leb e.timestamp now;
  key = λ e. (e.destination_ip, e.destination_port);
  having = λ members. true;
  order = ascending (λ g. min_timestamp g.members);
  limit = none;
}

module _ (E : Engine) (now : ℕ) (events : List ConnectionEvent) where
  unfoldable pub top_process_rows : ℕ → ℕ → List TopProcessResponse
  top_process_rows minutes limit =
      map
        (λ g. record {
          pid = g.key.0;
          process_name = g.key.1;
          connection_count = connection_count g;
        })
        (E.group (top_endpoint_query now minutes limit) events)

  unfoldable pub burst_rows : ℕ → ℕ → List ConnectionBurstResponse
  burst_rows threshold minutes =
      map
        (λ g. record {
          pid = g.key.0.0;
          process_name = g.key.0.1;
          window_start = g.key.1;
          connection_count = connection_count g;
          event_ids = event_ids g;
        })
        (E.group (bursts_endpoint_query now threshold minutes) events)

  unfoldable pub unusual_rows : ℕ → ℕ → ℕ → List UnusualDestinationResponse
  unfolding select_if contains
  unusual_rows pid recent_minutes baseline_minutes =
      let recent_start = now - minutes_us recent_minutes in
      let baseline_start = recent_start - minutes_us baseline_minutes in
      let baseline =
        E.distinct (baseline_query_holds pid baseline_start recent_start) destination events in
      map
        (λ g. record {
          pid = pid;
          destination_ip = g.key.0;
          destination_port = g.key.1;
          first_seen = min_timestamp g.members;
          event_ids = event_ids g;
        })
        (select_if (λ g. not (contains baseline g.key))
          (E.group (recent_endpoint_query pid recent_start now) events))

  unfoldable pub high_unique_rows : ℕ → ℕ → List HighUniqueDestinationsResponse
  high_unique_rows threshold minutes =
      map
        (λ g. record {
          pid = g.key.0;
          process_name = g.key.1;
          unique_destination_count = unique_destination_count g;
          connection_count = connection_count g;
          event_ids = event_ids g;
        })
        (E.group (high_unique_query now threshold minutes) events)

-- The endpoints: parameters out of range are refused before the handler runs.
module _ (w : World) (E : Engine) (details : Value) where
  abbrev pub both_or_422 : {A : Type 0} → Option ℕ → Option ℕ → (ℕ → ℕ → A) → Response A
  both_or_422 (some a) (some b) f = sends 200 (f a b)
  both_or_422 (some a) none f = http_error 422 details
  both_or_422 none b f = http_error 422 details

  unfoldable pub get_top_processes :
      Option ℤ → Option ℤ → Store → Response (List TopProcessResponse)
  unfolding top_process_rows in_bounds
  get_top_processes minutes limit s =
      both_or_422 (query_int 60 1 1440 minutes) (query_int 10 1 100 limit)
        (top_process_rows E (w.now s.reads) s.events)

  unfoldable pub find_connection_bursts :
      Option ℤ → Option ℤ → Store → Response (List ConnectionBurstResponse)
  unfolding burst_rows in_bounds
  find_connection_bursts threshold minutes s =
      both_or_422 (query_int 100 1 10000 threshold) (query_int 60 1 1440 minutes)
        (burst_rows E (w.now s.reads) s.events)

  unfoldable pub find_unusual_destinations :
      ℤ → Option ℤ → Option ℤ → Store → Response (List UnusualDestinationResponse)
  unfolding unusual_rows in_bounds
  find_unusual_destinations pid recent_minutes baseline_minutes s = elim (in_bounds 1 none pid) [
    | none ↦ http_error 422 details
    | some n ↦
        both_or_422 (query_int 60 1 1440 recent_minutes) (query_int 1440 1 10080 baseline_minutes)
          (unusual_rows E (w.now s.reads) s.events n)
  ]

  unfoldable pub find_high_unique_destinations :
      Option ℤ → Option ℤ → Store → Response (List HighUniqueDestinationsResponse)
  unfolding high_unique_rows in_bounds
  find_high_unique_destinations threshold minutes s =
      both_or_422 (query_int 20 1 10000 threshold) (query_int 60 1 1440 minutes)
        (high_unique_rows E (w.now s.reads) s.events)
