-- ===== src/Collector/Probes.antt =====
-- collector/collector.py, `BPF_PROGRAM`: the entry and return probes of `tcp_v4_connect` and
-- `tcp_v6_connect`. The two pairs differ in the address family and in the width of the address;
-- each has a hash map and a perf buffer of its own.
pub mod Tracing
pub mod Reachable
use trace_pilot.Prelude.{
  ℕ, ◌+◌, ◌-◌, ◌/◌, ◌%◌, ◌^◌, not, Option, none, some, List, [], ◌∷◌, ◌++◌, length, select_if, eqb,
  ltb, if◌then◌else◌,
}
use trace_pilot.Collector.Parser.Records.{Connection}

-- What the kernel says when a thread enters the function. `user_group` is what
-- `bpf_get_current_uid_gid` gives, and `comm` the 16 bytes of the thread's name.
pub record Entry : Type 0 where
  pub thread : ℕ
  pub user_group : ℕ
  pub family : ℕ
  pub ip_bytes : List ℕ
  pub port_high : ℕ
  pub port_low : ℕ
  pub now : ℕ
  pub comm : List ℕ

-- `struct pending_connection_t`
pub record PendingConnection : Type 0 where
  pub start_ns : ℕ
  pub pid : ℕ
  pub uid : ℕ
  pub ip_bytes : List ℕ
  pub port_high : ℕ
  pub port_low : ℕ
  pub comm : List ℕ

-- A hash map of BPF, by the thread's ID.
abbrev pub Pending : Type 0
Pending = List (ℕ × PendingConnection)

-- `BPF_HASH` without a size
abbrev pub max_entries : ℕ
max_entries = 10240

unfoldable pub lookup : ℕ → Pending → Option PendingConnection
lookup k [] = none
lookup k ((k', v) ∷ m) = let rest = lookup k m in if eqb k' k then some v else rest

unfoldable pub delete : ℕ → Pending → Pending
unfolding select_if
delete k m = select_if (λ q. not (eqb q.0 k)) m

-- The element is replaced if there is one. A full map refuses a new one; the probe does not look.
unfoldable pub update : ℕ → PendingConnection → Pending → Pending
unfolding delete
update k v m = elim (lookup k m) [
  | some _ ↦ (k, v) ∷ delete k m
  | none ↦ if ltb (length m) max_entries then (k, v) ∷ m else m
]

-- The elements pending, and the events submitted so far.
pub record Probes : Type 0 where
  pub pending : Pending
  pub submitted : List Connection

abbrev pub pending_of : Entry → PendingConnection
pending_of e = record {
  start_ns = e.now;
  pid = e.thread / 2 ^ 32;
  uid = e.user_group % 2 ^ 32;
  ip_bytes = e.ip_bytes;
  port_high = e.port_high;
  port_low = e.port_low;
  comm = e.comm;
}

-- `current_time - pending->start_ns` of two u64
abbrev pub elapsed : ℕ → ℕ → ℕ
elapsed start now = (now + 2 ^ 64 - start) % 2 ^ 64

-- `struct connection_event_t`, as it is filled
abbrev pub event_of : PendingConnection → ℕ → Connection
event_of q now = record {
  timestamp_ns = q.start_ns;
  duration_ns = elapsed q.start_ns now;
  pid = q.pid;
  uid = q.uid;
  ip_bytes = q.ip_bytes;
  port_high = q.port_high;
  port_low = q.port_low;
  comm = q.comm;
}

-- `family` is AF_INET or AF_INET6.
unfoldable pub connect_entry : ℕ → Entry → Probes → Probes
unfolding update
connect_entry family e s =
    if eqb e.family family
    then record s { pending = update e.thread (pending_of e) s.pending }
    else s

abbrev pub submit : Option PendingConnection → ℕ → ℕ → ℕ → Probes → Probes
submit none thread return_value now s = s
submit (some q) thread return_value now s =
    if eqb return_value 0
    then record {
      pending = delete thread s.pending;
      submitted = s.submitted ++ (event_of q now ∷ []);
    }
    else record s { pending = delete thread s.pending }

-- `return_value` is the int as a 32-bit pattern.
unfoldable pub connect_return : ℕ → ℕ → ℕ → Probes → Probes
connect_return thread return_value now s =
    submit (lookup thread s.pending) thread return_value now s

-- The probes run in some order, on any threads.
pub data Step : Type 0 where
  enters : Entry → Step
  leaves : ℕ → ℕ → ℕ → Step

abbrev pub thread_of : Step → ℕ
thread_of (enters e) = e.thread
thread_of (leaves thread return_value now) = thread

abbrev pub step : ℕ → Step → Probes → Probes
step family (enters e) s = connect_entry family e s
step family (leaves thread return_value now) s = connect_return thread return_value now s

unfoldable pub steps : ℕ → List Step → Probes → Probes
steps family [] s = s
steps family (x ∷ xs) s = steps family xs (step family x s)
