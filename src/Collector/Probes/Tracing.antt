-- ===== src/Collector/Probes/Tracing.antt =====
-- collector/collector.py, `BPF_PROGRAM`: one connection among the probes of other threads.
use trace_pilot.Prelude.{
  ◌/◌, ◌%◌, ◌^◌, ◌-◌, ℕ, ◌<◌, ◌≡◌, ◌≢◌, refl, none, List, [], ◌∷◌, length, select_if, All, arith,
  ◌≤◌,
}
use trace_pilot.Collector.Probes.{
  lookup, connect_entry, steps, delete, Step, Pending, Probes, Entry, Connection,
}

pub lookup-delete : (k k' : ℕ) (m : Pending) → k' ≢ k → lookup k (delete k' m) ≡ lookup k m
unfolding lookup delete select_if
lookup-delete k k' [] h = refl
lookup-delete k k' ((j, v) ∷ m) h = ground (arith, lookup-delete k k' m h)

pub lookup-delete_same : (k : ℕ) (m : Pending) → lookup k (delete k m) ≡ none
unfolding lookup delete select_if
lookup-delete_same k [] = refl
lookup-delete_same k ((j, v) ∷ m) = ground (arith, lookup-delete_same k m)

-- What the kernel hands to the entry probe, and the clock at the return: a later time.
pub record IsEntry (width : ℕ) (e : Entry) (now : ℕ) : Type 0 where
  pub thread_fits : e.thread < 2 ^ 64
  pub now_fits : now < 2 ^ 64
  pub in_order : e.now ≤ now
  pub address_width : length e.ip_bytes ≡ width
  pub address_bytes : All (λ b. b < 256) e.ip_bytes
  pub high_fits : e.port_high < 256
  pub low_fits : e.port_low < 256
  pub comm_width : length e.comm ≡ 16

abbrev pub traced_connection : Entry → ℕ → Connection
traced_connection e now = record {
  timestamp_ns = e.now;
  duration_ns = now - e.now;
  pid = e.thread / 2 ^ 32;
  uid = e.user_group % 2 ^ 32;
  ip_bytes = e.ip_bytes;
  port_high = e.port_high;
  port_low = e.port_low;
  comm = e.comm;
}

-- The probes before the return of a thread that has entered, after steps of other threads.
abbrev pub entered : ℕ → Entry → List Step → Probes → Probes
entered family e others s = steps family others (connect_entry family e s)
