-- ===== src/Tests/Probes.antt =====
-- The probes on two threads.
use trace_pilot.Prelude.{
  ◌<◌, ◌≡◌, ◌≢◌, ◌⊎◌, inl, inr, ℕ, refl, none, codes, List, [], ◌∷◌, ◌++◌, All, arith, length,
}
use trace_pilot.Prelude.Decimal.{decimal}
use trace_pilot.Collector.Probes.{
  Entry, Step, Probes, lookup, thread_of, connect_return, enters, connect_entry, leaves,
  max_entries,
}
use trace_pilot.Collector.Layout.{Platform, big}
use trace_pilot.Collector.Probes.Tracing.{IsEntry}
use trace_pilot.Collector.Probes.Reachable.{
  Reachable, IsConsistent, after_return, Reachable-IsConsistent, after_entry, idle,
}

abbrev pub af_inet : ℕ
af_inet = 2

-- Process 4242, thread 4243, of user 1000: 203.0.113.50, port 443.
abbrev pub entry : Entry
entry = record {
  thread = 18219546480787;
  user_group = 4294967297000;
  family = 2;
  ip_bytes = 203 ∷ 0 ∷ 113 ∷ 50 ∷ [];
  port_high = 1;
  port_low = 187;
  now = 5_000_000_000;
  comm = codes "curl" ++ (0 ∷ 0 ∷ 0 ∷ 0 ∷ 0 ∷ 0 ∷ 0 ∷ 0 ∷ 0 ∷ 0 ∷ 0 ∷ 0 ∷ []);
}

abbrev other_entry : Entry
other_entry = record entry { thread = 77; now = 5_000_500_000 }

abbrev pub others : List Step
others = enters other_entry ∷ leaves 77 0 5_000_900_000 ∷ leaves 78 1 5_000_950_000 ∷ []

abbrev pub nothing_yet : Probes
nothing_yet = record { pending = []; submitted = [] }

abbrev pub platform : Platform
platform = record {
  byteorder = big;
  true_div = λ a b. a;
  fromtimestamp = λ n. n;
  isoformat = decimal;
  inet_ntop = λ bs. bs;
  decode = λ bs. bs;
}

pub entry-IsEntry : IsEntry 4 entry 5_012_000_000
entry-IsEntry = record {
  thread_fits = omega arith;
  now_fits = omega arith;
  in_order = omega arith;
  address_width = refl;
  address_bytes = (omega arith, (omega arith, (omega arith, (omega arith, tt))));
  high_fits = omega arith;
  low_fits = omega arith;
  comm_width = refl;
}

pub room :
    (lookup entry.thread nothing_yet.pending ≢ none) ⊎ ((length nothing_yet.pending) < max_entries)
room = inr (omega arith)

pub other_threads : All (λ x. thread_of x ≢ entry.thread) others
other_threads = (λ e. omega arith, (λ e. omega arith, (λ e. omega arith, tt)))

abbrev Entered : Entry → Type 0
Entered e = (e ≡ entry) ⊎ (e ≡ other_entry)

abbrev reached : Probes
reached =
    connect_return 77 0 5_000_900_000
      (connect_entry af_inet other_entry (connect_entry af_inet entry nothing_yet))

reached-Reachable : Reachable af_inet Entered reached
reached-Reachable =
    after_return 77 0 5_000_900_000
      (connect_entry af_inet other_entry (connect_entry af_inet entry nothing_yet))
      (after_entry other_entry (connect_entry af_inet entry nothing_yet) (inr refl)
        (after_entry entry nothing_yet (inl refl) idle))

Reachable-IsConsistent_example : IsConsistent af_inet Entered reached
Reachable-IsConsistent_example = Reachable-IsConsistent af_inet Entered reached reached-Reachable
