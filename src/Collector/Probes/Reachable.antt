-- ===== src/Collector/Probes/Reachable.antt =====
-- collector/collector.py, `BPF_PROGRAM`: the map and the submitted events in any order of the
-- probes.
use trace_pilot.Prelude.{
  ◌<◌, ltb, ltb→lt, Option-cases, ap, ◌⊎◌, true, false, ◌≤◌, ◌≡◌, not, ℕ, suc, refl, none, some, [],
  ◌∷◌, length, select_if, eqb, All, All-append, All-select_if, inl, inr, arith, Bool-cases, eqb_iff,
  sym, ◌∙◌,
}
use trace_pilot.Collector.Probes.{
  Pending, delete, Entry, lookup, Probes, PendingConnection, Connection, connect_entry,
  connect_return, pending_of, event_of, max_entries, submit, update,
}
use trace_pilot.Collector.Probes.Tracing.{lookup-delete_same, lookup-delete}

-- No thread has two elements.
abbrev pub IsDistinct : Pending → Type 0
IsDistinct [] = Unit
IsDistinct (q ∷ m) = (lookup q.0 m ≡ none) × IsDistinct m

lookup-delete-none : (k k' : ℕ) (m : Pending) → lookup k m ≡ none → lookup k (delete k' m) ≡ none
lookup-delete-none k k' m h = elim (Bool-cases (eqb k' k)) [
  | inl e ↦ rw ((eqb_iff k' k).0 e) (lookup-delete_same k m)
  | inr e ↦ lookup-delete k k' m (λ same. absurd (ground (arith, (eqb_iff k' k).1 same, e))) ∙ h
]

delete-IsDistinct : (k : ℕ) (m : Pending) → IsDistinct m → IsDistinct (delete k m)
unfolding delete select_if
delete-IsDistinct k [] h = tt
delete-IsDistinct k (q ∷ m) h = elim (Bool-cases (eqb q.0 k)) [
  | inl e ↦ rw e (delete-IsDistinct k m h.1)
  | inr e ↦ rw e (lookup-delete-none q.0 k m h.0, delete-IsDistinct k m h.1)
]

length-delete : (k : ℕ) (m : Pending) → length (delete k m) ≤ length m
unfolding delete select_if
length-delete k [] = omega arith
length-delete k (q ∷ m) = ground (arith, length-delete k m)

length-delete_found :
    (k : ℕ) (m : Pending) (v : PendingConnection)
    → lookup k m ≡ some v
    → suc (length (delete k m)) ≤ length m
unfolding delete select_if lookup
length-delete_found k [] v h = absurd (ground arith)
length-delete_found k ((k', v') ∷ m) v h =
    ground (arith, length-delete k m, length-delete_found k m v, h)

-- An update adds an element, replaces one, or is refused.
update_cases :
    (P : Pending → Type 0) (k : ℕ) (v : PendingConnection) (m : Pending)
    → (lookup k m ≡ none → length m < max_entries → P ((k, v) ∷ m))
    → ((q : PendingConnection) → lookup k m ≡ some q → P ((k, v) ∷ delete k m))
    → P m
    → P (update k v m)
unfolding update
update_cases P k v m adds replaces refused = elim (Option-cases (lookup k m)) [
  | inl e ↦ elim (Bool-cases (ltb (length m) max_entries)) [
    | inl room ↦ rw (e, room, update) (adds e (ltb→lt (length m) max_entries room))
    | inr full ↦ rw (e, full, update) refused
  ]
  | inr (q, e) ↦ rw (e, update) (replaces q e)
]

length-update :
    (k : ℕ) (v : PendingConnection) (m : Pending)
    → length m ≤ max_entries
    → length (update k v m) ≤ max_entries
length-update k v m h =
    update_cases (λ m'. length m' ≤ max_entries) k v m (λ e room. omega arith)
      (λ q e. omega (arith, length-delete_found k m q e, h)) h

update-IsDistinct :
    (k : ℕ) (v : PendingConnection) (m : Pending) → IsDistinct m → IsDistinct (update k v m)
update-IsDistinct k v m h =
    update_cases IsDistinct k v m (λ e room. (e, h))
      (λ q e. (lookup-delete_same k m, delete-IsDistinct k m h)) h

module _ (family : ℕ) (P : Entry → Type 0) where
  -- The states that the probes come to, where P holds of all that threads enter with.
  pub data Reachable : Probes → Type 0 where
    idle : Reachable (record { pending = []; submitted = [] })
    after_entry :
        (e : Entry) (s : Probes) → P e → Reachable s → Reachable (connect_entry family e s)
    after_return :
        (thread return_value now : ℕ) (s : Probes)
        → Reachable s
        → Reachable (connect_return thread return_value now s)

  -- An element is what some entry with the right family put there.
  abbrev pub IsOfEntry : ℕ × PendingConnection → Type 0
  IsOfEntry (k, q) = (e : Entry) × P e × (e.family ≡ family) × (k ≡ e.thread) × (q ≡ pending_of e)

  abbrev pub IsTraced : Connection → Type 0
  IsTraced c =
      (e : Entry) × (now : ℕ) × P e × (e.family ≡ family) × (c ≡ event_of (pending_of e) now)

  pub record IsConsistent (s : Probes) : Type 0 where
    pub bounded : length s.pending ≤ max_entries
    pub distinct : IsDistinct s.pending
    pub own : All IsOfEntry s.pending
    pub traced : All IsTraced s.submitted

  lookup-IsOfEntry :
      (k : ℕ) (m : Pending) (q : PendingConnection)
      → All IsOfEntry m
      → lookup k m ≡ some q
      → (e : Entry) × P e × (e.family ≡ family) × (q ≡ pending_of e)
  unfolding lookup
  lookup-IsOfEntry k [] q h found = absurd (ground arith)
  lookup-IsOfEntry k ((k', v) ∷ m) q h found = elim (Bool-cases (eqb k' k)) [
    | inl e ↦
        let (x, ok, same, _, made) = h.0 in
        let value : v ≡ q = ground (arith, found, e) in (x, ok, same, sym value ∙ made)
    | inr e ↦ lookup-IsOfEntry k m q h.1 (ground (arith, found, e))
  ]

  delete-All : (k : ℕ) (m : Pending) → All IsOfEntry m → All IsOfEntry (delete k m)
  unfolding delete
  delete-All k m h = All-select_if IsOfEntry (λ q. not (eqb q.0 k)) m h

  update-All :
      (k : ℕ) (v : PendingConnection) (m : Pending)
      → IsOfEntry (k, v)
      → All IsOfEntry m
      → All IsOfEntry (update k v m)
  update-All k v m new h =
      update_cases (All IsOfEntry) k v m (λ e room. (new, h)) (λ q e. (new, delete-All k m h)) h

  entry-IsConsistent :
      (e : Entry) (s : Probes) → P e → IsConsistent s → IsConsistent (connect_entry family e s)
  unfolding connect_entry
  entry-IsConsistent e s ok h = elim (Bool-cases (eqb e.family family)) [
    | inl same ↦
        let own : IsOfEntry (e.thread, pending_of e) =
          (e, ok, (eqb_iff e.family family).0 same, refl, refl) in
        rw same (record {
          bounded = length-update e.thread (pending_of e) s.pending h.bounded;
          distinct = update-IsDistinct e.thread (pending_of e) s.pending h.distinct;
          own = update-All e.thread (pending_of e) s.pending own h.own;
          traced = h.traced;
        })
    | inr other ↦ rw other h
  ]

  return-IsConsistent :
      (thread return_value now : ℕ) (s : Probes)
      → IsConsistent s
      → IsConsistent (connect_return thread return_value now s)
  unfolding connect_return
  return-IsConsistent thread return_value now s h = elim (Option-cases (lookup thread s.pending)) [
    | inl e ↦ rw e h
    | inr (q, e) ↦ rw e (submit_some q e (Bool-cases (eqb return_value 0)))
  ]
    where
      submit_some :
          (q : PendingConnection)
          → lookup thread s.pending ≡ some q
          → (eqb return_value 0 ≡ true) ⊎ (eqb return_value 0 ≡ false)
          → IsConsistent (submit (some q) thread return_value now s)
      submit_some q e (inl ok) =
          let (entry, ran, same, made) = lookup-IsOfEntry thread s.pending q h.own e in
          rw ok (record {
            bounded = omega (arith, length-delete thread s.pending, h.bounded);
            distinct = delete-IsDistinct thread s.pending h.distinct;
            own = delete-All thread s.pending h.own;
            traced =
                All-append IsTraced s.submitted (event_of q now ∷ []) h.traced
                  ((entry, now, ran, same, ap (λ x. event_of x now) made), tt);
          })
      submit_some q e (inr bad) = rw bad (record {
        bounded = omega (arith, length-delete thread s.pending, h.bounded);
        distinct = delete-IsDistinct thread s.pending h.distinct;
        own = delete-All thread s.pending h.own;
        traced = h.traced;
      })

  -- In whatever order the probes run, on any threads and with any return values: the map holds at
  -- most 10240 elements, one for a thread at most; each is what an entry of its thread left, with
  -- the right address family; and every event that was submitted has the data of such an entry.
  -- No event is made up, or mixed from two connections.
  pub Reachable-IsConsistent : (s : Probes) → Reachable s → IsConsistent s
  Reachable-IsConsistent _ idle = record {
    bounded = omega arith;
    distinct = tt;
    own = tt;
    traced = tt;
  }
  Reachable-IsConsistent _ (after_entry e s ok r) =
      entry-IsConsistent e s ok (Reachable-IsConsistent s r)
  Reachable-IsConsistent _ (after_return thread return_value now s r) =
      return-IsConsistent thread return_value now s (Reachable-IsConsistent s r)
