-- ===== src/Tools/Ranking.antt =====
-- backend/app/agent_tools.py, the top processes: what LIMIT cuts off.
use trace_pilot.Prelude.{
  All-right, ℕ, ◌<◌, ◌-◌, ◌≡◌, refl, Bool, true, Bool-cases, inl, inr, List, [], ◌∷◌, ◌++◌, All,
  count_if, count_if-append, leb, ◌&&◌, ◌==◌, pair_eq, pair_beq_iff, list_eq, number_eq, arith, ◌≤◌,
  All-mono, leb→le, length, ap, All-left, length-append,
}
use trace_pilot.Store.{ConnectionEvent, minutes_us}
use trace_pilot.Sql.{Engine, IsEngine, Group}
use trace_pilot.Sql.Statement.{Order, descending, before, IsSorted, IsGrouped}
use trace_pilot.Tools.Arguments.{TopNetworkProcessesArguments}
use trace_pilot.Tools.Queries.{ProcessKey, top_processes_query, connection_count}
use trace_pilot.Sql.Answers.{length-HasMembers}

-- Sorted rows: each of the first may stand before each of the others.
IsSorted-across :
    {A : Type 0} (o : Order A) (xs ys : List A)
    → IsSorted o (xs ++ ys)
    → All (λ x. All (λ y. before o x y ≡ true) ys) xs
IsSorted-across o [] ys h = tt
IsSorted-across o (x ∷ xs) ys h =
    (All-right (λ y. before o x y ≡ true) xs ys h.0, IsSorted-across o xs ys h.1)

-- An element that is counted.
counted_element :
    {A : Type 0} (P : A → Type 0) (p : A → Bool) (xs : List A)
    → All P xs
    → 0 < count_if p xs
    → (a : A) × (p a ≡ true) × P a
unfolding count_if
counted_element P p [] h k = absurd (omega (arith, k))
counted_element P p (x ∷ xs) h k = elim (Bool-cases (p x)) [
  | inl e ↦ (x, e, h.0)
  | inr e ↦ counted_element P p xs h.1 (ground (arith, k, e))
]

count_if-length : {A : Type 0} (p : A → Bool) (xs : List A) → count_if p xs ≤ length xs
unfolding count_if
count_if-length p [] = omega arith
count_if-length p (x ∷ xs) = ground (arith, count_if-length p xs)

All-pair :
    {A : Type 0} (P Q : A → Type 0) (xs : List A) → All P xs → All Q xs → All (λ x. P x × Q x) xs
All-pair P Q [] h k = tt
All-pair P Q (x ∷ xs) h k = ((h.0, k.0), All-pair P Q xs h.1 k.1)

module _ (E : Engine) (lawful : IsEngine E) (now : ℕ) (events : List ConnectionEvent)
    (a : TopNetworkProcessesArguments) where
  abbrev pub top_groups : List (Group ConnectionEvent ProcessKey)
  top_groups = E.group (top_processes_query now a) events

  -- The connections of a process in the window.
  abbrev pub connections_of : ProcessKey → ℕ
  connections_of k =
      count_if (λ e. leb (now - minutes_us a.minutes) e.timestamp && (e.pid, e.process_name) == k)
        events

  -- How often a process is reported.
  abbrev pub reports_of : ProcessKey → ℕ
  reports_of k = count_if (λ g. g.key == k) top_groups

  abbrev answered : IsGrouped (top_processes_query now a) events top_groups
  answered = lawful.group_lem (top_processes_query now a) events

  unreported_cut :
      (k : ProcessKey)
      → 0 < connections_of k
      → reports_of k ≡ 0
      → 0 < count_if (λ g. g.key == k) answered.cut
  unreported_cut k some_rows missing = omega (
    arith,
    answered.complete k some_rows (λ members h. refl),
    count_if-append (λ g. g.key == k) top_groups answered.cut,
    missing,
  )

  abbrev pub HasCount : Group ConnectionEvent ProcessKey → Type 0
  HasCount g = connection_count g ≡ connections_of g.key

  IsGrouped-HasCount : All HasCount (top_groups ++ answered.cut)
  IsGrouped-HasCount =
      All-mono _ HasCount (top_groups ++ answered.cut)
        (λ g h. length-HasMembers (top_processes_query now a) events g.key g.members h.members)
        answered.sound

  -- A process that is not reported has no more connections than one that is.
  abbrev pub Outranks : Group ConnectionEvent ProcessKey → Type 0
  Outranks g = (k : ProcessKey) → reports_of k ≡ 0 → connections_of k ≤ connection_count g

  before-Outranks :
      (g : Group ConnectionEvent ProcessKey)
      → All (λ g'. before (descending connection_count) g g' ≡ true) answered.cut
      → Outranks g
  before-Outranks g h k missing = elim (Bool-cases (leb 1 (connections_of k))) [
    | inl some_rows ↦
        let (g', same, (ranked, counted)) =
          counted_element _ (λ g'. g'.key == k) answered.cut
            (All-pair _ HasCount answered.cut h
              (All-right HasCount top_groups answered.cut IsGrouped-HasCount))
            (unreported_cut k (leb→le 1 (connections_of k) some_rows) missing) in
        let at_k : g'.key ≡ k = (pair_beq_iff g'.key k).0 same in
        omega (
          arith,
          leb→le (connection_count g') (connection_count g) ranked,
          counted,
          ap connections_of at_k,
        )
    | inr no_rows ↦ ground (arith, no_rows)
  ]

  -- Of the processes with connections in the window, as many are reported as the limit allows,
  -- none twice, each with the number of its connections in the window, and none that is left
  -- out has more of them than one that is reported. If one is left out, the limit is reached.
  pub top_processes_ranked :
      (length top_groups ≤ a.limit)
      × All (λ g. HasCount g × Outranks g) top_groups
      × ((k : ProcessKey) → reports_of k ≤ 1)
      × ((k : ProcessKey) → reports_of k ≡ 0 → 0 < connections_of k → length top_groups ≡ a.limit)
  top_processes_ranked = (
    omega (arith, answered.limited),
    All-pair HasCount Outranks top_groups
        (All-left HasCount top_groups answered.cut IsGrouped-HasCount)
        (All-mono _ Outranks top_groups before-Outranks
          (IsSorted-across (descending connection_count) top_groups answered.cut answered.ordered)),
    λ k. omega (arith, answered.once k, count_if-append (λ g. g.key == k) top_groups answered.cut),
    λ k missing some_rows. omega (
      arith,
      answered.limited,
      length-append top_groups answered.cut,
      count_if-length (λ g. g.key == k) answered.cut,
      unreported_cut k some_rows missing,
    ),
  )
