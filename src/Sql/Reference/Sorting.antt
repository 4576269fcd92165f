-- ===== src/Sql/Reference/Sorting.antt =====
-- Insertion sort by an ORDER BY.
use trace_pilot.Prelude.{
  ◌+◌, ◌≡◌, Bool, true, false, List, [], ◌∷◌, All, All-mono, count_if, arith, if◌then◌else◌,
  Bool-cases, inl, inr,
}
use trace_pilot.Sql.Statement.{Order, unordered, ascending, descending, before, IsSorted}

module _ {A : Type 0} (o : Order A) where
  insert : A → List A → List A
  insert a [] = a ∷ []
  insert a (b ∷ bs) = let rest = insert a bs in if before o a b then a ∷ b ∷ bs else b ∷ rest

  unfoldable pub sort : List A → List A
  unfolding insert
  sort [] = []
  sort (a ∷ as') = insert a (sort as')

  count_if-insert :
      (p : A → Bool) (a : A) (bs : List A)
      → count_if p (insert a bs) ≡ (if p a then 1 else 0) + count_if p bs
  unfolding insert count_if
  count_if-insert p a [] = omega arith
  count_if-insert p a (b ∷ bs) = ground (arith, count_if-insert p a bs)

  pub count_if-sort : (p : A → Bool) (bs : List A) → count_if p (sort bs) ≡ count_if p bs
  unfolding sort count_if
  count_if-sort p [] = omega arith
  count_if-sort p (a ∷ bs) = omega (arith, count_if-insert p a (sort bs), count_if-sort p bs)

  All-insert : (P : A → Type 0) (a : A) (bs : List A) → P a → All P bs → All P (insert a bs)
  unfolding insert
  All-insert P a [] h k = (h, tt)
  All-insert P a (b ∷ bs) h k = elim (Bool-cases (before o a b)) [
    | inl e ↦ rw e (h, k)
    | inr e ↦ rw e (k.0, All-insert P a bs h k.1)
  ]

  pub All-sort : (P : A → Type 0) (bs : List A) → All P bs → All P (sort bs)
  unfolding sort
  All-sort P [] h = tt
  All-sort P (b ∷ bs) h = All-insert P b (sort bs) h.0 (All-sort P bs h.1)

before_total : {A : Type 0} (o : Order A) (a b : A) → before o a b ≡ false → before o b a ≡ true
before_total unordered a b h = cc
before_total (ascending key) a b h = ground arith
before_total (descending key) a b h = ground arith

before_trans :
    {A : Type 0} (o : Order A) (a b c : A)
    → before o a b ≡ true
    → before o b c ≡ true
    → before o a c ≡ true
before_trans unordered a b c h k = h
before_trans (ascending key) a b c h k = ground arith
before_trans (descending key) a b c h k = ground arith

module _ {A : Type 0} (o : Order A) where
  insert-IsSorted : (a : A) (bs : List A) → IsSorted o bs → IsSorted o (insert o a bs)
  unfolding insert
  insert-IsSorted a [] h = (tt, tt)
  insert-IsSorted a (b ∷ bs) h = elim (Bool-cases (before o a b)) [
    | inl e ↦ rw e ((e, All-mono _ _ bs (λ c. before_trans o a b c e) h.0), h)
    | inr e ↦ rw e (
      All-insert o (λ c. before o b c ≡ true) a bs (before_total o a b e) h.0,
      insert-IsSorted a bs h.1,
    )
  ]

  pub sort-IsSorted : (bs : List A) → IsSorted o (sort o bs)
  unfolding sort
  sort-IsSorted [] = tt
  sort-IsSorted (b ∷ bs) = insert-IsSorted b (sort o bs) (sort-IsSorted bs)
