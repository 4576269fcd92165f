-- ===== src/Api/Analytics/Distinct.antt =====
-- COUNT(DISTINCT …) of the statements: lists without repetition.
use trace_pilot.Prelude.{
  ◌+◌, ◌≡◌, refl, sym, subst, Bool, true, false, not, ◌&&◌, ◌||◌, Bool-cases, inl, inr, List, [],
  ◌∷◌, length, count_if, select_if, ◌==◌, HasEq, contains, IsDistinct, beq_refl, arith,
  if◌then◌else◌,
}

module _ {A : Type 0} ⦃e : HasEq A⦄ where
  pub eq_comm : (a b : A) → (a == b) ≡ (b == a)
  eq_comm a b = ground (arith, e.equals_iff a b, e.equals_iff b a)

  pub contains-select_if :
      (q : A → Bool) (xs : List A) (a : A) → contains (select_if q xs) a ≡ (contains xs a && q a)
  unfolding contains select_if
  contains-select_if q [] a = refl
  contains-select_if q (x ∷ xs) a = elim (Bool-cases (a == x)) [
    | inl same ↦
        rw ((e.equals_iff a x).0 same) (ground (arith, contains-select_if q xs x, beq_refl x))
    | inr other ↦ ground (arith, contains-select_if q xs a, other)
  ]

  pub IsDistinct-select_if :
      (q : A → Bool) (xs : List A) → IsDistinct xs → IsDistinct (select_if q xs)
  unfolding select_if
  IsDistinct-select_if q [] h = tt
  IsDistinct-select_if q (x ∷ xs) h = elim (Bool-cases (q x)) [
    | inl k ↦ rw k (rw (contains-select_if q xs x, h.0) refl, IsDistinct-select_if q xs h.1)
    | inr k ↦ rw k (IsDistinct-select_if q xs h.1)
  ]

  abbrev pub without : A → List A → List A
  without a xs = select_if (λ x. not (x == a)) xs

  length-without :
      (a : A) (xs : List A) → length xs ≡ count_if (λ x. x == a) xs + length (without a xs)
  unfolding count_if select_if
  length-without a [] = omega arith
  length-without a (x ∷ xs) = ground (arith, length-without a xs)

  count_if-IsDistinct :
      (a : A) (xs : List A)
      → IsDistinct xs
      → count_if (λ x. x == a) xs ≡ (if contains xs a then 1 else 0)
  unfolding count_if contains
  count_if-IsDistinct a [] h = refl
  count_if-IsDistinct a (x ∷ xs) h = elim (Bool-cases (x == a)) [
    | inl same ↦
        let e' = (e.equals_iff x a).0 same in
        let here = subst (λ y. contains xs y ≡ false) e' h.0 in
        ground (arith, count_if-IsDistinct a xs h.1, here, eq_comm a x, same)
    | inr other ↦ ground (arith, count_if-IsDistinct a xs h.1, eq_comm a x, other)
  ]

  but_one :
      (x : A) (xs ys : List A) (a : A)
      → contains xs x ≡ false
      → (a == x || contains xs a) ≡ contains ys a
      → contains xs a ≡ contains (without x ys) a
  but_one x xs ys a new same = elim (Bool-cases (a == x)) [
    | inl at_x ↦
        let absent = subst (λ y. contains xs y ≡ false) (sym ((e.equals_iff a x).0 at_x)) new in
        ground (arith, contains-select_if (λ y. not (y == x)) ys a, absent, at_x)
    | inr other ↦ ground (arith, contains-select_if (λ y. not (y == x)) ys a, same, other)
  ]

  pub length-IsDistinct :
      (xs ys : List A)
      → IsDistinct xs
      → IsDistinct ys
      → ((a : A) → contains xs a ≡ contains ys a)
      → length xs ≡ length ys
  unfolding contains
  length-IsDistinct [] [] h k same = refl
  length-IsDistinct [] (y ∷ ys) h k same = absurd (ground (arith, same y, beq_refl y))
  length-IsDistinct (x ∷ xs) ys h k same =
      let here : contains ys x ≡ true = ground (arith, same x, beq_refl x) in
      let others : length xs ≡ length (without x ys) =
        length-IsDistinct xs (without x ys) h.1 (IsDistinct-select_if (λ y. not (y == x)) ys k)
          (λ a. but_one x xs ys a h.0 (same a)) in
      ground (arith, length-without x ys, count_if-IsDistinct x ys k, here, others)
