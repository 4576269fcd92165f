-- ===== src/Sql/Reference/Keys.antt =====
-- The keys of the rows that meet a condition, each once.
use trace_pilot.Prelude.{
  ℕ, ◌<◌, ◌≡◌, refl, ap, ◌∙◌, Bool, false, ◌&&◌, ◌||◌, List, [], ◌∷◌, All, All-mono, count_if,
  contains, HasEq, ◌==◌, arith, leb, if◌then◌else◌, Bool-cases, inl, inr, beq_refl,
}

abbrev pub indicator : Bool → ℕ
indicator b = if b then 1 else 0

module _ {K : Type 0} ⦃e : HasEq K⦄ where
  add_key : K → List K → List K
  unfolding contains
  add_key k ks = if contains ks k then ks else k ∷ ks

  contains-add_key : (j k : K) (ks : List K) → contains (add_key j ks) k ≡ (k == j || contains ks k)
  unfolding add_key contains
  contains-add_key j k ks = ground (arith, e.equals_iff k j)

  pub count_if-absent :
      (k : K) (ks : List K) → contains ks k ≡ false → count_if (λ j. j == k) ks ≡ 0
  unfolding count_if contains
  count_if-absent k [] h = refl
  count_if-absent k (j ∷ ks) h =
      ground (arith, count_if-absent k ks, e.equals_iff k j, e.equals_iff j k)

  abbrev Once : List K → Type 0
  Once ks = (k : K) → count_if (λ j. j == k) ks ≡ indicator (contains ks k)

  Once-add_key : (j : K) (ks : List K) → Once ks → Once (add_key j ks)
  unfolding add_key contains count_if
  Once-add_key j ks h k =
      ground (arith, h k, count_if-absent k ks, e.equals_iff k j, e.equals_iff j k)

  All-add_key : (P : K → Type 0) (k : K) (ks : List K) → P k → All P ks → All P (add_key k ks)
  unfolding add_key
  All-add_key P k ks h hs = elim (Bool-cases (contains ks k)) [
    | inl e ↦ rw e hs
    | inr e ↦ rw e (h, hs)
  ]

module _ {A K : Type 0} ⦃e : HasEq K⦄ (where_holds : A → Bool) (key : A → K) where
  unfoldable pub keys_of : List A → List K
  unfolding add_key
  keys_of [] = []
  keys_of (a ∷ rest) =
      let keys = keys_of rest in if where_holds a then add_key (key a) keys else keys

  pub contains-keys_of :
      (table : List A) (k : K)
      → contains (keys_of table) k ≡ leb 1 (count_if (λ a. where_holds a && key a == k) table)
  unfolding keys_of count_if contains
  contains-keys_of [] k = refl
  contains-keys_of (a ∷ rest) k = ground (
    arith,
    contains-keys_of rest k,
    contains-add_key (key a) k (keys_of rest),
    e.equals_iff (key a) k,
    e.equals_iff k (key a),
  )

  keys_of-Once : (table : List A) → Once (keys_of table)
  unfolding keys_of
  keys_of-Once [] = unfold count_if contains in λ k. refl
  keys_of-Once (a ∷ rest) = elim (Bool-cases (where_holds a)) [
    | inl h ↦ rw h (Once-add_key (key a) (keys_of rest) (keys_of-Once rest))
    | inr h ↦ rw h (keys_of-Once rest)
  ]

  pub count_if-keys_of :
      (table : List A) (k : K)
      → count_if (λ j. j == k) (keys_of table)
        ≡ indicator (leb 1 (count_if (λ a. where_holds a && key a == k) table))
  count_if-keys_of table k = keys_of-Once table k ∙ ap indicator (contains-keys_of table k)

  abbrev pub Present : List A → K → Type 0
  Present table k = 0 < count_if (λ a. where_holds a && key a == k) table

  pub keys_of-Present : (table : List A) → All (Present table) (keys_of table)
  unfolding keys_of count_if
  keys_of-Present [] = tt
  keys_of-Present (a ∷ rest) =
      let older =
        All-mono (Present rest) (Present (a ∷ rest)) (keys_of rest) (λ k h. ground arith)
          (keys_of-Present rest) in
      elim (Bool-cases (where_holds a)) [
        | inl h ↦ rw h (
            All-add_key (Present (a ∷ rest)) (key a) (keys_of rest)
              (ground (arith, beq_refl (key a))) older)
        | inr h ↦ rw h older
      ]
