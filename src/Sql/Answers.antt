-- ===== src/Sql/Answers.antt =====
-- What follows from the laws of an engine for one answer.
use trace_pilot.Prelude.{
  ◌≡◌, List, [], ◌++◌, count_if, Bool, none, ◌∷◌, length, ◌&&◌, All-left, arith, true,
  count_if-append, refl, length-append, ◌∙◌, ap, HasEq, ℕ, ◌==◌, sym, All, count_if-true,
  if◌then◌else◌, count_if_ext, ◌<◌, leb, false, Bool-cases, inl, subst, inr, leb→le,
}
use trace_pilot.Sql.Statement.{
  Select, IsSelected, Order, IsSorted, before, within, Grouping, HasMembers, Group, IsGrouped,
  IsGroup,
}

module _ {A : Type 0} where
  count_if-none : (p : A → Bool) (xs : List A) → length xs ≡ 0 → count_if p xs ≡ 0
  unfolding count_if
  count_if-none p [] h = refl
  count_if-none p (x ∷ xs) h = absurd (omega arith)

  pub uncut-count_if :
      (rows cut : List A) (p : A → Bool)
      → length rows ≡ length (rows ++ cut)
      → count_if p (rows ++ cut) ≡ count_if p rows
  uncut-count_if rows cut p h =
      omega (arith, count_if-append p rows cut, count_if-none p cut, length-append rows cut)

  -- Without LIMIT no row is cut off.
  pub select-SameElements :
      (q : Select A) (table rows : List A)
      → IsSelected q table rows
      → q.limit ≡ none
      → (p : A → Bool) → count_if p rows ≡ count_if (λ a. q.where_holds a && p a) table
  select-SameElements q table rows h unlimited p = omega (
    arith,
    h.same p,
    count_if-append p rows h.cut,
    count_if-none p h.cut,
    length-append rows h.cut,
    h.limited ∙ ap (λ l. within l (length (rows ++ h.cut))) unlimited,
  )

  pub IsSorted-left : (o : Order A) (xs ys : List A) → IsSorted o (xs ++ ys) → IsSorted o xs
  IsSorted-left o [] ys h = tt
  IsSorted-left o (x ∷ xs) ys h =
      (All-left (λ b. before o x b ≡ true) xs ys h.0, IsSorted-left o xs ys h.1)

module _ {A K : Type 0} ⦃e : HasEq K⦄ (q : Grouping A K) (table : List A) where
  -- How many rows meet the condition and have the key.
  abbrev pub rows_of : K → ℕ
  rows_of k = count_if (λ a. q.where_holds a && q.key a == k) table

  pub length-HasMembers :
      (k : K) (members : List A) → HasMembers q table k members → length members ≡ rows_of k
  length-HasMembers k members h =
      sym (count_if-true members) ∙ h (λ a. true) ∙ count_if_ext _ _ table (λ a. ground arith)

  unreported :
      (k : K) (groups : List (Group A K))
      → All (IsGroup q table) groups
      → ((members : List A)
          → HasMembers q table k members
          → 0 < length members
          → q.having members ≡ false)
      → count_if (λ g. g.key == k) groups ≡ 0
  unfolding count_if
  unreported k [] h dropped = refl
  unreported k (g ∷ groups) h dropped = elim (Bool-cases (g.key == k)) [
    | inl same ↦
        let here =
          subst (λ j. HasMembers q table j g.members) ((e.equals_iff g.key k).0 same) h.0.members in
        cc (h.0.having, dropped g.members here h.0.nonempty)
    | inr other ↦ rw other (omega (arith, unreported k groups h.1 dropped))
  ]

  reported_or_cut :
      (groups : List (Group A K))
      → (h : IsGrouped q table groups) → (k : K) (kept : Bool)
      → ((members : List A) → HasMembers q table k members → q.having members ≡ kept)
      → count_if (λ g. g.key == k) (groups ++ h.cut) ≡ (if leb 1 (rows_of k) && kept then 1 else 0)
  reported_or_cut groups h k kept decides = elim (Bool-cases (leb 1 (rows_of k))) [
    | inl some_rows ↦ rw some_rows (having_cases kept decides some_rows)
    | inr no_rows ↦ rw no_rows (
        unreported k (groups ++ h.cut) h.sound
          (λ members at_k full. absurd (too_many members at_k full no_rows)))
  ]
    where
      too_many :
          (members : List A)
          → HasMembers q table k members
          → 0 < length members
          → leb 1 (rows_of k) ≡ false
          → ⊥
      too_many members at_k full no_rows = ground (arith, length-HasMembers k members at_k)

      having_cases :
          (b : Bool)
          → ((members : List A) → HasMembers q table k members → q.having members ≡ b)
          → leb 1 (rows_of k) ≡ true
          → count_if (λ g. g.key == k) (groups ++ h.cut) ≡ (if true && b then 1 else 0)
      having_cases true d some_rows = h.complete k (leb→le 1 _ some_rows) d
      having_cases false d some_rows =
          unreported k (groups ++ h.cut) h.sound (λ members at_k full. d members at_k)

  -- Without LIMIT a key is reported, once, exactly if it has rows and HAVING holds of them.
  pub count_if-grouped :
      (groups : List (Group A K))
      → IsGrouped q table groups
      → q.limit ≡ none
      → (k : K) (kept : Bool)
      → ((members : List A) → HasMembers q table k members → q.having members ≡ kept)
      → count_if (λ g. g.key == k) groups ≡ (if leb 1 (rows_of k) && kept then 1 else 0)
  count_if-grouped groups h unlimited k kept decides =
      sym (
        uncut-count_if groups h.cut (λ g. g.key == k)
          (h.limited ∙ ap (λ l. within l (length (groups ++ h.cut))) unlimited))
      ∙ reported_or_cut groups h k kept decides
