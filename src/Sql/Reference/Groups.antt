-- ===== src/Sql/Reference/Groups.antt =====
-- A SELECT with GROUP BY: one group for each key, HAVING, sort, cut.
use trace_pilot.Prelude.{
  ◌≤◌, ◌<◌, ◌≡◌, refl, sym, ap, subst, ◌∙◌, Bool, true, false, ◌&&◌, List, [], ◌∷◌, map, All,
  length, count_if, select_if, HasEq, ◌==◌, arith, leb, le→leb, Bool-cases, inl, inr,
  count_if-select_if, count_if_ext, count_if_mono, and_right, count_if-true,
}
use trace_pilot.Sql.Statement.{Group, Grouping, HasMembers, IsGroup, IsGrouped}
use trace_pilot.Sql.Reference.Keys.{keys_of, count_if-keys_of, keys_of-Present, Present, indicator}
use trace_pilot.Sql.Reference.Sorting.{sort, count_if-sort, sort-IsSorted, All-sort}
use trace_pilot.Sql.Reference.Rows.{
  take_within, drop_within, take_within-append, length-take_within,
}

indicator-le : (b : Bool) → indicator b ≤ 1
indicator-le b = ground arith

and_false : (b : Bool) → (b && false) ≡ false
and_false b = ground arith

module _ {A K : Type 0} ⦃e : HasEq K⦄ (q : Grouping A K) (table : List A) where
  group_of : K → Group A K
  unfolding select_if
  group_of k = record { key = k; members = select_if (λ a. q.where_holds a && q.key a == k) table }

  group_keys : List K
  unfolding keys_of
  group_keys = keys_of q.where_holds q.key table

  kept_groups : List (Group A K)
  unfolding group_of group_keys sort select_if
  kept_groups = sort q.order (select_if (λ g. q.having g.members) (map group_of group_keys))

  unfoldable pub group : List (Group A K)
  unfolding kept_groups
  group = take_within q.limit kept_groups

  group_of-HasMembers : (k : K) → HasMembers q table k (group_of k).members
  unfolding group_of
  group_of-HasMembers k p = count_if-select_if p (λ a. q.where_holds a && q.key a == k) table

  length-group_of :
      (k : K) → length (group_of k).members ≡ count_if (λ a. q.where_holds a && q.key a == k) table
  length-group_of k =
      sym (count_if-true (group_of k).members)
      ∙ group_of-HasMembers k (λ a. true)
      ∙ count_if_ext _ _ table (λ a. ground arith)

  count_if-map-group_of :
      (p : Group A K → Bool) (ks : List K)
      → count_if p (map group_of ks) ≡ count_if (λ k. p (group_of k)) ks
  unfolding count_if
  count_if-map-group_of p [] = refl
  count_if-map-group_of p (k ∷ ks) = ground (arith, count_if-map-group_of p ks)

  -- The groups that are kept, counted over the keys.
  count_if-kept_groups :
      (p : Group A K → Bool)
      → count_if p kept_groups
        ≡ count_if (λ k. q.having (group_of k).members && p (group_of k)) group_keys
  unfolding kept_groups
  count_if-kept_groups p =
      count_if-sort q.order p (select_if (λ g. q.having g.members) (map group_of group_keys))
      ∙ count_if-select_if p (λ g. q.having g.members) (map group_of group_keys)
      ∙ count_if-map-group_of (λ g. q.having g.members && p g) group_keys

  kept_groups-once : (k : K) → count_if (λ g. g.key == k) kept_groups ≤ 1
  unfolding group_of group_keys
  kept_groups-once k = omega (
    arith,
    count_if-kept_groups (λ g. g.key == k),
    count_if_mono (λ j. q.having (group_of j).members && j == k) (λ j. j == k) group_keys
        (λ j h. and_right _ _ h),
    count_if-keys_of q.where_holds q.key table k,
    indicator-le (leb 1 (count_if (λ a. q.where_holds a && q.key a == k) table)),
  )

  kept_at :
      (k : K)
      → ((members : List A) → HasMembers q table k members → q.having members ≡ true)
      → (j : K) → (q.having (group_of j).members && j == k) ≡ (j == k)
  kept_at k keep j = elim (Bool-cases (j == k)) [
    | inl same ↦
        let kept =
          subst (λ i. q.having (group_of i).members ≡ true) (sym ((e.equals_iff j k).0 same))
            (keep _ (group_of-HasMembers k)) in
        rw (same, kept)
    | inr other ↦ rw other (and_false _)
  ]

  kept_groups_complete :
      (k : K)
      → 0 < count_if (λ a. q.where_holds a && q.key a == k) table
      → ((members : List A) → HasMembers q table k members → q.having members ≡ true)
      → count_if (λ g. g.key == k) kept_groups ≡ 1
  unfolding group_keys group_of
  kept_groups_complete k h keep =
      let same =
        count_if_ext (λ j. q.having (group_of j).members && j == k) (λ j. j == k) group_keys
          (kept_at k keep) in
      count_if-kept_groups (λ g. g.key == k)
      ∙ same
      ∙ count_if-keys_of q.where_holds q.key table k
      ∙ ap indicator (le→leb 1 _ h)

  group_of-IsGroup :
      (k : K)
      → Present q.where_holds q.key table k
      → q.having (group_of k).members ≡ true
      → IsGroup q table (group_of k)
  unfolding group_of
  group_of-IsGroup k present keep = record {
    nonempty = omega (arith, length-group_of k);
    members = group_of-HasMembers k;
    having = keep;
  }

  kept_groups_sound : All (IsGroup q table) kept_groups
  unfolding kept_groups group_keys
  kept_groups_sound =
      All-sort q.order (IsGroup q table) _
        (kept_keys group_keys (keys_of-Present q.where_holds q.key table))
    where
      kept_keys :
          (ks : List K)
          → All (Present q.where_holds q.key table) ks
          → All (IsGroup q table) (select_if (λ g. q.having g.members) (map group_of ks))
      kept_keys [] h = tt
      kept_keys (k ∷ ks) h = elim (Bool-cases (q.having (group_of k).members)) [
        | inl e ↦ rw e (group_of-IsGroup k h.0 e, kept_keys ks h.1)
        | inr e ↦ rw e (kept_keys ks h.1)
      ]

  pub group-IsGrouped : IsGrouped q table group
  unfolding group
  group-IsGrouped = record {
    cut = drop_within q.limit kept_groups;
    sound = rw (take_within-append q.limit kept_groups) kept_groups_sound;
    once = λ k. rw (take_within-append q.limit kept_groups) (kept_groups-once k);
    complete =
        λ k h keep. rw (take_within-append q.limit kept_groups) (kept_groups_complete k h keep);
    ordered = rw (take_within-append q.limit kept_groups) (
        unfold kept_groups in
        sort-IsSorted q.order (select_if (λ g. q.having g.members) (map group_of group_keys)));
    limited = rw (take_within-append q.limit kept_groups) (length-take_within q.limit kept_groups);
  }
