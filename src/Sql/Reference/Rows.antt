-- ===== src/Sql/Reference/Rows.antt =====
-- LIMIT, and a SELECT without grouping: filter, sort, cut.
use trace_pilot.Prelude.{
  ℕ, ◌≡◌, refl, ◌∙◌, Option, none, some, List, [], ◌++◌, append-nil, length, take, drop, select_if,
  count_if-select_if, length-take, take-append-drop,
}
use trace_pilot.Sql.Statement.{Select, IsSelected, within}
use trace_pilot.Sql.Reference.Sorting.{sort, count_if-sort, sort-IsSorted}

abbrev pub take_within : {A : Type 0} → Option ℕ → List A → List A
take_within none xs = xs
take_within (some k) xs = take k xs

abbrev pub drop_within : {A : Type 0} → Option ℕ → List A → List A
drop_within none xs = []
drop_within (some k) xs = drop k xs

pub take_within-append :
    {A : Type 0} (l : Option ℕ) (xs : List A) → take_within l xs ++ drop_within l xs ≡ xs
take_within-append none xs = append-nil xs
take_within-append (some k) xs = take-append-drop k xs

pub length-take_within :
    {A : Type 0} (l : Option ℕ) (xs : List A) → length (take_within l xs) ≡ within l (length xs)
length-take_within none xs = refl
length-take_within (some k) xs = length-take k xs

module _ {A : Type 0} (q : Select A) (table : List A) where
  sorted_rows : List A
  unfolding select_if sort
  sorted_rows = sort q.order (select_if q.where_holds table)

  unfoldable pub select : List A
  unfolding sorted_rows
  select = take_within q.limit sorted_rows

  pub select-IsSelected : IsSelected q table select
  unfolding select
  select-IsSelected = record {
    cut = drop_within q.limit sorted_rows;
    same = λ p. rw (take_within-append q.limit sorted_rows) (
        unfold sorted_rows in
        count_if-sort q.order p (select_if q.where_holds table)
        ∙ count_if-select_if p q.where_holds table);
    ordered =
        rw (take_within-append q.limit sorted_rows)
          (unfold sorted_rows in sort-IsSorted q.order (select_if q.where_holds table));
    limited = rw (take_within-append q.limit sorted_rows) (length-take_within q.limit sorted_rows);
  }
