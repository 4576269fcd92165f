-- ===== src/Sql/Statement.antt =====
-- Statements, and what it means that an engine answers them.
use trace_pilot.Prelude.{
  ℕ, ◌≤◌, ◌<◌, min, ◌≡◌, Bool, true, ◌&&◌, Option, none, some, List, [], ◌∷◌, ◌++◌, All, length,
  leb, count_if, HasEq, ◌==◌, contains,
}

-- ORDER BY a number, or no ORDER BY.
pub data Order (A : Type 0) : Type 0 where
  unordered : Order A
  ascending descending : (A → ℕ) → Order A

-- The first may stand before the second.
abbrev pub before : {A : Type 0} → Order A → A → A → Bool
before unordered a b = true
before (ascending key) a b = leb (key a) (key b)
before (descending key) a b = leb (key b) (key a)

abbrev pub IsSorted : {A : Type 0} → Order A → List A → Type 0
IsSorted o [] = Unit
IsSorted o (a ∷ rest) = All (λ b. before o a b ≡ true) rest × IsSorted o rest

-- LIMIT
abbrev pub within : Option ℕ → ℕ → ℕ
within none n = n
within (some k) n = min k n

pub record Select (A : Type 0) : Type 0 where
  pub where_holds : A → Bool
  pub order : Order A
  pub limit : Option ℕ

-- The rows that agree on the GROUP BY key.
pub record Group (A K : Type 0) : Type 0 where
  pub key : K
  pub members : List A

pub record Grouping (A K : Type 0) : Type 0 where
  pub where_holds : A → Bool
  pub key : A → K
  pub having : List A → Bool
  pub order : Order (Group A K)
  pub limit : Option ℕ

pub record Engine : Type 1 where
  pub select : {A : Type 0} → Select A → List A → List A
  pub group : {A K : Type 0} ⦃e : HasEq K⦄ → Grouping A K → List A → List (Group A K)
  -- SELECT DISTINCT key WHERE …
  pub distinct : {A K : Type 0} ⦃e : HasEq K⦄ → (A → Bool) → (A → K) → List A → List K

-- The answer to a SELECT: with the rows that LIMIT cut off at the end, it is the rows that meet
-- the condition, each as often as the table has it, sorted.
pub record IsSelected {A : Type 0} (q : Select A) (table rows : List A) : Type 0 where
  pub cut : List A
  pub same :
      (p : A → Bool) → count_if p (rows ++ cut) ≡ count_if (λ a. q.where_holds a && p a) table
  pub ordered : IsSorted q.order (rows ++ cut)
  pub limited : length rows ≡ within q.limit (length (rows ++ cut))

module _ {A K : Type 0} ⦃e : HasEq K⦄ (q : Grouping A K) (table : List A) where
  -- `members` are the rows of the table that meet the condition and have the key.
  abbrev pub HasMembers : K → List A → Type 0
  HasMembers k members =
      (p : A → Bool)
      → count_if p members ≡ count_if (λ a. (q.where_holds a && q.key a == k) && p a) table

  pub record IsGroup (g : Group A K) : Type 0 where
    pub nonempty : 0 < length g.members
    pub members : HasMembers g.key g.members
    pub having : q.having g.members ≡ true

  -- The answer to a SELECT with GROUP BY: one group for each key that has rows, if HAVING holds.
  pub record IsGrouped (groups : List (Group A K)) : Type 0 where
    pub cut : List (Group A K)
    pub sound : All IsGroup (groups ++ cut)
    pub once : (k : K) → count_if (λ g. g.key == k) (groups ++ cut) ≤ 1
    pub complete :
        (k : K)
        → 0 < count_if (λ a. q.where_holds a && q.key a == k) table
        → ((members : List A) → HasMembers k members → q.having members ≡ true)
        → count_if (λ g. g.key == k) (groups ++ cut) ≡ 1
    pub ordered : IsSorted q.order (groups ++ cut)
    pub limited : length groups ≡ within q.limit (length (groups ++ cut))

pub record IsEngine (E : Engine) : Type 1 where
  pub select_lem :
      {A : Type 0} (q : Select A) (table : List A) → IsSelected q table (E.select q table)
  pub group_lem :
      {A K : Type 0} ⦃e : HasEq K⦄ (q : Grouping A K) (table : List A)
      → IsGrouped q table (E.group q table)
  pub distinct_lem :
      {A K : Type 0} ⦃e : HasEq K⦄ (where_holds : A → Bool) (key : A → K) (table : List A) (k : K)
      → contains (E.distinct where_holds key table) k
        ≡ leb 1 (count_if (λ a. where_holds a && key a == k) table)
