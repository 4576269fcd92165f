-- ===== src/Prelude/Equality.antt =====
-- Python's `==` and `in` as an interface, with numbers, strings, lists and pairs as instances.
use Prim.Native.Nat.{ℕ}
use Prim.Native.Char.{code}
use Prim.Native.String.{String}
use mathlib.Core.Path.{◌≡◌, refl}
use mathlib.Core.Logic.{◌↔◌}
use mathlib.Core.Bool.{Bool, true, false, ◌&&◌, ◌||◌}
use mathlib.Core.List.{List, [], ◌∷◌, ◌++◌}
use native.Mathlib.Omega.{arith}
use text.Mathlib.Text.{◌==◌ as str_eq}
use text.Mathlib.TextEquality.{eq_iff}
use mathlib.Core.Path.{subst, sym}
use mathlib.Core.Logic.{inl, inr}
use trace_pilot.Prelude.Lists.{All}
use trace_pilot.Prelude.Tests.{Bool-cases, eqb, eqb_iff}

pub record HasEq {ℓ} (Item : Type ℓ) : Type ℓ where
  pub equals : Item → Item → Bool
  pub equals_iff : (x y : Item) → (equals x y ≡ true) ↔ (x ≡ y)

infix 50 ◌==◌
abbrev pub ◌==◌ {ℓ} : {A : Type ℓ} ⦃e : HasEq A⦄ → A → A → Bool
◌==◌ ⦃e⦄ = e.equals

instance abbrev pub number_eq : HasEq ℕ
number_eq = record { equals = eqb; equals_iff = eqb_iff }

instance abbrev pub key_eq : HasEq String
key_eq = record { equals = str_eq; equals_iff = eq_iff }

module _ {ℓ} {A : Type ℓ} ⦃e : HasEq A⦄ where
  unfoldable pub list_beq : List A → List A → Bool
  list_beq [] [] = true
  list_beq (x ∷ xs) (y ∷ ys) = x == y && list_beq xs ys
  list_beq _ _ = false

  pub list_beq_iff : (xs ys : List A) → (list_beq xs ys ≡ true) ↔ (xs ≡ ys)
  unfolding list_beq
  list_beq_iff [] [] = ground arith
  list_beq_iff (x ∷ xs) (y ∷ ys) = ground (arith, e.equals_iff x y, list_beq_iff xs ys)
  list_beq_iff [] (y ∷ ys) = ground arith
  list_beq_iff (x ∷ xs) [] = ground arith

  instance abbrev pub list_eq : HasEq (List A)
  list_eq = record { equals = list_beq; equals_iff = list_beq_iff }

  -- `a in xs`
  unfoldable pub contains : List A → A → Bool
  contains [] a = false
  contains (x ∷ xs) a = a == x || contains xs a

  pub contains-append :
      (xs ys : List A) (a : A) → contains (xs ++ ys) a ≡ (contains xs a || contains ys a)
  unfolding contains
  contains-append [] ys a = refl
  contains-append (x ∷ xs) ys a = ground (arith, contains-append xs ys a)

  -- No element stands in the list twice.
  abbrev pub IsDistinct : List A → Type 0
  IsDistinct [] = Unit
  IsDistinct (x ∷ xs) = (contains xs x ≡ false) × IsDistinct xs

  pub IsDistinct-append :
      (xs : List A) (a : A)
      → IsDistinct xs
      → All (λ x. (x == a) ≡ false) xs
      → IsDistinct (xs ++ (a ∷ []))
  unfolding contains
  IsDistinct-append [] a h k = (refl, tt)
  IsDistinct-append (x ∷ xs) a h k =
      (rw (contains-append xs (a ∷ []) x, h.0, k.0) refl, IsDistinct-append xs a h.1 k.1)

  pub contains-All {κ} :
      (P : A → Type κ) (xs : List A) (a : A) → All P xs → contains xs a ≡ true → P a
  unfolding contains
  contains-All P [] a h c = cc
  contains-All P (x ∷ xs) a h c = elim (Bool-cases (a == x)) [
    | inl same ↦ subst P (sym ((e.equals_iff a x).0 same)) h.0
    | inr other ↦ contains-All P xs a h.1 (ground arith)
  ]

  pub beq_refl : (a : A) → (a == a) ≡ true
  beq_refl a = (e.equals_iff a a).1 refl

module _ {ℓ κ} {A : Type ℓ} {B : Type κ} ⦃a : HasEq A⦄ ⦃b : HasEq B⦄ where
  unfoldable pub pair_beq : A × B → A × B → Bool
  pair_beq (x, y) (x', y') = x == x' && y == y'

  pub pair_beq_iff : (p q : A × B) → (pair_beq p q ≡ true) ↔ (p ≡ q)
  unfolding pair_beq
  pair_beq_iff (x, y) (x', y') = ground (arith, a.equals_iff x x', b.equals_iff y y')

  instance abbrev pub pair_eq : HasEq (A × B)
  pair_eq = record { equals = pair_beq; equals_iff = pair_beq_iff }

-- A Python `str` whose characters the program looks at: its code points.
abbrev pub Text : Type 0
Text = List ℕ

abbrev pub codes : String → Text
codes String.[] = []
codes (String.◌∷◌ c s) = code c ∷ codes s
