-- ===== src/Prelude/Lists.antt =====
-- Lists measured by native numbers, Boolean filters, and predicates on all elements.
use Prim.Native.Nat.{ℕ, zero, suc, ◌+◌, ◌-◌, ◌≤◌, min, ◌<◌}
use mathlib.Core.Path.{◌≡◌, refl, ap}
use mathlib.Core.Bool.{Bool, true, ◌&&◌, false}
use mathlib.Core.Logic.{inl, inr}
use mathlib.Core.List.{reverse, reverse-cons, List, [], ◌∷◌, ◌++◌, map}
use native.Mathlib.Omega.{arith}
use trace_pilot.Prelude.Tests.{Bool-cases, if◌then◌else◌}

module _ {ℓ} {A : Type ℓ} where
  abbrev pub length : List A → ℕ
  length [] = 0
  length (x ∷ xs) = suc (length xs)

  abbrev pub take : ℕ → List A → List A
  take zero xs = []
  take (suc n) [] = []
  take (suc n) (x ∷ xs) = x ∷ take n xs

  abbrev pub drop : ℕ → List A → List A
  drop zero xs = xs
  drop (suc n) [] = []
  drop (suc n) (x ∷ xs) = drop n xs

  pub length-append : (xs ys : List A) → length (xs ++ ys) ≡ length xs + length ys
  length-append [] ys = omega arith
  length-append (x ∷ xs) ys = omega (arith, length-append xs ys)

  pub take-append-drop : (n : ℕ) (xs : List A) → take n xs ++ drop n xs ≡ xs
  take-append-drop zero xs = refl
  take-append-drop (suc n) [] = refl
  take-append-drop (suc n) (x ∷ xs) = ap (λ l. x ∷ l) (take-append-drop n xs)

  pub length-take : (n : ℕ) (xs : List A) → length (take n xs) ≡ min n (length xs)
  length-take zero xs = omega arith
  length-take (suc n) [] = omega arith
  length-take (suc n) (x ∷ xs) = omega (arith, length-take n xs)

  pub take-append_length : (n : ℕ) (xs ys : List A) → length xs ≡ n → take n (xs ++ ys) ≡ xs
  take-append_length zero [] ys h = refl
  take-append_length zero (x ∷ xs) ys h = absurd (omega arith)
  take-append_length (suc n) [] ys h = absurd (omega arith)
  take-append_length (suc n) (x ∷ xs) ys h =
      ap (λ l. x ∷ l) (take-append_length n xs ys (omega arith))

  pub drop-append_length : (n : ℕ) (xs ys : List A) → length xs ≡ n → drop n (xs ++ ys) ≡ ys
  drop-append_length zero [] ys h = refl
  drop-append_length zero (x ∷ xs) ys h = absurd (omega arith)
  drop-append_length (suc n) [] ys h = absurd (omega arith)
  drop-append_length (suc n) (x ∷ xs) ys h = drop-append_length n xs ys (omega arith)

  pub length-drop : (n : ℕ) (xs : List A) → length (drop n xs) ≡ length xs - n
  length-drop zero xs = omega arith
  length-drop (suc n) [] = omega arith
  length-drop (suc n) (x ∷ xs) = omega (arith, length-drop n xs)

  -- The elements that pass a test, in order.
  unfoldable pub select_if : (A → Bool) → List A → List A
  select_if p [] = []
  select_if p (x ∷ xs) = let rest = select_if p xs in if p x then x ∷ rest else rest

  -- How many elements pass a test.
  unfoldable pub count_if : (A → Bool) → List A → ℕ
  count_if p [] = 0
  count_if p (x ∷ xs) = (if p x then 1 else 0) + count_if p xs

  pub count_if-append :
      (p : A → Bool) (xs ys : List A) → count_if p (xs ++ ys) ≡ count_if p xs + count_if p ys
  unfolding count_if
  count_if-append p [] ys = omega arith
  count_if-append p (x ∷ xs) ys = omega (arith, count_if-append p xs ys)

  pub count_if-select_if :
      (p q : A → Bool) (xs : List A) → count_if p (select_if q xs) ≡ count_if (λ x. q x && p x) xs
  unfolding count_if select_if
  count_if-select_if p q [] = refl
  count_if-select_if p q (x ∷ xs) = ground (arith, count_if-select_if p q xs)

  pub count_if-true : (xs : List A) → count_if (λ x. true) xs ≡ length xs
  unfolding count_if
  count_if-true [] = refl
  count_if-true (x ∷ xs) = omega (arith, count_if-true xs)

  pub count_if_mono :
      (p q : A → Bool) (xs : List A)
      → ((x : A) → p x ≡ true → q x ≡ true)
      → count_if p xs ≤ count_if q xs
  unfolding count_if
  count_if_mono p q [] h = omega arith
  count_if_mono p q (x ∷ xs) h = ground (arith, h x, count_if_mono p q xs h)

  pub count_if_ext :
      (p q : A → Bool) (xs : List A) → ((x : A) → p x ≡ q x) → count_if p xs ≡ count_if q xs
  unfolding count_if
  count_if_ext p q [] h = refl
  count_if_ext p q (x ∷ xs) h = ground (arith, h x, count_if_ext p q xs h)

  -- Two lists hold the same elements, as often: one cannot be told from the other by a count.
  abbrev pub SameElements : List A → List A → Type ℓ
  SameElements xs ys = (p : A → Bool) → count_if p xs ≡ count_if p ys

  abbrev pub All {κ} : (A → Type κ) → List A → Type κ
  All P [] = Unit
  All P (x ∷ xs) = P x × All P xs

  pub All-append {κ} : (P : A → Type κ) (xs ys : List A) → All P xs → All P ys → All P (xs ++ ys)
  All-append P [] ys h k = k
  All-append P (x ∷ xs) ys h k = (h.0, All-append P xs ys h.1 k)

  pub All-left {κ} : (P : A → Type κ) (xs ys : List A) → All P (xs ++ ys) → All P xs
  All-left P [] ys h = tt
  All-left P (x ∷ xs) ys h = (h.0, All-left P xs ys h.1)

  pub All-right {κ} : (P : A → Type κ) (xs ys : List A) → All P (xs ++ ys) → All P ys
  All-right P [] ys h = h
  All-right P (x ∷ xs) ys h = All-right P xs ys h.1

  pub All-mono {κ μ} :
      (P : A → Type κ) (Q : A → Type μ) (xs : List A) → ((x : A) → P x → Q x) → All P xs → All Q xs
  All-mono P Q [] f h = tt
  All-mono P Q (x ∷ xs) f h = (f x h.0, All-mono P Q xs f h.1)

  pub All-select_if {κ} :
      (P : A → Type κ) (p : A → Bool) (xs : List A) → All P xs → All P (select_if p xs)
  unfolding select_if
  All-select_if P p [] h = tt
  All-select_if P p (x ∷ xs) h = elim (Bool-cases (p x)) [
    | inl e ↦ rw e (h.0, All-select_if P p xs h.1)
    | inr e ↦ rw e (All-select_if P p xs h.1)
  ]

  pub count_if-reverse : (p : A → Bool) (xs : List A) → count_if p (reverse xs) ≡ count_if p xs
  unfolding count_if
  count_if-reverse p [] = refl
  count_if-reverse p (x ∷ xs) = omega (
    arith,
    ap (count_if p) (reverse-cons x xs),
    count_if-append p (reverse xs) (x ∷ []),
    count_if-reverse p xs,
  )

-- `range(i, i + n)`
unfoldable pub range : ℕ → ℕ → List ℕ
range i zero = []
range i (suc n) = i ∷ range (suc i) n

pub length-range : (i n : ℕ) → length (range i n) ≡ n
unfolding range
length-range i zero = refl
length-range i (suc n) = ap suc (length-range (suc i) n)

pub All-range {κ} : (P : ℕ → Type κ) (i n : ℕ) → ((k : ℕ) → k < i + n → P k) → All P (range i n)
unfolding range
All-range P i zero h = tt
All-range P i (suc n) h = (h i (omega arith), All-range P (suc i) n (λ k l. h k (omega arith)))

module _ {ℓ κ} {A : Type ℓ} {B : Type κ} where
  pub length-map : (f : A → B) (xs : List A) → length (map f xs) ≡ length xs
  length-map f [] = refl
  length-map f (x ∷ xs) = ap suc (length-map f xs)

  pub count_if-map :
      (p : B → Bool) (f : A → B) (xs : List A) → count_if p (map f xs) ≡ count_if (λ x. p (f x)) xs
  unfolding count_if
  count_if-map p f [] = refl
  count_if-map p f (x ∷ xs) = omega (arith, count_if-map p f xs)

  pub All-map {μ} :
      (P : B → Type μ) (f : A → B) (xs : List A) → All (λ x. P (f x)) xs → All P (map f xs)
  All-map P f [] h = tt
  All-map P f (x ∷ xs) h = (h.0, All-map P f xs h.1)

module _ {ℓ} {A : Type ℓ} where
  pub count_if-All :
      (p : A → Bool) (xs : List A) → All (λ x. p x ≡ true) xs → count_if p xs ≡ length xs
  unfolding count_if
  count_if-All p [] h = refl
  count_if-All p (x ∷ xs) h = rw h.0 (omega (arith, count_if-All p xs h.1))

  pub count_if_none : (p : A → Bool) (xs : List A) → All (λ x. p x ≡ false) xs → count_if p xs ≡ 0
  unfolding count_if
  count_if_none p [] h = refl
  count_if_none p (x ∷ xs) h = rw h.0 (omega (arith, count_if_none p xs h.1))

  pub count_if_cong :
      (p q : A → Bool) (xs : List A) → All (λ x. p x ≡ q x) xs → count_if p xs ≡ count_if q xs
  unfolding count_if
  count_if_cong p q [] h = refl
  count_if_cong p q (x ∷ xs) h = rw h.0 (omega (arith, count_if_cong p q xs h.1))
