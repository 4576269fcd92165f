-- ===== src/Prelude/Decimal.antt =====
-- `str` of a natural number, and the order and sorting of Python strings.
use Prim.Native.Nat.{ℕ, zero, suc, ◌+◌, ◌/◌, ◌%◌}
use mathlib.Core.Bool.{Bool, true, false, ◌&&◌, ◌||◌}
use mathlib.Core.List.{List, [], ◌∷◌, ◌++◌}
use trace_pilot.Prelude.Tests.{ltb, eqb, if◌then◌else◌}
use trace_pilot.Prelude.Equality.{Text}

-- The digits of a number, with fuel: `n + 1` steps are enough for `n`.
unfoldable pub digits_of : ℕ → ℕ → Text
digits_of zero n = []
digits_of (suc fuel) n =
    let higher = digits_of fuel (n / 10) in
    if ltb n 10 then (b'0' + n) ∷ [] else higher ++ ((b'0' + n % 10) ∷ [])

unfoldable pub decimal : ℕ → Text
unfolding digits_of
decimal n = digits_of (suc n) n

-- `a <= b` of two strings
unfoldable pub text_leb : Text → Text → Bool
text_leb [] b = true
text_leb (x ∷ a) [] = false
text_leb (x ∷ a) (y ∷ b) = ltb x y || (eqb x y && text_leb a b)

unfoldable pub insert_text : Text → List Text → List Text
unfolding text_leb
insert_text a [] = a ∷ []
insert_text a (b ∷ bs) =
    let rest = insert_text a bs in if text_leb a b then a ∷ b ∷ bs else b ∷ rest

-- `sorted` of strings
unfoldable pub sorted_texts : List Text → List Text
unfolding insert_text
sorted_texts [] = []
sorted_texts (a ∷ bs) = insert_text a (sorted_texts bs)
