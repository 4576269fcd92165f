-- ===== src/Collector/Parser/Bytes.antt =====
-- collector/event_parser.py: numbers as bytes in either order.
use mathlib.Core.List.{reverse, reverse-reverse, reverse-cons}
use native.Mathlib.Nat.{pow-succ'}
use trace_pilot.Prelude.{
  zero, suc, ℕ, ◌≡◌, refl, [], ◌∷◌, List, length, ◌<◌, ◌^◌, suc, All, ap, arith, ◌+◌, ◌/◌, ◌*◌, ◌%◌,
  ap₂, ◌∙◌, sym, subst, count_if-true, All-append, count_if-reverse, true,
}
use trace_pilot.Collector.Layout.{to_bytes, to_little, from_little, ByteOrder, from_memory, ntohs}
use trace_pilot.Collector.Layout.{little, big}

length-reverse : (xs : List ℕ) → length (reverse xs) ≡ length xs
length-reverse xs =
    sym (count_if-true (reverse xs)) ∙ count_if-reverse (λ x. true) xs ∙ count_if-true xs

All-reverse : (P : ℕ → Type 0) (xs : List ℕ) → All P xs → All P (reverse xs)
All-reverse P [] h = tt
All-reverse P (x ∷ xs) h =
    subst (All P) (sym (reverse-cons x xs))
      (All-append P (reverse xs) (x ∷ []) (All-reverse P xs h.1) (h.0, tt))

length-to_little : (k n : ℕ) → length (to_little k n) ≡ k
unfolding to_little
length-to_little zero n = refl
length-to_little (suc k) n = ap suc (length-to_little k (n / 256))

pub length-to_bytes : (order : ByteOrder) (k n : ℕ) → length (to_bytes order k n) ≡ k
unfolding to_bytes
length-to_bytes little k n = length-to_little k n
length-to_bytes big k n = length-reverse (to_little k n) ∙ length-to_little k n

from_little-to_little : (k n : ℕ) → n < 256 ^ k → from_little (to_little k n) ≡ n
unfolding from_little to_little
from_little-to_little zero n h = omega arith
from_little-to_little (suc k) n h =
    let power = pow-succ' 256 k in
    omega (arith, power, h, from_little-to_little k (n / 256) (omega (arith, power, h)))

pub from_memory-to_bytes :
    (order : ByteOrder) (k n : ℕ) → n < 256 ^ k → from_memory order (to_bytes order k n) ≡ n
unfolding from_memory to_bytes
from_memory-to_bytes little k n h = from_little-to_little k n h
from_memory-to_bytes big k n h =
    ap from_little (reverse-reverse (to_little k n)) ∙ from_little-to_little k n h

to_little-from_little :
    (bs : List ℕ) → All (λ b. b < 256) bs → to_little (length bs) (from_little bs) ≡ bs
unfolding from_little to_little
to_little-from_little [] h = refl
to_little-from_little (b ∷ bs) h =
    let small : b < 256 = h.0 in
    let low : (b + 256 * from_little bs) % 256 ≡ b = omega arith in
    let high : (b + 256 * from_little bs) / 256 ≡ from_little bs = omega arith in
    ap₂ (λ x xs. x ∷ xs) low (ap (to_little (length bs)) high ∙ to_little-from_little bs h.1)

pub to_bytes-from_memory :
    (order : ByteOrder) (k : ℕ) (bs : List ℕ)
    → length bs ≡ k
    → All (λ b. b < 256) bs
    → to_bytes order k (from_memory order bs) ≡ bs
unfolding from_memory to_bytes
to_bytes-from_memory little k bs e h =
    subst (λ n. to_little n (from_little bs) ≡ bs) e (to_little-from_little bs h)
to_bytes-from_memory big k bs e h =
    ap reverse (
      subst (λ n. to_little n (from_little (reverse bs)) ≡ reverse bs) (length-reverse bs ∙ e)
        (to_little-from_little (reverse bs) (All-reverse _ bs h)))
    ∙ reverse-reverse bs

pub ntohs-from_memory :
    (order : ByteOrder) (high low : ℕ)
    → high < 256
    → low < 256
    → ntohs order (from_memory order (high ∷ low ∷ [])) ≡ 256 * high + low
unfolding ntohs from_memory from_little
ntohs-from_memory little high low h k = omega arith
ntohs-from_memory big high low h k = omega arith
