-- ===== src/Evidence/Soundness.antt =====
-- backend/app/agent.py: the citations that the scan finds.
use trace_pilot.Prelude.{
  ℕ, zero, suc, Text, ◌≡◌, refl, sym, ◌∙◌, ap, Bool, true, false, ◌&&◌, none, some, [], ◌∷◌, ◌++◌,
  All, length, take, drop, arith, ◌+◌, ap₂, ◌≡⟨◌⟩◌, ◌∎, some-injective, if◌then◌else◌, ◌==◌,
  list_eq, number_eq, take-append-drop, length-take, length-drop, list_beq_iff, and_left, and_right,
  Option-cases, inl, inr, All-mono, contains, codes,
}
use trace_pilot.Evidence.Citations.{
  all_id_chars, opening, match_here, scan, cited_event_ids, is_id_char,
}
use trace_pilot.Evidence.RoundTrip.{IsEventId}

-- The characters of an ID: hexadecimal digits and dashes.
abbrev pub IsHexOrDash : ℕ → Type 0
IsHexOrDash c = contains (codes "0123456789abcdefABCDEF-") c ≡ true

-- The text holds the citation of the ID, which is 36 hexadecimal digits or dashes.
pub record IsCitedIn (s id : Text) : Type 0 where
  pub before : Text
  pub after : Text
  pub chars : All IsHexOrDash id
  pub size : length id ≡ 36
  pub split : s ≡ before ++ (opening ++ (id ++ (b']' ∷ after)))

is_id_char-IsHexOrDash : (c : ℕ) → is_id_char c ≡ true → IsHexOrDash c
unfolding is_id_char contains
is_id_char-IsHexOrDash c h = ground arith

pub all_id_chars-IsHexOrDash : (id : Text) → all_id_chars id ≡ true → All IsHexOrDash id
unfolding all_id_chars
all_id_chars-IsHexOrDash [] h = tt
all_id_chars-IsHexOrDash (c ∷ cs) h = (
  is_id_char-IsHexOrDash c (and_left (is_id_char c) (all_id_chars cs) h),
  all_id_chars-IsHexOrDash cs (and_right (is_id_char c) (all_id_chars cs) h),
)

take-one : (s : Text) (c : ℕ) → take 1 s ≡ c ∷ [] → s ≡ c ∷ drop 1 s
take-one [] c h = cc
take-one (x ∷ s) c h = cc

drop-nil : (n : ℕ) → drop {A = ℕ} n [] ≡ []
drop-nil zero = refl
drop-nil (suc n) = refl

drop-drop : (m n k : ℕ) (s : Text) → n + m ≡ k → drop m (drop n s) ≡ drop k s
drop-drop m zero k s h = ap (λ t. drop t s) (omega arith)
drop-drop m (suc n) k [] h = drop-nil m ∙ sym (drop-nil k)
drop-drop m (suc n) zero (x ∷ s) h = absurd (omega arith)
drop-drop m (suc n) (suc k) (x ∷ s) h = drop-drop m n k s (omega arith)

if-some {ℓ} :
    {A : Type ℓ} (b : Bool) (x y : A) → (if b then some x else none) ≡ some y → (b ≡ true) × (x ≡ y)
if-some true x y h = (refl, some-injective x y h)
if-some false x y h = cc

module _ (s id : Text) (opens : take 7 s ≡ opening) (cited : take 36 (drop 7 s) ≡ id)
    (closes : take 1 (drop 43 s) ≡ b']' ∷ []) where
  cited_size : length id ≡ 36
  cited_size = omega (
    arith,
    ap length cited,
    length-take 36 (drop 7 s),
    length-drop 7 s,
    ap length closes,
    length-take 1 (drop 43 s),
    length-drop 43 s,
  )

  cited_split : s ≡ opening ++ (id ++ (b']' ∷ drop 1 (drop 43 s)))
  cited_split =
      s
      ≡⟨ sym (take-append-drop 7 s) ⟩ take 7 s ++ drop 7 s
      ≡⟨ ap (λ t. t ++ drop 7 s) opens ⟩ opening ++ drop 7 s
      ≡⟨ ap (λ t. opening ++ t) (sym (take-append-drop 36 (drop 7 s))) ⟩
        opening ++ (take 36 (drop 7 s) ++ drop 36 (drop 7 s))
      ≡⟨ ap₂ (λ t u. opening ++ (t ++ u)) cited (drop-drop 36 7 43 s refl) ⟩
        opening ++ (id ++ drop 43 s)
      ≡⟨ ap (λ t. opening ++ (id ++ t)) (take-one (drop 43 s) b']' closes) ⟩
        opening ++ (id ++ (b']' ∷ drop 1 (drop 43 s))) ∎

pub match_here-some :
    (s id : Text)
    → match_here s ≡ some id
    → (after : Text) × IsEventId id × (s ≡ opening ++ (id ++ (b']' ∷ after)))
unfolding match_here
match_here-some s id h =
    let cited = take 36 (drop 7 s) in
    let (tests, found) = if-some _ cited id h in
    let begun = and_left (take 7 s == opening && all_id_chars cited) _ tests in
    let closes = and_right (take 7 s == opening && all_id_chars cited) _ tests in
    let opens = and_left (take 7 s == opening) _ begun in
    let chars = and_right (take 7 s == opening) _ begun in
    let opened = (list_beq_iff (take 7 s) opening).0 opens in
    let closed = (list_beq_iff (take 1 (drop 43 s)) (b']' ∷ [])).0 closes in
    (
      drop 1 (drop 43 s),
      record { chars = rw found at chars; size = cited_size s id opened found closed },
      cited_split s id opened found closed,
    )

module _ {c : ℕ} {s id : Text} where
  IsCitedIn-cons : IsCitedIn s id → IsCitedIn (c ∷ s) id
  IsCitedIn-cons h = record {
    before = c ∷ h.before;
    after = h.after;
    chars = h.chars;
    size = h.size;
    split = ap (λ t. c ∷ t) h.split;
  }

scan-IsCitedIn : (skip : ℕ) (s : Text) → All (IsCitedIn s) (scan skip s)
unfolding scan
scan-IsCitedIn zero [] = tt
scan-IsCitedIn (suc skip) [] = tt
scan-IsCitedIn (suc skip) (c ∷ s) =
    All-mono (IsCitedIn s) (IsCitedIn (c ∷ s)) _ (λ id. IsCitedIn-cons) (scan-IsCitedIn skip s)
scan-IsCitedIn zero (c ∷ s) = elim (Option-cases (match_here (c ∷ s))) [
  | inl e ↦
      rw (e, scan)
        (All-mono (IsCitedIn s) (IsCitedIn (c ∷ s)) _ (λ id. IsCitedIn-cons) (scan-IsCitedIn 0 s))
  | inr (id, e) ↦
      let found = match_here-some (c ∷ s) id e in
      rw (e, scan)
        (
          record {
            before = [];
            after = found.0;
            chars = all_id_chars-IsHexOrDash id found.1.chars;
            size = found.1.size;
            split = found.2;
          },
          All-mono (IsCitedIn s) (IsCitedIn (c ∷ s)) _ (λ id. IsCitedIn-cons) (scan-IsCitedIn 43 s),
        )
]

-- Every ID that the check reads off a report is 36 hexadecimal digits or dashes, and stands in the
-- report as a citation.
pub cited_event_ids-IsCitedIn : (report : Text) → All (IsCitedIn report) (cited_event_ids report)
unfolding cited_event_ids
cited_event_ids-IsCitedIn report = scan-IsCitedIn 0 report
