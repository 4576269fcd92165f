-- ===== src/Evidence/Completeness.antt =====
-- backend/app/agent.py: the citations of a report, and the IDs that the scan reads.
use trace_pilot.Prelude.{
  ℕ, zero, suc, Text, ◌≡◌, ◌≢◌, refl, sym, ◌∙◌, ap, subst, true, some, [], ◌∷◌, ◌++◌, All, length,
  arith, ◌≤◌, contains, list_eq, number_eq, list_beq_iff, codes, All-append, append_assoc, ◌↔◌, inl,
  inr, Option-cases, contains-All, length-append,
}
use trace_pilot.Evidence.Citations.{
  all_id_chars, opening, match_here, scan, cited_event_ids, is_id_char,
}
use trace_pilot.Evidence.RoundTrip.{match_here-citation}
use trace_pilot.Evidence.Soundness.{
  IsCitedIn, IsHexOrDash, match_here-some, cited_event_ids-IsCitedIn, all_id_chars-IsHexOrDash,
}

IsHexOrDash-is_id_char : (c : ℕ) → IsHexOrDash c → is_id_char c ≡ true
unfolding is_id_char contains
IsHexOrDash-is_id_char c h = ground arith

IsHexOrDash-all_id_chars : (id : Text) → All IsHexOrDash id → all_id_chars id ≡ true
unfolding all_id_chars
IsHexOrDash-all_id_chars [] h = refl
IsHexOrDash-all_id_chars (c ∷ cs) h =
    rw (IsHexOrDash-is_id_char c h.0) (IsHexOrDash-all_id_chars cs h.1)

-- A character other than an opening bracket.
abbrev IsInner : ℕ → Type 0
IsInner c = c ≢ b'['

-- No character of an ID opens a citation.
IsHexOrDash-IsInner : (c : ℕ) → IsHexOrDash c → IsInner c
unfolding contains
IsHexOrDash-IsInner c h e = ground arith

id_part : (id : Text) → All IsHexOrDash id → All IsInner id
id_part [] h = tt
id_part (c ∷ cs) h = (IsHexOrDash-IsInner c h.0, id_part cs h.1)

event_part : All IsInner (codes "event:")
event_part = (
  λ h. omega arith,
  (
    λ h. omega arith,
    (λ h. omega arith, (λ h. omega arith, (λ h. omega arith, (λ h. omega arith, tt)))),
  ),
)

bracket_part : All IsInner (b']' ∷ [])
bracket_part = (λ h. omega arith, tt)

-- A bracket behind a part without any stands behind all of the part.
behind :
    (part rest bs after : Text)
    → All IsInner part
    → part ++ rest ≡ bs ++ (b'[' ∷ after)
    → length part ≤ length bs
behind [] rest bs after h e = omega arith
behind (c ∷ part) rest [] after h e = absurd (h.0 cc)
behind (c ∷ part) rest (b ∷ bs) after h e =
    let tail : part ++ rest ≡ bs ++ (b'[' ∷ after) = cc in
    omega (arith, behind part rest bs after h.1 tail)

-- A match at the start of a text holds no opening bracket but its first character.
match_far :
    (c : ℕ) (s id before after : Text)
    → match_here (c ∷ s) ≡ some id
    → s ≡ before ++ (b'[' ∷ after)
    → 43 ≤ length before
match_far c s id before after e h =
    let (behind_it, event_id, split) = match_here-some (c ∷ s) id e in
    let part = codes "event:" ++ (id ++ (b']' ∷ [])) in
    let part_inner : All IsInner part =
      All-append IsInner (codes "event:") (id ++ (b']' ∷ [])) event_part (
        All-append IsInner id (b']' ∷ []) (id_part id (all_id_chars-IsHexOrDash id event_id.chars))
          bracket_part) in
    let tail : s ≡ codes "event:" ++ (id ++ (b']' ∷ behind_it)) = cc in
    let same : part ++ behind_it ≡ s =
      ap (λ t. codes "event:" ++ t) (append_assoc id (b']' ∷ []) behind_it) ∙ sym tail in
    let size = event_id.size in
    omega (
      arith,
      behind part behind_it before after part_inner (same ∙ h),
      length-append id (b']' ∷ []),
    )

module _ (id after : Text) (chars : All IsHexOrDash id) (size : length id ≡ 36) where
  citation_scanned :
      (skip : ℕ) (before : Text)
      → skip ≤ length before
      → contains (scan skip (before ++ (opening ++ (id ++ (b']' ∷ after))))) id ≡ true
  unfolding scan contains
  citation_scanned zero [] h =
      rw
        (
          match_here-citation id after
              (record { chars = IsHexOrDash-all_id_chars id chars; size = size }),
          scan,
          (list_beq_iff id id).1 refl,
        )
        refl
  citation_scanned (suc skip) [] h = absurd (omega arith)
  citation_scanned (suc skip) (c ∷ before) h = citation_scanned skip before (omega arith)
  citation_scanned zero (c ∷ before) h =
      let s = before ++ (opening ++ (id ++ (b']' ∷ after))) in
      elim (Option-cases (match_here (c ∷ s))) [
        | inl e ↦ rw (e, scan) (citation_scanned 0 before (omega arith))
        | inr (other, e) ↦
            let far =
              match_far c s other before (codes "event:" ++ (id ++ (b']' ∷ after))) e refl in
            rw (e, scan) (ground (arith, citation_scanned 43 before far))
      ]

-- The IDs that the check reads off a report are exactly those that stand in it as a citation,
-- `[event:ID]` with 36 hexadecimal digits or dashes: no citation escapes the check.
pub cited_event_ids-cited :
    (report id : Text) → (contains (cited_event_ids report) id ≡ true) ↔ IsCitedIn report id
unfolding cited_event_ids
cited_event_ids-cited report id = (
  contains-All (IsCitedIn report) (cited_event_ids report) id (cited_event_ids-IsCitedIn report),
  λ h.
      subst (λ t. contains (scan 0 t) id ≡ true) (sym h.split)
        (citation_scanned id h.after h.chars h.size 0 h.before (omega arith)),
)
