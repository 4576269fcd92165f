-- ===== src/Evidence/RoundTrip.antt =====
-- backend/app/agent.py: the citation format of the system prompt, and the scan.
use trace_pilot.Prelude.{
  ℕ, zero, suc, Text, ◌≡◌, refl, ◌∙◌, ap, true, false, none, some, List, [], ◌∷◌, ◌++◌, All, length,
  eqb, arith, take-append_length, drop-append_length, list_beq,
}
use trace_pilot.Evidence.Citations.{all_id_chars, opening, match_here, scan, cited_event_ids}

-- 36 hexadecimal digits or dashes: the text of a UUID.
pub record IsEventId (id : Text) : Type 0 where
  pub chars : all_id_chars id ≡ true
  pub size : length id ≡ 36

-- `[event:{event_id}]`
abbrev pub citation : Text → Text
citation id = opening ++ (id ++ (b']' ∷ []))

-- Text with no opening bracket.
abbrev pub IsProse : Text → Type 0
IsProse = All (λ c. eqb c b'[' ≡ false)

pub data Segment : Type 0 where
  prose : Text → Segment
  cites : Text → Segment

abbrev pub render : List Segment → Text
render [] = []
render (prose t ∷ segments) = t ++ render segments
render (cites id ∷ segments) = opening ++ (id ++ (b']' ∷ render segments))

abbrev pub cited_in : List Segment → List Text
cited_in [] = []
cited_in (prose t ∷ segments) = cited_in segments
cited_in (cites id ∷ segments) = id ∷ cited_in segments

abbrev pub IsSegment : Segment → Type 0
IsSegment (prose t) = IsProse t
IsSegment (cites id) = IsEventId id

scan-append_skip :
    (n : ℕ) (xs : Text) (c : ℕ) (s : Text) → length xs ≡ n → scan (suc n) (xs ++ c ∷ s) ≡ scan 0 s
unfolding scan
scan-append_skip zero [] c s h = refl
scan-append_skip zero (x ∷ xs) c s h = absurd (omega arith)
scan-append_skip (suc n) [] c s h = absurd (omega arith)
scan-append_skip (suc n) (x ∷ xs) c s h = scan-append_skip n xs c s (omega arith)

match_here-other : (c : ℕ) (s : Text) → eqb c b'[' ≡ false → match_here (c ∷ s) ≡ none
unfolding match_here list_beq
match_here-other c s h = rw h

pub scan-append_prose : (t s : Text) → IsProse t → scan 0 (t ++ s) ≡ scan 0 s
unfolding scan
scan-append_prose [] s h = refl
scan-append_prose (c ∷ t) s h =
    rw (match_here-other c (t ++ s) h.0, scan) (scan-append_prose t s h.1)

pub match_here-citation :
    (id s : Text) → IsEventId id → match_here (opening ++ (id ++ (b']' ∷ s))) ≡ some id
unfolding match_here list_beq
match_here-citation id s h = rw (
  take-append_length 36 id (b']' ∷ s) h.size,
  drop-append_length 36 id (b']' ∷ s) h.size,
  h.chars,
)

pub scan-citation :
    (id s : Text) → IsEventId id → scan 0 (opening ++ (id ++ (b']' ∷ s))) ≡ id ∷ scan 0 s
unfolding scan
scan-citation id s h =
    rw (match_here-citation id s h, scan) (ap (λ l. id ∷ l) (scan-append_skip 36 id b']' s h.size))

scan-render :
    (segments : List Segment)
    → All IsSegment segments
    → scan 0 (render segments) ≡ cited_in segments
unfolding scan
scan-render [] h = refl
scan-render (prose t ∷ segments) h =
    scan-append_prose t (render segments) h.0 ∙ scan-render segments h.1
scan-render (cites id ∷ segments) h =
    scan-citation id (render segments) h.0 ∙ ap (λ l. id ∷ l) (scan-render segments h.1)

-- In a report that is made of text without opening brackets and of citations `[event:UUID]`, the
-- check reads exactly the cited IDs, in order and with repetitions.
pub cited_event_ids-render :
    (segments : List Segment)
    → All IsSegment segments
    → cited_event_ids (render segments) ≡ cited_in segments
unfolding cited_event_ids
cited_event_ids-render segments h = scan-render segments h
