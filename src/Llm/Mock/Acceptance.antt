-- ===== src/Llm/Mock/Acceptance.antt =====
-- backend/app/llm/mock_provider.py: the report of the demo mode under the evidence check.
use trace_pilot.Evidence.RoundTrip.{IsEventId, IsProse, scan-append_prose, scan-citation}
use trace_pilot.Prelude.{
  ◌≢◌, ◌⊎◌, list_eq, number_eq, ◌&&◌, ◌++◌, [], ◌∷◌, List, ℕ, zero, suc, ◌+◌, ◌/◌, ◌%◌, Text, ◌≡◌,
  refl, Bool, true, false, contains, All, arith, take, eqb, not, inl, inr, beq_refl,
  contains-append, Bool-cases, ap, subst, ltb, append_assoc, append-nil, ◌∙◌, All-append, sym,
  All-left, drop, take-append-drop, contains-All,
}
use trace_pilot.Llm.Base.{ToolResult}
use trace_pilot.Llm.Mock.{
  collected_ids, extract_event_ids, joined_citations, mock_report, codes, nothing_for, nothing_end,
  from_keys, pid_is, by_tools, caveat,
}
use trace_pilot.Evidence.Extract.{extract_tool_event_ids}
use trace_pilot.Llm.Mock.Reports.{contains-extract_event_ids, contains-from_keys}
use trace_pilot.Prelude.Decimal.{digits_of}
use trace_pilot.Evidence.Citations.{scan, cited_event_ids}
use trace_pilot.Prelude.Decimal.{decimal}
use trace_pilot.Evidence.Validate.{validate_report_evidence, accepted}
use trace_pilot.Evidence.Verdicts.{validate_report_evidence-accepted, AllReturned}

-- The IDs that the agent allows after a round with these results.
unfoldable pub returned : List ToolResult → List Text
returned [] = []
returned (r ∷ rs) = extract_tool_event_ids r.result ++ returned rs

contains-collected_ids :
    (results : List ToolResult) (id : Text)
    → contains (collected_ids results) id ≡ contains (returned results) id
unfolding collected_ids returned
contains-collected_ids [] id = refl
contains-collected_ids (r ∷ rs) id = ground (
  arith,
  contains-append (extract_event_ids r.result) (collected_ids rs) id,
  contains-append (extract_tool_event_ids r.result) (returned rs) id,
  contains-extract_event_ids id r.result,
  contains-collected_ids rs id,
)

All-contains :
    (P : Text → Type 0) (xs : List Text) → ((x : Text) → contains xs x ≡ true → P x) → All P xs
unfolding contains
All-contains P [] h = tt
All-contains P (x ∷ xs) h =
    (h x (rw (beq_refl x) refl), All-contains P xs (λ y k. h y (ground (arith, k))))

no_element : (xs : List Text) → ((x : Text) → contains xs x ≡ false) → xs ≡ []
unfolding contains
no_element [] h = refl
no_element (x ∷ xs) h =
    let found : contains (x ∷ xs) x ≡ true = rw (beq_refl x) refl in
    absurd (ground (arith, h x, found))

abbrev is_prose : Text → Bool
is_prose [] = true
is_prose (c ∷ s) = not (eqb c b'[') && is_prose s

is_prose-IsProse : (s : Text) → is_prose s ≡ true → IsProse s
is_prose-IsProse [] h = tt
is_prose-IsProse (c ∷ s) h = (ground arith, is_prose-IsProse s (ground arith))

digits_of-IsProse : (fuel n : ℕ) → IsProse (digits_of fuel n)
unfolding digits_of
digits_of-IsProse zero n = tt
digits_of-IsProse (suc fuel) n = elim (Bool-cases (ltb n 10)) [
  | inl e ↦ rw e (ground arith, tt)
  | inr e ↦ rw e (
      All-append _ (digits_of fuel (n / 10)) ((b'0' + n % 10) ∷ [])
        (digits_of-IsProse fuel (n / 10)) (ground arith, tt))
]

decimal-IsProse : (n : ℕ) → IsProse (decimal n)
unfolding decimal
decimal-IsProse n = digits_of-IsProse (suc n) n

scan-joined_citations :
    (ids : List Text) (s : Text)
    → All IsEventId ids
    → scan 0 (joined_citations ids ++ s) ≡ ids ++ scan 0 s
unfolding joined_citations
scan-joined_citations [] s h = refl
scan-joined_citations (id ∷ []) s h =
    ap (λ t. scan 0 (codes "[event:" ++ t)) (append_assoc id (b']' ∷ []) s) ∙ scan-citation id s h.0
scan-joined_citations (id ∷ id' ∷ ids) s h =
    ap (λ t. scan 0 (codes "[event:" ++ t))
      (append_assoc id (b']' ∷ b' ' ∷ joined_citations (id' ∷ ids)) s)
    ∙ scan-citation id (b' ' ∷ joined_citations (id' ∷ ids) ++ s) h.0
    ∙ ap (λ t. id ∷ t)
        (scan-append_prose (b' ' ∷ []) (joined_citations (id' ∷ ids) ++ s) (refl, tt)
          ∙ scan-joined_citations (id' ∷ ids) s h.1)

scan_prose : (t : Text) → IsProse t → scan 0 t ≡ []
unfolding scan
scan_prose t h = subst (λ s. scan 0 s ≡ []) (append-nil t) (scan-append_prose t [] h)

scan-append_fixed : (t s : Text) → is_prose t ≡ true → scan 0 (t ++ s) ≡ scan 0 s
scan-append_fixed t s h = scan-append_prose t s (is_prose-IsProse t h)

scan_fixed : (t : Text) → is_prose t ≡ true → scan 0 t ≡ []
scan_fixed t h = scan_prose t (is_prose-IsProse t h)

cited_event_ids-mock_report :
    (pid : ℕ) (ids : List Text)
    → All IsEventId (take 3 ids)
    → cited_event_ids (mock_report pid ids) ≡ take 3 ids
unfolding cited_event_ids mock_report
cited_event_ids-mock_report pid [] h =
    scan-append_fixed nothing_for (decimal pid ++ nothing_end) refl
    ∙ scan-append_prose (decimal pid) nothing_end (decimal-IsProse pid)
    ∙ scan_fixed nothing_end refl
cited_event_ids-mock_report pid (id ∷ ids) h =
    let cites = joined_citations (take 3 (id ∷ ids)) in
    scan-append_fixed pid_is (decimal pid ++ (by_tools ++ (cites ++ caveat))) refl
    ∙ scan-append_prose (decimal pid) (by_tools ++ (cites ++ caveat)) (decimal-IsProse pid)
    ∙ scan-append_fixed by_tools (cites ++ caveat) refl
    ∙ scan-joined_citations (take 3 (id ∷ ids)) caveat h
    ∙ ap (λ t. take 3 (id ∷ ids) ++ t) (scan_fixed caveat refl)
    ∙ append-nil (take 3 (id ∷ ids))

some_citation :
    (ids allowed : List Text)
    → ((x : Text) → contains ids x ≡ contains allowed x)
    → (allowed ≡ []) ⊎ (take 3 ids ≢ [])
unfolding contains
some_citation [] allowed h = inl (no_element allowed (λ x. sym (h x)))
some_citation (id ∷ ids) allowed h = inr (λ e. cc)

All-take : (P : Text → Type 0) (n : ℕ) (ids : List Text) → All P ids → All P (take n ids)
All-take P n ids h =
    All-left P (take n ids) (drop n ids) (subst (All P) (sym (take-append-drop n ids)) h)

-- The demo report on any tool results whose event IDs are UUIDs passes the evidence check against
-- these IDs.
pub mock_report-accepted :
    (pid : ℕ) (results : List ToolResult)
    → All IsEventId (returned results)
    → validate_report_evidence
        (mock_report pid (from_keys (collected_ids results)))
        (returned results)
      ≡ accepted
mock_report-accepted pid results h =
    let ids = from_keys (collected_ids results) in
    let same : (x : Text) → contains ids x ≡ contains (returned results) x =
      λ x. contains-from_keys x (collected_ids results) ∙ contains-collected_ids results x in
    let uuids : All IsEventId ids =
      All-contains IsEventId ids
        (λ x k. contains-All IsEventId (returned results) x h (sym (same x) ∙ k)) in
    let read = cited_event_ids-mock_report pid ids (All-take IsEventId 3 ids uuids) in
    (validate_report_evidence-accepted (mock_report pid ids) (returned results)).1 (
      subst (λ cited. AllReturned cited (returned results)) (sym read)
          (All-take _ 3 ids (All-contains _ ids (λ x k. sym (same x) ∙ k))),
      subst (λ cited. (returned results ≡ []) ⊎ (cited ≢ [])) (sym read)
          (some_citation ids (returned results) same),
    )
