-- ===== src/Evidence/Validate.antt =====
-- backend/app/agent.py, `validate_report_evidence`.
use trace_pilot.Prelude.{
  Text, Bool, true, false, not, List, [], ◌∷◌, contains, select_if, list_eq, number_eq, ◌&&◌,
  if◌then◌else◌,
}
use trace_pilot.Evidence.Citations.{cited_event_ids}

-- `invented xs`: the citations that no tool returned. `uncited`: evidence, and no citation.
pub data EvidenceError : Type 0 where
  invented : List Text → EvidenceError
  uncited : EvidenceError

pub data Verdict : Type 0 where
  accepted : Verdict
  rejected : EvidenceError → Verdict

-- `bool(xs)` of a list or a set
abbrev pub truthy {ℓ} : {A : Type ℓ} → List A → Bool
truthy [] = false
truthy (x ∷ xs) = true

-- The set difference `cited_event_ids - allowed_event_ids`.
unfoldable pub difference : List Text → List Text → List Text
unfolding select_if
difference cited allowed = select_if (λ id. not (contains allowed id)) cited

unfoldable pub validate_report_evidence : Text → List Text → Verdict
unfolding difference cited_event_ids
validate_report_evidence report allowed =
    let cited = cited_event_ids report in
    let invented_ids = difference cited allowed in
    if truthy invented_ids
    then rejected (invented invented_ids)
    else if truthy allowed && not (truthy cited)
    then rejected uncited
    else accepted
