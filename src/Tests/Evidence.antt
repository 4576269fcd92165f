-- ===== src/Tests/Evidence.antt =====
-- The evidence rules.
use trace_pilot.Prelude.{
  ◌≡◌, refl, Text, codes, List, [], ◌∷◌, ◌++◌, All, ◌↔◌, ◌⊎◌, ◌≢◌, contains, true, list_eq,
  number_eq,
}
use trace_pilot.Evidence.Citations.{cited_event_ids, all_id_chars}
use trace_pilot.Evidence.Validate.{accepted, rejected, uncited, invented, validate_report_evidence}
use trace_pilot.Evidence.RoundTrip.{
  Segment, prose, cites, render, citation, cited_event_ids-render, IsEventId,
}
use trace_pilot.Tests.Fixtures.{event_1, event_2}
use trace_pilot.Evidence.Soundness.{IsCitedIn}
use trace_pilot.Evidence.Completeness.{cited_event_ids-cited}
use trace_pilot.Evidence.Verdicts.{AllReturned, validate_report_evidence-accepted}

cited_twice :
    cited_event_ids
      (codes "See " ++ (citation event_1 ++ (codes " [event:no] " ++ citation event_2)))
    ≡ event_1 ∷ event_2 ∷ []
unfolding cited_event_ids trace_pilot.Prelude.list_beq
cited_twice = refl

verdicts :
    (validate_report_evidence (codes "ok " ++ citation event_1) (event_1 ∷ []) ≡ accepted)
    × (validate_report_evidence (citation event_2) (event_1 ∷ [])
        ≡ rejected (invented (event_2 ∷ [])))
    × (validate_report_evidence (codes "many connections") (event_1 ∷ []) ≡ rejected uncited)
    × (validate_report_evidence (codes "nothing found") [] ≡ accepted)
unfolding validate_report_evidence trace_pilot.Prelude.list_beq trace_pilot.Prelude.contains
verdicts = (refl, refl, refl, refl)

abbrev segments : List Segment
segments = prose (codes "See ") ∷ cites event_1 ∷ prose (codes " and ") ∷ cites event_2 ∷ []

event_1-IsEventId : IsEventId event_1
unfolding all_id_chars
event_1-IsEventId = record { chars = refl; size = refl }

event_2-IsEventId : IsEventId event_2
unfolding all_id_chars
event_2-IsEventId = record { chars = refl; size = refl }

cited_event_ids-render_example : cited_event_ids (render segments) ≡ event_1 ∷ event_2 ∷ []
cited_event_ids-render_example = cited_event_ids-render segments (
  (refl, (refl, (refl, (refl, tt)))),
  (event_1-IsEventId, ((refl, (refl, (refl, (refl, (refl, tt))))), (event_2-IsEventId, tt))),
)

cited_event_ids-cited_example :
    (contains (cited_event_ids (render segments)) event_2 ≡ true)
    ↔ IsCitedIn (render segments) event_2
cited_event_ids-cited_example = cited_event_ids-cited (render segments) event_2

validate_report_evidence-accepted_example :
    (validate_report_evidence (render segments) (event_1 ∷ event_2 ∷ []) ≡ accepted) ↔ (
      AllReturned (cited_event_ids (render segments)) (event_1 ∷ event_2 ∷ [])
      × ((event_1 ∷ event_2 ∷ [] ≡ []) ⊎ (cited_event_ids (render segments) ≢ [])))
validate_report_evidence-accepted_example =
    validate_report_evidence-accepted (render segments) (event_1 ∷ event_2 ∷ [])
