-- ===== src/Evidence/Verdicts.antt =====
-- backend/app/agent.py, `validate_report_evidence`: accepted and rejected reports.
use trace_pilot.Prelude.{
  Text, ◌≡◌, ◌≢◌, ◌↔◌, refl, true, false, not, ◌&&◌, List, [], ◌∷◌, All, contains, select_if,
  list_eq, list_beq_iff, number_eq, arith, if◌then◌else◌, inl, inr, Bool-cases, ◌⊎◌,
}
use trace_pilot.Evidence.Citations.{cited_event_ids}
use trace_pilot.Evidence.Validate.{
  accepted, rejected, uncited, truthy, difference, validate_report_evidence,
}

-- Every ID of the first list is in the second.
abbrev pub AllReturned : List Text → List Text → Type 0
AllReturned cited allowed = All (λ id. contains allowed id ≡ true) cited

pub difference-eq-nil :
    (cited allowed : List Text) → (difference cited allowed ≡ []) ↔ AllReturned cited allowed
unfolding difference select_if
difference-eq-nil [] allowed = (λ h. tt, λ h. refl)
difference-eq-nil (id ∷ cited) allowed = elim (Bool-cases (contains allowed id)) [
  | inl e ↦ rw e (
    λ h. (refl, (difference-eq-nil cited allowed).0 h),
    λ h. (difference-eq-nil cited allowed).1 h.1,
  )
  | inr e ↦ rw e (λ h. cc, λ h. cc)
]

truthy-false : (xs : List Text) → truthy xs ≡ false → xs ≡ []
truthy-false [] h = refl
truthy-false (x ∷ xs) h = cc

supported-accepted :
    (cited allowed : List Text)
    → AllReturned cited allowed
    → ((if truthy allowed && not (truthy cited) then rejected uncited else accepted) ≡ accepted)
      ↔ (AllReturned cited allowed × ((allowed ≡ []) ⊎ (cited ≢ [])))
supported-accepted [] [] r = (λ h. (tt, inl refl), λ h. refl)
supported-accepted [] (a ∷ allowed) r = (λ h. cc, λ h. absurd (silent h.1))
  where
    silent : (◌≡◌ {A = List Text} (a ∷ allowed) []) ⊎ (◌≢◌ {A = List Text} [] []) → ⊥
    silent (inl e) = cc
    silent (inr n) = n refl
supported-accepted (c ∷ cited) [] r = (λ h. (r, inl refl), λ h. refl)
supported-accepted (c ∷ cited) (a ∷ allowed) r = (λ h. (r, inr (λ e. cc)), λ h. refl)

-- A report passes exactly when every event that it cites was returned by a tool, and it cites
-- something if the tools returned any event.
pub validate_report_evidence-accepted :
    (report : Text) (allowed : List Text)
    → (validate_report_evidence report allowed ≡ accepted) ↔ (
        AllReturned (cited_event_ids report) allowed
        × ((allowed ≡ []) ⊎ (cited_event_ids report ≢ [])))
unfolding validate_report_evidence
validate_report_evidence-accepted report allowed =
    let cited = cited_event_ids report in
    elim (Bool-cases (truthy (difference cited allowed))) [
      | inl bad ↦ rw bad (λ h. cc, λ h. cc (bad, (difference-eq-nil cited allowed).1 h.0))
      | inr fine ↦
          let returned = (difference-eq-nil cited allowed).0 (truthy-false _ fine) in
          rw fine (supported-accepted cited allowed returned)
    ]

-- `difference` holds exactly the cited IDs that no tool returned.
pub contains-difference :
    (cited allowed : List Text) (id : Text)
    → contains (difference cited allowed) id ≡ (contains cited id && not (contains allowed id))
unfolding difference select_if contains
contains-difference [] allowed id = refl
contains-difference (x ∷ cited) allowed id =
    ground (arith, contains-difference cited allowed id, list_beq_iff id x)
