-- ===== src/Api/Ids.antt =====
-- backend/app/models.py: the default of the IDs.
use trace_pilot.Prelude.{
  ℕ, suc, ◌+◌, ◌≡◌, ◌<◌, ◌≤◌, false, sym, subst, Bool-cases, inl, inr, ◌==◌, list_eq, number_eq,
  list_beq_iff, Text, List, [], ◌∷◌, ◌++◌, All, All-append, map, length, IsDistinct,
  IsDistinct-append, arith, append_assoc, append-nil,
}
use trace_pilot.Store.{World}
use trace_pilot.Api.Events.{ConnectionEventCreate, new_events}

module _ (w : World) where
  -- `uuid4` does not repeat.
  abbrev pub IsInjective : Type 0
  IsInjective = (i j : ℕ) → w.uuid4 i ≡ w.uuid4 j → i ≡ j

  -- IDs out of the first `n` that were drawn, in the order of drawing.
  pub data Issued : ℕ → List Text → Type 0 where
    none_issued : {n : ℕ} → Issued n []
    issue :
        {n m : ℕ} {ids : List Text} (k : ℕ)
        → Issued n ids
        → n ≤ k
        → k < m
        → Issued m (ids ++ (w.uuid4 k ∷ []))

  pub Issued_later : {n m : ℕ} {ids : List Text} → Issued n ids → n ≤ m → Issued m ids
  Issued_later none_issued h = none_issued
  Issued_later (issue k ids low high) h = issue k ids low (omega (arith, high, h))

  pub Issued-new_events :
      (ds : List ConnectionEventCreate) (drawn reads : ℕ) (ids : List Text)
      → Issued drawn ids
      → Issued (drawn + length ds) (ids ++ map (λ e. e.id) (new_events w ds drawn reads))
  unfolding new_events
  Issued-new_events [] drawn reads ids h =
      subst (Issued (drawn + 0)) (sym (append-nil ids)) (Issued_later h (omega arith))
  Issued-new_events (d ∷ ds) drawn reads ids h =
      let rest =
        Issued-new_events ds (suc drawn) (suc reads) (ids ++ (w.uuid4 drawn ∷ []))
          (issue drawn h (omega arith) (omega arith)) in
      Issued_later
        (subst (Issued (suc drawn + length ds))
          (append_assoc ids (w.uuid4 drawn ∷ [])
            (map (λ e. e.id) (new_events w ds (suc drawn) (suc reads))))
          rest)
        (omega arith)

  module _ (injective : IsInjective) where
    uuid4_other : (k j : ℕ) → k < j → (w.uuid4 k == w.uuid4 j) ≡ false
    uuid4_other k j h = elim (Bool-cases (w.uuid4 k == w.uuid4 j)) [
      | inl same ↦
          let e = injective k j ((list_beq_iff (w.uuid4 k) (w.uuid4 j)).0 same) in
          absurd (omega (arith, h, e))
      | inr other ↦ other
    ]

    pub Issued_fresh :
        {n : ℕ} {ids : List Text} (j : ℕ)
        → Issued n ids
        → n ≤ j
        → All (λ id. (id == w.uuid4 j) ≡ false) ids
    Issued_fresh j none_issued h = tt
    Issued_fresh j (issue {ids} k ids_issued low high) h =
        All-append _ _ (w.uuid4 k ∷ []) (Issued_fresh j ids_issued (omega (arith, low, high, h)))
          (uuid4_other k j (omega (arith, high, h)), tt)

    pub Issued-IsDistinct : {n : ℕ} {ids : List Text} → Issued n ids → IsDistinct ids
    Issued-IsDistinct none_issued = tt
    Issued-IsDistinct (issue k ids low high) =
        IsDistinct-append _ (w.uuid4 k) (Issued-IsDistinct ids) (Issued_fresh k ids low)
