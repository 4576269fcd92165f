-- ===== src/Api/Events/Validation.antt =====
-- backend/app/schemas.py and backend/app/models.py: the constraints of an event, and the limits of
-- its columns.
use trace_pilot.Prelude.{
  some-injective, sym, [], ◌∷◌, ℕ, ◌≤◌, ◌≡◌, Bool, none, some, length, arith, ◌⊎◌, true, map, All,
  subst, ap, ◌∙◌, ap₂, refl,
}
use trace_pilot.Json.{ℤ, pos}
use trace_pilot.Store.{ConnectionEvent}
use trace_pilot.Api.Events.{
  ConnectionEventCreate, EventBody, validate_event, Option, validate_all, new_events, List, World,
  ◌∷◌, suc, fits_columns, all_fit,
}
use trace_pilot.Tools.Arguments.{in_bounds}

-- The request that a stored event answers to.
abbrev pub row_body : ConnectionEvent → EventBody
row_body e = record {
  timestamp = e.timestamp;
  pid = pos e.pid;
  process_name = e.process_name;
  uid = pos e.uid;
  destination_ip = e.destination_ip;
  destination_port = pos e.destination_port;
  ip_version = pos e.ip_version;
  duration_ms = e.duration_ms;
  source = e.source;
}

abbrev pub created_body : ConnectionEventCreate → EventBody
created_body d = record {
  timestamp = d.timestamp;
  pid = pos d.pid;
  process_name = d.process_name;
  uid = pos d.uid;
  destination_ip = d.destination_ip;
  destination_port = pos d.destination_port;
  ip_version = pos d.ip_version;
  duration_ms = d.duration_ms;
  source = d.source;
}

in_bounds-pos : (low : ℕ) (n : ℤ) (m : ℕ) → in_bounds low none n ≡ some m → (n ≡ pos m) × (low ≤ m)
unfolding in_bounds
in_bounds-pos low n m h = ground arith

in_bounds-pos_range :
    (low high : ℕ) (n : ℤ) (m : ℕ)
    → in_bounds low (some high) n ≡ some m
    → (n ≡ pos m) × (low ≤ m) × (m ≤ high)
unfolding in_bounds
in_bounds-pos_range low high n m h = ground arith

module _ (ge_zero : ℕ → Bool) where
  abbrev pub IsDuration : Option ℕ → Type 0
  IsDuration none = Unit
  IsDuration (some x) = ge_zero x ≡ true

  -- The ranges of the columns.
  abbrev pub IsAcceptable : ConnectionEventCreate → Type 0
  IsAcceptable d =
      (1 ≤ d.pid)
      × (1 ≤ d.destination_port)
      × (d.destination_port ≤ 65535)
      × ((d.ip_version ≡ 4) ⊎ (d.ip_version ≡ 6))
      × (1 ≤ length d.process_name)
      × (length d.process_name ≤ 64)
      × (length d.source ≤ 20)
      × IsDuration d.duration_ms

  -- A request that writes an acceptable event, and one that also fits into the columns.
  abbrev pub IsValid : EventBody → Type 0
  IsValid b = (d : ConnectionEventCreate) × (created_body d ≡ b) × IsAcceptable d

  abbrev pub IsEvent : EventBody → Type 0
  IsEvent b =
      (d : ConnectionEventCreate) × (created_body d ≡ b) × (fits_columns d ≡ true) × IsAcceptable d

  pub IsEvent-IsValid : (b : EventBody) → IsEvent b → IsValid b
  IsEvent-IsValid b (d, same, fits, ok) = (d, same, ok)

  pub validate_event-IsAcceptable :
      (b : EventBody) (d : ConnectionEventCreate)
      → validate_event ge_zero b ≡ some d
      → IsAcceptable d
  unfolding validate_event in_bounds
  validate_event-IsAcceptable b d h = ground arith

  created_body-validate_event :
      (b : EventBody) (d : ConnectionEventCreate)
      → validate_event ge_zero b ≡ some d
      → created_body d ≡ b
  unfolding validate_event in_bounds
  created_body-validate_event b d h = ground arith

  validate_event-created_body :
      (d : ConnectionEventCreate)
      → IsAcceptable d
      → validate_event ge_zero (created_body d) ≡ some d
  unfolding validate_event in_bounds
  validate_event-created_body d h = ground arith

  validate_event-IsValid :
      (b : EventBody) (d : ConnectionEventCreate) → validate_event ge_zero b ≡ some d → IsValid b
  validate_event-IsValid b d h =
      (d, created_body-validate_event b d h, validate_event-IsAcceptable b d h)

  pub validate_all-some :
      (bodies : List EventBody) (ds : List ConnectionEventCreate)
      → validate_all ge_zero bodies ≡ some ds
      → (map created_body ds ≡ bodies) × All IsValid bodies
  unfolding validate_all
  validate_all-some [] [] h = (refl, tt)
  validate_all-some [] (d ∷ ds) h = absurd (ground arith)
  validate_all-some (b ∷ bs) [] h = absurd (ground arith)
  validate_all-some (b ∷ bs) (d ∷ ds) h =
      let (e, k) : (validate_event ge_zero b ≡ some d) × (validate_all ge_zero bs ≡ some ds) =
        ground arith in
      let (same, events) = validate_all-some bs ds k in
      (
        ap₂ (λ x xs. x ∷ xs) (created_body-validate_event b d e) same,
        (validate_event-IsValid b d e, events),
      )

  pub validate_all-none :
      (bodies : List EventBody) → validate_all ge_zero bodies ≡ none → ¬ (All IsValid bodies)
  unfolding validate_all
  validate_all-none [] h k = absurd (ground arith)
  validate_all-none (b ∷ bs) h ((d, same, ok), k) =
      validate_all-none bs
        (ground (
          arith,
          subst (λ x. validate_event ge_zero x ≡ some d) same (validate_event-created_body d ok),
        ))
        k

  pub map-row_body :
      (w : World) (ds : List ConnectionEventCreate) (drawn reads : ℕ)
      → map row_body (new_events w ds drawn reads) ≡ map created_body ds
  unfolding new_events
  map-row_body w [] drawn reads = refl
  map-row_body w (d ∷ ds) drawn reads =
      ap (λ l. created_body d ∷ l) (map-row_body w ds (suc drawn) (suc reads))

  -- What is valid and fits, the validation accepts as it is.
  pub all_fit-IsEvent :
      (bodies : List EventBody) (ds : List ConnectionEventCreate)
      → validate_all ge_zero bodies ≡ some ds
      → All IsEvent bodies
      → all_fit ds ≡ true
  unfolding validate_all all_fit
  all_fit-IsEvent [] [] h k = refl
  all_fit-IsEvent [] (d ∷ ds) h k = absurd (ground (arith, h))
  all_fit-IsEvent (b ∷ bs) [] h k = absurd (ground (arith, h))
  all_fit-IsEvent (b ∷ bs) (d ∷ ds) h ((d', same, fits, ok), k) =
      let (e, rest) : (validate_event ge_zero b ≡ some d) × (validate_all ge_zero bs ≡ some ds) =
        ground (arith, h) in
      let e' : validate_event ge_zero b ≡ some d' =
        subst (λ x. validate_event ge_zero x ≡ some d') same (validate_event-created_body d' ok) in
      let at_d : d' ≡ d = some-injective d' d (sym e' ∙ e) in
      let here = subst (λ x. fits_columns x ≡ true) at_d fits in
      rw here (all_fit-IsEvent bs ds rest k)

  pub IsEvent-all_fit :
      (bodies : List EventBody) (ds : List ConnectionEventCreate)
      → validate_all ge_zero bodies ≡ some ds
      → all_fit ds ≡ true
      → All IsEvent bodies
  unfolding validate_all all_fit
  IsEvent-all_fit [] [] h k = tt
  IsEvent-all_fit [] (d ∷ ds) h k = absurd (ground (arith, h))
  IsEvent-all_fit (b ∷ bs) [] h k = absurd (ground (arith, h))
  IsEvent-all_fit (b ∷ bs) (d ∷ ds) h k =
      let (e, rest) : (validate_event ge_zero b ≡ some d) × (validate_all ge_zero bs ≡ some ds) =
        ground (arith, h) in
      let (here, later) : (fits_columns d ≡ true) × (all_fit ds ≡ true) = ground (arith, k) in
      (
        (d, created_body-validate_event b d e, here, validate_event-IsAcceptable b d e),
        IsEvent-all_fit bs ds rest later,
      )
