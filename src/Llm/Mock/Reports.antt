-- ===== src/Llm/Mock/Reports.antt =====
-- backend/app/llm/mock_provider.py: the citations in the report of the demo mode.
use trace_pilot.Prelude.{
  ◌&&◌, ◌==◌, list_eq, number_eq, [], ◌∷◌, List, Text, ◌≡◌, refl, true, contains, arith, select_if,
  String, ◌∙◌, contains-append, ap, sym, list_beq_iff,
}
use trace_pilot.Llm.Mock.{from_keys, not, entry_ids, extract_event_ids, ids_of_items, ids_of_fields}
use trace_pilot.Json.{Value, boolean, int, float, str, list, dict}
use trace_pilot.Evidence.Extract.{extract_tool_event_ids, extract_from_items, extract_from_fields}
use trace_pilot.Json.{
  Value, null, boolean, int, float, str, list, dict, Items, nil, cons, Fields, end, field,
}

module _ (id : Text) where
  contains-remove :
      (other : Text) (ids : List Text)
      → contains (select_if (λ x. not (x == other)) ids) id ≡ (not (id == other) && contains ids id)
  unfolding contains select_if
  contains-remove other [] = ground arith
  contains-remove other (x ∷ ids) =
      let same : (id == x) ≡ true → (x == other) ≡ (id == other) =
        λ h. ap (λ t. t == other) (sym ((list_beq_iff id x).0 h)) in
      let other_same : (x == other) ≡ true → (id == x) ≡ (id == other) =
        λ h. ap (λ t. id == t) ((list_beq_iff x other).0 h) in
      ground (arith, contains-remove other ids, same, other_same)

  pub contains-from_keys : (ids : List Text) → contains (from_keys ids) id ≡ contains ids id
  unfolding contains from_keys
  contains-from_keys [] = refl
  contains-from_keys (x ∷ ids) =
      ground (arith, contains-remove x (from_keys ids), contains-from_keys ids)

  contains-entry_ids :
      (key : String) (child : Value) (below below' : List Text)
      → contains below id ≡ contains below' id
      → contains (entry_ids key child below) id ≡ contains (entry_ids key child below') id
  contains-entry_ids key child below below' h = ground (arith, h)

  mutual
    unfolding extract_event_ids extract_tool_event_ids

    pub contains-extract_event_ids :
        (v : Value) → contains (extract_event_ids v) id ≡ contains (extract_tool_event_ids v) id
    contains-extract_event_ids null = refl
    contains-extract_event_ids (boolean b) = refl
    contains-extract_event_ids (int n) = refl
    contains-extract_event_ids (float x) = refl
    contains-extract_event_ids (str s) = refl
    contains-extract_event_ids (list xs) =
        contains-from_keys (ids_of_items xs) ∙ contains-ids_of_items xs
    contains-extract_event_ids (dict fs) =
        contains-from_keys (ids_of_fields fs) ∙ contains-ids_of_fields fs

    contains-ids_of_items :
        (xs : Items) → contains (ids_of_items xs) id ≡ contains (extract_from_items xs) id
    contains-ids_of_items nil = refl
    contains-ids_of_items (cons x xs) = ground (
      arith,
      contains-append (extract_event_ids x) (ids_of_items xs) id,
      contains-append (extract_tool_event_ids x) (extract_from_items xs) id,
      contains-extract_event_ids x,
      contains-ids_of_items xs,
    )

    contains-ids_of_fields :
        (fs : Fields) → contains (ids_of_fields fs) id ≡ contains (extract_from_fields fs) id
    contains-ids_of_fields end = refl
    contains-ids_of_fields (field key child fs) = ground (
      arith,
      contains-append (entry_ids key child (extract_event_ids child)) (ids_of_fields fs) id,
      contains-append (entry_ids key child (extract_tool_event_ids child)) (extract_from_fields fs)
          id,
      contains-entry_ids key child (extract_event_ids child) (extract_tool_event_ids child)
          (contains-extract_event_ids child),
      contains-ids_of_fields fs,
    )
