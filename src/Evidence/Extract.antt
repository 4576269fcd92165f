-- ===== src/Evidence/Extract.antt =====
-- backend/app/agent.py, `extract_tool_event_ids`.
use trace_pilot.Prelude.{String, Text, ◌&&◌, List, [], ◌∷◌, ◌++◌, ◌==◌, key_eq, if◌then◌else◌}
use trace_pilot.Json.{
  Value, null, boolean, int, float, str, list, dict, Items, nil, cons, Fields, end, field, is_str,
  is_list,
}

-- `[child]` for a string
abbrev pub str_ids : Value → List Text
str_ids (str s) = s ∷ []
str_ids _ = []

-- `item for item in child if isinstance(item, str)`
unfoldable pub string_items : Items → List Text
string_items nil = []
string_items (cons x xs) = str_ids x ++ string_items xs

abbrev pub list_ids : Value → List Text
list_ids (list xs) = string_items xs
list_ids _ = []

-- The branch that the loop over a dict takes for one entry; `below` are the IDs inside the child.
abbrev pub entry_ids : String → Value → List Text → List Text
entry_ids key child below =
    if key == "event_id" && is_str child
    then str_ids child
    else if key == "event_ids" && is_list child
    then list_ids child
    else below

unfoldable mutual
  pub extract_tool_event_ids : Value → List Text
  extract_tool_event_ids null = []
  extract_tool_event_ids (boolean b) = []
  extract_tool_event_ids (int n) = []
  extract_tool_event_ids (float x) = []
  extract_tool_event_ids (str s) = []
  extract_tool_event_ids (list xs) = extract_from_items xs
  extract_tool_event_ids (dict fs) = extract_from_fields fs

  pub extract_from_items : Items → List Text
  extract_from_items nil = []
  extract_from_items (cons x xs) = extract_tool_event_ids x ++ extract_from_items xs

  pub extract_from_fields : Fields → List Text
  extract_from_fields end = []
  extract_from_fields (field key child fs) =
      entry_ids key child (extract_tool_event_ids child) ++ extract_from_fields fs
