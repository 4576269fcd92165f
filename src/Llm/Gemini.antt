-- ===== src/Llm/Gemini.antt =====
-- backend/app/llm/gemini_provider.py: `_convert_response`, and the function responses that
-- `continue_with_tool_results` sends. The client and its service are not part of the repository.
pub mod Calls
pub mod Provider
pub mod Declarations
use trace_pilot.Prelude.{
  ℕ, ◌+◌, Text, codes, String, Option, none, some, List, [], ◌∷◌, ◌++◌, ◌==◌, list_eq, number_eq,
  key_eq, if◌then◌else◌,
}
use trace_pilot.Json.{Value, null, boolean, int, float, str, list, dict, Fields, end, field}
use trace_pilot.Llm.Base.{ToolRequest, ToolResult, ProviderResponse}
use trace_pilot.Llm.Factory.{strip}

-- What the code reads of a `FunctionCall` and of a `Part`; a missing text or ID may also be empty.
pub record FunctionCall : Type 0 where
  pub id : Option Text
  pub name : String
  pub args : Option Fields

pub record ContentPart : Type 0 where
  pub text : Option Text
  pub function_call : Option FunctionCall

abbrev pub PendingCalls : Type 0
PendingCalls = List (Text × String)

-- `pending_calls.get(call_id)`; an assignment stands in front of those it replaces.
unfoldable pub get_call : Text → PendingCalls → Option String
get_call id [] = none
get_call id ((id', name) ∷ calls) =
    let rest = get_call id calls in if id' == id then some name else rest

-- The local variables of the loop over the parts, with the number of UUIDs drawn.
pub record Converted : Type 0 where
  pub text_parts : List Text
  pub tool_requests : List ToolRequest
  pub pending_calls : PendingCalls
  pub drawn : ℕ

-- `if part.text`
abbrev pub add_text : Option Text → List Text → List Text
add_text none texts = texts
add_text (some []) texts = texts
add_text (some (c ∷ cs)) texts = texts ++ ((c ∷ cs) ∷ [])

-- `dict(function_call.args or {})`
abbrev pub arguments_of : Option Fields → Fields
arguments_of none = end
arguments_of (some fs) = fs

module _ (uuid4 : ℕ → Text) where
  abbrev pub call_with : Text → FunctionCall → ℕ → Converted → Converted
  call_with call_id call drawn c = record c {
    tool_requests =
        c.tool_requests
        ++ (record { call_id = call_id; name = call.name; arguments = arguments_of call.args }
            ∷ []);
    pending_calls = (call_id, call.name) ∷ c.pending_calls;
    drawn = drawn;
  }

  -- `function_call.id or str(uuid4())`
  abbrev pub add_call : FunctionCall → Option Text → Converted → Converted
  add_call call none c = call_with (uuid4 c.drawn) call (c.drawn + 1) c
  add_call call (some []) c = call_with (uuid4 c.drawn) call (c.drawn + 1) c
  add_call call (some (x ∷ xs)) c = call_with (x ∷ xs) call c.drawn c

  abbrev pub add_function_call : Option FunctionCall → Converted → Converted
  add_function_call none c = c
  add_function_call (some call) c = add_call call call.id c

  unfoldable pub convert_parts : List ContentPart → Converted → Converted
  convert_parts [] c = c
  convert_parts (part ∷ parts) c = convert_parts parts (
      add_function_call part.function_call
        (record c { text_parts = add_text part.text c.text_parts }))

-- `"\n".join(parts)`
unfoldable pub joined_lines : List Text → Text
joined_lines [] = []
joined_lines (t ∷ []) = t
joined_lines (t ∷ t' ∷ ts) = t ++ (b'\n' ∷ joined_lines (t' ∷ ts))

-- `text or None`
abbrev pub text_or_none : Text → Option Text
text_or_none [] = none
text_or_none (c ∷ cs) = some (c ∷ cs)

-- A response whose first candidate has these parts; the state shown here is `pending_calls`.
unfoldable pub convert_response : (ℕ → Text) → ℕ → List ContentPart → ProviderResponse PendingCalls
unfolding convert_parts joined_lines strip
convert_response uuid4 drawn parts =
    let c =
      convert_parts uuid4 parts
        (record { text_parts = []; tool_requests = []; pending_calls = []; drawn = drawn }) in
    record {
      text = text_or_none (strip (joined_lines c.text_parts));
      tool_requests = c.tool_requests;
      state = c.pending_calls;
    }

-- `{"data": result}` for a result that is no object
abbrev pub as_object : Value → Fields
as_object (dict fs) = fs
as_object null = field "data" null end
as_object (boolean b) = field "data" (boolean b) end
as_object (int n) = field "data" (int n) end
as_object (float x) = field "data" (float x) end
as_object (str s) = field "data" (str s) end
as_object (list xs) = field "data" (list xs) end

-- `Part.from_function_response`
pub record FunctionResponse : Type 0 where
  pub name : String
  pub response : Fields

abbrev pub respond :
    Option String → ToolResult → Option (List FunctionResponse) → Option (List FunctionResponse)
respond none r rest = none
respond (some name) r none = none
respond (some name) r (some rest) =
    if name == "" then none else some (record { name = name; response = as_object r.result } ∷ rest)

-- The responses to the calls; `none` is the `RuntimeError` for an ID that is not known.
unfoldable pub function_responses : PendingCalls → List ToolResult → Option (List FunctionResponse)
unfolding get_call
function_responses calls [] = some []
function_responses calls (r ∷ rs) =
    respond (get_call r.call_id calls) r (function_responses calls rs)
