-- ===== src/Llm/Gemini/Declarations.antt =====
-- backend/app/llm/gemini_provider.py, `_convert_tools`: function declarations out of tool
-- definitions.
use trace_pilot.Prelude.{
  String, codes, Bool, false, Option, none, some, List, [], ◌∷◌, ◌==◌, list_eq, number_eq,
  if◌then◌else◌, ◌≡◌, refl, map, All, list_beq, ap,
}
use trace_pilot.Json.{Value, str, dict, Fields, end, field}
use trace_pilot.Exec.{Result, returns, raises, provider_error}
use trace_pilot.Tools.Arguments.{get}

-- What `types.FunctionDeclaration` is given.
pub record FunctionDeclaration : Type 0 where
  pub name : Value
  pub description : Value
  pub parameters_json_schema : Value

-- `tool.get("type") != "function"`, negated
abbrev pub is_function : Option Value → Bool
is_function (some (str s)) = s == codes "function"
is_function _ = false

-- `function.get(key, default)`
abbrev pub get_or : String → Value → Fields → Value
get_or key default fields = elim (get key fields) [ none ↦ default | some v ↦ v ]

-- `{"type": "object", "properties": {}}`
abbrev no_parameters : Value
no_parameters = dict (field "type" (str (codes "object")) (field "properties" (dict end) end))

-- A `KeyError` without a name.
abbrev pub declaration_of : Option Value → Fields → Result FunctionDeclaration
declaration_of none function = raises provider_error
declaration_of (some name) function = returns (record {
  name = name;
  description = get_or "description" (str []) function;
  parameters_json_schema = get_or "parameters" no_parameters function;
})

-- `tool.get("function", tool)`; a value that is no dict has no `["name"]`.
abbrev pub declare : Option Value → Fields → Result FunctionDeclaration
declare none tool = declaration_of (get "name" tool) tool
declare (some (dict function)) tool = declaration_of (get "name" function) function
declare (some _) tool = raises provider_error

abbrev pub add_declaration :
    Result FunctionDeclaration
    → Result (List FunctionDeclaration)
    → Result (List FunctionDeclaration)
add_declaration (raises e) rest = raises e
add_declaration (returns d) (raises e) = raises e
add_declaration (returns d) (returns ds) = returns (d ∷ ds)

-- The loop over the tools; a value that is no dict has no `get`.
unfoldable pub declarations : List Value → Result (List FunctionDeclaration)
unfolding get
declarations [] = returns []
declarations (dict tool ∷ tools) =
    let rest = declarations tools in
    if is_function (get "type" tool)
    then add_declaration (declare (get "function" tool) tool) rest
    else rest
declarations (_ ∷ tools) = raises provider_error

-- The list of `types.Tool`: none, or one with all declarations.
abbrev pub as_tools : Result (List FunctionDeclaration) → Result (List (List FunctionDeclaration))
as_tools (raises e) = raises e
as_tools (returns []) = returns []
as_tools (returns (d ∷ ds)) = returns ((d ∷ ds) ∷ [])

unfoldable pub convert_tools : List Value → Result (List (List FunctionDeclaration))
unfolding declarations
convert_tools tools = as_tools (declarations tools)

-- A function as the Responses API takes it, and in the older nested form.
abbrev pub flat_definition : Fields → Value
flat_definition function = dict (field "type" (str (codes "function")) function)

abbrev pub nested_definition : Fields → Value
nested_definition function =
    dict (field "type" (str (codes "function")) (field "function" (dict function) end))

declaration_of_field :
    (name : Option Value) (v : Value) (f : Fields)
    → declaration_of name (field "type" v f) ≡ declaration_of name f
unfolding get
declaration_of_field none v f = refl
declaration_of_field (some name) v f = refl

declarations-nested :
    (functions : List Fields)
    → All (λ f. get "function" f ≡ none) functions
    → declarations (map flat_definition functions) ≡ declarations (map nested_definition functions)
unfolding declarations get list_beq
declarations-nested [] h = refl
declarations-nested (f ∷ fs) h =
    rw (h.0, declarations-nested fs h.1)
      (ap (λ d. add_declaration d (declarations (map nested_definition fs)))
        (declaration_of_field (get "name" f) (str (codes "function")) f))

-- The nested form of tool definitions is converted to the same declarations as the form of the
-- Responses API, or fails with it.
pub convert_tools-nested :
    (functions : List Fields)
    → All (λ f. get "function" f ≡ none) functions
    → convert_tools (map flat_definition functions)
      ≡ convert_tools (map nested_definition functions)
unfolding convert_tools
convert_tools-nested functions h = ap as_tools (declarations-nested functions h)
