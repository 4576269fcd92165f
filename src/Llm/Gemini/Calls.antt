-- ===== src/Llm/Gemini/Calls.antt =====
-- backend/app/llm/gemini_provider.py: the tool requests of a response, and the results given back.
use trace_pilot.Prelude.{
  IsDistinct, ◌+◌, subst, sym, list_beq_iff, ◌∙◌, ap, ap₂, true, false, contains, beq_refl, ◌==◌,
  list_eq, number_eq, key_eq, ℕ, ◌≡◌, refl, Text, Option, none, some, List, [], ◌∷◌, ◌++◌, map, All,
  arith, sym,
}
use trace_pilot.Llm.Base.{ToolRequest, ToolResult, Answers}
use trace_pilot.Llm.Gemini.{
  get_call, Converted, FunctionCall, convert_parts, function_responses, convert_response,
  PendingCalls, call_with, add_call, add_function_call, ContentPart, add_text, FunctionResponse,
  respond, as_object,
}

-- The assignments to `pending_calls` for some requests, after others.
abbrev calls_of : List ToolRequest → PendingCalls → PendingCalls
calls_of [] calls = calls
calls_of (q ∷ qs) calls = calls_of qs ((q.call_id, q.name) ∷ calls)

calls_of-append :
    (qs : List ToolRequest) (q : ToolRequest) (calls : PendingCalls)
    → calls_of (qs ++ (q ∷ [])) calls ≡ (q.call_id, q.name) ∷ calls_of qs calls
calls_of-append [] q calls = refl
calls_of-append (x ∷ qs) q calls = calls_of-append qs q ((x.call_id, x.name) ∷ calls)

abbrev pub call_ids : List ToolRequest → List Text
call_ids = map (λ q. q.call_id)

get_call-calls_of :
    (id : Text) (qs : List ToolRequest) (calls : PendingCalls)
    → contains (call_ids qs) id ≡ false
    → get_call id (calls_of qs calls) ≡ get_call id calls
unfolding contains get_call
get_call-calls_of id [] calls h = refl
get_call-calls_of id (q ∷ qs) calls h =
    let flip : (q.call_id == id) ≡ true → (id == q.call_id) ≡ true =
      λ e. subst (λ x. (id == x) ≡ true) (sym ((list_beq_iff q.call_id id).0 e)) (beq_refl id) in
    get_call-calls_of id qs ((q.call_id, q.name) ∷ calls) (ground (arith, h))
    ∙ ground (arith, h, flip)

get_call_own :
    (qs : List ToolRequest) (calls : PendingCalls)
    → IsDistinct (call_ids qs)
    → All (λ q. get_call q.call_id (calls_of qs calls) ≡ some q.name) qs
unfolding get_call
get_call_own [] calls h = tt
get_call_own (q ∷ qs) calls h = (
  get_call-calls_of q.call_id qs ((q.call_id, q.name) ∷ calls) h.0 ∙ rw (beq_refl q.call_id) refl,
  get_call_own qs ((q.call_id, q.name) ∷ calls) h.1,
)

module _ (uuid4 : ℕ → Text) where
  abbrev IsRecorded : Converted → Type 0
  IsRecorded c = c.pending_calls ≡ calls_of c.tool_requests []

  call_with-IsRecorded :
      (id : Text) (call : FunctionCall) (drawn : ℕ) (c : Converted)
      → IsRecorded c
      → IsRecorded (call_with uuid4 id call drawn c)
  call_with-IsRecorded id call drawn c h =
      ap (λ calls. (id, call.name) ∷ calls) h ∙ sym (calls_of-append c.tool_requests _ [])

  add_call-IsRecorded :
      (call : FunctionCall) (id : Option Text) (c : Converted)
      → IsRecorded c
      → IsRecorded (add_call uuid4 call id c)
  add_call-IsRecorded call none c h = call_with-IsRecorded (uuid4 c.drawn) call (c.drawn + 1) c h
  add_call-IsRecorded call (some []) c h =
      call_with-IsRecorded (uuid4 c.drawn) call (c.drawn + 1) c h
  add_call-IsRecorded call (some (x ∷ xs)) c h = call_with-IsRecorded (x ∷ xs) call c.drawn c h

  add_function_call-IsRecorded :
      (call : Option FunctionCall) (c : Converted)
      → IsRecorded c
      → IsRecorded (add_function_call uuid4 call c)
  add_function_call-IsRecorded none c h = h
  add_function_call-IsRecorded (some call) c h = add_call-IsRecorded call call.id c h

  convert_parts-IsRecorded :
      (parts : List ContentPart) (c : Converted)
      → IsRecorded c
      → IsRecorded (convert_parts uuid4 parts c)
  unfolding convert_parts
  convert_parts-IsRecorded [] c h = h
  convert_parts-IsRecorded (part ∷ parts) c h = convert_parts-IsRecorded parts _ (
      add_function_call-IsRecorded part.function_call
        (record c { text_parts = add_text part.text c.text_parts }) h)

abbrev pub responses_to : List ToolRequest → List ToolResult → List FunctionResponse
responses_to (q ∷ qs) (r ∷ rs) =
    record { name = q.name; response = as_object r.result } ∷ responses_to qs rs
responses_to _ _ = []

function_responses-known :
    (calls : PendingCalls) (qs : List ToolRequest) (rs : List ToolResult)
    → All (λ q. get_call q.call_id calls ≡ some q.name) qs
    → All (λ q. (q.name == "") ≡ false) qs
    → Answers qs rs
    → function_responses calls rs ≡ some (responses_to qs rs)
unfolding function_responses
function_responses-known calls [] [] known named h = refl
function_responses-known calls [] (r ∷ rs) known named h = absurd h
function_responses-known calls (q ∷ qs) [] known named h = absurd h
function_responses-known calls (q ∷ qs) (r ∷ rs) known named h =
    ap₂ (λ o rest. respond o r rest) (ap (λ id. get_call id calls) h.0 ∙ known.0)
      (function_responses-known calls qs rs known.1 named.1 h.1)
    ∙ rw named.0 refl

-- When the calls of a response have distinct IDs and names, the results that the agent gives back
-- for its tool requests are all accepted: each becomes one response, in order, with the name of
-- the function that was called and the result as an object. An ID that the service left out is
-- replaced by a UUID, which is known too.
pub function_responses-convert_response :
    (uuid4 : ℕ → Text) (drawn : ℕ) (parts : List ContentPart) (results : List ToolResult)
    → IsDistinct (call_ids (convert_response uuid4 drawn parts).tool_requests)
    → All (λ q. (q.name == "") ≡ false) (convert_response uuid4 drawn parts).tool_requests
    → Answers (convert_response uuid4 drawn parts).tool_requests results
    → function_responses (convert_response uuid4 drawn parts).state results
      ≡ some (responses_to (convert_response uuid4 drawn parts).tool_requests results)
unfolding convert_response
function_responses-convert_response uuid4 drawn parts results distinct named h =
    let start : Converted = record {
      text_parts = [];
      tool_requests = [];
      pending_calls = [];
      drawn = drawn;
    } in
    let c = convert_parts uuid4 parts start in
    ap (λ calls. function_responses calls results) (convert_parts-IsRecorded uuid4 parts start refl)
    ∙ function_responses-known (calls_of c.tool_requests []) c.tool_requests results
        (get_call_own c.tool_requests [] distinct) named h
