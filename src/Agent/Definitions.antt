-- ===== src/Agent/Definitions.antt =====
-- backend/app/agent.py: `SYSTEM_PROMPT` and `TOOLS`.
use trace_pilot.Prelude.{ℕ, String, Text, codes, List, [], ◌∷◌, false, true}
use trace_pilot.Json.{Value, str, dict, list_of, boolean, nat, Fields, field, end}

abbrev pub text : String → Value
text s = str (codes s)

-- `{"type": "integer", "minimum": low}`, and with a maximum
abbrev integer_from : ℕ → Value
integer_from low = dict (field "type" (text "integer") (field "minimum" (nat low) end))

abbrev integer_between : ℕ → ℕ → Value
integer_between low high =
    dict
      (field "type" (text "integer") (field "minimum" (nat low) (field "maximum" (nat high) end)))

abbrev date_time : Value
date_time = dict (field "type" (text "string") (field "format" (text "date-time") end))

abbrev tool_definition : String → String → Fields → List String → Value
tool_definition name description properties required = dict (
    field "type" (text "function") (
      field "name" (text name) (
        field "description" (text description) (
          field "parameters"
            (dict (
              field "type" (text "object") (
                field "properties" (dict properties) (
                  field "required" (list_of text required)
                    (field "additionalProperties" (boolean false) end)))))
            (field "strict" (boolean true) end)))))

unfoldable pub system_prompt : Text
system_prompt =
    codes
      "\nYou are TracePilot, a Linux network incident investigator.\n\nYou may investigate only through the provided read-only tools.\n\nRules:\n1. Never claim that a destination or process is malicious unless the\n   telemetry proves it.\n2. Clearly separate observed facts from possible explanations.\n3. Every factual finding must cite one or more event IDs returned by tools.\n4. Use the citation format [event:UUID].\n5. Never invent event IDs.\n6. Mention missing or truncated evidence.\n7. Do not provide commands that modify the host.\n"

unfoldable pub tools : List Value
tools =
    tool_definition "get_process_connections"
      "Get TCP connection events for one PID between two timestamps."
      (field "pid" (integer_from 1) (field "start_time" date_time (field "end_time" date_time end)))
      ("pid" ∷ "start_time" ∷ "end_time" ∷ [])
    ∷ tool_definition "get_top_network_processes"
        "Find processes with the most connections in a recent window."
        (field "minutes" (integer_between 1 1440) (field "limit" (integer_between 1 100) end))
        ("minutes" ∷ "limit" ∷ [])
    ∷ tool_definition "find_connection_bursts"
        "Find processes exceeding a connection threshold within one-minute windows."
        (field "threshold" (integer_between 1 10000) (field "minutes" (integer_between 1 1440) end))
        ("threshold" ∷ "minutes" ∷ [])
    ∷ tool_definition "find_unusual_destinations"
        "Find destinations a PID contacted recently that were not present during its preceding baseline period."
        (field "pid" (integer_from 1) end) ("pid" ∷ [])
    ∷ tool_definition "get_event_timeline"
        "Get a chronological 24-hour network timeline for one PID."
        (field "pid" (integer_from 1) end) ("pid" ∷ [])
    ∷ []
