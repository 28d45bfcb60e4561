-- ===== src/Request/Tools.antt =====
-- internal/translate/request.go: tools, `tool_choice` and thinking.
use cmdc2api.Base.{
  String, Bool, true, false, not, ◌&&◌, ◌||◌, Option, none, some, List, [], ◌∷◌, ◌++◌, ◌==◌, ℤ, pos,
  negsuc, is_some, is_nil, is_pos, leb, if◌then◌else◌,
}
use cmdc2api.Types.Inbound.{Tool}
use cmdc2api.Types.Cmdc.{CcTool, CcToolChoice}
use cmdc2api.Request.Shape.{
  Warn, schemas_replaced, nameless_tool_choice, unknown_tool_choice, ToolChoice, Thinking,
  RawObject, RequestJson,
}

-- m[k], with its `ok`.
abbrev pub field : String → List (String × String) → Option String
field k [] = none
field k ((j, v) ∷ m) = if j == k then some v else field k m

abbrev pub default_schema : String
default_schema = "{\"type\":\"object\",\"properties\":{}}"

abbrev pub marshalled : Option String → String × Bool
marshalled none = (default_schema, true)
marshalled (some b) = (b, false)

-- `normalizeSchemaReport` behind the unmarshalling and its checks on the type.
unfoldable pub normalize_fields :
    RequestJson → List (String × String) → Option String → String × Bool
normalize_fields rj m none = (default_schema, true)
normalize_fields rj m (some t) =
    if rj.trim_space t == "\"object\""
    then marshalled (
        rj.marshal_object
          (if is_some (field "properties" m) then m else m ++ ("properties", "{}") ∷ []))
    else (default_schema, true)

unfoldable pub normalize_object : RequestJson → Option RawObject → String × Bool
normalize_object rj none = (default_schema, true)
normalize_object rj (some none) = (default_schema, true)
normalize_object rj (some (some m)) = normalize_fields rj m (field "type" m)

unfoldable pub normalize_schema_report : RequestJson → String → String × Bool
normalize_schema_report rj raw =
    if raw == "" then (default_schema, true) else normalize_object rj (rj.unmarshal_object raw)

unfoldable pub convert_tool : RequestJson → Tool → CcTool
convert_tool rj t = record {
  type = "function";
  name = t.name;
  description = t.description;
  input_schema = (normalize_schema_report rj t.input_schema).0;
}

-- The results of the loop of `convertTools`: the tools, the names whose schema was replaced, and
-- whether a tool has a `cache_control`.
unfoldable pub convert_each : RequestJson → List Tool → List CcTool × (List String × Bool)
convert_each rj [] = ([], ([], false))
convert_each rj (t ∷ ts) =
    let (out, (replaced, marked)) = convert_each rj ts in
    (
      convert_tool rj t ∷ out,
      (
        (if (normalize_schema_report rj t.input_schema).1 then t.name ∷ replaced else replaced),
        is_some t.cache_control || marked,
      ),
    )

-- The tools, the mark and the warnings.
unfoldable pub convert_tools : RequestJson → List Tool → List CcTool × (Bool × List Warn)
convert_tools rj tools =
    let (out, (replaced, marked)) = convert_each rj tools in
    (out, (marked, if is_nil replaced then [] else schemas_replaced replaced ∷ []))

-- `choice` and `parallel`, with the warnings.
abbrev pub negated : Option Bool → Option Bool
negated none = none
negated (some b) = some (not b)

unfoldable pub choose : Option ToolChoice → (Option CcToolChoice × Option Bool) × List Warn
choose none = ((none, none), [])
choose (some tc) =
    if tc.type == ""
    then ((none, none), [])
    else if tc.type == "auto" || tc.type == "any" || tc.type == "tool" || tc.type == "none"
    then (
      (some (record { type = tc.type; name = tc.name }), negated tc.disable_parallel_tool_use),
      if tc.type == "tool" && tc.name == "" then nameless_tool_choice ∷ [] else [],
    )
    else (
      (some (record { type = "auto"; name = "" }), negated tc.disable_parallel_tool_use),
      unknown_tool_choice tc.type ∷ [],
    )

unfoldable pub convert_tool_choice :
    RequestJson → String → (Option CcToolChoice × Option Bool) × List Warn
convert_tool_choice rj raw =
    if raw == "" then ((none, none), []) else choose (rj.unmarshal_tool_choice raw)

-- `n >= k`.
abbrev pub at_least : ℤ → ℤ → Bool
at_least (pos n) (pos k) = leb k n
at_least (pos n) (negsuc k) = true
at_least (negsuc n) (pos k) = false
at_least (negsuc n) (negsuc k) = leb n k

unfoldable pub effort_of : Option Thinking → String
effort_of none = ""
effort_of (some th) =
    if th.type == "" || th.type == "disabled" || th.type == "none"
    then ""
    else if th.type == "adaptive"
    then (if th.effort == "" then "medium" else th.effort)
    else if at_least th.budget_tokens (pos 10000)
    then "high"
    else if at_least th.budget_tokens (pos 5000)
    then "medium"
    else if is_pos th.budget_tokens
    then "low"
    else ""

unfoldable pub thinking_effort : RequestJson → String → String
thinking_effort rj raw = if raw == "" then "" else effort_of (rj.unmarshal_thinking raw)
