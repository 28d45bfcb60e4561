-- ===== src/ChatIn/Tools.antt =====
-- internal/translate/chatin.go: tools, `tool_choice`, `parallel_tool_calls` and `reasoning_effort`.
use cmdc2api.Base.{
  ℕ, suc, String, Bool, true, false, not, ◌&&◌, ◌||◌, Option, none, some, List, [], ◌∷◌, ◌++◌, ◌==◌,
  if◌then◌else◌,
}
use cmdc2api.Types.Inbound.{Tool}
use cmdc2api.Types.Cmdc.{CcToolChoice}
use cmdc2api.Types.Chat.{
  ChatTool, ChatFunctionDef, ChatJson, ChoiceObject, ParallelChoice, is_absent,
}
use cmdc2api.ChatIn.Warnings.{
  ChatWarn, tool_type_dropped, tool_without_name, strict_dropped, choice_without_tools,
  choice_unparsable, choice_without_name, choice_allowed_tools, choice_unknown, choice_type_unknown,
  effort_unparsable, effort_unknown,
}

abbrev pub is_true : Option Bool → Bool
is_true none = false
is_true (some b) = b

unfoldable pub chat_tool_name : ChatTool → String
chat_tool_name t = elim t.function [
  | none ↦ "<unnamed>"
  | some f ↦ if f.name == "" then "<unnamed>" else f.name
]

abbrev pub kept_tool : ℕ → Option ChatFunctionDef → List Tool × List ChatWarn
kept_tool i none = ([], tool_without_name i ∷ [])
kept_tool i (some f) = if f.name == "" then ([], tool_without_name i ∷ []) else (
  record {
    name = f.name;
    description = f.description;
    input_schema = f.parameters;
    cache_control = none;
  }
      ∷ [],
  if is_true f.strict then strict_dropped f.name ∷ [] else [],
)

-- One round of the loop of `chatTools`.
unfoldable pub chat_tool : ℕ → ChatTool → List Tool × List ChatWarn
chat_tool i t =
    if not (t.type == "") && not (t.type == "function")
    then ([], tool_type_dropped i (chat_tool_name t) t.type ∷ [])
    else kept_tool i t.function

-- `chatTools`, from tool `i` on.
unfoldable pub chat_tools : ℕ → List ChatTool → List Tool × List ChatWarn
chat_tools i [] = ([], [])
chat_tools i (t ∷ ts) =
    let (out, ws) = chat_tool i t in
    let (more, us) = chat_tools (suc i) ts in (out ++ more, ws ++ us)

abbrev pub of_type : String → CcToolChoice
of_type typ = record { type = typ; name = "" }

abbrev pub named_choice : String → CcToolChoice × List ChatWarn
named_choice name =
    if name == ""
    then (of_type "auto", choice_without_name ∷ [])
    else (record { type = "tool"; name = name }, [])

unfoldable pub choice_of_string : String → CcToolChoice × List ChatWarn
choice_of_string s =
    if s == "auto"
    then (of_type "auto", [])
    else if s == "none"
    then (of_type "none", [])
    else if s == "required"
    then (of_type "any", [])
    else (of_type "auto", choice_unknown s ∷ [])

unfoldable pub choice_of_object : ChoiceObject → CcToolChoice × List ChatWarn
choice_of_object tc =
    if tc.type == "function"
    then named_choice (if tc.function_name == "" then tc.name else tc.function_name)
    else if tc.type == "auto"
    then (of_type "auto", [])
    else if tc.type == "none"
    then (of_type "none", [])
    else if tc.type == "required" || tc.type == "any"
    then (of_type "any", [])
    else if tc.type == "allowed_tools"
    then (of_type "auto", choice_allowed_tools ∷ [])
    else (of_type "auto", choice_type_unknown tc.type ∷ [])

unfoldable pub choice_of : ChatJson → String → CcToolChoice × List ChatWarn
choice_of cj raw = elim (cj.json.unmarshal_string raw) [
  | some s ↦ choice_of_string s
  | none ↦ elim (cj.unmarshal_choice raw) [
    | none ↦ (of_type "auto", choice_unparsable ∷ [])
    | some tc ↦ choice_of_object tc
  ]
]

-- `chatToolChoice`; the empty text is the nil of the code.
unfoldable pub chat_tool_choice : ChatJson → String → Bool → String × List ChatWarn
chat_tool_choice cj raw has_tools =
    if is_absent raw
    then ("", [])
    else if not has_tools
    then ("", choice_without_tools ∷ [])
    else (let (choice, ws) = choice_of cj raw in (cj.marshal_choice choice, ws))

abbrev pub parallel_type : String → String
parallel_type s =
    if s == "none" then "none" else if s == "required" || s == "any" then "any" else "auto"

abbrev pub sequential : String → ParallelChoice
sequential typ = record { type = typ; name = ""; disable_parallel_tool_use = true }

-- The merged `tool_choice`, or `none` where its form is not recognized.
unfoldable pub merge_parallel : ChatJson → String → Option ParallelChoice
merge_parallel cj raw =
    if is_absent raw then some (sequential "auto") else elim (cj.json.unmarshal_string raw) [
      | some s ↦ some (sequential (parallel_type s))
      | none ↦ elim (cj.unmarshal_parallel raw) [
        | none ↦ none
        | some c ↦
            if c.type == "" then none else some (record c { disable_parallel_tool_use = true })
      ]
    ]

-- `chatApplyParallelToolCalls`: the new `tool_choice` and whether it was applied.
unfoldable pub chat_apply_parallel_tool_calls :
    ChatJson → Option Bool → Bool → String → String × Bool
chat_apply_parallel_tool_calls cj parallel has_tools raw = elim parallel [
  | none ↦ (raw, false)
  | some p ↦ if p || not has_tools then (raw, false) else elim (merge_parallel cj raw) [
    | none ↦ (raw, false)
    | some c ↦ (cj.marshal_parallel c, true)
  ]
]

-- The switch of `chatReasoningEffort`, on the trimmed text in lower case.
unfoldable pub chat_effort : String → String × List ChatWarn
chat_effort effort =
    if effort == "" || effort == "none"
    then ("", [])
    else if effort == "low"
        || (effort == "medium" || (effort == "high" || (effort == "max" || effort == "xhigh")))
    then (effort, [])
    else if effort == "minimal"
    then ("low", [])
    else ("", effort_unknown effort ∷ [])

unfoldable pub chat_reasoning_effort : ChatJson → String → String × List ChatWarn
chat_reasoning_effort cj raw =
    if is_absent raw then ("", []) else elim (cj.json.unmarshal_string raw) [
      | some s ↦ chat_effort (cj.to_lower (cj.trim_space s))
      | none ↦ elim (cj.unmarshal_effort raw) [
        | none ↦ ("", effort_unparsable ∷ [])
        | some e ↦ chat_effort (cj.to_lower (cj.trim_space e))
      ]
    ]
