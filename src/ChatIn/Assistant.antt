-- ===== src/ChatIn/Assistant.antt =====
-- internal/translate/chatin.go: the blocks of assistant messages.
use cmdc2api.Base.{
  ℕ, String, not, ◌&&◌, Option, none, some, List, [], ◌∷◌, ◌++◌, ◌==◌, if◌then◌else◌,
}
use cmdc2api.Types.Inbound.{Block, zero_block}
use cmdc2api.Types.Chat.{
  ChatContentPart, ChatFunctionCall, ChatToolCall, ChatMessage, ChatJson, is_absent,
}
use cmdc2api.Content.{text_block}
use cmdc2api.ChatIn.Warnings.{
  ChatWarn, assistant_malformed, function_call_dropped, call_without_name, assistant_empty,
  assistant_part_dropped, call_type, call_without_id, arguments_invalid, arguments_not_object,
}
use cmdc2api.ChatIn.Content.{parse_chat_content, is_chat_text_part, has_prefix}
use cmdc2api.ChatIn.User.{each_part, report_empty}

-- One round of the loop of `chatReasoningText`; the empty text goes on to the next field.
unfoldable pub reasoning_of : ChatJson → String → String
reasoning_of cj raw = if is_absent raw then "" else elim (cj.json.unmarshal_string raw) [
  | some s ↦ s
  | none ↦ elim (cj.unmarshal_reasoning raw) [
    | none ↦ ""
    | some (content, text) ↦ if content == "" then text else content
  ]
]

unfoldable pub chat_reasoning_text : ChatJson → ChatMessage → String
chat_reasoning_text cj m =
    if not (m.reasoning_content == "")
    then m.reasoning_content
    else if not (reasoning_of cj m.reasoning == "")
    then reasoning_of cj m.reasoning
    else reasoning_of cj m.reason

unfoldable pub chat_tool_args_report : ChatJson → String → String → String × List ChatWarn
chat_tool_args_report cj tool args =
    let trimmed = cj.trim_space args in
    if trimmed == ""
    then ("{}", [])
    else if not (cj.valid trimmed)
    then ("{}", arguments_invalid tool ∷ [])
    else if not (has_prefix "{" trimmed)
    then (trimmed, arguments_not_object tool trimmed ∷ [])
    else (trimmed, [])

-- One part of an assistant message.
unfoldable pub assistant_part : ℕ → ChatContentPart → List Block × List ChatWarn
assistant_part idx p =
    if is_chat_text_part p.type
    then (text_block p.text, [])
    else ([], assistant_part_dropped idx p.type ∷ [])

unfoldable pub assistant_texts : ChatJson → ℕ → String → List Block × List ChatWarn
assistant_texts cj idx content = elim (parse_chat_content cj content) [
  | none ↦ ([], assistant_malformed idx ∷ [])
  | some (text, none) ↦ (text_block text, [])
  | some (text, some parts) ↦ each_part (assistant_part idx) parts
]

abbrev pub function_call_warns : ℕ → Option ChatFunctionCall → List ChatWarn
function_call_warns idx none = []
function_call_warns idx (some f) = function_call_dropped idx ∷ []

-- The warning of a tool call whose type is another but whose payload is a function's.
abbrev pub type_warns : ℕ → ChatToolCall → List ChatWarn
type_warns idx tc =
    if not (tc.type == "") && (not (tc.type == "function") && not (tc.function.name == ""))
    then call_type idx tc.function.name tc.type ∷ []
    else []

-- One round of the loop over the tool calls, behind that warning.
unfoldable pub tool_use : ChatJson → ℕ → ChatToolCall → List Block × List ChatWarn
tool_use cj idx tc =
    let (input, warns) = chat_tool_args_report cj tc.function.name tc.function.arguments in
    if tc.function.name == ""
    then ([], call_without_name idx ∷ [])
    else if tc.id == ""
    then ([], call_without_id idx tc.function.name ∷ [])
    else (
      record zero_block { type = "tool_use"; id = tc.id; name = tc.function.name; input = input }
          ∷ [],
      warns,
    )

unfoldable pub tool_uses : ChatJson → ℕ → List ChatToolCall → List Block × List ChatWarn
tool_uses cj idx [] = ([], [])
tool_uses cj idx (tc ∷ tcs) =
    let (bs, ws) = tool_use cj idx tc in
    let (cs, us) = tool_uses cj idx tcs in (bs ++ cs, type_warns idx tc ++ (ws ++ us))

-- The thinking block, of a text that is not empty.
abbrev pub thinking_block : String → List Block
thinking_block rc =
    if rc == "" then [] else record zero_block { type = "thinking"; thinking = rc } ∷ []

unfoldable pub chat_assistant_blocks : ChatJson → ℕ → ChatMessage → List Block × List ChatWarn
chat_assistant_blocks cj idx m =
    let (texts, w₁) = assistant_texts cj idx m.content in
    let (uses, w₂) = tool_uses cj idx m.tool_calls in
    report_empty (assistant_empty idx) (
      thinking_block (chat_reasoning_text cj m) ++ (texts ++ uses),
      w₁ ++ (function_call_warns idx m.function_call ++ w₂),
    )
