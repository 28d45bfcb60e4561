-- ===== src/Request/Assistant.antt =====
-- internal/translate/request.go: `convertAssistant`.
use cmdc2api.Base.{
  String, Bool, true, false, ◌||◌, List, [], ◌∷◌, ◌++◌, ◌==◌, is_nil, if◌then◌else◌,
}
use cmdc2api.Types.Inbound.{Block}
use cmdc2api.Types.Cmdc.{CcPart, CcMessage}
use cmdc2api.Request.Shape.{
  Warn, assistant_image_dropped, assistant_block_dropped, thinking_dropped, zero_part, cc_cc,
  ParsedMessage,
}

-- The local variables of the function.
pub record AssistantState : Type 0 where
  pub reasoning_parts : List CcPart
  pub text_parts : List CcPart
  pub tool_parts : List CcPart
  pub dropped : Bool  -- `thinkingDropped`

abbrev pub no_parts : AssistantState
no_parts = record { reasoning_parts = []; text_parts = []; tool_parts = []; dropped = false }

unfoldable pub reasoning_part : String → CcPart
reasoning_part text = record zero_part { type = "reasoning"; text = text }

-- The state before the loop, for a message's own `reasoning_content`.
unfoldable pub assistant_start : Bool → String → AssistantState
assistant_start keep reasoning =
    if reasoning == ""
    then no_parts
    else if keep
    then record no_parts { reasoning_parts = reasoning_part reasoning ∷ [] }
    else record no_parts { dropped = true }

-- The text of a thinking block: the first of its four fields that is not empty.
unfoldable pub thinking_of : Block → String
thinking_of b =
    if b.thinking == ""
    then (if b.reasoning == ""
        then (if b.reasoning_content == "" then b.text else b.reasoning_content)
        else b.reasoning)
    else b.thinking

unfoldable pub assistant_thinking : Bool → String → AssistantState → String → AssistantState
assistant_thinking keep reasoning s text =
    if text == ""
    then s
    else if keep
    then (if reasoning == text
        then s
        else record s { reasoning_parts = s.reasoning_parts ++ reasoning_part text ∷ [] })
    else record s { dropped = true }

unfoldable pub tool_call_part : Block → CcPart
tool_call_part b = record zero_part {
  type = "tool-call";
  tool_call_id = b.id;
  tool_name = b.name;
  input = if b.input == "" || b.input == "null" then "{}" else b.input;
  cache_control = cc_cc b.cache_control;
}

unfoldable pub text_part : Block → CcPart
text_part b = record zero_part {
  type = "text";
  text = b.text;
  cache_control = cc_cc b.cache_control;
}

unfoldable pub assistant_block : Bool → String → AssistantState → Block → AssistantState × List Warn
assistant_block keep reasoning s b =
    if b.type == "thinking" || b.type == "reasoning"
    then (assistant_thinking keep reasoning s (thinking_of b), [])
    else if b.type == "redacted_thinking"
    then (s, [])
    else if b.type == "text"
    then (
      if b.text == "" then s else record s { text_parts = s.text_parts ++ text_part b ∷ [] },
      [],
    )
    else if b.type == "tool_use"
    then (record s { tool_parts = s.tool_parts ++ tool_call_part b ∷ [] }, [])
    else if b.type == "image"
    then (s, assistant_image_dropped ∷ [])
    else (s, assistant_block_dropped b.type ∷ [])

unfoldable pub assistant_blocks :
    Bool → String → AssistantState → List Block → AssistantState × List Warn
assistant_blocks keep reasoning s [] = (s, [])
assistant_blocks keep reasoning s (b ∷ bs) =
    let (t, warns) = assistant_block keep reasoning s b in
    let (u, more) = assistant_blocks keep reasoning t bs in (u, warns ++ more)

-- `keep` is the option `AssistantReasoning`.
unfoldable pub convert_assistant : Bool → ParsedMessage → List CcMessage × List Warn
convert_assistant keep pm =
    let (s, warns) =
      assistant_blocks keep pm.reasoning_content (assistant_start keep pm.reasoning_content)
        pm.blocks in
    let parts = s.reasoning_parts ++ s.text_parts ++ s.tool_parts in
    (
      if is_nil parts then [] else record { role = "assistant"; content = parts } ∷ [],
      if s.dropped then warns ++ thinking_dropped ∷ [] else warns,
    )
