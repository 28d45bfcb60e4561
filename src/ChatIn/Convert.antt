-- ===== src/ChatIn/Convert.antt =====
-- internal/translate/chatin.go: `chatToRequest` and `ChatToRequestBody`.
use cmdc2api.Base.{
  ℕ, suc, String, Bool, true, not, Option, none, some, List, [], ◌∷◌, ◌++◌, map, ◌==◌, ◌||◌, is_nil,
  ℤ, pos, ltb, negsuc, if◌then◌else◌,
}
use cmdc2api.Request.Shape.{join_with}
use cmdc2api.Types.Inbound.{Block, InboundMessage, Request}
use cmdc2api.Types.Chat.{ChatMessage, ChatRequest, ChatJson}
use cmdc2api.Pairing.{inbound_blocks_content, repair_tool_pairing}
use cmdc2api.ChatIn.Warnings.{ChatWarn, role_downgraded, repaired}
use cmdc2api.ChatIn.Content.{chat_message_text}
use cmdc2api.ChatIn.User.{chat_user_blocks, chat_tool_result_message}
use cmdc2api.ChatIn.Assistant.{chat_assistant_blocks}
use cmdc2api.ChatIn.Tools.{
  chat_tools, chat_tool_choice, chat_apply_parallel_tool_calls, chat_reasoning_effort,
}
use cmdc2api.ChatIn.Family.{aggregate_request_warns}
use cmdc2api.ChatIn.Fields.{chat_dropped_field_warnings, chat_ignored_warnings}

-- `n` above one.
abbrev pub above_one : Option ℤ → Bool
above_one none = Bool.false
above_one (some (pos n)) = ltb 1 n
above_one (some (negsuc n)) = Bool.false

unfoldable pub blocks_message :
    ChatJson → String → List Block × List ChatWarn → List InboundMessage × List ChatWarn
blocks_message cj role ([], ws) = ([], ws)
blocks_message cj role (b ∷ bs, ws) = (
  record { role = role; content = inbound_blocks_content cj.json (b ∷ bs); reasoning_content = "" }
      ∷ [],
  ws,
)

unfoldable pub kept_message :
    Option InboundMessage × List ChatWarn → List InboundMessage × List ChatWarn
kept_message (none, ws) = ([], ws)
kept_message (some m, ws) = (m ∷ [], ws)

abbrev pub downgraded :
    ℕ → String → List InboundMessage × List ChatWarn → List InboundMessage × List ChatWarn
downgraded idx role (msgs, ws) = (msgs, role_downgraded idx role ∷ ws)

abbrev pub is_system : String → Bool
is_system role = role == "system" || role == "developer"

-- The messages that one Chat message becomes, those of the system apart.
unfoldable pub normalize_message : ChatJson → ℕ → ChatMessage → List InboundMessage × List ChatWarn
normalize_message cj idx m =
    if m.role == "user"
    then blocks_message cj "user" (chat_user_blocks cj idx m)
    else if m.role == "assistant"
    then blocks_message cj "assistant" (chat_assistant_blocks cj idx m)
    else if m.role == "tool" || m.role == "function"
    then kept_message (chat_tool_result_message cj idx m)
    else downgraded idx m.role (blocks_message cj "user" (chat_user_blocks cj idx m))

-- The local variables of the loop over the messages.
pub record Parts : Type 0 where
  pub system_parts : List String
  pub msgs : List InboundMessage
  pub warns : List ChatWarn

abbrev system_text : String → List String
system_text txt = if txt == "" then [] else txt ∷ []

-- One message, in front of those behind it.
unfoldable pub add_message : ChatJson → ℕ → ChatMessage → Parts → Parts
add_message cj idx m rest =
    if is_system m.role
    then (let (txt, ws) = chat_message_text cj idx m in
        record rest {
          system_parts = system_text txt ++ rest.system_parts;
          warns = ws ++ rest.warns;
        })
    else (let (ms, ws) = normalize_message cj idx m in
        record rest { msgs = ms ++ rest.msgs; warns = ws ++ rest.warns })

-- The loop, from message `idx` on.
unfoldable pub normalize_messages : ChatJson → ℕ → List ChatMessage → Parts
normalize_messages cj idx [] = record { system_parts = []; msgs = []; warns = [] }
normalize_messages cj idx (m ∷ ms) = add_message cj idx m (normalize_messages cj (suc idx) ms)

abbrev or_nil : Option String → String
or_nil none = ""
or_nil (some s) = s

-- `max_completion_tokens` before `max_tokens`.
abbrev pub requested_tokens : Option ℤ → Option ℤ → ℤ
requested_tokens (some n) o = n
requested_tokens none (some n) = n
requested_tokens none none = pos 0

-- The body of `chatToRequest` behind the test of `n`, without the last line.
unfoldable pub converted : ChatJson → ChatRequest → Request × List ChatWarn
converted cj req =
    let parts = normalize_messages cj 0 req.messages in
    let (messages, pw) = repair_tool_pairing cj.json parts.msgs in
    let (tools, tw) = chat_tools 0 req.tools in
    let (choice, cw) = chat_tool_choice cj req.tool_choice (not (is_nil tools)) in
    let (tool_choice, applied) =
      chat_apply_parallel_tool_calls cj req.parallel_tool_calls (not (is_nil tools)) choice in
    let (effort, ew) = chat_reasoning_effort cj req.reasoning_effort in
    (
      record {
        model = req.model;
        messages = messages;
        system =
            if is_nil parts.system_parts
            then ""
            else cj.marshal_string (join_with "\n\n" parts.system_parts);
        max_tokens = requested_tokens req.max_completion_tokens req.max_tokens;
        stream = req.stream;
        temperature = req.temperature;
        tools = tools;
        tool_choice = tool_choice;
        thinking = if effort == "" then "" else cj.marshal_adaptive effort;
        prompt_cache_key = or_nil req.prompt_cache_key;
        synthesize_tail_cache_marker = true;
      },
      parts.warns
          ++ (map repaired pw ++ (tw ++ (cw ++ (ew ++ chat_dropped_field_warnings req applied)))),
    )

-- `chatToRequest`; `none` is `ErrChatUnsupportedN`. The texts of warnings and numbers are the
-- arguments `text` and `itoa`.
unfoldable pub chat_to_request :
    ChatJson → (ChatWarn → String) → (ℕ → String) → ChatRequest → Option (Request × List String)
chat_to_request cj text itoa req =
    let (out, warns) = converted cj req in
    if above_one req.n then none else some (out, aggregate_request_warns itoa (map text warns))

-- `ChatToRequestBody`.
unfoldable pub chat_to_request_body :
    ChatJson
    → (ChatWarn → String)
    → (ℕ → String)
    → String
    → ChatRequest
    → Option (Request × List String)
chat_to_request_body cj text itoa raw req = elim (chat_to_request cj text itoa req) [
  | none ↦ none
  | some (out, warns) ↦ some (out, warns ++ map text (chat_ignored_warnings cj raw))
]
