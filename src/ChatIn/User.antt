-- ===== src/ChatIn/User.antt =====
-- internal/translate/chatin.go: the blocks of user messages and of tool results.
use cmdc2api.Base.{ℕ, String, ◌&&◌, Option, none, some, List, [], ◌∷◌, ◌++◌, ◌==◌, if◌then◌else◌}
use cmdc2api.Types.Inbound.{Block, zero_block, ImageSource, InboundMessage}
use cmdc2api.Types.Chat.{ChatImageUrl, ChatContentPart, ChatMessage, ChatJson}
use cmdc2api.Content.{text_block}
use cmdc2api.Pairing.{inbound_blocks_content}
use cmdc2api.ChatIn.Warnings.{
  ChatWarn, user_malformed, user_image_missing, user_image_scheme, user_empty, user_part_dropped,
  result_without_call, result_malformed, result_image_missing, result_image_scheme,
  result_part_dropped,
}
use cmdc2api.ChatIn.Content.{parse_chat_content, is_chat_text_part, chat_image_source}

-- An image block, or the warning of an address that is not understood.
unfoldable pub image_block : ChatWarn → Option ImageSource → List Block × List ChatWarn
image_block w none = ([], w ∷ [])
image_block w (some src) = (record zero_block { type = "image"; source = some src } ∷ [], [])

unfoldable pub chat_user_image : ChatJson → ℕ → Option ChatImageUrl → List Block × List ChatWarn
chat_user_image cj idx none = ([], user_image_missing idx ∷ [])
chat_user_image cj idx (some u) =
    if u.url == ""
    then ([], user_image_missing idx ∷ [])
    else image_block (user_image_scheme idx) (chat_image_source cj u.url)

-- One part of a user message.
unfoldable pub user_part : ChatJson → ℕ → ChatContentPart → List Block × List ChatWarn
user_part cj idx p =
    if is_chat_text_part p.type
    then (text_block p.text, [])
    else if p.type == "image_url"
    then chat_user_image cj idx p.image_url
    else ([], user_part_dropped idx p.type ∷ [])

-- The loop over the parts, for the body `f`.
unfoldable pub each_part :
    (ChatContentPart → List Block × List ChatWarn)
    → List ChatContentPart
    → List Block × List ChatWarn
each_part f [] = ([], [])
each_part f (p ∷ ps) = let (bs, ws) = f p in let (cs, us) = each_part f ps in (bs ++ cs, ws ++ us)

-- What a message that leaves no block and no warning is reported as.
unfoldable pub report_empty : ChatWarn → List Block × List ChatWarn → List Block × List ChatWarn
report_empty w ([], []) = ([], w ∷ [])
report_empty w ([], u ∷ us) = ([], u ∷ us)
report_empty w (b ∷ bs, ws) = (b ∷ bs, ws)

unfoldable pub chat_user_blocks : ChatJson → ℕ → ChatMessage → List Block × List ChatWarn
chat_user_blocks cj idx m = elim (parse_chat_content cj m.content) [
  | none ↦ ([], user_malformed idx ∷ [])
  | some (text, none) ↦ report_empty (user_empty idx) (text_block text, [])
  | some (text, some parts) ↦ report_empty (user_empty idx) (each_part (user_part cj idx) parts)
]

unfoldable pub result_image : ChatJson → ℕ → Option ChatImageUrl → List Block × List ChatWarn
result_image cj idx none = ([], result_image_missing idx ∷ [])
result_image cj idx (some u) = image_block (result_image_scheme idx) (chat_image_source cj u.url)

-- One part of a tool message.
unfoldable pub result_part : ChatJson → ℕ → ChatContentPart → List Block × List ChatWarn
result_part cj idx p =
    if is_chat_text_part p.type
    then (text_block p.text, [])
    else if p.type == "image_url"
    then result_image cj idx p.image_url
    else ([], result_part_dropped idx p.type ∷ [])

-- The content of a tool result made from its parts.
unfoldable pub blocks_content : ChatJson → List Block → String
blocks_content cj [] = cj.marshal_string ""
blocks_content cj (b ∷ bs) = inbound_blocks_content cj.json (b ∷ bs)

unfoldable pub chat_tool_result_content : ChatJson → ℕ → String → String × List ChatWarn
chat_tool_result_content cj idx raw = elim (parse_chat_content cj raw) [
  | none ↦ (cj.marshal_string "", result_malformed idx ∷ [])
  | some (text, none) ↦ (cj.marshal_string text, [])
  | some (text, some parts) ↦
      let (blocks, warns) = each_part (result_part cj idx) parts in
      (blocks_content cj blocks, warns)
]

-- The call that a tool message answers.
unfoldable pub call_id : ChatMessage → String
call_id m = if m.tool_call_id == "" && m.role == "function" then m.name else m.tool_call_id

unfoldable pub chat_tool_result_message :
    ChatJson → ℕ → ChatMessage → Option InboundMessage × List ChatWarn
chat_tool_result_message cj idx m =
    let (content, warns) = chat_tool_result_content cj idx m.content in
    if call_id m == "" then (none, result_without_call idx ∷ []) else (
      some (record {
        role = "user";
        content = inbound_blocks_content cj.json (
            record zero_block { type = "tool_result"; tool_use_id = call_id m; content = content }
            ∷ []);
        reasoning_content = "";
      }),
      warns,
    )
