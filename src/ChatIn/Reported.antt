-- ===== src/ChatIn/Reported.antt =====
-- internal/translate/chatin.go: no message is lost without a warning.
use cmdc2api.Base.{
  ℕ, String, Bool, true, false, Option, none, some, List, [], ◌∷◌, ◌==◌, ◌||◌, if◌then◌else◌,
}
use cmdc2api.Types.Inbound.{Block, InboundMessage}
use cmdc2api.Types.Chat.{ChatMessage, ChatContentPart, ChatJson}
use cmdc2api.Content.{text_block}
use cmdc2api.ChatIn.Warnings.{ChatWarn, user_empty, user_malformed, result_without_call}
use cmdc2api.ChatIn.Content.{parse_chat_content}
use cmdc2api.ChatIn.User.{
  report_empty, user_part, each_part, chat_user_blocks, call_id, chat_tool_result_content,
  chat_tool_result_message,
}
use cmdc2api.ChatIn.Assistant.{chat_assistant_blocks}
use cmdc2api.ChatIn.Convert.{kept_message, downgraded, blocks_message, normalize_message}

-- Something is left, or something is said about it.
abbrev pub IsReported : {A : Type 0} → List A × List ChatWarn → Type 0
IsReported ([], []) = ⊥
IsReported ([], w ∷ ws) = Unit
IsReported (a ∷ rest, ws) = Unit

report_empty-IsReported :
    (w : ChatWarn) (r : List Block × List ChatWarn) → IsReported (report_empty w r)
unfolding report_empty
report_empty-IsReported w ([], []) = tt
report_empty-IsReported w ([], u ∷ us) = tt
report_empty-IsReported w (b ∷ bs, ws) = tt

blocks_message-IsReported :
    (cj : ChatJson) (role : String) (r : List Block × List ChatWarn)
    → IsReported r
    → IsReported (blocks_message cj role r)
unfolding blocks_message
blocks_message-IsReported cj role ([], []) h = h
blocks_message-IsReported cj role ([], w ∷ ws) h = tt
blocks_message-IsReported cj role (b ∷ bs, ws) h = tt

chat_user_blocks-IsReported :
    (cj : ChatJson) (idx : ℕ) (m : ChatMessage) → IsReported (chat_user_blocks cj idx m)
unfolding chat_user_blocks
chat_user_blocks-IsReported cj idx m = go (parse_chat_content cj m.content)
  where
    go :
        (o : Option (String × Option (List ChatContentPart)))
        → IsReported {A = Block} (elim o [
          | none ↦ ([], user_malformed idx ∷ [])
          | some (text, none) ↦ report_empty (user_empty idx) (text_block text, [])
          | some (text, some parts) ↦
              report_empty (user_empty idx) (each_part (user_part cj idx) parts)
        ])
    go none = tt
    go (some (text, none)) = report_empty-IsReported (user_empty idx) (text_block text, [])
    go (some (text, some parts)) =
        report_empty-IsReported (user_empty idx) (each_part (user_part cj idx) parts)

chat_assistant_blocks-IsReported :
    (cj : ChatJson) (idx : ℕ) (m : ChatMessage) → IsReported (chat_assistant_blocks cj idx m)
unfolding chat_assistant_blocks
chat_assistant_blocks-IsReported cj idx m = report_empty-IsReported _ _

tool_message-IsReported :
    (cj : ChatJson) (idx : ℕ) (m : ChatMessage)
    → IsReported (kept_message (chat_tool_result_message cj idx m))
unfolding chat_tool_result_message kept_message
tool_message-IsReported cj idx m = go (call_id m == "") _
  where
    go :
        (b : Bool) (msg : InboundMessage)
        → IsReported (
            kept_message (
              if b
              then (none, result_without_call idx ∷ [])
              else (some msg, (chat_tool_result_content cj idx m.content).1)))
    go true msg = tt
    go false msg = tt

downgraded-IsReported :
    (idx : ℕ) (role : String) (r : List InboundMessage × List ChatWarn)
    → IsReported (downgraded idx role r)
downgraded-IsReported idx role ([], ws) = tt
downgraded-IsReported idx role (m ∷ ms, ws) = tt

if-IsReported :
    (b : Bool) (x y : List InboundMessage × List ChatWarn)
    → IsReported x
    → IsReported y
    → IsReported (if b then x else y)
if-IsReported true x y h k = h
if-IsReported false x y h k = k

-- Every message that is not the system's, whatever its role and content, becomes a message or leaves
-- a warning.
pub normalize_message-IsReported :
    (cj : ChatJson) (idx : ℕ) (m : ChatMessage) → IsReported (normalize_message cj idx m)
unfolding normalize_message
normalize_message-IsReported cj idx m =
    let user = blocks_message-IsReported cj "user" _ (chat_user_blocks-IsReported cj idx m) in
    let assistant =
      blocks_message-IsReported cj "assistant" _ (chat_assistant_blocks-IsReported cj idx m) in
    if-IsReported (m.role == "user") _ _ user (
      if-IsReported (m.role == "assistant") _ _ assistant (
        if-IsReported (m.role == "tool" || m.role == "function") _ _
          (tool_message-IsReported cj idx m) (downgraded-IsReported idx m.role _)))
