-- ===== src/ChatIn/Calls.antt =====
-- internal/translate/chatin.go: what an assistant message keeps.
use mathlib.Core.Path.{ap₂}
use cmdc2api.Base.{
  ℕ, String, ◌≡◌, refl, ap, ◌∙◌, Bool, true, false, not, ◌&&◌, Option, none, some, List, [], ◌∷◌,
  ◌++◌, ◌==◌, map, select, arith, if◌then◌else◌,
}
use cmdc2api.Types.Inbound.{Block, zero_block}
use cmdc2api.Types.Chat.{ChatContentPart, ChatToolCall, ChatMessage, ChatJson}
use cmdc2api.Content.{text_block}
use cmdc2api.ChatIn.Warnings.{
  ChatWarn, call_without_name, call_without_id, assistant_malformed, assistant_part_dropped,
}
use cmdc2api.ChatIn.Content.{parse_chat_content, is_chat_text_part}
use cmdc2api.ChatIn.User.{each_part, report_empty}
use cmdc2api.ChatIn.Assistant.{
  chat_reasoning_text, chat_tool_args_report, assistant_part, assistant_texts, tool_use, tool_uses,
  thinking_block, chat_assistant_blocks,
}

-- A tool call that can be answered: it has a name and an id.
abbrev pub is_usable : ChatToolCall → Bool
is_usable tc = not (tc.function.name == "") && not (tc.id == "")

-- The arguments of a call where they are valid JSON, else an empty object.
abbrev pub input_text : ChatJson → String → String
input_text cj args =
    let trimmed = cj.trim_space args in
    if not (trimmed == "") && cj.valid trimmed then trimmed else "{}"

abbrev call_block : ChatToolCall → String → Block
call_block tc input = record zero_block {
  type = "tool_use";
  id = tc.id;
  name = tc.function.name;
  input = input;
}

abbrev pub use_of : ChatJson → ChatToolCall → Block
use_of cj tc = call_block tc (input_text cj tc.function.arguments)

abbrev pub is_text_part : ChatContentPart → Bool
is_text_part p = is_chat_text_part p.type && not (p.text == "")

abbrev pub text_of : ChatContentPart → Block
text_of p = record zero_block { type = "text"; text = p.text }

-- The text blocks of a content: a text that is not empty, or the text parts that are not.
abbrev pub content_texts : Option (String × Option (List ChatContentPart)) → List Block
content_texts none = []
content_texts (some (text, none)) = text_block text
content_texts (some (text, some parts)) = map text_of (select is_text_part parts)

abbrev made : List Block × List ChatWarn → List Block
made r = r.0

report_empty-blocks : (w : ChatWarn) (r : List Block × List ChatWarn) → (report_empty w r).0 ≡ r.0
unfolding report_empty
report_empty-blocks w ([], []) = refl
report_empty-blocks w ([], u ∷ us) = refl
report_empty-blocks w (b ∷ bs, ws) = refl

args_report-input :
    (cj : ChatJson) (tool args : String)
    → (chat_tool_args_report cj tool args).0 ≡ input_text cj args
unfolding chat_tool_args_report
args_report-input cj tool args = ground arith

tool_use-kept :
    (cj : ChatJson) (idx : ℕ) (tc : ChatToolCall)
    → (tool_use cj idx tc).0 ≡ (if is_usable tc then use_of cj tc ∷ [] else [])
unfolding tool_use
tool_use-kept cj idx tc =
    go (tc.function.name == "") (tc.id == "") _
      (args_report-input cj tc.function.name tc.function.arguments)
  where
    go :
        (n i : Bool) (r : String × List ChatWarn)
        → r.0 ≡ input_text cj tc.function.arguments
        → made (
            if n
            then ([], call_without_name idx ∷ [])
            else if i
            then ([], call_without_id idx tc.function.name ∷ [])
            else (call_block tc r.0 ∷ [], r.1))
          ≡ (if not n && not i then use_of cj tc ∷ [] else [])
    go true i r e = refl
    go false true r e = refl
    go false false r e = ap (λ z. call_block tc z ∷ []) e

map-select :
    (b : Bool) (x : Block) (p : ChatToolCall) (rest : List ChatToolCall) (cj : ChatJson)
    → x ≡ use_of cj p
    → (if b then x ∷ [] else []) ++ map (use_of cj) rest
      ≡ map (use_of cj) (if b then p ∷ rest else rest)
map-select true x p rest cj e = ap (λ z. z ∷ map (use_of cj) rest) e
map-select false x p rest cj e = refl

tool_uses-kept :
    (cj : ChatJson) (idx : ℕ) (tcs : List ChatToolCall)
    → (tool_uses cj idx tcs).0 ≡ map (use_of cj) (select is_usable tcs)
unfolding tool_uses
tool_uses-kept cj idx [] = refl
tool_uses-kept cj idx (tc ∷ tcs) =
    ap₂ (λ x y. x ++ y) (tool_use-kept cj idx tc) (tool_uses-kept cj idx tcs)
    ∙ map-select (is_usable tc) (use_of cj tc) tc (select is_usable tcs) cj refl

parts-kept :
    (idx : ℕ) (parts : List ChatContentPart)
    → (each_part (assistant_part idx) parts).0 ≡ map text_of (select is_text_part parts)
unfolding each_part assistant_part
parts-kept idx [] = refl
parts-kept idx (p ∷ ps) =
    ap (λ z. (assistant_part idx p).0 ++ z) (parts-kept idx ps)
    ∙ go (is_chat_text_part p.type) (p.text == "")
  where
    go :
        (t e : Bool)
        → made (
              if t
              then (if e then [] else text_of p ∷ [], [])
              else ([], assistant_part_dropped idx p.type ∷ []))
            ++ map text_of (select is_text_part ps)
          ≡ map text_of (if t && not e then p ∷ select is_text_part ps else select is_text_part ps)
    go true true = refl
    go true false = refl
    go false e = refl

assistant_texts-kept :
    (cj : ChatJson) (idx : ℕ) (content : String)
    → (assistant_texts cj idx content).0 ≡ content_texts (parse_chat_content cj content)
unfolding assistant_texts
assistant_texts-kept cj idx content = go (parse_chat_content cj content)
  where
    go :
        (o : Option (String × Option (List ChatContentPart)))
        → made (elim o [
          | none ↦ ([], assistant_malformed idx ∷ [])
          | some (text, none) ↦ (text_block text, [])
          | some (text, some parts) ↦ each_part (assistant_part idx) parts
        ])
          ≡ content_texts o
    go none = refl
    go (some (text, none)) = refl
    go (some (text, some parts)) = parts-kept idx parts

-- For every assistant message: its blocks are its thinking, then all its texts that are not empty,
-- then exactly those of its tool calls that have a name and an id, each group complete and in order;
-- the arguments of a call are kept where they are valid JSON and are an empty object else.
pub chat_assistant_blocks-kept :
    (cj : ChatJson) (idx : ℕ) (m : ChatMessage)
    → (chat_assistant_blocks cj idx m).0
      ≡ thinking_block (chat_reasoning_text cj m)
        ++ (content_texts (parse_chat_content cj m.content)
            ++ map (use_of cj) (select is_usable m.tool_calls))
unfolding chat_assistant_blocks
chat_assistant_blocks-kept cj idx m =
    report_empty-blocks _ _
    ∙ ap (λ z. thinking_block (chat_reasoning_text cj m) ++ z)
        (ap₂ (λ x y. x ++ y) (assistant_texts-kept cj idx m.content)
          (tool_uses-kept cj idx m.tool_calls))
