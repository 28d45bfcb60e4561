-- ===== src/ChatIn/Blocks.antt =====
-- internal/translate/chatin.go: which blocks of a message are calls and which are results.
use mathlib.Core.Path.{ap₂}
use cmdc2api.Base.{
  ℕ, String, ◌≡◌, refl, ap, ◌∙◌, Bool, true, false, Option, none, some, inl, inr, Bool-cases, List,
  [], ◌∷◌, ◌++◌, ◌==◌, map, select, select-append, if◌then◌else◌,
}
use cmdc2api.Types.Inbound.{Block, ImageSource}
use cmdc2api.Types.Chat.{ChatMessage, ChatJson, ChatContentPart, ChatImageUrl, ChatToolCall}
use cmdc2api.Content.{text_block}
use cmdc2api.Pairing.{is_use, is_result}
use cmdc2api.ChatIn.Warnings.{ChatWarn, user_malformed, user_empty}
use cmdc2api.ChatIn.Content.{parse_chat_content, is_chat_text_part, chat_image_source}
use cmdc2api.ChatIn.User.{
  chat_user_blocks, report_empty, each_part, user_part, image_block, chat_user_image,
}
use cmdc2api.ChatIn.Assistant.{chat_assistant_blocks, thinking_block, chat_reasoning_text}
use cmdc2api.ChatIn.Calls.{
  use_of, is_usable, content_texts, text_of, is_text_part, chat_assistant_blocks-kept,
}

text_block-uses : (s : String) → select is_use (text_block s) ≡ []
text_block-uses s = elim (Bool-cases (s == "")) [ inl e ↦ rw e refl | inr e ↦ rw e refl ]

texts-uses : (ps : List ChatContentPart) → select is_use (map text_of ps) ≡ []
texts-uses [] = refl
texts-uses (p ∷ ps) = texts-uses ps

content_texts-uses :
    (o : Option (String × Option (List ChatContentPart))) → select is_use (content_texts o) ≡ []
content_texts-uses none = refl
content_texts-uses (some (text, none)) = text_block-uses text
content_texts-uses (some (text, some parts)) = texts-uses (select is_text_part parts)

use_of-uses :
    (cj : ChatJson) (tcs : List ChatToolCall)
    → select is_use (map (use_of cj) tcs) ≡ map (use_of cj) tcs
use_of-uses cj [] = refl
use_of-uses cj (tc ∷ tcs) = ap (λ z. use_of cj tc ∷ z) (use_of-uses cj tcs)

thinking_block-uses : (s : String) → select is_use (thinking_block s) ≡ []
thinking_block-uses s = elim (Bool-cases (s == "")) [ inl e ↦ rw e refl | inr e ↦ rw e refl ]

pub assistant-uses :
    (cj : ChatJson) (idx : ℕ) (m : ChatMessage)
    → select is_use (chat_assistant_blocks cj idx m).0
      ≡ map (use_of cj) (select is_usable m.tool_calls)
assistant-uses cj idx m =
    let th = thinking_block (chat_reasoning_text cj m) in
    let tx = content_texts (parse_chat_content cj m.content) in
    let us = map (use_of cj) (select is_usable m.tool_calls) in
    ap (select is_use) (chat_assistant_blocks-kept cj idx m)
    ∙ select-append is_use th (tx ++ us)
    ∙ ap₂ (λ x y. x ++ y) (thinking_block-uses (chat_reasoning_text cj m))
        (select-append is_use tx us
          ∙ ap₂ (λ x y. x ++ y) (content_texts-uses (parse_chat_content cj m.content))
              (use_of-uses cj (select is_usable m.tool_calls)))

-- A user's own message has no result.
abbrev made : List Block × List ChatWarn → List Block
made r = r.0

abbrev pub NoResult : List Block → Type 0
NoResult bs = select is_result bs ≡ []

text_block-NoResult : (s : String) → NoResult (text_block s)
text_block-NoResult s = elim (Bool-cases (s == "")) [ inl e ↦ rw e refl | inr e ↦ rw e refl ]

image_block-NoResult : (w : ChatWarn) (o : Option ImageSource) → NoResult (image_block w o).0
unfolding image_block
image_block-NoResult w none = refl
image_block-NoResult w (some src) = refl

if-NoResult :
    (b : Bool) (x y : List Block × List ChatWarn)
    → NoResult x.0
    → NoResult y.0
    → NoResult (made (if b then x else y))
if-NoResult true x y h k = h
if-NoResult false x y h k = k

image-NoResult :
    (cj : ChatJson) (idx : ℕ) (o : Option ChatImageUrl) → NoResult (chat_user_image cj idx o).0
unfolding chat_user_image
image-NoResult cj idx none = refl
image-NoResult cj idx (some u) =
    if-NoResult (u.url == "") _ _ refl (image_block-NoResult _ (chat_image_source cj u.url))

user_part-NoResult :
    (cj : ChatJson) (idx : ℕ) (p : ChatContentPart) → NoResult (user_part cj idx p).0
unfolding user_part
user_part-NoResult cj idx p =
    if-NoResult (is_chat_text_part p.type) _ _ (text_block-NoResult p.text)
      (if-NoResult (p.type == "image_url") _ _ (image-NoResult cj idx p.image_url) refl)

parts-NoResult :
    (cj : ChatJson) (idx : ℕ) (ps : List ChatContentPart)
    → NoResult (each_part (user_part cj idx) ps).0
unfolding each_part
parts-NoResult cj idx [] = refl
parts-NoResult cj idx (p ∷ ps) =
    select-append is_result (user_part cj idx p).0 _
    ∙ ap₂ (λ x y. x ++ y) (user_part-NoResult cj idx p) (parts-NoResult cj idx ps)

report_empty-NoResult :
    (w : ChatWarn) (r : List Block × List ChatWarn) → NoResult r.0 → NoResult (report_empty w r).0
unfolding report_empty
report_empty-NoResult w ([], []) h = h
report_empty-NoResult w ([], u ∷ us) h = h
report_empty-NoResult w (b ∷ bs, ws) h = h

pub user-NoResult :
    (cj : ChatJson) (idx : ℕ) (m : ChatMessage) → NoResult (chat_user_blocks cj idx m).0
unfolding chat_user_blocks
user-NoResult cj idx m = go (parse_chat_content cj m.content)
  where
    go :
        (o : Option (String × Option (List ChatContentPart)))
        → NoResult (
            made (elim o [
              | none ↦ ([], user_malformed idx ∷ [])
              | some (text, none) ↦ report_empty (user_empty idx) (text_block text, [])
              | some (text, some parts) ↦
                  report_empty (user_empty idx) (each_part (user_part cj idx) parts)
            ]))
    go none = refl
    go (some (text, none)) =
        report_empty-NoResult _ (text_block text, []) (text_block-NoResult text)
    go (some (text, some parts)) = report_empty-NoResult _ _ (parts-NoResult cj idx parts)
