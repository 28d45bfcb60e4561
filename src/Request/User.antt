-- ===== src/Request/User.antt =====
-- internal/translate/request.go: `convertUser`. The local variables of the function and its closure
-- `flushUser` are the fields of `UserState`.
use cmdc2api.Base.{
  String, ◌<>◌, ◌||◌, Option, none, some, List, [], ◌∷◌, ◌++◌, ◌==◌, is_nil, Dict, get,
  if◌then◌else◌,
}
use cmdc2api.Types.Inbound.{Block, Json}
use cmdc2api.Types.Cmdc.{CcPart, CcMessage}
use cmdc2api.Request.Shape.{
  Warn, image_dropped, orphan_dropped, user_thinking_dropped, document_dropped, user_block_dropped,
  zero_part, cc_cc, image_to_cc, tool_result_content, ParsedMessage,
}

pub record UserState : Type 0 where
  pub out : List CcMessage
  pub user_parts : List CcPart
  pub pending_reloc : List CcPart

abbrev pub empty_user : UserState
empty_user = record { out = []; user_parts = []; pending_reloc = [] }

-- `flushUser`.
unfoldable pub flush_user : UserState → UserState
flush_user s = if is_nil s.user_parts then s else record {
  out = s.out ++ record { role = "user"; content = s.pending_reloc ++ s.user_parts } ∷ [];
  user_parts = [];
  pending_reloc = [];
}

unfoldable pub add_part : UserState → CcPart → UserState
add_part s p = record s { user_parts = s.user_parts ++ p ∷ [] }

-- The images of a tool result, each behind a text that names the call.
unfoldable pub media_parts : String → List String → List CcPart
media_parts id [] = []
media_parts id (img ∷ imgs) =
    record zero_part { type = "text"; text = "[Tool output media for call " <> id <> "]" }
    ∷ record zero_part { type = "image"; image = img }
    ∷ media_parts id imgs

unfoldable pub tool_message : String → Block → String → CcMessage
tool_message name b value = record {
  role = "tool";
  content =
      record zero_part {
        type = "tool-result";
        tool_call_id = b.tool_use_id;
        tool_name = name;
        output = some (record { type = "text"; value = value });
        cache_control = cc_cc b.cache_control;
      }
      ∷ [];
}

unfoldable pub user_image : UserState → Block → Option String → UserState × List Warn
user_image s b none = (s, image_dropped ∷ [])
user_image s b (some uri) = (
  add_part s
      (record zero_part { type = "image"; image = uri; cache_control = cc_cc b.cache_control }),
  [],
)

-- The `tool_result` case behind its `flushUser`, with the name of the call.
unfoldable pub user_result : Json → UserState → Block → Option String → UserState × List Warn
user_result json s b none = (s, orphan_dropped b.tool_use_id ∷ [])
user_result json s b (some name) =
    let r = tool_result_content json b.content in
    (
      record s {
        out = s.out ++ tool_message name b r.value ∷ [];
        pending_reloc = s.pending_reloc ++ media_parts b.tool_use_id r.images;
      },
      r.warns,
    )

unfoldable pub user_block : Json → Dict String → UserState → Block → UserState × List Warn
user_block json names s b =
    if b.type == "text"
    then (if b.text == "" then (s, []) else (
      add_part s (record zero_part {
        type = "text";
        text = b.text;
        cache_control = cc_cc b.cache_control;
      }),
      [],
    ))
    else if b.type == "image"
    then user_image s b (image_to_cc b.source)
    else if b.type == "tool_result"
    then user_result json (flush_user s) b (get names b.tool_use_id)
    else if b.type == "thinking" || b.type == "redacted_thinking"
    then (s, user_thinking_dropped ∷ [])
    else if b.type == "document"
    then (s, document_dropped ∷ [])
    else (s, user_block_dropped b.type ∷ [])

unfoldable pub user_blocks : Json → Dict String → UserState → List Block → UserState × List Warn
user_blocks json names s [] = (s, [])
user_blocks json names s (b ∷ bs) =
    let (t, warns) = user_block json names s b in
    let (u, more) = user_blocks json names t bs in (u, warns ++ more)

-- The end of `convertUser`: images that no later user message took get one of their own.
unfoldable pub user_end : UserState → List CcMessage
user_end s =
    let t = flush_user s in
    if is_nil t.pending_reloc
    then t.out
    else t.out ++ record { role = "user"; content = t.pending_reloc } ∷ []

unfoldable pub convert_user : Json → Dict String → ParsedMessage → List CcMessage × List Warn
convert_user json names pm =
    let (s, warns) = user_blocks json names empty_user pm.blocks in (user_end s, warns)
