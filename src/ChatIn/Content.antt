-- ===== src/ChatIn/Content.antt =====
-- internal/translate/chatin.go: the contents of system, user and tool messages.
use cmdc2api.Base.{
  ℕ, String, Bool, true, false, not, ◌||◌, Option, none, some, List, [], ◌∷◌, ◌==◌, ◌<>◌, is_nil,
  if◌then◌else◌,
}
use cmdc2api.Request.Shape.{join_with}
use cmdc2api.Types.Inbound.{ImageSource}
use cmdc2api.Types.Chat.{ChatContentPart, ChatMessage, ChatJson, is_absent}
use cmdc2api.ChatIn.Warnings.{ChatWarn, system_malformed, system_parts_ignored}

-- `parseChatContent`: an error, or a text and the parts, which are nil for a text.
unfoldable pub parse_chat_content :
    ChatJson → String → Option (String × Option (List ChatContentPart))
parse_chat_content cj raw =
    if is_absent raw then some ("", none) else elim (cj.json.unmarshal_string raw) [
      | some s ↦ some (s, none)
      | none ↦ elim (cj.unmarshal_parts raw) [ none ↦ none | some parts ↦ some ("", some parts) ]
    ]

abbrev pub is_chat_text_part : String → Bool
is_chat_text_part typ = typ == "text" || (typ == "input_text" || typ == "output_text")

-- The texts of the text parts, and the types of the others.
unfoldable pub text_parts : List ChatContentPart → List String × List String
text_parts [] = ([], [])
text_parts (p ∷ ps) =
    let (texts, ignored) = text_parts ps in
    if is_chat_text_part p.type
    then (if not (p.text == "") then (p.text ∷ texts, ignored) else (texts, ignored))
    else (texts, p.type ∷ ignored)

-- `chatMessageText`; the warnings that a function appends are its second result.
unfoldable pub chat_message_text : ChatJson → ℕ → ChatMessage → String × List ChatWarn
chat_message_text cj idx m = elim (parse_chat_content cj m.content) [
  | none ↦ ("", system_malformed idx m.role ∷ [])
  | some (text, none) ↦ (text, [])
  | some (text, some parts) ↦
      let (texts, ignored) = text_parts parts in
      (
        join_with "\n" texts,
        if is_nil ignored then [] else system_parts_ignored idx m.role ignored ∷ [],
      )
]

-- `strings.CutPrefix`, `strings.Cut` and `strings.Split` at one rune.
unfoldable pub cut_prefix : String → String → Option String
cut_prefix String.[] s = some s
cut_prefix (String.◌∷◌ c p) String.[] = none
cut_prefix (String.◌∷◌ c p) (String.◌∷◌ d s) =
    let rest = cut_prefix p s in
    if String.◌∷◌ c String.[] == String.◌∷◌ d String.[] then rest else none

unfoldable pub cut : String → String → Option (String × String)
cut sep String.[] = none
cut sep (String.◌∷◌ c s) =
    let rest = cut sep s in
    if String.◌∷◌ c String.[] == sep
    then some ("", s)
    else elim rest [ none ↦ none | some (a, b) ↦ some (String.◌∷◌ c a, b) ]

abbrev push_char : String → List String → List String
push_char c [] = c ∷ []
push_char c (s ∷ ss) = (c <> s) ∷ ss

unfoldable pub split_at : String → String → List String
split_at sep String.[] = "" ∷ []
split_at sep (String.◌∷◌ c s) =
    let rest = split_at sep s in
    if String.◌∷◌ c String.[] == sep then "" ∷ rest else push_char (String.◌∷◌ c String.[]) rest

-- The segments of a `data:` URI before its comma: the first, and the last if there are two or more.
unfoldable pub last_segment : List String → Option String
last_segment [] = none
last_segment (s ∷ []) = none
last_segment (s ∷ t ∷ []) = some t
last_segment (s ∷ t ∷ u ∷ us) = last_segment (t ∷ u ∷ us)

abbrev pub first_segment : List String → String
first_segment [] = ""
first_segment (s ∷ ss) = s

abbrev pub base64_source : String → String → ImageSource
base64_source media payload = record {
  type = "base64";
  media_type = if media == "" then "image/png" else media;
  payload = payload;
  url = "";
}

abbrev pub has_prefix : String → String → Bool
has_prefix p s = elim (cut_prefix p s) [ none ↦ false | some t ↦ true ]

-- The test of the last segment, and the media type of the first.
unfoldable pub source_of_segments : ChatJson → String → List String → Option ImageSource
source_of_segments cj payload segs = elim (last_segment segs) [
  | none ↦ none
  | some seg ↦
      if cj.equal_fold seg "base64" then some (base64_source (first_segment segs) payload) else none
]

-- A `data:` URI without its scheme, cut at the first comma.
unfoldable pub data_source : ChatJson → Option (String × String) → Option ImageSource
data_source cj none = none
data_source cj (some (meta, payload)) =
    if payload == "" then none else source_of_segments cj payload (split_at ";" meta)

-- An address with what follows `data:` in it.
unfoldable pub source_of : ChatJson → String → Option String → Option ImageSource
source_of cj url (some rest) = data_source cj (cut "," rest)
source_of cj url none =
    if has_prefix "https://" url || has_prefix "http://" url
    then some (record { type = "url"; media_type = ""; payload = ""; url = url })
    else none

unfoldable pub chat_image_source : ChatJson → String → Option ImageSource
chat_image_source cj url = source_of cj url (cut_prefix "data:" url)
