-- ===== src/Request/Shape.antt =====
-- internal/translate/request.go: the types of the translation to the envelope, and the parts of it
-- that neither a message nor a tool owns.
use cmdc2api.Base.{
  ℕ, String, ◌<>◌, Bool, false, ◌||◌, Option, none, some, List, [], ◌∷◌, ◌==◌, ℤ, is_some,
  if◌then◌else◌,
}
use cmdc2api.Types.Inbound.{CacheControl, ImageSource, Block, Json}
use cmdc2api.Types.Cmdc.{CcPart}

-- The local structs that `tool_choice` and `thinking` are unmarshalled to.
pub record ToolChoice : Type 0 where
  pub type : String
  pub name : String
  pub disable_parallel_tool_use : Option Bool

pub record Thinking : Type 0 where
  pub type : String
  pub budget_tokens : ℤ
  pub effort : String

-- A `map[string]json.RawMessage`, its keys distinct; a nil map is `none`.
abbrev pub RawObject : Type 0
RawObject = Option (List (String × String))

-- encoding/json and strings.TrimSpace, at the types that request.go asks for.
pub record RequestJson : Type 0 where
  pub json : Json
  pub unmarshal_tool_choice : String → Option ToolChoice
  pub unmarshal_thinking : String → Option Thinking
  pub unmarshal_object : String → Option RawObject
  pub marshal_object : List (String × String) → Option String
  pub trim_space : String → String

-- The warnings of request.go, one constructor for each format string; `clipWarnValue`, which bounds
-- what a warning quotes, is left out.
pub data Warn : Type 0 where
  content_dropped : ℕ → String → Warn
  markers_stripped : ℕ → Warn
  no_messages : Warn
  markers_present : List ℕ → Warn
  max_tokens_clamped : ℤ → Warn
  image_dropped : Warn
  orphan_dropped : String → Warn
  user_thinking_dropped : Warn
  document_dropped : Warn
  user_block_dropped : String → Warn
  assistant_image_dropped : Warn
  assistant_block_dropped : String → Warn
  thinking_dropped : Warn
  raw_result_kept : Warn
  result_image_dropped : Warn
  schemas_replaced : List String → Warn
  nameless_tool_choice : Warn
  unknown_tool_choice : String → Warn
  marker_synthesized : Warn
  marker_impossible : Warn

pub record BuildOpts : Type 0 where
  pub today : String  -- `Now`, in the format of a date
  pub node_version : String
  pub working_dir : String
  pub assistant_reasoning : Bool
  pub cache_markers : String

pub record ParsedMessage : Type 0 where
  pub role : String
  pub blocks : List Block
  pub reasoning_content : String

-- The zero value of `CcPart`.
abbrev pub zero_part : CcPart
zero_part = record {
  type = "";
  text = "";
  image = "";
  tool_call_id = "";
  tool_name = "";
  input = "";
  output = none;
  cache_control = none;
}

-- strings.Join
abbrev pub join_with : String → List String → String
join_with sep [] = ""
join_with sep (s ∷ []) = s
join_with sep (s ∷ t ∷ ts) = s <> sep <> join_with sep (t ∷ ts)

-- `ccCC`.
unfoldable pub cc_cc : Option CacheControl → Option CacheControl
cc_cc none = none
cc_cc (some cc) = some (record cc { type = if cc.type == "" then "ephemeral" else cc.type })

unfoldable pub image_to_cc : Option ImageSource → Option String
image_to_cc none = none
image_to_cc (some src) =
    if src.type == "base64"
    then some (
        "data:"
        <> (if src.media_type == "" then "image/png" else src.media_type)
        <> ";base64,"
        <> src.payload)
    else if src.type == "url"
    then some src.url
    else none

-- The texts of the text blocks, and whether a block has a `cache_control`.
abbrev pub texts_of : List Block → List String
texts_of [] = []
texts_of (b ∷ bs) = let rest = texts_of bs in if b.type == "text" then b.text ∷ rest else rest

abbrev pub any_marked : List Block → Bool
any_marked [] = false
any_marked (b ∷ bs) = is_some b.cache_control || any_marked bs

abbrev pub system_of_blocks : Option (List Block) → String × Bool
system_of_blocks none = ("", false)
system_of_blocks (some bs) = (join_with "\n" (texts_of bs), any_marked bs)

unfoldable pub parse_system : Json → String → String × Bool
parse_system json raw = if raw == "" then ("", false) else elim (json.unmarshal_string raw) [
  | some s ↦ (s, false)
  | none ↦ system_of_blocks (json.unmarshal_blocks raw)
]

-- What the loop of `toolResultContent` collects: texts, images and warnings.
pub record ResultParts : Type 0 where
  pub texts : List String
  pub images : List String
  pub warns : List Warn

abbrev pub add_image : Option String → ResultParts → ResultParts
add_image none r = record r { warns = result_image_dropped ∷ r.warns }
add_image (some uri) r = record r { images = uri ∷ r.images }

abbrev pub result_parts : List Block → ResultParts
result_parts [] = record { texts = []; images = []; warns = [] }
result_parts (b ∷ bs) =
    let rest = result_parts bs in
    if b.type == "text"
    then record rest { texts = b.text ∷ rest.texts }
    else if b.type == "image"
    then add_image (image_to_cc b.source) rest
    else rest

-- A tool result's value, its images and the warnings.
pub record ResultContent : Type 0 where
  pub value : String
  pub images : List String
  pub warns : List Warn

abbrev pub content_of_blocks : String → Option (List Block) → ResultContent
content_of_blocks raw none = record { value = raw; images = []; warns = raw_result_kept ∷ [] }
content_of_blocks raw (some bs) =
    let r = result_parts bs in
    record { value = join_with "\n\n" r.texts; images = r.images; warns = r.warns }

unfoldable pub tool_result_content : Json → String → ResultContent
tool_result_content json raw =
    if raw == ""
    then record { value = ""; images = []; warns = [] }
    else elim (json.unmarshal_string raw) [
      | some s ↦ record { value = s; images = []; warns = [] }
      | none ↦ content_of_blocks raw (json.unmarshal_blocks raw)
    ]
