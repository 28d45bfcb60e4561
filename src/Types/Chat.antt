-- ===== src/Types/Chat.antt =====
-- internal/types/chatcompletions.go: the inbound Chat request. A raw JSON field is its text, an absent
-- one the empty text; a nil pointer is `none`.
use cmdc2api.Base.{
  String, Bool, Option, none, some, List, [], ◌∷◌, ℤ, ◌==◌, ◌||◌, member, select, if◌then◌else◌,
}
use cmdc2api.Types.Inbound.{Json}
use cmdc2api.Types.Cmdc.{CcToolChoice}

pub record ChatImageUrl : Type 0 where
  pub url : String
  pub detail : String

pub record ChatContentPart : Type 0 where
  pub type : String
  pub text : String
  pub image_url : Option ChatImageUrl
  pub input_audio : String

pub record ChatFunctionCall : Type 0 where
  pub name : String
  pub arguments : String

pub record ChatToolCall : Type 0 where
  pub index : Option ℤ
  pub id : String
  pub type : String
  pub function : ChatFunctionCall

pub record ChatMessage : Type 0 where
  pub role : String
  pub content : String
  pub name : String
  pub tool_calls : List ChatToolCall
  pub tool_call_id : String
  pub reasoning_content : String
  pub reasoning : String
  pub reason : String
  pub function_call : Option ChatFunctionCall

pub record ChatFunctionDef : Type 0 where
  pub name : String
  pub description : String
  pub parameters : String
  pub strict : Option Bool

pub record ChatTool : Type 0 where
  pub type : String
  pub function : Option ChatFunctionDef

-- A float64 is carried along as its text; of `StreamOptions` only its presence is read.
pub record ChatRequest : Type 0 where
  pub model : String
  pub messages : List ChatMessage
  pub temperature : Option String
  pub top_p : Option String
  pub max_tokens : Option ℤ
  pub max_completion_tokens : Option ℤ
  pub stream : Bool
  pub stream_options : Option Bool
  pub stop : String
  pub tools : List ChatTool
  pub tool_choice : String
  pub parallel_tool_calls : Option Bool
  pub reasoning_effort : String
  pub prompt_cache_key : Option String
  pub user : String
  pub seed : Option ℤ
  pub n : Option ℤ
  pub logprobs : Option Bool
  pub top_logprobs : Option ℤ
  pub response_format : String

-- The object forms that chatin.go decodes from raw JSON: `tool_choice` (type, name and the function's
-- name) and the form with `disable_parallel_tool_use`.
pub record ChoiceObject : Type 0 where
  pub type : String
  pub name : String
  pub function_name : String

pub record ParallelChoice : Type 0 where
  pub type : String
  pub name : String
  pub disable_parallel_tool_use : Bool

-- encoding/json and strings as chatin.go calls them; `none` is a returned error.
pub record ChatJson : Type 0 where
  pub json : Json
  pub unmarshal_parts : String → Option (List ChatContentPart)
  pub unmarshal_reasoning : String → Option (String × String)
  pub unmarshal_choice : String → Option ChoiceObject
  pub unmarshal_parallel : String → Option ParallelChoice
  pub unmarshal_effort : String → Option String
  pub unmarshal_keys : String → Option (List String)
  pub unmarshal_store : String → Option (Option Bool)
  pub marshal_string : String → String
  pub marshal_choice : CcToolChoice → String
  pub marshal_parallel : ParallelChoice → String
  pub marshal_adaptive : String → String
  pub valid : String → Bool
  pub trim_space : String → String
  pub to_lower : String → String
  pub equal_fold : String → String → Bool

-- The guard `len(raw) == 0 || string(raw) == "null"`.
abbrev pub is_absent : String → Bool
is_absent raw = raw == "" || raw == "null"

-- `ChatFunctionCall.UnmarshalJSON` reads `arguments` by it.
unfoldable pub chat_function_arguments : Json → String → String
chat_function_arguments json raw =
    if is_absent raw then "" else elim (json.unmarshal_string raw) [ some s ↦ s | none ↦ raw ]

abbrev pub ignored_fields : List String
ignored_fields =
    "frequency_penalty" ∷ "presence_penalty" ∷ "logit_bias" ∷ "store" ∷ "prediction" ∷ "extra_body"
    ∷ []

unfoldable pub chat_ignored_fields : ChatJson → String → List String
chat_ignored_fields cj raw = if raw == "" then [] else elim (cj.unmarshal_keys raw) [
  | none ↦ []
  | some keys ↦ select (member keys) ignored_fields
]
