-- ===== src/Types/Inbound.antt =====
-- internal/types/anthropic.go: the inbound Anthropic request, and encoding/json as the code calls it.
use cmdc2api.Base.{String, Bool, Option, List, ℤ}

pub record CacheControl : Type 0 where
  pub type : String
  pub ttl : String

pub record ImageSource : Type 0 where
  pub type : String
  pub media_type : String
  pub payload : String  -- `Data`
  pub url : String

pub record Block : Type 0 where
  pub type : String
  pub text : String
  pub thinking : String
  pub reasoning : String
  pub reasoning_content : String
  pub signature : String
  pub source : Option ImageSource
  pub id : String
  pub name : String
  pub input : String
  pub tool_use_id : String
  pub content : String
  pub is_error : Bool
  pub cache_control : Option CacheControl

-- The zero value of `Block`.
abbrev pub zero_block : Block
zero_block = record {
  type = "";
  text = "";
  thinking = "";
  reasoning = "";
  reasoning_content = "";
  signature = "";
  source = Option.none;
  id = "";
  name = "";
  input = "";
  tool_use_id = "";
  content = "";
  is_error = Bool.false;
  cache_control = Option.none;
}

pub record InboundMessage : Type 0 where
  pub role : String
  pub content : String
  pub reasoning_content : String

pub record Tool : Type 0 where
  pub name : String
  pub description : String
  pub input_schema : String
  pub cache_control : Option CacheControl

-- `TopP`, `TopK`, `StopSequences` and `Metadata` are read by nothing that is modelled.
pub record Request : Type 0 where
  pub model : String
  pub messages : List InboundMessage
  pub system : String
  pub max_tokens : ℤ
  pub stream : Bool
  pub temperature : Option String  -- a float64, carried along as its text
  pub tools : List Tool
  pub tool_choice : String
  pub thinking : String
  pub prompt_cache_key : String
  pub synthesize_tail_cache_marker : Bool

-- `json.Unmarshal` and `json.Marshal` at the types of this package that the modelled code asks for;
-- `none` is a returned error.
pub record Json : Type 0 where
  pub unmarshal_string : String → Option String
  pub unmarshal_blocks : String → Option (List Block)
  pub marshal_blocks : List Block → Option String
