-- ===== src/Types/Event.antt =====
-- internal/types/anthropic.go: the outbound SSE events and the aggregated message.
use cmdc2api.Base.{ℕ, String, Option, List, ℤ}

pub data BlockStart : Type 0 where
  text_start : BlockStart
  thinking_start : BlockStart
  tool_use_start : String → String → BlockStart  -- id and name

pub data Delta : Type 0 where
  text_delta : String → Delta
  thinking_delta : String → Delta
  signature_delta : String → Delta
  input_json_delta : String → Delta

pub record DeltaUsage : Type 0 where
  pub output_tokens : ℤ
  pub input_tokens : ℤ
  pub cache_read_input_tokens : ℤ
  pub cache_creation_input_tokens : Option ℤ

-- The payload of a `StreamEvent`; its `Name` and the `Type` fields follow from the constructor.
pub data StreamEvent : Type 0 where
  message_start : String → String → StreamEvent  -- id and model
  content_block_start : ℕ → BlockStart → StreamEvent
  content_block_delta : ℕ → Delta → StreamEvent
  content_block_stop : ℕ → StreamEvent
  message_delta : String → DeltaUsage → StreamEvent  -- stop reason and usage
  message_stop : StreamEvent
  error_event : String → String → StreamEvent  -- type and message

pub record Usage : Type 0 where
  pub input_tokens : ℤ
  pub output_tokens : ℤ
  pub cache_creation_input_tokens : ℤ
  pub cache_read_input_tokens : ℤ

pub record ContentBlock : Type 0 where
  pub type : String
  pub text : String
  pub thinking : String
  pub signature : String
  pub id : String
  pub name : String
  pub input : String

pub record Message : Type 0 where
  pub id : String
  pub type : String
  pub role : String
  pub content : List ContentBlock
  pub model : String
  pub stop_reason : String
  pub usage : Usage
