-- ===== src/Types/Cmdc.antt =====
-- internal/types/cmdc.go: the request envelope's messages and the NDJSON events of the upstream.
use cmdc2api.Base.{String, Bool, Option, some, none, List, ℤ, pos, is_zero, if◌then◌else◌}
use cmdc2api.Types.Inbound.{CacheControl}

pub record CcToolOutput : Type 0 where
  pub type : String
  pub value : String

pub record CcPart : Type 0 where
  pub type : String
  pub text : String
  pub image : String
  pub tool_call_id : String
  pub tool_name : String
  pub input : String
  pub output : Option CcToolOutput
  pub cache_control : Option CacheControl

pub record CcMessage : Type 0 where
  pub role : String
  pub content : List CcPart

pub record CcTool : Type 0 where
  pub type : String
  pub name : String
  pub description : String
  pub input_schema : String

pub record CcToolChoice : Type 0 where
  pub type : String
  pub name : String

pub record CcConfig : Type 0 where
  pub working_dir : String
  pub today : String  -- `Date`
  pub environment : String
  pub structure_entries : List String  -- `Structure`, always empty
  pub is_git_repo : Bool
  pub current_branch : String
  pub main_branch : String
  pub git_status : String
  pub recent_commits : List String

pub record CcParams : Type 0 where
  pub model : String
  pub messages : List CcMessage
  pub max_tokens : ℤ
  pub stream : Bool
  pub system : String
  pub temperature : Option String
  pub reasoning_effort : String
  pub tools : List CcTool
  pub tool_choice : Option CcToolChoice
  pub parallel_tool_calls : Option Bool

-- `Memory` and `Taste` are always nil.
pub record CcRequest : Type 0 where
  pub config : CcConfig
  pub skills : String
  pub permission_mode : String
  pub params : CcParams

pub record CcInputTokenDetails : Type 0 where
  pub no_cache_tokens : Option ℤ
  pub cache_read_tokens : ℤ
  pub cache_write_tokens : ℤ

pub record CcUsage : Type 0 where
  pub input_tokens : ℤ
  pub output_tokens : ℤ
  pub cached_input_tokens : ℤ
  pub input_token_details : Option CcInputTokenDetails

pub record CcEvent : Type 0 where
  pub type : String
  pub text : String
  pub delta : String
  pub tool_call_id : String
  pub tool_name : String
  pub input : String
  pub finish_reason : String
  pub total_usage : Option CcUsage
  pub usage : Option CcUsage
  pub error : Option String  -- the message of a `*CcEventError`
  pub message : String

unfoldable pub normalize_details : Option CcInputTokenDetails → Option CcInputTokenDetails
normalize_details none = none
normalize_details (some d) = some (record {
  no_cache_tokens = some (pos 0);
  cache_read_tokens = pos 0;
  cache_write_tokens = pos 0;
})

-- `(*CcUsage).Normalize`: an answer without output tokens is billed nothing.
unfoldable pub normalize : CcUsage → CcUsage
unfolding normalize_details
normalize u =
    if is_zero u.output_tokens
    then record u {
      input_tokens = pos 0;
      cached_input_tokens = pos 0;
      input_token_details = normalize_details u.input_token_details;
    }
    else u
