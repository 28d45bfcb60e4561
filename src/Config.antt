-- ===== src/Config.antt =====
-- internal/config/config.go: the configuration, from the environment. `os.Getenv` and the parsers of
-- strconv and time are parameters; times are nanoseconds.
pub mod Valid
use cmdc2api.Base.{
  ℕ, ◌*◌, String, Bool, true, false, ◌||◌, Option, none, some, ◌==◌, ℤ, pos, negsuc, wrap64,
  pos_part, neg_part, is_pos, if◌then◌else◌,
}

pub record Config : Type 0 where
  pub port : ℤ
  pub host : String
  pub api_base : String
  pub state_file : String
  pub zdr : Bool
  pub max_body_bytes : ℤ
  pub model_refresh : ℤ
  pub idle_stream : ℤ
  pub idle_buffer : ℤ
  pub session_strategy : String
  pub cache_markers : String
  pub assistant_reasoning : Bool
  pub fake_node_version : String

pub record Environment : Type 0 where
  pub getenv : String → String
  pub atoi : String → Option ℤ
  pub parse_int : String → Option ℤ
  pub parse_duration : String → Option ℤ

-- A parsed number above zero, else the default.
unfoldable pub positive_or : ℤ → Option ℤ → ℤ
positive_or d none = d
positive_or d (some n) = if is_pos n then n else d

abbrev pub default_mb : ℤ
default_mb = pos 100

-- A number of megabytes in bytes, on an int64.
unfoldable pub bytes_of_mb : ℤ → ℤ
bytes_of_mb n = wrap64 (pos_part n * 1048576) (neg_part n * 1048576)

abbrev pub text_or : String → String → String
text_or d v = if v == "" then d else v

abbrev pub choice_or : String → String → String → String
choice_or d other v = if v == d || v == other then v else d

abbrev pub number_or : (String → Option ℤ) → ℤ → String → ℤ
number_or parse d v = if v == "" then d else positive_or d (parse v)

unfoldable pub load : Environment → Config
load e = record {
  port = number_or e.atoi (pos 8050) (e.getenv "PORT");
  host = text_or "127.0.0.1" (e.getenv "HOST");
  api_base = text_or "https://api.commandcode.ai" (e.getenv "CC_API_BASE");
  state_file = text_or "data/state.json" (e.getenv "CC_STATE_FILE");
  zdr = e.getenv "CMD_ZDR" == "1";
  max_body_bytes = bytes_of_mb (number_or e.parse_int default_mb (e.getenv "CC_MAX_BODY_MB"));
  model_refresh = number_or e.parse_duration (pos 300000000000) (e.getenv "CC_MODEL_REFRESH");
  idle_stream = pos 30000000000;
  idle_buffer = pos 90000000000;
  session_strategy = choice_or "prefix" "key" (e.getenv "CC_SESSION_STRATEGY");
  cache_markers = choice_or "respect" "replace" (e.getenv "CC_CACHE_MARKERS");
  assistant_reasoning =
      if e.getenv "CC_ASSISTANT_REASONING" == ""
      then true
      else e.getenv "CC_ASSISTANT_REASONING" == "1" || e.getenv "CC_ASSISTANT_REASONING" == "true";
  fake_node_version = text_or "v22.21.0" (e.getenv "CC_FAKE_NODE_VERSION");
}
