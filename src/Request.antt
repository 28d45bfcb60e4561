-- ===== src/Request.antt =====
-- internal/translate/request.go: `BuildCcRequest`, from an Anthropic request to the envelope of cmdc.
pub mod Shape
pub mod User
pub mod Assistant
pub mod Tools
pub mod Marker
pub mod Relay
pub mod Order
pub mod Breakpoint
pub mod Bounds
use cmdc2api.Base.{
  ℕ, suc, ◌+◌, String, ◌<>◌, Bool, true, false, not, ◌&&◌, ◌||◌, Option, none, some, List, [], ◌∷◌,
  ◌++◌, map, ◌==◌, ℤ, pos, is_pos, is_some, is_nil, length, foldl, select, Dict, put, if◌then◌else◌,
}
use cmdc2api.Types.Inbound.{Block, InboundMessage, Request, Json}
use cmdc2api.Types.Cmdc.{CcMessage, CcConfig, CcToolChoice, CcRequest}
use cmdc2api.Content.{parse_blocks}
use Shape.{
  Warn, content_dropped, markers_stripped, no_messages, markers_present, max_tokens_clamped,
  RequestJson, BuildOpts, ParsedMessage, parse_system,
}
use User.{convert_user}
use Assistant.{convert_assistant}
use Tools.{convert_tools, convert_tool_choice, thinking_effort, at_least}
use Marker.{any_part_marked, synthesize_cache_marker}

unfoldable pub keep_message :
    ℕ
    → InboundMessage
    → Option (List Block)
    → List ParsedMessage × List Warn
    → List ParsedMessage × List Warn
keep_message i m none (out, warns) = (out, content_dropped i m.role ∷ warns)
keep_message i m (some blocks) (out, warns) = (
  record { role = m.role; blocks = blocks; reasoning_content = m.reasoning_content } ∷ out,
  warns,
)

-- The first loop, from message `i` on.
unfoldable pub parse_messages : Json → ℕ → List InboundMessage → List ParsedMessage × List Warn
parse_messages json i [] = ([], [])
parse_messages json i (m ∷ ms) =
    keep_message i m (parse_blocks json m.content) (parse_messages json (suc i) ms)

unfoldable pub name_block : Dict String → Block → Dict String
name_block names b =
    if b.type == "tool_use" && not (b.id == "") then put names b.id b.name else names

-- `toolNames`, which the first loop fills too.
unfoldable pub name_message : Dict String → ParsedMessage → Dict String
name_message names m = if m.role == "assistant" then foldl name_block names m.blocks else names

unfoldable pub tool_names : List ParsedMessage → Dict String
tool_names ms = foldl name_message [] ms

unfoldable pub strip_block : Block → Block
strip_block b = record b { cache_control = none }

unfoldable pub strip_message : ParsedMessage → ParsedMessage
strip_message m = record m { blocks = map strip_block m.blocks }

abbrev pub count_marked : List ParsedMessage → ℕ
count_marked [] = 0
count_marked (m ∷ ms) =
    length (select (λ (b : Block). is_some b.cache_control) m.blocks) + count_marked ms

-- `CC_CACHE_MARKERS=replace`.
unfoldable pub strip_markers : Bool → List ParsedMessage → List ParsedMessage × List Warn
strip_markers replace ms =
    if replace then (map strip_message ms, markers_stripped (count_marked ms) ∷ []) else (ms, [])

unfoldable pub convert_message :
    Json → Dict String → Bool → ParsedMessage → List CcMessage × List Warn
convert_message json names keep pm =
    if pm.role == "assistant" then convert_assistant keep pm else convert_user json names pm

unfoldable pub convert_messages :
    Json → Dict String → Bool → List ParsedMessage → List CcMessage × List Warn
convert_messages json names keep [] = ([], [])
convert_messages json names keep (m ∷ ms) =
    let (out, warns) = convert_message json names keep m in
    let (outs, more) = convert_messages json names keep ms in (out ++ outs, warns ++ more)

-- `markerIdx`, from message `i` on.
abbrev pub marker_indexes : ℕ → List CcMessage → List ℕ
marker_indexes i [] = []
marker_indexes i (m ∷ ms) =
    let rest = marker_indexes (suc i) ms in if any_part_marked m.content then i ∷ rest else rest

unfoldable pub message_warns : List CcMessage → List Warn
message_warns msgs =
    let idx = marker_indexes 0 msgs in
    (if is_nil msgs then no_messages ∷ [] else [])
    ++ (if is_nil idx then [] else markers_present idx ∷ [])

-- The messages of the envelope, from the parsed ones to the cache breakpoint; `need` is whether a
-- mark on the system prompt, on a tool or on the request asks for one.
unfoldable pub envelope_messages :
    Json → BuildOpts → Bool → List ParsedMessage → List CcMessage × List Warn
envelope_messages json opts need parsed =
    let replace = opts.cache_markers == "replace" in
    let (ms, w₁) = strip_markers replace parsed in
    let (msgs, w₂) = convert_messages json (tool_names parsed) opts.assistant_reasoning ms in
    let (marked, w₃) = synthesize_cache_marker msgs (need || replace) replace in
    (marked, w₁ ++ w₂ ++ message_warns msgs ++ w₃)

-- The bounds on `max_tokens`.
unfoldable pub clamp_max_tokens : ℤ → ℤ × List Warn
clamp_max_tokens n =
    let m = if is_pos n then n else pos 64000 in
    if at_least m (pos 200001) then (pos 200000, max_tokens_clamped n ∷ []) else (m, [])

unfoldable pub config_of : BuildOpts → CcConfig
config_of opts = record {
  working_dir = opts.working_dir;
  today = opts.today;
  environment = "win32-x64, Node.js " <> opts.node_version;
  structure_entries = [];
  is_git_repo = false;
  current_branch = "";
  main_branch = "";
  git_status = "";
  recent_commits = [];
}

-- `ParallelToolCalls` is set only beside a tool choice.
abbrev pub parallel_of : Option CcToolChoice → Option Bool → Option Bool
parallel_of none parallel = none
parallel_of (some tc) parallel = parallel

unfoldable pub build_cc_request : RequestJson → BuildOpts → Request → CcRequest × List Warn
build_cc_request rj opts req =
    let (sys_text, sys_marked) = parse_system rj.json req.system in
    let (tools, (tools_marked, w₁)) = convert_tools rj req.tools in
    let (parsed, w₂) = parse_messages rj.json 0 req.messages in
    let (msgs, w₃) =
      envelope_messages rj.json opts
        (sys_marked || tools_marked || req.synthesize_tail_cache_marker) parsed in
    let (max_tokens, w₄) = clamp_max_tokens req.max_tokens in
    let ((choice, parallel), w₅) = convert_tool_choice rj req.tool_choice in
    (
      record {
        config = config_of opts;
        skills = "";
        permission_mode = "standard";
        params = record {
          model = if req.model == "" then "deepseek/deepseek-v4-flash" else req.model;
          messages = msgs;
          max_tokens = max_tokens;
          stream = true;
          system = sys_text;
          temperature = req.temperature;
          reasoning_effort = thinking_effort rj req.thinking;
          tools = tools;
          tool_choice = choice;
          parallel_tool_calls = parallel_of choice parallel;
        };
      },
      w₁ ++ w₂ ++ w₃ ++ w₄ ++ w₅,
    )
