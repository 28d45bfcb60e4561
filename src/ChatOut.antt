-- ===== src/ChatOut.antt =====
-- internal/translate/chatout.go: the Chat Completions encoder and aggregator. A frame is its payload
-- before `json.Marshal`; the id, model and creation time that every chunk repeats are left out.
pub mod Split
pub mod Frames
pub mod Readers
pub mod Agree
use cmdc2api.Base.{
  ℕ, suc, String, Bool, true, false, ◌&&◌, ◌||◌, Option, none, some, List, [], ◌∷◌, ◌++◌, ◌<>◌,
  ◌==◌, ℤ, pos, is_pos, ◌+ℤ◌, eqb, length, map, if◌then◌else◌,
}
use cmdc2api.Types.Event.{
  BlockStart, text_start, thinking_start, tool_use_start, Delta, text_delta, thinking_delta,
  signature_delta, input_json_delta, DeltaUsage, StreamEvent, message_start, content_block_start,
  content_block_delta, content_block_stop, message_delta, message_stop, error_event,
}
use Split.{chat_split_runes}

abbrev pub chat_arg_chunk_size : ℕ
chat_arg_chunk_size = 10

pub record ChatUsage : Type 0 where
  pub prompt_tokens : ℤ
  pub completion_tokens : ℤ
  pub total_tokens : ℤ
  pub cached_tokens : ℤ

-- The creation tokens, where the pointer is there and the number positive.
abbrev pub created_tokens : Option ℤ → ℤ
created_tokens none = pos 0
created_tokens (some n) = if is_pos n then n else pos 0

abbrev pub has_created : Option ℤ → Bool
has_created none = false
has_created (some n) = is_pos n

unfoldable pub chat_usage_from : DeltaUsage → ChatUsage
chat_usage_from u =
    let cached = u.cache_read_input_tokens in
    let base = u.input_tokens +ℤ cached in
    let prompt =
      if has_created u.cache_creation_input_tokens
      then base +ℤ created_tokens u.cache_creation_input_tokens
      else base in
    record {
      prompt_tokens = prompt;
      completion_tokens = u.output_tokens;
      total_tokens = prompt +ℤ u.output_tokens;
      cached_tokens = cached;
    }

unfoldable pub chat_finish_reason : String → String
chat_finish_reason stop_reason =
    if stop_reason == "max_tokens"
    then "length"
    else if stop_reason == "tool_use"
    then "tool_calls"
    else if stop_reason == "refusal"
    then "content_filter"
    else "stop"

-- `openAIErrorShape`: the OpenAI type and code of an Anthropic error type.
unfoldable pub openai_error_shape : String → String × String
openai_error_shape err_type =
    if err_type == "authentication_error"
    then ("invalid_request_error", "invalid_api_key")
    else if err_type == "invalid_request_error"
    then ("invalid_request_error", "invalid_request_error")
    else if err_type == "rate_limit_error"
    then ("rate_limit_error", "rate_limit_exceeded")
    else if err_type == "not_found_error"
    then ("not_found_error", "not_found_error")
    else ("server_error", "server_error")

-- `OpenAIErrorBody`; `param` is always null.
pub record OpenAiError : Type 0 where
  pub message : String
  pub type : String
  pub code : String

unfoldable pub openai_error_body : String → String → OpenAiError
openai_error_body err_type message =
    let (type, code) = openai_error_shape err_type in
    record { message = message; type = type; code = code }

-- The chunks: the role, text, reasoning, the start of a tool call with its index, id and name, a
-- fragment of its arguments, the finish reason, the usage, the end marker, and an error.
pub data Frame : Type 0 where
  role_frame : Frame
  content_frame : String → Frame
  reasoning_frame : String → Frame
  tool_frame : ℕ → String → String → Frame
  args_frame : ℕ → String → Frame
  finish_frame : String → Frame
  usage_frame : ChatUsage → Frame
  done_frame : Frame
  error_frame : OpenAiError → Frame

pub record ChatEncoder : Type 0 where
  pub started : Bool
  pub has_error : Bool
  pub finished : Bool
  pub tool_index : ℕ
  pub cur_tool : ℕ
  pub stop_reason : String
  pub usage : DeltaUsage

abbrev pub zero_delta_usage : DeltaUsage
zero_delta_usage = record {
  output_tokens = pos 0;
  input_tokens = pos 0;
  cache_read_input_tokens = pos 0;
  cache_creation_input_tokens = none;
}

abbrev pub new_chat_encoder : ChatEncoder
new_chat_encoder = record {
  started = false;
  has_error = false;
  finished = false;
  tool_index = 0;
  cur_tool = 0;
  stop_reason = "";
  usage = zero_delta_usage;
}

-- `withRole` for one frame.
unfoldable pub with_role : ChatEncoder → Frame → ChatEncoder × List Frame
with_role e frame =
    if e.started then (e, frame ∷ []) else (record e { started = true }, role_frame ∷ frame ∷ [])

-- `finishFrames`.
unfoldable pub finish_frames : ChatEncoder → ChatEncoder × List Frame
finish_frames e = if e.finished then (e, []) else (
  record e { finished = true; started = true },
  (if e.started then [] else role_frame ∷ [])
      ++ finish_frame (chat_finish_reason e.stop_reason)
        ∷ usage_frame (chat_usage_from e.usage)
        ∷ done_frame
        ∷ [],
)

-- `errorFrames`.
unfoldable pub error_frames : ChatEncoder → String → String → ChatEncoder × List Frame
error_frames e type message = (
  record e { has_error = true },
  if e.started then error_frame (openai_error_body type message) ∷ [] else [],
)

unfoldable pub encode_start : ChatEncoder → BlockStart → ChatEncoder × List Frame
encode_start e text_start = (e, [])
encode_start e thinking_start = (e, [])
encode_start e (tool_use_start id name) =
    with_role (record e { cur_tool = e.tool_index; tool_index = suc e.tool_index })
      (tool_frame e.tool_index id name)

unfoldable pub encode_delta : ChatEncoder → Delta → ChatEncoder × List Frame
encode_delta e (text_delta text) = if text == "" then (e, []) else with_role e (content_frame text)
encode_delta e (thinking_delta thinking) =
    if thinking == "" then (e, []) else with_role e (reasoning_frame thinking)
encode_delta e (input_json_delta json) =
    (e, map (args_frame e.cur_tool) (chat_split_runes json chat_arg_chunk_size))
encode_delta e (signature_delta s) = (e, [])

-- The `switch` of `Feed`.
unfoldable pub encode_event : ChatEncoder → StreamEvent → ChatEncoder × List Frame
encode_event e (content_block_start i b) = encode_start e b
encode_event e (content_block_delta i d) = encode_delta e d
encode_event e (message_delta reason usage) = (record e { stop_reason = reason; usage = usage }, [])
encode_event e message_stop = finish_frames e
encode_event e (error_event type message) = error_frames e type message
encode_event e (message_start id model) = (e, [])
encode_event e (content_block_stop i) = (e, [])

unfoldable pub encoder_feed : ChatEncoder → StreamEvent → ChatEncoder × List Frame
encoder_feed e ev = if e.finished || e.has_error then (e, []) else encode_event e ev

unfoldable pub encoder_finish : ChatEncoder → ChatEncoder × List Frame
encoder_finish e = if e.finished || e.has_error then (e, []) else finish_frames e

-- `encodeAll` of internal/server/pipeline.go, at this encoder.
unfoldable pub encode_all : ChatEncoder → List StreamEvent → ChatEncoder × List Frame
encode_all e [] = (e, [])
encode_all e (ev ∷ evs) =
    let (e', frames) = encoder_feed e ev in
    let (e'', more) = encode_all e' evs in (e'', frames ++ more)

pub record ChatAggTool : Type 0 where
  pub id : String
  pub name : String
  pub args : String

pub record ChatAggregator : Type 0 where
  pub text : String
  pub reasoning : String
  pub tools : List ChatAggTool
  pub tool_by_blk : List (ℕ × ℕ)  -- block index to tool index, the latest entry first
  pub stop_reason : String
  pub usage : DeltaUsage

abbrev pub new_chat_aggregator : ChatAggregator
new_chat_aggregator = record {
  text = "";
  reasoning = "";
  tools = [];
  tool_by_blk = [];
  stop_reason = "";
  usage = zero_delta_usage;
}

unfoldable pub tool_of_block : List (ℕ × ℕ) → ℕ → Option ℕ
tool_of_block [] i = none
tool_of_block ((j, k) ∷ m) i = if eqb j i then some k else tool_of_block m i

unfoldable pub add_args : List ChatAggTool → ℕ → String → List ChatAggTool
add_args [] k s = []
add_args (t ∷ ts) ℕ.zero s = record t { args = t.args <> s } ∷ ts
add_args (t ∷ ts) (suc k) s = t ∷ add_args ts k s

unfoldable pub aggregate_start : ChatAggregator → ℕ → BlockStart → ChatAggregator
aggregate_start a i text_start = a
aggregate_start a i thinking_start = a
aggregate_start a i (tool_use_start id name) = record a {
  tool_by_blk = (i, length a.tools) ∷ a.tool_by_blk;
  tools = a.tools ++ record { id = id; name = name; args = "" } ∷ [];
}

unfoldable pub aggregate_args : ChatAggregator → Option ℕ → String → ChatAggregator
aggregate_args a none s = a
aggregate_args a (some k) s = record a { tools = add_args a.tools k s }

unfoldable pub aggregate_delta : ChatAggregator → ℕ → Delta → ChatAggregator
aggregate_delta a i (text_delta text) = record a { text = a.text <> text }
aggregate_delta a i (thinking_delta thinking) = record a { reasoning = a.reasoning <> thinking }
aggregate_delta a i (input_json_delta json) = aggregate_args a (tool_of_block a.tool_by_blk i) json
aggregate_delta a i (signature_delta s) = a

unfoldable pub aggregator_feed : ChatAggregator → StreamEvent → ChatAggregator
aggregator_feed a (content_block_start i b) = aggregate_start a i b
aggregator_feed a (content_block_delta i d) = aggregate_delta a i d
aggregator_feed a (message_delta reason usage) = record a { stop_reason = reason; usage = usage }
aggregator_feed a (error_event type message) = a
aggregator_feed a (message_start id model) = a
aggregator_feed a (content_block_stop i) = a
aggregator_feed a message_stop = a

pub record ChatToolCall : Type 0 where
  pub id : String
  pub name : String
  pub arguments : String

-- `ChatCompletion`, of which the one choice and the usage; a nil `Content` is `none`.
pub record ChatCompletion : Type 0 where
  pub content : Option String
  pub reasoning_content : String
  pub tool_calls : List ChatToolCall
  pub finish_reason : String
  pub usage : ChatUsage

-- `json.Valid`, at a text, is the parameter `valid`.
unfoldable pub tool_call_of : (String → Bool) → ChatAggTool → ChatToolCall
tool_call_of valid t = record {
  id = t.id;
  name = t.name;
  arguments = if t.args == "" then "{}" else if valid t.args then t.args else "{}";
}

unfoldable pub completion : (String → Bool) → ChatAggregator → ChatCompletion
completion valid a = record {
  content = if a.text == "" then none else some a.text;
  reasoning_content = a.reasoning;
  tool_calls = map (tool_call_of valid) a.tools;
  finish_reason = chat_finish_reason a.stop_reason;
  usage = chat_usage_from a.usage;
}
