-- ===== src/Examples/Handled.antt =====
-- Whole requests for internal/server.
use cmdc2api.Base.{◌≡◌, true, false, none, [], ◌∷◌, pos, leb, length, if◌then◌else◌}
use cmdc2api.Types.Inbound.{Request}
use cmdc2api.Server.Serve.{completed}
use cmdc2api.Server.Body.{
  complete, too_large, unreadable, read_limited, concat_bytes, read_limited-judged,
}
use cmdc2api.Server.Handlers.{answering, Setting, decoded, Incoming, handle_messages}
use cmdc2api.Server.Answered.{HasResponse, handle_messages-HasResponse}
use cmdc2api.Examples.Streams.{sample_codec, body}
use cmdc2api.Examples.Envelopes.{request_json, opts}
use cmdc2api.Examples.Statuses.{sample_text}

abbrev setting : Setting
setting = record {
  codec = sample_codec;
  body_text = sample_text;
  request_json = request_json;
  opts = opts;
  message_id = "msg_1";
  consec = 2;
  upstream = λ r. answering body completed;
}

abbrev incoming : Incoming
incoming = record {
  limit = 10;
  chunks = (b'{' ∷ []) ∷ (b'}' ∷ []) ∷ [];
  fails = false;
  authorization = "Bearer user_1";
  x_api_key = "";
  valid = λ bytes. true;
  itoa = λ n. "100";
  trim_space = λ s. s;
}

abbrev plain : Request
plain = record {
  model = "";
  messages = record { role = "user"; content = "Hi"; reasoning_content = "" } ∷ [];
  system = "";
  max_tokens = pos 10;
  stream = true;
  temperature = none;
  tools = [];
  tool_choice = "";
  thinking = "";
  prompt_cache_key = "";
  synthesize_tail_cache_marker = false;
}

read_limited-judged_example : read_limited 2 ((1 ∷ 2 ∷ []) ∷ (3 ∷ []) ∷ []) false ≡ (
    if leb (length (concat_bytes ((1 ∷ 2 ∷ []) ∷ (3 ∷ []) ∷ []))) 2
    then (if false then unreadable else complete (concat_bytes ((1 ∷ 2 ∷ []) ∷ (3 ∷ []) ∷ [])))
    else too_large)
read_limited-judged_example = read_limited-judged 2 ((1 ∷ 2 ∷ []) ∷ (3 ∷ []) ∷ []) false

handle_messages-HasResponse_example :
    HasResponse (handle_messages (λ s. true) setting (λ bytes. decoded plain) incoming)
handle_messages-HasResponse_example =
    handle_messages-HasResponse (λ s. true) setting (λ bytes. decoded plain) incoming (λ r. tt)
