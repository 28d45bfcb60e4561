-- ===== src/Examples/ChatRequests.antt =====
-- A Chat request for internal/translate/chatin.go.
use cmdc2api.Base.{
  String, ◌≡◌, refl, true, false, none, some, List, [], ◌∷◌, ◌++◌, ◌==◌, map, select, pos,
  if◌then◌else◌,
}
use cmdc2api.Types.Inbound.{Block, zero_block, Json}
use cmdc2api.Types.Chat.{ChatContentPart, ChatToolCall, ChatMessage, ChatRequest, ChatJson}
use cmdc2api.ChatIn.Content.{chat_image_source, parse_chat_content}
use cmdc2api.ChatIn.Assistant.{chat_reasoning_text, thinking_block, chat_assistant_blocks}
use cmdc2api.ChatIn.Convert.{converted, normalize_message}
use cmdc2api.ChatIn.Reported.{IsReported, normalize_message-IsReported}
use cmdc2api.ChatIn.Calls.{content_texts, use_of, is_usable, chat_assistant_blocks-kept}
use cmdc2api.ChatIn.Parallel.{IsSequential, converted-IsSequential}
use cmdc2api.ChatIn.DataUri.{data_uri, embedded, chat_image_source-data_uri}
use cmdc2api.ChatIn.Family.{families, describe, aggregate_request_warns}
use cmdc2api.ChatIn.Families.{AreFamilies, aggregate_request_warns-AreFamilies}

abbrev text : String → Block
text s = record zero_block { type = "text"; text = s }

abbrev sample_json : Json
sample_json = record {
  unmarshal_string = λ raw. if raw == "'hello'" then some "Hello" else none;
  unmarshal_blocks = λ raw. if raw == "[text]" then some (text "Hello" ∷ []) else none;
  marshal_blocks = λ bs. some "[text]";
}

abbrev part : String → String → ChatContentPart
part type s = record { type = type; text = s; image_url = none; input_audio = "" }

abbrev pub sample : ChatJson
sample = record {
  json = sample_json;
  unmarshal_parts = λ raw.
      if raw == "[parts]" then some (part "text" "Hi" ∷ part "input_audio" "" ∷ []) else none;
  unmarshal_reasoning = λ raw. none;
  unmarshal_choice = λ raw. none;
  unmarshal_parallel = λ raw. none;
  unmarshal_effort = λ raw. none;
  unmarshal_keys = λ raw. none;
  unmarshal_store = λ raw. none;
  marshal_string = λ s. s;
  marshal_choice = λ c. c.type;
  marshal_parallel = λ c. c.type;
  marshal_adaptive = λ s. s;
  valid = λ s. s == "{}";
  trim_space = λ s. s;
  to_lower = λ s. s;
  equal_fold = λ s t. s == t;
}

abbrev pub message : String → String → ChatMessage
message role content = record {
  role = role;
  content = content;
  name = "";
  tool_calls = [];
  tool_call_id = "";
  reasoning_content = "";
  reasoning = "";
  reason = "";
  function_call = none;
}

abbrev pub call : String → ChatToolCall
call id = record {
  index = none;
  id = id;
  type = "function";
  function = record { name = "read"; arguments = "{}" };
}

abbrev pub request : ChatRequest
request = record {
  model = "m";
  messages = message "user" "'hello'" ∷ message "narrator" "[parts]" ∷ [];
  temperature = none;
  top_p = none;
  max_tokens = some (pos 10);
  max_completion_tokens = none;
  stream = true;
  stream_options = none;
  stop = "";
  tools =
      record {
        type = "function";
        function =
            some (record { name = "read"; description = ""; parameters = ""; strict = none });
      }
      ∷ [];
  tool_choice = "";
  parallel_tool_calls = some false;
  reasoning_effort = "";
  prompt_cache_key = none;
  user = "";
  seed = none;
  n = none;
  logprobs = none;
  top_logprobs = none;
  response_format = "";
}

normalize_message-IsReported_example :
    IsReported (normalize_message sample 3 (message "user" "[nothing]"))
normalize_message-IsReported_example =
    normalize_message-IsReported sample 3 (message "user" "[nothing]")

abbrev turn : ChatMessage
turn = record (message "assistant" "[parts]") { tool_calls = call "a" ∷ call "" ∷ [] }

chat_assistant_blocks-kept_example :
    (chat_assistant_blocks sample 1 turn).0
    ≡ thinking_block (chat_reasoning_text sample turn)
      ++ (content_texts (parse_chat_content sample "[parts]")
          ++ map (use_of sample) (select is_usable (call "a" ∷ call "" ∷ [])))
chat_assistant_blocks-kept_example = chat_assistant_blocks-kept sample 1 turn

converted-IsSequential_example :
    IsSequential sample (converted sample request).0.tool_choice (converted sample request).1
converted-IsSequential_example = converted-IsSequential sample request refl

chat_image_source-data_uri_example :
    chat_image_source sample (data_uri "image/gif" "AAAA") ≡ some (embedded "image/gif" "AAAA")
chat_image_source-data_uri_example =
    chat_image_source-data_uri sample "image/gif" "AAAA" refl refl refl refl

abbrev warnings : List String
warnings = "message 1: dropped" ∷ "stop ignored" ∷ "message 22: dropped" ∷ []

aggregate_request_warns-AreFamilies_example :
    (aggregate_request_warns (λ n. "1") warnings
      ≡ map (λ f. describe (λ n. "1") f.first f.rest) (families warnings))
    × AreFamilies warnings (families warnings)
aggregate_request_warns-AreFamilies_example =
    aggregate_request_warns-AreFamilies (λ n. "1") warnings
