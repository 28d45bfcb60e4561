-- ===== src/Examples/Envelopes.antt =====
-- Messages and requests for internal/translate/request.go.
use cmdc2api.Base.{
  ◌≤◌, String, ◌≡◌, refl, true, false, none, some, List, [], ◌∷◌, ◌==◌, pos, Dict, if◌then◌else◌,
}
use cmdc2api.Types.Inbound.{ImageSource, Block, zero_block, Request, Json}
use cmdc2api.Types.Cmdc.{CcMessage}
use cmdc2api.Request.{build_cc_request}
use cmdc2api.Request.Shape.{RequestJson, BuildOpts, ParsedMessage, zero_part}
use cmdc2api.Request.User.{convert_user}
use cmdc2api.Request.Assistant.{convert_assistant}
use cmdc2api.Request.Marker.{synthesize_cache_marker}
use cmdc2api.Request.Relay.{
  user_parts_of, tool_messages_of, parts_of_blocks, tools_of_blocks, convert_user_relays,
}
use cmdc2api.Request.Order.{assistant_messages, assistant_parts, convert_assistant_orders}
use cmdc2api.Request.Breakpoint.{MarkedAtTail, breakpoint_at_tail}
use cmdc2api.Request.Bounds.{sent_limit, max_tokens_bounded}

abbrev picture : ImageSource
picture = record { type = "url"; media_type = ""; payload = ""; url = "https://example.org/a.png" }

abbrev shot : Block
shot = record zero_block { type = "image"; source = some picture }

abbrev say : String → Block
say s = record zero_block { type = "text"; text = s }

abbrev sample_json : Json
sample_json = record {
  unmarshal_string = λ raw. if raw == "done" then some "done" else none;
  unmarshal_blocks = λ raw. if raw == "[shot]" then some (say "see" ∷ shot ∷ []) else none;
  marshal_blocks = λ bs. none;
}

abbrev names : Dict String
names = ("a", "screenshot") ∷ []

abbrev answers : ParsedMessage
answers = record {
  role = "user";
  blocks =
      record zero_block { type = "tool_result"; tool_use_id = "a"; content = "[shot]" }
      ∷ say "What is this?"
      ∷ record zero_block { type = "tool_result"; tool_use_id = "x"; content = "done" }
      ∷ [];
  reasoning_content = "";
}

convert_user_relays_example :
    (user_parts_of (convert_user sample_json names answers).0
      ≡ parts_of_blocks sample_json names answers.blocks)
    × (tool_messages_of (convert_user sample_json names answers).0
        ≡ tools_of_blocks sample_json names answers.blocks)
convert_user_relays_example = convert_user_relays sample_json names answers

abbrev turn : ParsedMessage
turn = record {
  role = "assistant";
  blocks =
      record zero_block { type = "tool_use"; id = "a"; name = "screenshot" }
      ∷ say "I look."
      ∷ record zero_block { type = "thinking"; thinking = "Hm" }
      ∷ [];
  reasoning_content = "";
}

convert_assistant_orders_example :
    (convert_assistant true turn).0 ≡ assistant_messages (assistant_parts true "" turn.blocks)
convert_assistant_orders_example = convert_assistant_orders true turn

abbrev two_turns : List CcMessage
two_turns =
    record { role = "user"; content = record zero_part { type = "text"; text = "Hi" } ∷ [] }
    ∷ record { role = "assistant"; content = record zero_part { type = "tool-call" } ∷ [] }
    ∷ []

breakpoint_at_tail_example : MarkedAtTail two_turns (synthesize_cache_marker two_turns true false).0
breakpoint_at_tail_example = breakpoint_at_tail two_turns false refl

abbrev pub request_json : RequestJson
request_json = record {
  json = sample_json;
  unmarshal_tool_choice = λ raw. none;
  unmarshal_thinking = λ raw. none;
  unmarshal_object = λ raw. none;
  marshal_object = λ m. none;
  trim_space = λ s. s;
}

abbrev pub opts : BuildOpts
opts = record {
  today = "2026-01-01";
  node_version = "v22.21.0";
  working_dir = "C:";
  assistant_reasoning = true;
  cache_markers = "";
}

abbrev greedy : Request
greedy = record {
  model = "";
  messages = [];
  system = "";
  max_tokens = pos 900000;
  stream = true;
  temperature = none;
  tools = [];
  tool_choice = "";
  thinking = "";
  prompt_cache_key = "";
  synthesize_tail_cache_marker = false;
}

max_tokens_bounded_example :
    ((build_cc_request request_json opts greedy).0.params.max_tokens
      ≡ pos (sent_limit (pos 900000)))
    × ((1 ≤ sent_limit (pos 900000)) × (sent_limit (pos 900000) ≤ 200000))
max_tokens_bounded_example = max_tokens_bounded request_json opts greedy
