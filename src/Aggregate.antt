-- ===== src/Aggregate.antt =====
-- internal/translate/aggregate.go: the aggregator of Anthropic events into one message. The map
-- `inputJSON` is an association list, the latest entry of a block index first; no two entries have
-- one index in the map, and `Message` reads each index once.
pub mod Reading
pub mod Settle
pub mod ByIndex
pub mod ReadBack
use cmdc2api.Base.{
  ℕ, String, ◌<>◌, ◌==◌, Bool, Option, none, some, List, [], ◌∷◌, ◌++◌, ℤ, pos, eqb, not, ◌||◌,
  if◌then◌else◌,
}
use cmdc2api.Types.Event.{
  BlockStart, text_start, thinking_start, tool_use_start, Delta, text_delta, thinking_delta,
  signature_delta, input_json_delta, StreamEvent, message_start, content_block_start,
  content_block_delta, content_block_stop, message_delta, message_stop, error_event, ContentBlock,
  Message,
}

abbrev pub zero_content : ContentBlock
zero_content = record {
  type = "";
  text = "";
  thinking = "";
  signature = "";
  id = "";
  name = "";
  input = "";
}

pub record Aggregator : Type 0 where
  pub msg : Message
  pub input_json : List (ℕ × String)
  pub cur_idx : ℕ

abbrev pub new_aggregator : Aggregator
new_aggregator = record {
  msg = record {
    id = "";
    type = "message";
    role = "assistant";
    content = [];
    model = "";
    stop_reason = "";
    usage = record {
      input_tokens = pos 0;
      output_tokens = pos 0;
      cache_creation_input_tokens = pos 0;
      cache_read_input_tokens = pos 0;
    };
  };
  input_json = [];
  cur_idx = 0;
}

-- The builder of an index.
unfoldable pub input_of : List (ℕ × String) → ℕ → Option String
input_of [] i = none
input_of ((j, s) ∷ m) i = if eqb j i then some s else input_of m i

-- `WriteString` to the builder of an index, if there is one.
unfoldable pub write_input : List (ℕ × String) → ℕ → String → List (ℕ × String)
write_input [] i s = []
write_input ((j, t) ∷ m) i s =
    let rest = write_input m i s in if eqb j i then (j, t <> s) ∷ m else (j, t) ∷ rest

unfoldable pub block_of_start : BlockStart → ContentBlock
block_of_start text_start = record zero_content { type = "text" }
block_of_start thinking_start = record zero_content { type = "thinking" }
block_of_start (tool_use_start id name) = record zero_content {
  type = "tool_use";
  id = id;
  name = name;
  input = "{}";
}

abbrev pub open_input : List (ℕ × String) → ℕ → BlockStart → List (ℕ × String)
open_input m i (tool_use_start id name) = (i, "") ∷ m
open_input m i text_start = m
open_input m i thinking_start = m

-- What a delta writes to the last block.
unfoldable pub write_block : ContentBlock → Delta → ContentBlock
write_block b (text_delta s) = record b { text = b.text <> s }
write_block b (thinking_delta s) = record b { thinking = b.thinking <> s }
write_block b (signature_delta s) = record b { signature = s }
write_block b (input_json_delta s) = b

unfoldable pub write_last : List ContentBlock → Delta → List ContentBlock
write_last [] d = []
write_last (b ∷ []) d = write_block b d ∷ []
write_last (b ∷ c ∷ bs) d = b ∷ write_last (c ∷ bs) d

abbrev pub write_delta_input : List ContentBlock → List (ℕ × String) → ℕ → Delta → List (ℕ × String)
write_delta_input (b ∷ bs) m i (input_json_delta s) = write_input m i s
write_delta_input _ m i d = m

-- `derefInt`.
abbrev pub deref_int : Option ℤ → ℤ
deref_int none = pos 0
deref_int (some n) = n

unfoldable pub feed_message : Aggregator → StreamEvent → Aggregator
feed_message a (message_start id model) = record a { msg = record a.msg { id = id; model = model } }
feed_message a (content_block_start i b) = record a {
  msg = record a.msg { content = a.msg.content ++ block_of_start b ∷ [] };
  input_json = open_input a.input_json i b;
  cur_idx = i;
}
feed_message a (content_block_delta i d) = record a {
  msg = record a.msg { content = write_last a.msg.content d };
  input_json = write_delta_input a.msg.content a.input_json i d;
}
feed_message a (message_delta reason u) = record a {
  msg = record a.msg {
    stop_reason = reason;
    usage = record {
      input_tokens = u.input_tokens;
      output_tokens = u.output_tokens;
      cache_creation_input_tokens = deref_int u.cache_creation_input_tokens;
      cache_read_input_tokens = u.cache_read_input_tokens;
    };
  };
}
feed_message a (content_block_stop i) = a
feed_message a message_stop = a
feed_message a (error_event type message) = a

-- The input of a block in `Message`: what was accumulated for its index, where it is valid JSON.
-- `json.Valid` is the parameter `valid`.
abbrev pub settled_input : (String → Bool) → ContentBlock → Option String → ContentBlock
settled_input valid b none = b
settled_input valid b (some raw) = record b {
  input = if raw == "" || not (valid raw) then "{}" else raw;
}

-- The loop of `Message`, by the blocks from index `i` on in place of the entries of the map.
unfoldable pub settle_from :
    (String → Bool) → List (ℕ × String) → ℕ → List ContentBlock → List ContentBlock
settle_from valid m i [] = []
settle_from valid m i (b ∷ bs) =
    settled_input valid b (input_of m i) ∷ settle_from valid m (ℕ.suc i) bs

unfoldable pub message_of : (String → Bool) → Aggregator → Message
message_of valid a = record a.msg { content = settle_from valid a.input_json 0 a.msg.content }
