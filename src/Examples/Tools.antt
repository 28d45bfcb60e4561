-- ===== src/Examples/Tools.antt =====
-- A Chat request with tool calls for internal/translate/chatin.go.
use cmdc2api.Base.{String, none, some, [], ◌∷◌, ◌==◌, List, refl, if◌then◌else◌}
use cmdc2api.Types.Inbound.{Block, zero_block, Json}
use cmdc2api.Types.Chat.{ChatMessage, ChatRequest, ChatJson}
use cmdc2api.ChatIn.Convert.{converted}
use cmdc2api.Content.{parse_blocks}
use cmdc2api.Pairing.{inbound_blocks_content}
use cmdc2api.ChatIn.Content.{parse_chat_content, cut_prefix}
use cmdc2api.ChatIn.User.{chat_user_blocks, report_empty, chat_tool_result_content, call_id}
use cmdc2api.ChatIn.Assistant.{
  chat_assistant_blocks, assistant_texts, tool_uses, tool_use, chat_tool_args_report,
  chat_reasoning_text, reasoning_of,
}
use cmdc2api.ChatIn.Sent.{ReadsBack}
use cmdc2api.ChatIn.Kept.{KeepsAnswered, converted-KeepsAnswered}
use cmdc2api.Examples.ChatRequests.{sample, request, message, call}

abbrev hello : List Block
hello = record zero_block { type = "text"; text = "Hello" } ∷ []

abbrev use_block : String → Block
use_block id = record zero_block { type = "tool_use"; id = id; name = "read"; input = "{}" }

abbrev asks : List Block
asks = use_block "a" ∷ use_block "b" ∷ []

abbrev answers : List Block
answers = record zero_block { type = "tool_result"; tool_use_id = "b"; content = "Hello" } ∷ []

-- A list of blocks is encoded as the type of its first block.
abbrev tool_json : Json
tool_json = record {
  unmarshal_string = λ raw. if raw == "'hello'" then some "Hello" else none;
  unmarshal_blocks = λ raw.
      if raw == "text"
      then some hello
      else if raw == "tool_use"
      then some asks
      else if raw == "tool_result"
      then some answers
      else none;
  marshal_blocks = λ bs. elim bs [ [] ↦ none | b ∷ rest ↦ some b.type ];
}

abbrev tools : ChatJson
tools = record sample { json = tool_json }

-- Of the two calls of the assistant, the second is answered.
abbrev dialogue : List ChatMessage
dialogue =
    message "user" "'hello'"
    ∷ record (message "assistant" "") { tool_calls = call "a" ∷ call "b" ∷ [] }
    ∷ record (message "tool" "'hello'") { tool_call_id = "b" }
    ∷ []

abbrev dialogue_request : ChatRequest
dialogue_request = record request { messages = dialogue }

dialogue_reads : ReadsBack tools 0 dialogue
unfolding parse_blocks inbound_blocks_content chat_user_blocks parse_chat_content
    chat_assistant_blocks assistant_texts tool_uses tool_use chat_tool_args_report
    chat_reasoning_text reasoning_of report_empty chat_tool_result_content call_id cut_prefix
dialogue_reads = (refl, (refl, (refl, tt)))

converted-KeepsAnswered_example :
    KeepsAnswered tools dialogue (converted tools dialogue_request).0.messages
converted-KeepsAnswered_example = converted-KeepsAnswered tools dialogue_request dialogue_reads
