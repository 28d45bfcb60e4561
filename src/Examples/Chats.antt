-- ===== src/Examples/Chats.antt =====
-- Event sequences and texts for internal/translate/chatout.go and aggregate.go.
use cmdc2api.Base.{true, ◌≤◌, ◌≡◌, refl, some, List, [], ◌∷◌, ◌++◌, All, arith}
use cmdc2api.Types.Event.{
  text_start, tool_use_start, text_delta, input_json_delta, StreamEvent, message_start,
  content_block_start, content_block_delta, content_block_stop, message_delta, message_stop,
}
use cmdc2api.ChatOut.Readers.{aggregate}
use cmdc2api.ChatOut.Agree.{SaysSame, stream_agrees}
use cmdc2api.Aggregate.{new_aggregator, message_of}
use cmdc2api.Aggregate.Reading.{starts, aggregated}
use cmdc2api.Aggregate.ReadBack.{blocks_read, message_by_index}
use cmdc2api.Stream.Protocol.{stopped}
use cmdc2api.ChatOut.{
  new_chat_aggregator, completion, new_chat_encoder, zero_delta_usage, encode_all, encoder_finish,
}
use cmdc2api.ChatOut.Frames.{unopened, read_frames, end_stage, frames_orderly}
use cmdc2api.ChatOut.Split.{chat_split_runes, join_texts, rune_count, chat_split_runes_exact}

abbrev pub events : List StreamEvent
events =
    message_start "msg_1" "m"
    ∷ content_block_start 0 text_start
    ∷ content_block_delta 0 (text_delta "Hi")
    ∷ content_block_stop 0
    ∷ content_block_start 1 (tool_use_start "a" "read")
    ∷ content_block_delta 1 (input_json_delta "{\"path\":\"/tmp\"}")
    ∷ content_block_stop 1
    ∷ message_delta "tool_use" zero_delta_usage
    ∷ message_stop
    ∷ []

frames_orderly_example :
    read_frames unopened (
      (encode_all new_chat_encoder events).1
      ++ (encoder_finish (encode_all new_chat_encoder events).0).1)
    ≡ some (end_stage (encode_all new_chat_encoder events).0)
frames_orderly_example = frames_orderly stopped events refl

chat_split_runes_exact_example :
    (join_texts (chat_split_runes "{\"path\":\"/tmp\"}" 10) ≡ "{\"path\":\"/tmp\"}")
    × All (λ p. rune_count p ≤ 10) (chat_split_runes "{\"path\":\"/tmp\"}" 10)
chat_split_runes_exact_example = chat_split_runes_exact "{\"path\":\"/tmp\"}" 10 (omega arith)

abbrev middle : List StreamEvent
middle =
    message_start "msg_1" "m"
    ∷ content_block_start 0 text_start
    ∷ content_block_delta 0 (text_delta "Hi")
    ∷ content_block_stop 0
    ∷ content_block_start 1 (tool_use_start "a" "read")
    ∷ content_block_delta 1 (input_json_delta "{}")
    ∷ content_block_stop 1
    ∷ message_delta "tool_use" zero_delta_usage
    ∷ []

stream_agrees_example :
    SaysSame
      (encode_all new_chat_encoder (middle ++ message_stop ∷ [])).1
      (completion (λ s. true) (aggregate new_chat_aggregator (middle ++ message_stop ∷ [])))
stream_agrees_example =
    stream_agrees (λ s. true) middle (tt, (tt, (tt, (tt, (tt, (tt, (tt, (tt, tt))))))))

message_by_index_example :
    (message_of (λ s. true) (aggregated new_aggregator events)).content
    ≡ blocks_read (λ s. true) 0 (starts events) events
message_by_index_example = message_by_index (λ s. true) stopped events refl
