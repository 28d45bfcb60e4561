-- ===== src/Server/Anthropic.antt =====
-- internal/server/pipeline.go: `anthropicEncoder` and `anthropicAggregator`. A frame is the event, of
-- which `Encode` makes the text; `json.Valid` is the parameter `valid`.
use cmdc2api.Base.{ℕ, String, ◌≡◌, Bool, Option, none, some, List, [], ◌∷◌}
use cmdc2api.Types.Event.{StreamEvent, ContentBlock, Message}
use cmdc2api.Stream.{Codec, new_translator}
use cmdc2api.Aggregate.{Aggregator, new_aggregator, feed_message, message_of}
use cmdc2api.Aggregate.Reading.{starts}
use cmdc2api.Aggregate.ReadBack.{blocks_read}
use cmdc2api.Server.Writer.{Write, head, frame, json_reply}
use cmdc2api.Server.Serve.{EventEncoder, EventAggregator, completed, serve_stream, serve_buffer}

abbrev pub anthropic_encoder : EventEncoder StreamEvent
anthropic_encoder = record { State = Unit; encode = λ s ev. (s, ev ∷ []); close = λ s. (s, []) }

abbrev pub anthropic_aggregator : (String → Bool) → EventAggregator Message
anthropic_aggregator valid = record {
  State = Aggregator;
  absorb = feed_message;
  answer = message_of valid;
}

-- The events that a client reads off the frames behind the head.
abbrev pub events_of : List (Write StreamEvent Message) → List StreamEvent
events_of [] = []
events_of (frame ev ∷ ws) = ev ∷ events_of ws
events_of (_ ∷ ws) = events_of ws

abbrev pub IsStreamed : List (Write StreamEvent Message) → Type 0
IsStreamed (head ∷ ws) = Unit
IsStreamed _ = ⊥

abbrev reply_content : List (Write StreamEvent Message) → List ContentBlock
reply_content (json_reply m ∷ _) = m.content
reply_content _ = []

abbrev IsBody : List (Write StreamEvent Message) → Type 0
IsBody (json_reply m ∷ _) = Unit
IsBody _ = ⊥

-- A response streams the blocks of a body.
abbrev pub Agrees : (String → Bool) → List (Write StreamEvent Message) → Message → Type 0
Agrees valid ws m =
    IsStreamed ws × (m.content ≡ blocks_read valid 0 (starts (events_of ws)) (events_of ws))

abbrev NoBody : Option (Write StreamEvent Message) → Type 0
NoBody none = Unit
NoBody (some r) = IsBody (r ∷ []) → ⊥

module _ (valid : String → Bool) (c : Codec) (n : ℕ) (model id : String) where
  abbrev pub streamed : List (String × String) → List (Write StreamEvent Message)
  streamed lines =
      (serve_stream Message anthropic_encoder c n (new_translator model id) tt lines completed).1

  abbrev pub replied : List (String × String) → List (Write StreamEvent Message)
  replied lines =
      (serve_buffer StreamEvent (anthropic_aggregator valid) c n (new_translator model id)
        new_aggregator lines completed).1
