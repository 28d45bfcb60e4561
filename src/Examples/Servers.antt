-- ===== src/Examples/Servers.antt =====
-- Whole responses for internal/server/pipeline.go.
use cmdc2api.Base.{◌≡◌, true, ◌++◌}
use cmdc2api.Types.Event.{Message}
use cmdc2api.Stream.{new_translator, start}
use cmdc2api.Stream.Usage.{finish}
use cmdc2api.Aggregate.{new_aggregator}
use cmdc2api.ChatOut.{Frame, new_chat_encoder}
use cmdc2api.Server.Serve.{completed, absorb_all, serve_stream, serve_buffer}
use cmdc2api.Server.Buffered.{buffered, serve_buffer_refines}
use cmdc2api.Server.Response.{error_of, response, count_after, all_frames, serve_stream_refines}
use cmdc2api.Server.Chat.{chat_encoder, IsAnswered, serve_chat-IsAnswered}
use cmdc2api.Server.Anthropic.{anthropic_aggregator}
use cmdc2api.Examples.Streams.{sample_codec, body, body-IsSound, ran, body_runs}

serve_stream_refines_example :
    serve_stream Unit chat_encoder sample_codec 2
      (new_translator "m" "msg_1")
      new_chat_encoder
      body
      completed
    ≡ (
      count_after {A = _} 2 (error_of {F = Frame} {R = Unit} (finish sample_codec ran.0).0),
      response ran.0.content_started (error_of (finish sample_codec ran.0).0) (
          all_frames Unit chat_encoder new_chat_encoder
            (start (new_translator "m" "msg_1") ++ ran.1 ++ (finish sample_codec ran.0).1)),
    )
serve_stream_refines_example =
    serve_stream_refines Unit chat_encoder sample_codec 2 "m" "msg_1" new_chat_encoder body ran.0
      ran.1 body_runs

serve_buffer_refines_example :
    serve_buffer Frame
      (anthropic_aggregator (λ s. true))
      sample_codec
      2
      (new_translator "m" "msg_1")
      new_aggregator
      body
      completed
    ≡ (
      count_after {A = _} 2 (error_of {F = Frame} {R = Message} (finish sample_codec ran.0).0),
      buffered (error_of (finish sample_codec ran.0).0) (
          (anthropic_aggregator (λ s. true)).answer (
            absorb_all
              (anthropic_aggregator (λ s. true))
              new_aggregator
              (start (new_translator "m" "msg_1") ++ ran.1 ++ (finish sample_codec ran.0).1))),
    )
serve_buffer_refines_example =
    serve_buffer_refines Frame (anthropic_aggregator (λ s. true)) sample_codec 2 "m" "msg_1"
      new_aggregator body ran.0 ran.1 body_runs

serve_chat-IsAnswered_example :
    IsAnswered
      (serve_stream Unit chat_encoder sample_codec 2
        (new_translator "m" "msg_1")
        new_chat_encoder
        body
        completed).1
serve_chat-IsAnswered_example =
    serve_chat-IsAnswered Unit sample_codec 2 "m" "msg_1" body body-IsSound

abbrev answered_message : Message
answered_message = (anthropic_aggregator (λ s. true)).answer (
    absorb_all (anthropic_aggregator (λ s. true)) new_aggregator
      (start (new_translator "m" "msg_1") ++ ran.1 ++ (finish sample_codec ran.0).1))
