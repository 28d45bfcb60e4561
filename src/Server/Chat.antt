-- ===== src/Server/Chat.antt =====
-- internal/server/pipeline.go with the Chat encoder of internal/translate/chatout.go: what a Chat
-- client reads.
use mathlib.Core.Path.{subst}
use cmdc2api.Base.{
  ℕ, String, ◌≡◌, refl, sym, ap, Bool, true, false, Option, none, some, List, [], ◌∷◌, ◌++◌, map,
  All, if◌then◌else◌, is_zero,
}
use cmdc2api.Types.Event.{StreamEvent}
use cmdc2api.Stream.{Codec, Translator, new_translator, start, feed_lines, output_tokens}
use cmdc2api.Stream.Usage.{finish}
use cmdc2api.Stream.Protocol.{Phase, before, accept}
use cmdc2api.Stream.Ending.{IsOrderly, IsSoundLine, stream-IsOrderly, final_phase}
use cmdc2api.ChatOut.{
  Frame, ChatAggregator, ChatCompletion, aggregator_feed, completion, ChatEncoder, new_chat_encoder,
  encoder_feed, encode_all, encoder_finish,
}
use cmdc2api.ChatOut.Frames.{
  Stage, unopened, closed, failed, read_frames, end_stage, frames_orderly,
}
use cmdc2api.Server.Writer.{Write, head, frame, error_reply, json_reply}
use cmdc2api.Server.Serve.{
  EventEncoder, EventAggregator, completed, encode_batch, serve_stream, empty_message,
  upstream_reply,
}
use cmdc2api.Server.Response.{error_of, response, all_frames, serve_stream_refines}

abbrev pub chat_encoder : EventEncoder Frame
chat_encoder = record { State = ChatEncoder; encode = encoder_feed; close = encoder_finish }

abbrev pub chat_aggregator : (String → Bool) → EventAggregator ChatCompletion
chat_aggregator valid = record {
  State = ChatAggregator;
  absorb = aggregator_feed;
  answer = completion valid;
}

encode_batch_chat :
    (e : ChatEncoder) (evs : List StreamEvent) → encode_batch chat_encoder e evs ≡ encode_all e evs
unfolding encode_batch encode_all
encode_batch_chat e [] = refl
encode_batch_chat e (ev ∷ evs) =
    let (s, fs) = encoder_feed e ev in ap (λ r. (r.0, fs ++ r.1)) (encode_batch_chat s evs)

-- A client at the end of a response is not within a message.
abbrev AtEnd : Option Stage → Type 0
AtEnd (some unopened) = Unit
AtEnd (some closed) = Unit
AtEnd (some failed) = Unit
AtEnd _ = ⊥

abbrev pub frames_of : {R : Type 0} → List (Write Frame R) → List Frame
frames_of [] = []
frames_of (frame f ∷ ws) = f ∷ frames_of ws
frames_of (_ ∷ ws) = frames_of ws

-- One error reply, or a head and behind it frames that a client can read to their end.
abbrev pub IsAnswered : {R : Type 0} → List (Write Frame R) → Type 0
IsAnswered (error_reply _ _ _ _ ∷ []) = Unit
IsAnswered (head ∷ ws) = AtEnd (read_frames unopened (frames_of ws))
IsAnswered _ = ⊥

frames_of-map : (R : Type 0) (fs : List Frame) → frames_of {R = R} (map frame fs) ≡ fs
frames_of-map R [] = refl
frames_of-map R (f ∷ fs) = ap (λ gs. f ∷ gs) (frames_of-map R fs)

end_stage-AtEnd : (e : ChatEncoder) → AtEnd (some (end_stage e))
end_stage-AtEnd e = go e.finished e.has_error e.started
  where
    go :
        (f h s : Bool)
        → AtEnd
            (some (if f then closed else if h then (if s then failed else unopened) else closed))
    go true h s = tt
    go false true true = tt
    go false true false = tt
    go false false s = tt

module _ (R : Type 0) where
  all_frames-AtEnd :
      (q : Phase) (evs : List StreamEvent)
      → accept before evs ≡ some q
      → AtEnd (read_frames unopened (all_frames R chat_encoder new_chat_encoder evs))
  all_frames-AtEnd q evs h = rw (encode_batch_chat new_chat_encoder evs) (
      subst AtEnd (sym (frames_orderly q evs h))
        (end_stage-AtEnd (encode_all new_chat_encoder evs).0))

  abbrev IsError : Option (Write Frame R) → Type 0
  IsError none = Unit
  IsError (some r) = IsAnswered (r ∷ [])

  error_of-IsError : (t : Translator) → IsError (error_of t)
  unfolding upstream_reply
  error_of-IsError t = go t.has_error (is_zero (output_tokens t))
    where
      go :
          (e z : Bool)
          → IsError (
              if e
              then some (upstream_reply t.err_message)
              else if z
              then some (error_reply 429 "rate_limit_error" empty_message 10)
              else none)
      go true z = tt
      go false true = tt
      go false false = tt

  response-IsAnswered :
      (b : Bool) (o : Option (Write Frame R)) (fs : List Frame)
      → IsError o
      → AtEnd (read_frames unopened fs)
      → IsAnswered (response b o fs)
  response-IsAnswered true o fs e h = rw (frames_of-map R fs) h
  response-IsAnswered false none fs e h = rw (frames_of-map R fs) h
  response-IsAnswered false (some (error_reply _ _ _ _)) fs e h = tt
  response-IsAnswered false (some head) fs e h = e
  response-IsAnswered false (some (frame f)) fs e h = e
  response-IsAnswered false (some (json_reply r)) fs e h = e

  body-IsAnswered :
      (c : Codec) (consec : ℕ) (model id : String) (lines : List (String × String))
      (o : Option (Translator × List StreamEvent))
      → feed_lines c (new_translator model id) lines ≡ o
      → IsOrderly c (new_translator model id) (start (new_translator model id)) o
      → IsAnswered
          (serve_stream R chat_encoder c consec
            (new_translator model id)
            new_chat_encoder
            lines
            completed).1
  unfolding start finish
  body-IsAnswered c consec model id lines none e h = absurd h
  body-IsAnswered c consec model id lines (some (u, evs)) e h =
      rw (serve_stream_refines R chat_encoder c consec model id new_chat_encoder lines u evs e) (
        response-IsAnswered u.content_started (error_of (finish c u).0) _
          (error_of-IsError (finish c u).0)
          (all_frames-AtEnd (final_phase u)
            (start (new_translator model id) ++ evs ++ (finish c u).1) h))

  -- A Chat client always gets an answer that it can read to its end: for every upstream body that is
  -- read to its end and whose `error` events carry their object, the response to a streamed request
  -- is one error reply, or a head with frames behind it that are in order and end with the end
  -- marker, with an error, or are none.
  pub serve_chat-IsAnswered :
      (c : Codec) (consec : ℕ) (model id : String) (lines : List (String × String))
      → All (IsSoundLine c) lines
      → IsAnswered
          (serve_stream R chat_encoder c consec
            (new_translator model id)
            new_chat_encoder
            lines
            completed).1
  serve_chat-IsAnswered c consec model id lines sound =
      body-IsAnswered c consec model id lines _ refl (stream-IsOrderly c model id lines sound)
