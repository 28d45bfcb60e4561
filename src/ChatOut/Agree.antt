-- ===== src/ChatOut/Agree.antt =====
-- The Chat encoder and the Chat aggregator: the two forms of one answer say the same.
use cmdc2api.Base.{
  String, ◌≡◌, refl, sym, ◌∙◌, ap, Bool, true, false, ◌||◌, none, some, List, [], ◌∷◌, ◌++◌, ◌<>◌,
  map, ◌==◌, All, arith, if◌then◌else◌,
}
use mathlib.Core.List.{append_assoc, append-nil}
use text.Mathlib.TextLemmas.{
  append-nil as text_append-nil, append_assoc as text_append_assoc, nil-append as text_nil-append,
}
use cmdc2api.Types.Event.{DeltaUsage, StreamEvent, message_stop}
use cmdc2api.ChatOut.{
  chat_usage_from, chat_finish_reason, Frame, role_frame, finish_frame, usage_frame, done_frame,
  ChatEncoder, new_chat_encoder, finish_frames, encode_event, encoder_feed, encode_all, ChatAggTool,
  ChatAggregator, new_chat_aggregator, aggregator_feed, ChatCompletion, completion, ChatToolCall,
  tool_call_of,
}
use cmdc2api.ChatOut.Readers.{
  text_in, reasoning_in, tools_in, reasons_in, usages_in, gather, collect, gather-append,
  collect-append, tool_names_of, aggregate, IsMiddle, event-Agrees,
}

-- The same for a whole answer, from its middle to its end.
record AgreesAtEnd (a a' : ChatAggregator) (frames : List Frame) : Type 0 where
  same_text : a'.text ≡ a.text <> gather text_in frames
  same_reasoning : a'.reasoning ≡ a.reasoning <> gather reasoning_in frames
  same_tools : tool_names_of a'.tools ≡ tool_names_of a.tools ++ collect tools_in frames
  one_reason : collect reasons_in frames ≡ chat_finish_reason a'.stop_reason ∷ []
  one_usage : collect usages_in frames ≡ chat_usage_from a'.usage ∷ []

abbrev end_frames : Bool → String → DeltaUsage → List Frame
end_frames started reason usage =
    (if started then [] else role_frame ∷ [])
    ++ finish_frame (chat_finish_reason reason)
      ∷ usage_frame (chat_usage_from usage)
      ∷ done_frame
      ∷ []

end_frames-AgreesAtEnd :
    (b : Bool) (a : ChatAggregator) → AgreesAtEnd a a (end_frames b a.stop_reason a.usage)
end_frames-AgreesAtEnd true a = record {
  same_text = sym (text_append-nil a.text);
  same_reasoning = sym (text_append-nil a.reasoning);
  same_tools = sym (append-nil _);
  one_reason = refl;
  one_usage = refl;
}
end_frames-AgreesAtEnd false a = record {
  same_text = sym (text_append-nil a.text);
  same_reasoning = sym (text_append-nil a.reasoning);
  same_tools = sym (append-nil _);
  one_reason = refl;
  one_usage = refl;
}

halves : (x y : Bool) → (x || y) ≡ false → (x ≡ false) × (y ≡ false)
halves x y h = ground arith

encode_all-stop :
    (e : ChatEncoder)
    → (e.finished || e.has_error) ≡ false
    → (encode_all e (message_stop ∷ [])).1 ≡ end_frames e.started e.stop_reason e.usage
unfolding encode_all encoder_feed encode_event finish_frames
encode_all-stop e o = let (f, h) = halves e.finished e.has_error o in simp (f, h, append-nil)

stop-AgreesAtEnd :
    (e : ChatEncoder) (a : ChatAggregator)
    → e.stop_reason ≡ a.stop_reason
    → e.usage ≡ a.usage
    → (e.finished || e.has_error) ≡ false
    → AgreesAtEnd a a (encode_all e (message_stop ∷ [])).1
stop-AgreesAtEnd e a s u o = rw (encode_all-stop e o, s, u) (end_frames-AgreesAtEnd e.started a)

chain_text :
    (f : Frame → String) (x y z : String) (xs ys : List Frame)
    → y ≡ x <> gather f xs
    → z ≡ y <> gather f ys
    → z ≡ x <> gather f (xs ++ ys)
chain_text f x y z xs ys g h =
    h
    ∙ ap (λ w. w <> gather f ys) g
    ∙ text_append_assoc x (gather f xs) (gather f ys)
    ∙ ap (λ w. x <> w) (sym (gather-append f xs ys))

chain_list :
    {A : Type 0} (f : Frame → List A) (x y z : List A) (xs ys : List Frame)
    → y ≡ x ++ collect f xs
    → z ≡ y ++ collect f ys
    → z ≡ x ++ collect f (xs ++ ys)
chain_list f x y z xs ys g h =
    h
    ∙ ap (λ w. w ++ collect f ys) g
    ∙ append_assoc x (collect f xs) (collect f ys)
    ∙ ap (λ w. x ++ w) (sym (collect-append f xs ys))

after_quiet :
    {A : Type 0} (f : Frame → List A) (xs ys : List Frame) (z : List A)
    → collect f xs ≡ []
    → collect f ys ≡ z
    → collect f (xs ++ ys) ≡ z
after_quiet f xs ys z g h = collect-append f xs ys ∙ rw g h

middle-AgreesAtEnd :
    (e : ChatEncoder) (a : ChatAggregator) (evs : List StreamEvent)
    → e.stop_reason ≡ a.stop_reason
    → e.usage ≡ a.usage
    → (e.finished || e.has_error) ≡ false
    → All IsMiddle evs
    → AgreesAtEnd a
        (aggregate a (evs ++ message_stop ∷ []))
        (encode_all e (evs ++ message_stop ∷ [])).1
unfolding encode_all
middle-AgreesAtEnd e a [] s u o m = unfold aggregator_feed in stop-AgreesAtEnd e a s u o
middle-AgreesAtEnd e a (ev ∷ evs) s u o m =
    let one = event-Agrees e a s u o ev m.0 in
    let e' = (encoder_feed e ev).0 in
    let a' = aggregator_feed a ev in
    let rest = middle-AgreesAtEnd e' a' evs one.reason_kept one.usage_kept one.not_over m.1 in
    record {
      same_text = chain_text text_in _ _ _ (encoder_feed e ev).1 _ one.same_text rest.same_text;
      same_reasoning =
          chain_text reasoning_in _ _ _ (encoder_feed e ev).1 _ one.same_reasoning
            rest.same_reasoning;
      same_tools = chain_list tools_in _ _ _ (encoder_feed e ev).1 _ one.same_tools rest.same_tools;
      one_reason = after_quiet reasons_in (encoder_feed e ev).1 _ _ one.no_reason rest.one_reason;
      one_usage = after_quiet usages_in (encoder_feed e ev).1 _ _ one.no_usage rest.one_usage;
    }

-- A streamed answer and a completion that say the same.
pub record SaysSame (frames : List Frame) (c : ChatCompletion) : Type 0 where
  pub content :
      c.content ≡ (if gather text_in frames == "" then none else some (gather text_in frames))
  pub reasoning : c.reasoning_content ≡ gather reasoning_in frames
  pub tools : map (λ (t : ChatToolCall). (t.id, t.name)) c.tool_calls ≡ collect tools_in frames
  pub reason : collect reasons_in frames ≡ c.finish_reason ∷ []
  pub usage : collect usages_in frames ≡ c.usage ∷ []

tool_calls-names :
    (valid : String → Bool) (ts : List ChatAggTool)
    → map (λ (t : ChatToolCall). (t.id, t.name)) (map (tool_call_of valid) ts) ≡ tool_names_of ts
unfolding tool_call_of
tool_calls-names valid [] = refl
tool_calls-names valid (t ∷ ts) = ap (λ z. (t.id, t.name) ∷ z) (tool_calls-names valid ts)

-- For every answer, a list of events none of which is an error or the message stop, with the message
-- stop behind it: the frames of the encoder and the completion of the aggregator agree. The texts of
-- the frames make up the completion's content, which is null where there is none, and likewise the
-- reasoning; the tool calls are the same by id and name, in order; and the frames give exactly one
-- finish reason and one usage, those of the completion.
pub stream_agrees :
    (valid : String → Bool) (evs : List StreamEvent)
    → All IsMiddle evs
    → SaysSame
        (encode_all new_chat_encoder (evs ++ message_stop ∷ [])).1
        (completion valid (aggregate new_chat_aggregator (evs ++ message_stop ∷ [])))
unfolding completion
stream_agrees valid evs m =
    let k = middle-AgreesAtEnd new_chat_encoder new_chat_aggregator evs refl refl refl m in
    let text = k.same_text ∙ text_nil-append _ in
    record {
      content = rw text refl;
      reasoning = k.same_reasoning ∙ text_nil-append _;
      tools = tool_calls-names valid _ ∙ k.same_tools;
      reason = k.one_reason;
      usage = k.one_usage;
    }
