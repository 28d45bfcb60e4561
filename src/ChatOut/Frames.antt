-- ===== src/ChatOut/Frames.antt =====
-- The frames of the Chat encoder: their order, for every stream that keeps the Anthropic protocol.
use cmdc2api.Base.{
  ℕ, String, ◌≡◌, refl, ◌∙◌, Bool, true, false, ◌||◌, Option, none, some, List, [], ◌∷◌, ◌++◌, map,
  arith, if◌then◌else◌,
}
use cmdc2api.Types.Event.{
  BlockStart, text_start, thinking_start, tool_use_start, Delta, text_delta, thinking_delta,
  signature_delta, input_json_delta, DeltaUsage, StreamEvent, message_start, content_block_start,
  content_block_delta, content_block_stop, message_delta, message_stop, error_event,
}
use cmdc2api.Stream.Protocol.{Phase, before, in_tool, filled, advance, on_delta, accept, then_run}
use cmdc2api.ChatOut.{
  Frame, role_frame, content_frame, reasoning_frame, tool_frame, args_frame, finish_frame,
  usage_frame, done_frame, error_frame, ChatEncoder, new_chat_encoder, with_role, finish_frames,
  error_frames, encode_start, encode_delta, encode_event, encoder_feed, encoder_finish, encode_all,
  chat_arg_chunk_size,
}
use cmdc2api.ChatOut.Split.{chat_split_runes}

-- How far a client has read: nothing, the role, the finish reason, the usage, the end marker; or an error.
pub data Stage : Type 0 where
  unopened opened finishing counted closed failed : Stage

-- The role comes first and once; content, reasoning and tool calls follow it; then the finish
-- reason, the usage and the end marker, or an error, and nothing more.
abbrev pub read_frame : Stage → Frame → Option Stage
read_frame unopened role_frame = some opened
read_frame opened (content_frame _) = some opened
read_frame opened (reasoning_frame _) = some opened
read_frame opened (tool_frame _ _ _) = some opened
read_frame opened (args_frame _ _) = some opened
read_frame opened (finish_frame _) = some finishing
read_frame finishing (usage_frame _) = some counted
read_frame counted done_frame = some closed
read_frame opened (error_frame _) = some failed
read_frame _ _ = none

abbrev pub bind_stage : (Stage → Option Stage) → Option Stage → Option Stage
bind_stage f none = none
bind_stage f (some s) = f s

abbrev pub read_frames : Stage → List Frame → Option Stage
read_frames s [] = some s
read_frames s (f ∷ fs) = bind_stage (λ t. read_frames t fs) (read_frame s f)

bind_stage-read :
    (o : Option Stage) (xs ys : List Frame)
    → ((s : Stage)
        → read_frames s (xs ++ ys) ≡ bind_stage (λ t. read_frames t ys) (read_frames s xs))
    → bind_stage (λ t. read_frames t (xs ++ ys)) o
      ≡ bind_stage (λ t. read_frames t ys) (bind_stage (λ t. read_frames t xs) o)
bind_stage-read none xs ys h = refl
bind_stage-read (some s) xs ys h = h s

read_frames-append :
    (s : Stage) (xs ys : List Frame)
    → read_frames s (xs ++ ys) ≡ bind_stage (λ t. read_frames t ys) (read_frames s xs)
read_frames-append s [] ys = refl
read_frames-append s (x ∷ xs) ys =
    bind_stage-read (read_frame s x) xs ys (λ t. read_frames-append t xs ys)

abbrev pub stage_of : ChatEncoder → Stage
stage_of e =
    if e.finished
    then closed
    else if e.has_error
    then (if e.started then failed else unopened)
    else if e.started
    then opened
    else unopened

-- Inside a tool block the role is out, unless the encoder is at its end.
abbrev pub IsReady : Phase → ChatEncoder → Type 0
IsReady (in_tool n) e = (e.finished || (e.has_error || e.started)) ≡ true
IsReady (filled n) e = (e.finished || (e.has_error || e.started)) ≡ true
IsReady _ e = Unit

-- The encoder goes from `e` by the event `ev`, at which the message goes from `p` to `q`.
pub record Reads (p q : Phase) (e : ChatEncoder) (r : ChatEncoder × List Frame) : Type 0 where
  pub in_order : read_frames (stage_of e) r.1 ≡ some (stage_of r.0)
  pub ready : IsReady q r.0

args-read : (k : ℕ) (ss : List String) → read_frames opened (map (args_frame k) ss) ≡ some opened
args-read k [] = refl
args-read k (s ∷ ss) = args-read k ss

module _ (p q : Phase) (e : ChatEncoder) (f : e.finished ≡ false) (h : e.has_error ≡ false) where
  encode_event-message_delta :
      (reason : String) (usage : DeltaUsage)
      → advance p (message_delta reason usage) ≡ some q
      → Reads p q e (encode_event e (message_delta reason usage))
  unfolding encode_event
  encode_event-message_delta reason usage a = ground arith

  encode_event-message_stop :
      advance p message_stop ≡ some q → Reads p q e (encode_event e message_stop)
  unfolding encode_event finish_frames
  encode_event-message_stop a = ground arith

  encode_event-error :
      (type message : String)
      → advance p (error_event type message) ≡ some q
      → Reads p q e (encode_event e (error_event type message))
  unfolding encode_event error_frames
  encode_event-error type message a = ground arith

  encode_start-Reads :
      (i : ℕ) (b : BlockStart)
      → advance p (content_block_start i b) ≡ some q
      → Reads p q e (encode_start e b)
  unfolding encode_start with_role
  encode_start-Reads i text_start a = ground arith
  encode_start-Reads i thinking_start a = ground arith
  encode_start-Reads i (tool_use_start id name) a = ground arith

  -- Only a tool block takes an input.
  started_for_input :
      (i : ℕ) (json : String)
      → IsReady p e
      → on_delta p i (input_json_delta json) ≡ some q
      → (e.started ≡ true) × IsReady q e
  started_for_input i json r a = ground arith

  encode_delta-Reads :
      (i : ℕ) (d : Delta) → IsReady p e → on_delta p i d ≡ some q → Reads p q e (encode_delta e d)
  unfolding encode_delta with_role
  encode_delta-Reads i (text_delta text) r a = ground arith
  encode_delta-Reads i (thinking_delta text) r a = ground arith
  encode_delta-Reads i (signature_delta s) r a = ground arith
  encode_delta-Reads i (input_json_delta json) r a =
      let (started, ready) = started_for_input i json r a in
      record {
        in_order =
            simp (f, h, started) (args-read e.cur_tool (chat_split_runes json chat_arg_chunk_size));
        ready = ready;
      }

  encode_event-Reads :
      (ev : StreamEvent) → IsReady p e → advance p ev ≡ some q → Reads p q e (encode_event e ev)
  encode_event-Reads (message_start id model) r a = unfold encode_event in ground arith
  encode_event-Reads (content_block_start i b) r a = unfold encode_event in encode_start-Reads i b a
  encode_event-Reads (content_block_delta i d) r a =
      unfold encode_event in encode_delta-Reads i d r a
  encode_event-Reads (content_block_stop i) r a = unfold encode_event in ground arith
  encode_event-Reads (message_delta reason usage) r a = encode_event-message_delta reason usage a
  encode_event-Reads message_stop r a = encode_event-message_stop a
  encode_event-Reads (error_event type message) r a = encode_event-error type message a

-- At its end the encoder is ready for anything.
ended-IsReady : (q : Phase) (e : ChatEncoder) → (e.finished || e.has_error) ≡ true → IsReady q e
ended-IsReady q e h = ground arith

halves : (x y : Bool) → (x || y) ≡ false → (x ≡ false) × (y ≡ false)
halves x y h = ground arith

encoder_feed-Reads :
    (p q : Phase) (e : ChatEncoder) (ev : StreamEvent)
    → IsReady p e
    → advance p ev ≡ some q
    → Reads p q e (encoder_feed e ev)
unfolding encoder_feed
encoder_feed-Reads p q e ev r a = Reads-if (e.finished || e.has_error) refl
  where
    Reads-if :
        (b : Bool)
        → (e.finished || e.has_error) ≡ b
        → Reads p q e (if b then (e, []) else encode_event e ev)
    Reads-if true h = record { in_order = refl; ready = ended-IsReady q e h }
    Reads-if false h =
        let (f, g) = halves e.finished e.has_error h in encode_event-Reads p q e f g ev r a

stages_join :
    (s t : Stage) (xs ys : List Frame) {u : Option Stage}
    → read_frames s xs ≡ some t
    → read_frames t ys ≡ u
    → read_frames s (xs ++ ys) ≡ u
stages_join s t xs ys h k = read_frames-append s xs ys ∙ (rw h k)

encode_all-Reads :
    (p q : Phase) (e : ChatEncoder) (evs : List StreamEvent)
    → IsReady p e
    → accept p evs ≡ some q
    → Reads p q e (encode_all e evs)
unfolding encode_all
encode_all-Reads p q e [] r a = record { in_order = refl; ready = ground arith }
encode_all-Reads p q e (ev ∷ evs) r a =
    step (λ p' s b. encode_all-Reads p' q (encoder_feed e ev).0 evs s b) (advance p ev) refl a
  where
    step :
        ((p' : Phase)
          → IsReady p' (encoder_feed e ev).0
          → accept p' evs ≡ some q
          → Reads p' q (encoder_feed e ev).0 (encode_all (encoder_feed e ev).0 evs))
        → (o : Option Phase) → advance p ev ≡ o
        → then_run (λ p'. accept p' evs) o ≡ some q
        → Reads p q e (encode_all e (ev ∷ evs))
    step hyp none h k = cc
    step hyp (some p') h k =
        let one = encoder_feed-Reads p p' e ev r h in
        let rest = hyp p' one.ready k in
        record {
          in_order =
              stages_join (stage_of e) (stage_of (encoder_feed e ev).0) (encoder_feed e ev).1
                (encode_all (encoder_feed e ev).0 evs).1 one.in_order rest.in_order;
          ready = rest.ready;
        }

-- Where a client stands at the end of the response, from the encoder behind its last event.
abbrev pub end_stage : ChatEncoder → Stage
end_stage e =
    if e.finished
    then closed
    else if e.has_error
    then (if e.started then failed else unopened)
    else closed

encoder_finish-read :
    (e : ChatEncoder) → read_frames (stage_of e) (encoder_finish e).1 ≡ some (end_stage e)
unfolding encoder_finish finish_frames
encoder_finish-read e = ground arith

-- For every event list that keeps the protocol from its start, the frames of all events and of
-- `Finish`, in this order, are in order: the role once and first, then content, reasoning and tool
-- calls, then the finish reason, the usage and the end marker, each once. They end with the end marker unless
-- an error came before the end of the message, which ends them with the error, or, where nothing
-- had been written, leaves them empty.
pub frames_orderly :
    (q : Phase) (evs : List StreamEvent)
    → accept before evs ≡ some q
    → read_frames unopened (
        (encode_all new_chat_encoder evs).1
        ++ (encoder_finish (encode_all new_chat_encoder evs).0).1)
      ≡ some (end_stage (encode_all new_chat_encoder evs).0)
frames_orderly q evs a =
    stages_join unopened _ (encode_all new_chat_encoder evs).1 _
      (encode_all-Reads before q new_chat_encoder evs tt a).in_order
      (encoder_finish-read (encode_all new_chat_encoder evs).0)
