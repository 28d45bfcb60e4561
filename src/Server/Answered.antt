-- ===== src/Server/Answered.antt =====
-- internal/server: whole handlers answer a request once, as long as its client is there.
use cmdc2api.Base.{
  ℕ, String, ◌<>◌, Bool, true, false, not, Option, none, some, List, [], ◌∷◌, is_nil, is_zero,
  if◌then◌else◌,
}
use Prim.Native.Nat.{◌/◌}
use cmdc2api.Types.Cmdc.{CcRequest}
use cmdc2api.Types.Inbound.{Request}
use cmdc2api.Aggregate.{new_aggregator}
use cmdc2api.Server.Anthropic.{anthropic_encoder, anthropic_aggregator}
use cmdc2api.Types.Event.{StreamEvent, Message}
use cmdc2api.Stream.{Codec, Translator, output_tokens}
use cmdc2api.Stream.Usage.{finish}
use cmdc2api.Server.Writer.{Write, error_reply}
use cmdc2api.Server.Serve.{
  EventEncoder, EventAggregator, ScanEnd, completed, disconnected, timed_out, broken,
  upstream_reply, finish_buffer, end_buffer, serve_buffer,
}
use cmdc2api.Server.OneResponse.{IsOneResponse, serve_stream-IsOneResponse}
use cmdc2api.Server.Responds.{IsSent, IsPresent, serve_stream-IsSent}
use cmdc2api.Server.Body.{BodyRead, complete, too_large, unreadable, read_limited, read_body}
use cmdc2api.Server.Handlers.{
  Reached, client_gone, unreachable, refused, answering, map_http_error, Setting, answer_with,
  run_pipeline, Decoded, invalid, decoded, Incoming, require_key, admit, with_body,
  decoded_messages, handle_messages,
}

-- Something is written, and it is one response.
abbrev pub HasResponse : {F R : Type 0} → ℕ × List (Write F R) → Type 0
HasResponse (n, ws) = IsSent ws × IsOneResponse ws

-- The client is there when its request has been answered upstream.
abbrev pub IsThere : Reached → Type 0
IsThere client_gone = ⊥
IsThere (answering lines ending) = IsPresent ending
IsThere _ = Unit

if-HasResponse :
    {F R : Type 0} (b : Bool) (x y : ℕ × List (Write F R))
    → HasResponse x
    → HasResponse y
    → HasResponse (if b then x else y)
if-HasResponse true x y h k = h
if-HasResponse false x y h k = k

module _ (F : Type 0) {R : Type 0} (agg : EventAggregator R) where
  end_buffer-HasResponse :
      (c : Codec) (consec : ℕ) (ending : ScanEnd) (o : Option (Translator × agg.State))
      → IsPresent ending
      → HasResponse (end_buffer F agg c consec ending o)
  unfolding end_buffer finish_buffer upstream_reply
  end_buffer-HasResponse c consec ending none h = (tt, tt)
  end_buffer-HasResponse c consec completed (some (t, a)) h =
      let u = (finish c t).0 in
      if-HasResponse u.has_error _ _ (tt, tt)
        (if-HasResponse (is_zero (output_tokens u)) _ _ (tt, tt) (tt, tt))
  end_buffer-HasResponse c consec disconnected (some r) h = absurd h
  end_buffer-HasResponse c consec timed_out (some r) h = (tt, tt)
  end_buffer-HasResponse c consec (broken message) (some r) h = (tt, tt)

module _ {F R : Type 0} (enc : EventEncoder F) (agg : EventAggregator R) where
  answer_with-HasResponse :
      (st : Setting) (e : enc.State) (a : agg.State) (req : Request) (r : Reached)
      → IsThere r
      → HasResponse (answer_with enc agg st e a req r)
  unfolding answer_with map_http_error serve_buffer
  answer_with-HasResponse st e a req client_gone h = absurd h
  answer_with-HasResponse st e a req (unreachable message) h = (tt, tt)
  answer_with-HasResponse st e a req (refused status body) h = (tt, tt)
  answer_with-HasResponse st e a req (answering lines ending) h =
      if-HasResponse req.stream _ _
        (
          serve_stream-IsSent R enc st.codec st.consec _ st.message_id e lines ending h,
          serve_stream-IsOneResponse R enc st.codec st.consec _ st.message_id e lines ending,
        )
        (end_buffer-HasResponse F agg st.codec st.consec ending _ h)

-- The upstream's answers find the client there.
abbrev pub KeepsClient : Setting → Type 0
KeepsClient st = (r : CcRequest) → IsThere (st.upstream r)

run_pipeline-HasResponse :
    {F R : Type 0} (enc : EventEncoder F) (agg : EventAggregator R) (st : Setting) (e : enc.State)
    (a : agg.State) (req : Request)
    → KeepsClient st
    → HasResponse (run_pipeline enc agg st e a req)
unfolding run_pipeline
run_pipeline-HasResponse enc agg st e a req k = answer_with-HasResponse enc agg st e a req _ (k _)

-- A request that is not admitted is answered.
abbrev Refuses : {F R : Type 0} → Option (List ℕ) × List (Write F R) → Type 0
Refuses (none, ws) = IsSent ws × IsOneResponse ws
Refuses (some body, ws) = Unit

if-Refuses :
    {F R : Type 0} (b : Bool) (x y : Option (List ℕ) × List (Write F R))
    → Refuses x
    → Refuses y
    → Refuses (if b then x else y)
if-Refuses true x y h k = h
if-Refuses false x y h k = k

read_body-Refuses :
    (F R : Type 0) (valid : List ℕ → Bool) (itoa : ℕ → String) (limit : ℕ) (chunks : List (List ℕ))
    (fails : Bool)
    → Refuses {F = F} {R = R} (read_body valid itoa limit chunks fails)
unfolding read_body
read_body-Refuses F R valid itoa limit chunks fails = go (read_limited limit chunks fails)
  where
    go :
        (r : BodyRead)
        → Refuses {F = F} {R = R} (elim r [
          | too_large ↦ (
            none,
            error_reply 413 "invalid_request_error"
                  ("Request body exceeds " <> (itoa (limit / 1048576) <> "MB limit"))
                  0
                ∷ [],
          )
          | unreadable ↦ (none, error_reply 400 "invalid_request_error" "Invalid JSON body" 0 ∷ [])
          | complete bytes ↦
              if not (valid bytes)
              then (none, error_reply 400 "invalid_request_error" "Invalid JSON body" 0 ∷ [])
              else (some bytes, [])
        ])
    go too_large = (tt, tt)
    go unreadable = (tt, tt)
    go (complete bytes) = if-Refuses (not (valid bytes)) _ _ (tt, tt) tt

require_key-Refuses :
    {F R : Type 0} (missing : Bool) (r : Option (List ℕ) × List (Write F R))
    → Refuses r
    → Refuses (require_key missing r)
unfolding require_key
require_key-Refuses missing (none, ws) h = h
require_key-Refuses true (some body, ws) h = (tt, tt)
require_key-Refuses false (some body, ws) h = tt

with_body-HasResponse :
    {F R : Type 0} (consec : ℕ) (k : List ℕ → ℕ × List (Write F R))
    (r : Option (List ℕ) × List (Write F R))
    → Refuses r
    → ((body : List ℕ) → HasResponse (k body))
    → HasResponse (with_body consec k r)
unfolding with_body
with_body-HasResponse consec k (none, ws) h f = h
with_body-HasResponse consec k (some body, ws) h f = f body

admit-Refuses : (F R : Type 0) (inc : Incoming) → Refuses {F = F} {R = R} (admit inc)
unfolding admit
admit-Refuses F R inc =
    require_key-Refuses _ _
      (read_body-Refuses F R inc.valid inc.itoa inc.limit inc.chunks inc.fails)

decoded_messages-HasResponse :
    (valid : String → Bool) (st : Setting) (d : Decoded Request)
    → KeepsClient st
    → HasResponse (decoded_messages valid st d)
unfolding decoded_messages
decoded_messages-HasResponse valid st (invalid message) k = (tt, tt)
decoded_messages-HasResponse valid st (decoded req) k =
    if-HasResponse (is_nil req.messages) _ _ (tt, tt)
      (run_pipeline-HasResponse anthropic_encoder (anthropic_aggregator valid) st tt new_aggregator
        req k)

-- For every body, every key and every behaviour of the upstream that finds the client there, even one
-- at which `Feed` panics: an Anthropic request is answered, by exactly one error reply, one body or
-- one head with frames behind it.
pub handle_messages-HasResponse :
    (valid : String → Bool) (st : Setting) (unmarshal : List ℕ → Decoded Request) (inc : Incoming)
    → KeepsClient st
    → HasResponse (handle_messages valid st unmarshal inc)
unfolding handle_messages
handle_messages-HasResponse valid st unmarshal inc k =
    with_body-HasResponse st.consec _ (admit inc) (admit-Refuses StreamEvent Message inc)
      (λ body. decoded_messages-HasResponse valid st (unmarshal body) k)
