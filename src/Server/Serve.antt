-- ===== src/Server/Serve.antt =====
-- internal/server/pipeline.go: `serveStream` and `serveBuffer`, for any outbound protocol. The clock of
-- the idle reader, the client's context and the errors of the scanner are the argument `ScanEnd`.
use cmdc2api.Base.{
  ℕ, suc, String, ◌<>◌, Bool, Option, none, some, List, [], ◌∷◌, ◌++◌, leb, is_zero, if◌then◌else◌,
}
use cmdc2api.Types.Event.{StreamEvent, error_event}
use cmdc2api.Errs.{map_event}
use cmdc2api.Stream.{Codec, Translator, start, feed, output_tokens}
use cmdc2api.Stream.Usage.{finish}
use cmdc2api.Server.Writer.{
  Write, error_reply, json_reply, SseWriter, new_writer, add_frames, start_writer, reply,
}

-- `EventEncoder` and `EventAggregator`: an object of the interface is its state.
pub record EventEncoder (F : Type 0) : Type 1 where
  pub State : Type 0
  pub encode : State → StreamEvent → State × List F
  pub close : State → State × List F

pub record EventAggregator (R : Type 0) : Type 1 where
  pub State : Type 0
  pub absorb : State → StreamEvent → State
  pub answer : State → R

-- How the scan of the upstream body ended: at its end, by the client, by the idle timeout, or by
-- another error with its text.
pub data ScanEnd : Type 0 where
  completed disconnected timed_out : ScanEnd
  broken : String → ScanEnd

-- `timeoutHint`, which counts the timeout.
unfoldable pub timeout_hint : ℕ → ℕ × String
timeout_hint consec = (
  suc consec,
  if leb 3 (suc consec)
      then "Response timeout - try reducing context length (summarize earlier messages)"
      else "Response timeout - request timed out",
)

abbrev pub empty_message : String
empty_message = "Empty response from upstream (zero output tokens)"

-- The reply of `mapStreamEventError` for the translator's error.
unfoldable pub upstream_reply : {F R : Type 0} → String → Write F R
upstream_reply message =
    let (m, text) = map_event message in error_reply m.status m.type text m.retry_after

module _ {F : Type 0} (enc : EventEncoder F) where
  -- `encodeAll`.
  unfoldable pub encode_batch : enc.State → List StreamEvent → enc.State × List F
  encode_batch s [] = (s, [])
  encode_batch s (ev ∷ evs) =
      let (s', fs) = enc.encode s ev in let (s'', gs) = encode_batch s' evs in (s'', fs ++ gs)

module _ {F : Type 0} (R : Type 0) (enc : EventEncoder F) where
  -- The local variables of `serveStream`.
  pub record Streaming : Type 0 where
    pub translator : Translator
    pub encoder : enc.State
    pub writer : SseWriter F R

  -- sw.add(encodeAll(enc, evs)...)
  unfoldable pub add_events : Streaming → List StreamEvent → Streaming
  add_events s evs =
      let (e, frames) = encode_batch enc s.encoder evs in
      record s { encoder = e; writer = add_frames s.writer frames }

  unfoldable pub start_if : Bool → Streaming → Streaming
  start_if b s = if b then record s { writer = start_writer s.writer } else s

  -- One round of the loop over the lines, behind `Feed`.
  unfoldable pub serve_events : Streaming → Translator × List StreamEvent → Streaming
  serve_events s (t, evs) =
      start_if t.content_started (add_events (record s { translator = t }) evs)

  -- The loop; on the left a panic of `Feed`, with the writer at that moment.
  pub data Scanned : Type 0 where
    panicked : SseWriter F R → Scanned
    scanned : Streaming → Scanned

  unfoldable pub serve_lines : Codec → Streaming → List (String × String) → Scanned
  serve_lines c s [] = scanned s
  serve_lines c s ((fresh, line) ∷ rest) = elim (feed c fresh s.translator line) [
    | none ↦ panicked s.writer
    | some r ↦ serve_lines c (serve_events s r) rest
  ]

  -- The error of a scan that broke off: as a reply before the head, as an event behind it.
  unfoldable pub report : Streaming → ℕ → String → String → ℕ → SseWriter F R
  report s status type message retry =
      if s.writer.started
      then (add_events s (error_event type message ∷ [])).writer
      else reply s.writer (error_reply status type message retry)

  -- From `tr.Finish()` to the end.
  unfoldable pub finish_stream : Codec → ℕ → Streaming → ℕ × SseWriter F R
  finish_stream c consec s =
      let (t, evs) = finish c s.translator in
      let s₁ = add_events (record s { translator = t }) evs in
      let (e, frames) = enc.close s₁.encoder in
      let w = add_frames s₁.writer frames in
      if t.has_error
      then (consec, if w.started then w else reply w (upstream_reply t.err_message))
      else if is_zero (output_tokens t)
      then (
        consec,
        if w.started then w else reply w (error_reply 429 "rate_limit_error" empty_message 10),
      )
      else (0, start_writer w)

  unfoldable pub end_stream : Codec → ℕ → Streaming → ScanEnd → ℕ × SseWriter F R
  end_stream c consec s completed = finish_stream c consec s
  end_stream c consec s disconnected = (consec, s.writer)
  end_stream c consec s timed_out =
      let (n, hint) = timeout_hint consec in (n, report s 429 "rate_limit_error" hint 5)
  end_stream c consec s (broken message) =
      (consec, report s 502 "api_error" ("Upstream error: " <> message) 0)

  -- The recovery of the middleware, which knows whether the head is out.
  unfoldable pub recover_panic : SseWriter F R → SseWriter F R
  recover_panic w =
      if w.started then w else reply w (error_reply 500 "api_error" "internal server error" 0)

  unfoldable pub end_scan : Codec → ℕ → ScanEnd → Scanned → ℕ × SseWriter F R
  end_scan c consec ending (panicked w) = (consec, recover_panic w)
  end_scan c consec ending (scanned s) = end_stream c consec s ending

  unfoldable pub open_stream : Translator → enc.State → Streaming
  open_stream t e =
      add_events (record { translator = t; encoder = e; writer = new_writer }) (start t)

  -- `serveStream` within the middleware: the new count of timeouts and what is written.
  unfoldable pub serve_stream :
      Codec → ℕ → Translator → enc.State → List (String × String) → ScanEnd → ℕ × List (Write F R)
  serve_stream c consec t e lines ending =
      let (n, w) = end_scan c consec ending (serve_lines c (open_stream t e) lines) in (n, w.sent)

module _ {R : Type 0} (agg : EventAggregator R) where
  unfoldable pub absorb_all : agg.State → List StreamEvent → agg.State
  absorb_all a [] = a
  absorb_all a (ev ∷ evs) = absorb_all (agg.absorb a ev) evs

  -- The loop over the lines; `none` is a panic of `Feed`.
  unfoldable pub buffer_lines :
      Codec → Translator → agg.State → List (String × String) → Option (Translator × agg.State)
  buffer_lines c t a [] = some (t, a)
  buffer_lines c t a ((fresh, line) ∷ rest) = elim (feed c fresh t line) [
    | none ↦ none
    | some (u, evs) ↦ buffer_lines c u (absorb_all a evs) rest
  ]

module _ (F : Type 0) {R : Type 0} (agg : EventAggregator R) where
  unfoldable pub finish_buffer : Codec → ℕ → Translator → agg.State → ℕ × List (Write F R)
  finish_buffer c consec t a =
      let (u, evs) = finish c t in
      if u.has_error
      then (consec, upstream_reply u.err_message ∷ [])
      else if is_zero (output_tokens u)
      then (consec, error_reply 429 "rate_limit_error" empty_message 10 ∷ [])
      else (0, json_reply (agg.answer (absorb_all agg a evs)) ∷ [])

  unfoldable pub end_buffer :
      Codec → ℕ → ScanEnd → Option (Translator × agg.State) → ℕ × List (Write F R)
  end_buffer c consec ending none =
      (consec, error_reply 500 "api_error" "internal server error" 0 ∷ [])
  end_buffer c consec completed (some (t, a)) = finish_buffer c consec t a
  end_buffer c consec disconnected (some r) = (consec, [])
  end_buffer c consec timed_out (some r) =
      let (n, hint) = timeout_hint consec in (n, error_reply 429 "rate_limit_error" hint 5 ∷ [])
  end_buffer c consec (broken message) (some r) =
      (consec, error_reply 502 "api_error" ("Upstream error: " <> message) 0 ∷ [])

  -- `serveBuffer` within the middleware.
  unfoldable pub serve_buffer :
      Codec → ℕ → Translator → agg.State → List (String × String) → ScanEnd → ℕ × List (Write F R)
  serve_buffer c consec t a lines ending =
      end_buffer c consec ending (buffer_lines agg c t (absorb_all agg a (start t)) lines)
