-- ===== src/Server/Response.antt =====
-- internal/server/pipeline.go: what a client gets for a whole upstream body.
use mathlib.Core.Path.{subst}
use cmdc2api.Base.{
  arith, ℕ, String, ◌≡◌, refl, sym, ◌∙◌, ap, Bool, true, false, Option, none, some, List, [], ◌∷◌,
  ◌++◌, map, is_zero, if◌then◌else◌,
}
use mathlib.Core.List.{append_assoc, append-nil}
use cmdc2api.Types.Event.{StreamEvent}
use cmdc2api.Stream.{
  Codec, Translator, new_translator, start, feed, feed_lines, output_tokens, ◌>>=◌, after,
}
use cmdc2api.Stream.Usage.{finish}
use cmdc2api.Server.Writer.{
  Write, head, frame, error_reply, SseWriter, new_writer, add_frames, start_writer, reply,
}
use cmdc2api.Server.Serve.{
  EventEncoder, completed, empty_message, upstream_reply, encode_batch, Streaming, add_events,
  start_if, serve_events, Scanned, panicked, scanned, serve_lines, finish_stream, end_stream,
  end_scan, open_stream, serve_stream,
}
use cmdc2api.Server.Started.{StaysStarted, feed-StaysStarted}
use cmdc2api.Server.Log.{logged, add-logged, start-logged}

module _ {F : Type 0} (enc : EventEncoder F) where
  pub encode_batch-append :
      (s : enc.State) (xs ys : List StreamEvent)
      → encode_batch enc s (xs ++ ys) ≡ (
        (encode_batch enc (encode_batch enc s xs).0 ys).0,
        (encode_batch enc s xs).1 ++ (encode_batch enc (encode_batch enc s xs).0 ys).1,
      )
  unfolding encode_batch
  encode_batch-append s [] ys = refl
  encode_batch-append s (x ∷ xs) ys =
      let (s', fs) = enc.encode s x in
      rw (encode_batch-append s' xs ys) (
        ap (λ z. ((encode_batch enc (encode_batch enc s' xs).0 ys).0, z))
          (sym (append_assoc fs (encode_batch enc s' xs).1 _)))

module _ {F : Type 0} (R : Type 0) (enc : EventEncoder F) where
  -- The local variables of `serveStream` where the events so far gave `frames`.
  abbrev pub streaming : Bool → Translator → enc.State × List F → Streaming R enc
  streaming b t (e, frames) = record { translator = t; encoder = e; writer = logged b frames }

  -- More events of one encoder, behind what it has encoded.
  abbrev pub then_encode : enc.State × List F → List StreamEvent → enc.State × List F
  then_encode r evs = ((encode_batch enc r.0 evs).0, r.1 ++ (encode_batch enc r.0 evs).1)

  pub add_events-streaming :
      (b : Bool) (t : Translator) (r : enc.State × List F) (evs : List StreamEvent)
      → add_events R enc (streaming b t r) evs ≡ streaming b t (then_encode r evs)
  unfolding add_events
  add_events-streaming b t r evs =
      ap (λ w. record { translator = t; encoder = (encode_batch enc r.0 evs).0; writer = w })
        (add-logged b r.1 (encode_batch enc r.0 evs).1)

  then_encode-append :
      (r : enc.State × List F) (xs ys : List StreamEvent)
      → then_encode (then_encode r xs) ys ≡ then_encode r (xs ++ ys)
  then_encode-append r xs ys =
      rw (encode_batch-append enc r.0 xs ys)
        (ap (λ z. ((encode_batch enc (encode_batch enc r.0 xs).0 ys).0, z)) (append_assoc r.1 _ _))

  start_if-streaming :
      (b c : Bool) (t : Translator) (r : enc.State × List F)
      → (b ≡ true → c ≡ true)
      → start_if R enc c (streaming b t r) ≡ streaming c t r
  unfolding start_if
  start_if-streaming true true t r h =
      ap (λ w. record { translator = t; encoder = r.0; writer = w }) (start-logged true r.1)
  start_if-streaming false true t r h =
      ap (λ w. record { translator = t; encoder = r.0; writer = w }) (start-logged false r.1)
  start_if-streaming true false t r h = absurd (ground arith)
  start_if-streaming false false t r h = refl

  -- The loop over the lines: by the events of all lines, or stopped by a panic.
  abbrev pub ServesResult :
      Scanned R enc → enc.State × List F → Option (Translator × List StreamEvent) → Type 0
  ServesResult sc r none = (b : Bool) × (fs : List F) × (sc ≡ panicked (logged b fs))
  ServesResult sc r (some (u, evs)) =
      sc ≡ scanned (streaming u.content_started u (then_encode r evs))

  serve_events-streaming :
      (t u : Translator) (r : enc.State × List F) (evs : List StreamEvent)
      → (t.content_started ≡ true → u.content_started ≡ true)
      → serve_events R enc (streaming t.content_started t r) (u, evs)
        ≡ streaming u.content_started u (then_encode r evs)
  unfolding serve_events
  serve_events-streaming t u r evs h =
      ap (start_if R enc u.content_started) (add_events-streaming t.content_started u r evs)
      ∙ start_if-streaming t.content_started u.content_started u (then_encode r evs) h

  rest-ServesResult :
      (sc : Scanned R enc) (r : enc.State × List F) (evs : List StreamEvent)
      (o : Option (Translator × List StreamEvent))
      → ServesResult sc (then_encode r evs) o
      → ServesResult sc r (o >>= after evs)
  rest-ServesResult sc r evs none h = h
  rest-ServesResult sc r evs (some (v, more)) h =
      h ∙ ap (λ z. scanned (streaming v.content_started v z)) (then_encode-append r evs more)

  line-ServesResult :
      (c : Codec) (t : Translator) (r : enc.State × List F) (rest : List (String × String))
      (o : Option (Translator × List StreamEvent))
      → StaysStarted t o
      → ((u : Translator) (r' : enc.State × List F)
          → ServesResult
              (serve_lines R enc c (streaming u.content_started u r') rest)
              r'
              (feed_lines c u rest))
      → ServesResult
          (elim o [
            | none ↦ panicked (logged t.content_started r.1)
            | some x ↦
                serve_lines R enc c (serve_events R enc (streaming t.content_started t r) x) rest
          ])
          r
          (o >>= λ x. feed_lines c x.0 rest >>= after x.1)
  line-ServesResult c t r rest none h k = (t.content_started, r.1, refl)
  line-ServesResult c t r rest (some (u, evs)) h k =
      rest-ServesResult _ r evs (feed_lines c u rest)
        (rw (serve_events-streaming t u r evs h) (k u (then_encode r evs)))

  pub serve_lines-ServesResult :
      (c : Codec) (t : Translator) (r : enc.State × List F) (lines : List (String × String))
      → ServesResult
          (serve_lines R enc c (streaming t.content_started t r) lines)
          r
          (feed_lines c t lines)
  unfolding serve_lines feed_lines encode_batch
  serve_lines-ServesResult c t r [] =
      ap (λ z. scanned (streaming t.content_started t (r.0, z))) (sym (append-nil r.1))
  serve_lines-ServesResult c t r ((fresh, line) ∷ rest) =
      line-ServesResult c t r rest (feed c fresh t line) (feed-StaysStarted c fresh t line)
        (λ u r'. serve_lines-ServesResult c u r' rest)

-- The error that a body ends with where nothing has been sent: the upstream's own, or that of an
-- answer without output.
abbrev pub error_of : {F R : Type 0} → Translator → Option (Write F R)
error_of t =
    if t.has_error
    then some (upstream_reply t.err_message)
    else if is_zero (output_tokens t)
    then some (error_reply 429 "rate_limit_error" empty_message 10)
    else none

-- The whole response: frames behind the head where content was seen or nothing is wrong, else one
-- error reply and no frame.
abbrev pub response : {F R : Type 0} → Bool → Option (Write F R) → List F → List (Write F R)
response false (some r) fs = r ∷ []
response false none fs = head ∷ map frame fs
response true o fs = head ∷ map frame fs

-- A success forgets the timeouts before it.
abbrev pub count_after : {A : Type 0} → ℕ → Option A → ℕ
count_after consec none = 0
count_after consec (some r) = consec

module _ {F : Type 0} (R : Type 0) (enc : EventEncoder F) where
  -- All frames of an event list, the encoder's last ones included.
  abbrev pub all_frames : enc.State → List StreamEvent → List F
  all_frames e evs = let (s, frames) = encode_batch enc e evs in frames ++ (enc.close s).1

  abbrev written : ℕ × SseWriter F R → ℕ × List (Write F R)
  written (n, w) = (n, w.sent)

  abbrev settle_response : ℕ → Bool → List F → Option (Write F R) → ℕ × List (Write F R)
  settle_response consec b fs o = (count_after consec o, response b o fs)

  -- The last branches of `serveStream`.
  abbrev branches : ℕ → SseWriter F R → Bool → Bool → Write F R → Write F R → ℕ × SseWriter F R
  branches consec w e z x y =
      if e
      then (consec, if w.started then w else reply w x)
      else if z
      then (consec, if w.started then w else reply w y)
      else (0, start_writer w)

  branches-logged :
      (b : Bool) (fs : List F) (consec : ℕ) (e z : Bool) (x y : Write F R)
      → written (branches consec (logged b fs) e z x y)
        ≡ settle_response consec b fs (if e then some x else if z then some y else none)
  unfolding reply
  branches-logged true fs consec true z x y = refl
  branches-logged true fs consec false true x y = refl
  branches-logged true fs consec false false x y = ap (λ w. written (0, w)) (start-logged true fs)
  branches-logged false fs consec true z x y = refl
  branches-logged false fs consec false true x y = refl
  branches-logged false fs consec false false x y = ap (λ w. written (0, w)) (start-logged false fs)

  -- The end of a body, for the frames so far.
  pub finish_stream-written :
      (c : Codec) (consec : ℕ) (b : Bool) (u : Translator) (r : enc.State × List F)
      → written (finish_stream R enc c consec (streaming R enc b u r)) ≡ (
          let (e, frames) = then_encode R enc r (finish c u).1 in
          settle_response consec b (frames ++ (enc.close e).1) (error_of (finish c u).0))
  unfolding finish_stream
  finish_stream-written c consec b u r =
      let t = (finish c u).0 in
      let s₁ = add_events-streaming R enc b t r (finish c u).1 in
      let all = then_encode R enc r (finish c u).1 in
      ap
        (λ s. written (
          branches consec (add_frames s.writer (enc.close s.encoder).1) t.has_error
            (is_zero (output_tokens t)) (upstream_reply t.err_message)
            (error_reply 429 "rate_limit_error" empty_message 10)))
        s₁
      ∙ ap
          (λ w. written (
            branches consec w t.has_error (is_zero (output_tokens t)) (upstream_reply t.err_message)
              (error_reply 429 "rate_limit_error" empty_message 10)))
          (add-logged b all.1 (enc.close all.0).1)
      ∙ branches-logged b (all.1 ++ (enc.close all.0).1) consec t.has_error
          (is_zero (output_tokens t)) (upstream_reply t.err_message)
          (error_reply 429 "rate_limit_error" empty_message 10)

  pub open_stream-streaming :
      (model id : String) (e : enc.State)
      → open_stream R enc (new_translator model id) e
        ≡ streaming R enc false
            (new_translator model id)
            (encode_batch enc e (start (new_translator model id)))
  unfolding open_stream new_writer
  open_stream-streaming model id e =
      add_events-streaming R enc false (new_translator model id) (e, [])
        (start (new_translator model id))

  -- For every outbound protocol and every upstream body that is read to its end without a fault: what
  -- is written is the head and all frames, those of `Start`, of every line and of `Finish` and the
  -- encoder's last ones, in order, where content was seen or the answer is sound; where no content
  -- was seen and the upstream failed or gave no output, it is one error reply and no frame. The count
  -- of timeouts is reset exactly by a sound answer.
  pub serve_stream_refines :
      (c : Codec) (consec : ℕ) (model id : String) (e : enc.State) (lines : List (String × String))
      (u : Translator) (evs : List StreamEvent)
      → feed_lines c (new_translator model id) lines ≡ some (u, evs)
      → serve_stream R enc c consec (new_translator model id) e lines completed
        ≡ settle_response consec u.content_started
            (all_frames e (start (new_translator model id) ++ evs ++ (finish c u).1))
            (error_of (finish c u).0)
  unfolding serve_stream end_scan end_stream
  serve_stream_refines c consec model id e lines u evs h =
      let t = new_translator model id in
      let r = encode_batch enc e (start t) in
      let total =
        ap (λ z. then_encode R enc z (finish c u).1)
          (then_encode-append R enc (e, []) (start t) evs)
        ∙ then_encode-append R enc (e, []) (start t ++ evs) (finish c u).1 in
      ap (λ z. written (end_scan R enc c consec completed (serve_lines R enc c z lines)))
        (open_stream-streaming model id e)
      ∙ ap (λ z. written (end_scan R enc c consec completed z))
          (subst
            (λ o. ServesResult R enc (serve_lines R enc c (streaming R enc false t r) lines) r o) h
            (serve_lines-ServesResult R enc c t r lines))
      ∙ finish_stream-written c consec u.content_started u (then_encode R enc r evs)
      ∙ ap
          (λ z.
            settle_response consec u.content_started (z.1 ++ (enc.close z.0).1)
              (error_of (finish c u).0))
          total
