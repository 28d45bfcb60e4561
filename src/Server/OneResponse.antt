-- ===== src/Server/OneResponse.antt =====
-- internal/server/pipeline.go: a client never gets more than one response, however the upstream body
-- ends.
use mathlib.Core.Path.{subst}
use cmdc2api.Base.{
  ℕ, String, sym, Bool, true, false, Option, none, some, List, [], ◌∷◌, map, is_zero, if◌then◌else◌,
}
use cmdc2api.Types.Event.{StreamEvent, error_event}
use cmdc2api.Stream.{Codec, Translator, new_translator, start, feed_lines, output_tokens}
use cmdc2api.Stream.Usage.{finish}
use cmdc2api.Server.Writer.{Write, head, frame, error_reply, json_reply, reply}
use cmdc2api.Server.Serve.{
  EventEncoder, ScanEnd, completed, disconnected, timed_out, broken, empty_message, upstream_reply,
  encode_batch, Scanned, serve_lines, report, end_stream, recover_panic, end_scan, serve_stream,
}
use cmdc2api.Server.Log.{logged}
use cmdc2api.Server.Response.{
  streaming, then_encode, ServesResult, serve_lines-ServesResult, add_events-streaming, error_of,
  response, finish_stream-written, open_stream-streaming,
}

-- Nothing, one error reply, one body, or a head with frames behind it.
abbrev pub AreFrames : {F R : Type 0} → List (Write F R) → Type 0
AreFrames [] = Unit
AreFrames (frame f ∷ ws) = AreFrames ws
AreFrames (_ ∷ ws) = ⊥

abbrev pub IsOneResponse : {F R : Type 0} → List (Write F R) → Type 0
IsOneResponse [] = Unit
IsOneResponse (head ∷ ws) = AreFrames ws
IsOneResponse (error_reply _ _ _ _ ∷ []) = Unit
IsOneResponse (json_reply _ ∷ []) = Unit
IsOneResponse _ = ⊥

abbrev OnlyError : {F R : Type 0} → Option (Write F R) → Type 0
OnlyError none = Unit
OnlyError (some r) = IsOneResponse (r ∷ [])

error_of-OnlyError : (F R : Type 0) (t : Translator) → OnlyError {F = F} {R = R} (error_of t)
unfolding upstream_reply
error_of-OnlyError F R t = go t.has_error (is_zero (output_tokens t))
  where
    go :
        (e z : Bool)
        → OnlyError {F = F} {R = R} (
            if e
            then some (upstream_reply t.err_message)
            else if z
            then some (error_reply 429 "rate_limit_error" empty_message 10)
            else none)
    go true z = tt
    go false true = tt
    go false false = tt

module _ {F : Type 0} (R : Type 0) (enc : EventEncoder F) where
  frames-AreFrames : (fs : List F) → AreFrames {R = R} (map frame fs)
  frames-AreFrames [] = tt
  frames-AreFrames (f ∷ fs) = frames-AreFrames fs

  logged-IsOneResponse : (b : Bool) (fs : List F) → IsOneResponse (logged {R = R} b fs).sent
  logged-IsOneResponse true fs = frames-AreFrames fs
  logged-IsOneResponse false fs = tt

  response-IsOneResponse :
      (b : Bool) (o : Option (Write F R)) (fs : List F)
      → OnlyError o
      → IsOneResponse (response b o fs)
  response-IsOneResponse true o fs h = frames-AreFrames fs
  response-IsOneResponse false none fs h = frames-AreFrames fs
  response-IsOneResponse false (some r) fs h = h

  report-IsOneResponse :
      (b : Bool) (t : Translator) (r : enc.State × List F) (status : ℕ) (type message : String)
      (retry : ℕ)
      → IsOneResponse (report R enc (streaming R enc b t r) status type message retry).sent
  unfolding report reply
  report-IsOneResponse true t r status type message retry =
      rw (add_events-streaming R enc true t r (error_event type message ∷ []))
        (logged-IsOneResponse true (then_encode R enc r (error_event type message ∷ [])).1)
  report-IsOneResponse false t r status type message retry = tt

  recover-IsOneResponse :
      (b : Bool) (fs : List F) → IsOneResponse (recover_panic R enc (logged b fs)).sent
  unfolding recover_panic reply
  recover-IsOneResponse true fs = frames-AreFrames fs
  recover-IsOneResponse false fs = tt

  end_stream-IsOneResponse :
      (c : Codec) (consec : ℕ) (b : Bool) (t : Translator) (r : enc.State × List F)
      (ending : ScanEnd)
      → IsOneResponse (end_stream R enc c consec (streaming R enc b t r) ending).1.sent
  unfolding end_stream
  end_stream-IsOneResponse c consec b t r completed =
      subst (λ w. IsOneResponse w.1) (sym (finish_stream-written R enc c consec b t r))
        (response-IsOneResponse b (error_of (finish c t).0) _
          (error_of-OnlyError F R (finish c t).0))
  end_stream-IsOneResponse c consec b t r disconnected = logged-IsOneResponse b r.1
  end_stream-IsOneResponse c consec b t r timed_out = report-IsOneResponse b t r _ _ _ _
  end_stream-IsOneResponse c consec b t r (broken message) = report-IsOneResponse b t r _ _ _ _

  end_scan-IsOneResponse :
      (c : Codec) (consec : ℕ) (ending : ScanEnd) (sc : Scanned R enc) (r : enc.State × List F)
      (o : Option (Translator × List StreamEvent))
      → ServesResult R enc sc r o
      → IsOneResponse (end_scan R enc c consec ending sc).1.sent
  unfolding end_scan
  end_scan-IsOneResponse c consec ending sc r none (b, fs, e) = rw e (recover-IsOneResponse b fs)
  end_scan-IsOneResponse c consec ending sc r (some (u, evs)) e =
      rw e (end_stream-IsOneResponse c consec u.content_started u (then_encode R enc r evs) ending)

  pub serve_stream-IsOneResponse :
      (c : Codec) (consec : ℕ) (model id : String) (e : enc.State) (lines : List (String × String))
      (ending : ScanEnd)
      → IsOneResponse (serve_stream R enc c consec (new_translator model id) e lines ending).1
  unfolding serve_stream
  serve_stream-IsOneResponse c consec model id e lines ending =
      let t = new_translator model id in
      subst
        (λ z. IsOneResponse (end_scan R enc c consec ending (serve_lines R enc c z lines)).1.sent)
        (sym (open_stream-streaming R enc model id e))
        (end_scan-IsOneResponse c consec ending _ (encode_batch enc e (start t))
          (feed_lines c t lines)
          (serve_lines-ServesResult R enc c t (encode_batch enc e (start t)) lines))
