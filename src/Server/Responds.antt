-- ===== src/Server/Responds.antt =====
-- internal/server: every request gets a response, as long as its client is there.
use mathlib.Core.Path.{subst}
use cmdc2api.Base.{ℕ, String, sym, Bool, true, false, Option, none, some, List, [], ◌∷◌}
use cmdc2api.Types.Event.{StreamEvent, error_event}
use cmdc2api.Stream.{Codec, Translator, new_translator, start, feed_lines}
use cmdc2api.Stream.Usage.{finish}
use cmdc2api.Server.Writer.{Write, reply}
use cmdc2api.Server.Serve.{
  EventEncoder, ScanEnd, completed, disconnected, timed_out, broken, encode_batch, Scanned, report,
  end_stream, recover_panic, end_scan, serve_lines, serve_stream,
}
use cmdc2api.Server.Log.{logged}
use cmdc2api.Server.OneResponse.{IsOneResponse}
use cmdc2api.Server.Response.{
  streaming, then_encode, ServesResult, serve_lines-ServesResult, add_events-streaming, error_of,
  response, finish_stream-written, open_stream-streaming,
}

-- Something is written.
abbrev pub IsSent : {A : Type 0} → List A → Type 0
IsSent [] = ⊥
IsSent (w ∷ ws) = Unit

-- The client is there at the end of the scan.
abbrev pub IsPresent : ScanEnd → Type 0
IsPresent disconnected = ⊥
IsPresent _ = Unit

module _ {F : Type 0} (R : Type 0) (enc : EventEncoder F) where
  response-IsSent : (b : Bool) (o : Option (Write F R)) (fs : List F) → IsSent (response b o fs)
  response-IsSent true o fs = tt
  response-IsSent false none fs = tt
  response-IsSent false (some r) fs = tt

  report-IsSent :
      (b : Bool) (t : Translator) (r : enc.State × List F) (status : ℕ) (type message : String)
      (retry : ℕ)
      → IsSent (report R enc (streaming R enc b t r) status type message retry).sent
  unfolding report reply
  report-IsSent true t r status type message retry =
      rw (add_events-streaming R enc true t r (error_event type message ∷ [])) tt
  report-IsSent false t r status type message retry = tt

  end_stream-IsSent :
      (c : Codec) (consec : ℕ) (b : Bool) (t : Translator) (r : enc.State × List F)
      (ending : ScanEnd)
      → IsPresent ending
      → IsSent (end_stream R enc c consec (streaming R enc b t r) ending).1.sent
  unfolding end_stream
  end_stream-IsSent c consec b t r completed h =
      subst (λ w. IsSent w.1) (sym (finish_stream-written R enc c consec b t r))
        (response-IsSent b (error_of (finish c t).0) _)
  end_stream-IsSent c consec b t r disconnected h = absurd h
  end_stream-IsSent c consec b t r timed_out h = report-IsSent b t r _ _ _ _
  end_stream-IsSent c consec b t r (broken message) h = report-IsSent b t r _ _ _ _

  recover-IsSent : (b : Bool) (fs : List F) → IsSent (recover_panic R enc (logged b fs)).sent
  unfolding recover_panic reply
  recover-IsSent true fs = tt
  recover-IsSent false fs = tt

  end_scan-IsSent :
      (c : Codec) (consec : ℕ) (ending : ScanEnd) (sc : Scanned R enc) (r : enc.State × List F)
      (o : Option (Translator × List StreamEvent))
      → IsPresent ending
      → ServesResult R enc sc r o
      → IsSent (end_scan R enc c consec ending sc).1.sent
  unfolding end_scan
  end_scan-IsSent c consec ending sc r none h (b, fs, e) = rw e (recover-IsSent b fs)
  end_scan-IsSent c consec ending sc r (some (u, evs)) h e =
      rw e (end_stream-IsSent c consec u.content_started u (then_encode R enc r evs) ending h)

  pub serve_stream-IsSent :
      (c : Codec) (consec : ℕ) (model id : String) (e : enc.State) (lines : List (String × String))
      (ending : ScanEnd)
      → IsPresent ending
      → IsSent (serve_stream R enc c consec (new_translator model id) e lines ending).1
  unfolding serve_stream
  serve_stream-IsSent c consec model id e lines ending h =
      let t = new_translator model id in
      subst (λ z. IsSent (end_scan R enc c consec ending (serve_lines R enc c z lines)).1.sent)
        (sym (open_stream-streaming R enc model id e))
        (end_scan-IsSent c consec ending _ (encode_batch enc e (start t)) (feed_lines c t lines) h
          (serve_lines-ServesResult R enc c t (encode_batch enc e (start t)) lines))

  -- What a streamed request gets: one response, and nothing at most where the client has gone.
  abbrev pub IsServed : ScanEnd → List (Write F R) → Type 0
  IsServed completed ws = IsSent ws × IsOneResponse ws
  IsServed disconnected ws = IsOneResponse ws
  IsServed timed_out ws = IsSent ws × IsOneResponse ws
  IsServed (broken message) ws = IsSent ws × IsOneResponse ws
