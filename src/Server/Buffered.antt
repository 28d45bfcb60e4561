-- ===== src/Server/Buffered.antt =====
-- internal/server/pipeline.go: what a client gets for a whole upstream body that is buffered.
use mathlib.Core.Path.{subst}
use cmdc2api.Base.{
  ℕ, String, ◌≡◌, refl, sym, ◌∙◌, ap, Bool, true, false, Option, none, some, List, [], ◌∷◌, ◌++◌,
  is_zero, if◌then◌else◌,
}
use cmdc2api.Types.Event.{StreamEvent}
use cmdc2api.Stream.{
  Codec, Translator, new_translator, start, feed, feed_lines, output_tokens, ◌>>=◌, after,
}
use cmdc2api.Stream.Usage.{finish}
use cmdc2api.Server.Writer.{Write, error_reply, json_reply}
use cmdc2api.Server.Serve.{
  EventAggregator, completed, empty_message, upstream_reply, absorb_all, buffer_lines,
  finish_buffer, end_buffer, serve_buffer,
}
use cmdc2api.Server.Response.{error_of, count_after}

module _ {R : Type 0} (agg : EventAggregator R) where
  absorb_all-append :
      (a : agg.State) (xs ys : List StreamEvent)
      → absorb_all agg a (xs ++ ys) ≡ absorb_all agg (absorb_all agg a xs) ys
  unfolding absorb_all
  absorb_all-append a [] ys = refl
  absorb_all-append a (x ∷ xs) ys = absorb_all-append (agg.absorb a x) xs ys

  abbrev AbsorbsResult :
      Option (Translator × agg.State) → agg.State → Option (Translator × List StreamEvent) → Type 0
  AbsorbsResult o a none = o ≡ none
  AbsorbsResult o a (some (u, evs)) = o ≡ some (u, absorb_all agg a evs)

  rest-AbsorbsResult :
      (p : Option (Translator × agg.State)) (a : agg.State) (evs : List StreamEvent)
      (o : Option (Translator × List StreamEvent))
      → AbsorbsResult p (absorb_all agg a evs) o
      → AbsorbsResult p a (o >>= after evs)
  rest-AbsorbsResult p a evs none h = h
  rest-AbsorbsResult p a evs (some (v, more)) h =
      h ∙ ap (λ z. some (v, z)) (sym (absorb_all-append a evs more))

  line-AbsorbsResult :
      (c : Codec) (a : agg.State) (rest : List (String × String))
      (o : Option (Translator × List StreamEvent))
      → ((u : Translator) (b : agg.State)
          → AbsorbsResult (buffer_lines agg c u b rest) b (feed_lines c u rest))
      → AbsorbsResult
          (elim o [
            | none ↦ none
            | some (u, evs) ↦ buffer_lines agg c u (absorb_all agg a evs) rest
          ])
          a
          (o >>= λ x. feed_lines c x.0 rest >>= after x.1)
  line-AbsorbsResult c a rest none k = refl
  line-AbsorbsResult c a rest (some (u, evs)) k =
      rest-AbsorbsResult _ a evs (feed_lines c u rest) (k u (absorb_all agg a evs))

  buffer_lines-AbsorbsResult :
      (c : Codec) (t : Translator) (a : agg.State) (lines : List (String × String))
      → AbsorbsResult (buffer_lines agg c t a lines) a (feed_lines c t lines)
  unfolding buffer_lines feed_lines absorb_all
  buffer_lines-AbsorbsResult c t a [] = refl
  buffer_lines-AbsorbsResult c t a ((fresh, line) ∷ rest) =
      line-AbsorbsResult c a rest (feed c fresh t line)
        (λ u b. buffer_lines-AbsorbsResult c u b rest)

-- The whole buffered response: the error, or the body.
abbrev pub buffered : {F R : Type 0} → Option (Write F R) → R → List (Write F R)
buffered none body = json_reply body ∷ []
buffered (some r) body = r ∷ []

module _ (F : Type 0) {R : Type 0} (agg : EventAggregator R) where
  abbrev settle_buffer : ℕ → R → Option (Write F R) → ℕ × List (Write F R)
  settle_buffer consec body o = (count_after consec o, buffered o body)

  buffer-branches :
      (consec : ℕ) (e z : Bool) (x y : Write F R) (body : R)
      → ◌≡◌ {A = ℕ × List (Write F R)}
          (if e
            then (consec, x ∷ [])
            else if z
            then (consec, y ∷ [])
            else (0, json_reply body ∷ []))
          (settle_buffer consec body (if e then some x else if z then some y else none))
  buffer-branches consec true z x y body = refl
  buffer-branches consec false true x y body = refl
  buffer-branches consec false false x y body = refl

  -- For every outbound protocol and every upstream body that is read to its end without a fault: a
  -- buffered request is answered by the same error reply that a stream without content would get, or
  -- by one body, made from all events in order.
  pub serve_buffer_refines :
      (c : Codec) (consec : ℕ) (model id : String) (a : agg.State) (lines : List (String × String))
      (u : Translator) (evs : List StreamEvent)
      → feed_lines c (new_translator model id) lines ≡ some (u, evs)
      → serve_buffer F agg c consec (new_translator model id) a lines completed
        ≡ settle_buffer consec
            (agg.answer
              (absorb_all agg a (start (new_translator model id) ++ evs ++ (finish c u).1)))
            (error_of (finish c u).0)
  unfolding serve_buffer end_buffer finish_buffer
  serve_buffer_refines c consec model id a lines u evs h =
      let t = new_translator model id in
      let a₀ = absorb_all agg a (start t) in
      let done = (finish c u).0 in
      ap (end_buffer F agg c consec completed) (
        subst (AbsorbsResult agg (buffer_lines agg c t a₀ lines) a₀) h
          (buffer_lines-AbsorbsResult agg c t a₀ lines))
      ∙ buffer-branches consec done.has_error (is_zero (output_tokens done))
          (upstream_reply done.err_message) (error_reply 429 "rate_limit_error" empty_message 10) _
      ∙ ap (λ z. settle_buffer consec (agg.answer z) (error_of done))
          (ap (λ z. absorb_all agg z (finish c u).1) (sym (absorb_all-append agg a (start t) evs))
            ∙ sym (absorb_all-append agg a (start t ++ evs) (finish c u).1))
