-- ===== src/Stream/Ending.antt =====
-- Whole streams: what a client reads from the first event to the last.
use cmdc2api.Base.{
  String, ◌≡◌, refl, ◌∙◌, Bool, true, false, Option, none, some, List, [], ◌∷◌, ◌++◌, ◌==◌, is_some,
  is_zero, All, if◌then◌else◌,
}
use cmdc2api.Types.Cmdc.{CcEvent}
use cmdc2api.Types.Event.{StreamEvent}
use cmdc2api.Stream.{
  Codec, Translator, new_translator, start, close_block, read_line, feed_event, error_case,
  feed_parsed, feed, feed_lines, output_tokens,
}
use cmdc2api.Stream.Usage.{finish, finish_open, delta_usage}
use cmdc2api.Stream.Protocol.{Phase, before, between, stopped, accept}
use cmdc2api.Stream.Blocks.{
  phase_of, IsConsistent, Keeps, KeepsResult, feed_event-Keeps, close_block-Keeps, accept-chain,
}

-- An event of type `error` carries an `error` object.
abbrev pub IsSound : Option CcEvent → Type 0
IsSound none = Unit
IsSound (some ev) = (ev.type == "error") ≡ true → is_some ev.error ≡ true

abbrev pub IsSoundLine : Codec → String × String → Type 0
IsSoundLine c line = IsSound (read_line c line.1)

-- A value that is there and keeps the protocol.
abbrev Feeds : Translator → Option (Translator × List StreamEvent) → Type 0
Feeds t o = (u : Translator) × (es : List StreamEvent) × (o ≡ some (u, es)) × Keeps t u es

is_some-if :
    {A : Type 0} (b : Bool) (x y : Option A)
    → (b ≡ true → is_some x ≡ true)
    → is_some y ≡ true
    → is_some (if b then x else y) ≡ true
is_some-if true x y h k = h refl
is_some-if false x y h k = k

error_case-some :
    (t : Translator) (o : Option String) (message : String)
    → is_some o ≡ true
    → is_some (error_case t o message) ≡ true
unfolding error_case
error_case-some t none message h = cc
error_case-some t (some inner) message h = refl

-- Only an `error` event without its object can fault.
feed_event-some :
    (c : Codec) (fresh : String) (t : Translator) (ev : CcEvent)
    → IsSound (some ev)
    → is_some (feed_event c fresh t ev) ≡ true
unfolding feed_event
feed_event-some c fresh t ev h =
    is_some-if (ev.type == "text-delta") _ _ (λ e. refl)
      (is_some-if (ev.type == "reasoning-delta") _ _ (λ e. refl)
        (is_some-if (ev.type == "tool-call") _ _ (λ e. refl)
          (is_some-if (ev.type == "finish-step") _ _ (λ e. refl)
            (is_some-if (ev.type == "finish") _ _ (λ e. refl)
              (is_some-if (ev.type == "error") _ _
                (λ e. error_case-some t ev.error ev.message (h e)) refl)))))

Feeds-of :
    (t : Translator) (o : Option (Translator × List StreamEvent))
    → KeepsResult t o
    → is_some o ≡ true
    → Feeds t o
Feeds-of t none k h = cc
Feeds-of t (some (u, es)) k h = (u, es, refl, k)

feed_parsed-Feeds :
    (c : Codec) (fresh : String) (t : Translator) (o : Option CcEvent)
    → IsConsistent t
    → IsSound o
    → Feeds t (feed_parsed c fresh t o)
unfolding feed_parsed
feed_parsed-Feeds c fresh t none h sound =
    (t, [], refl, record { accepted = refl; consistent = h; unfinished = refl })
feed_parsed-Feeds c fresh t (some ev) h sound =
    let t' = record t { last_event = ev.type } in
    let (u, es, e, k) =
      Feeds-of t' (feed_event c fresh t' ev) (feed_event-Keeps c fresh t' ev h)
        (feed_event-some c fresh t' ev sound) in
    (
      u,
      es,
      e,
      record { accepted = k.accepted; consistent = k.consistent; unfinished = k.unfinished },
    )

feed_lines-Feeds :
    (c : Codec) (t : Translator) (lines : List (String × String))
    → IsConsistent t
    → All (IsSoundLine c) lines
    → Feeds t (feed_lines c t lines)
unfolding feed_lines feed
feed_lines-Feeds c t [] h sound =
    (t, [], refl, record { accepted = refl; consistent = h; unfinished = refl })
feed_lines-Feeds c t ((fresh, line) ∷ rest) h sound =
    let (u, es, e, k) = feed_parsed-Feeds c fresh t (read_line c line) h sound.0 in
    let (v, fs, d, l) = feed_lines-Feeds c u rest k.consistent sound.1 in
    (
      v,
      es ++ fs,
      rw (e, d),
      record {
        accepted = accept-chain (phase_of t) (phase_of u) es fs k.accepted l.accepted;
        consistent = l.consistent;
        unfinished = l.unfinished ∙ k.unfinished;
      },
    )

-- Where the events of a whole stream end.
abbrev pub final_phase : Translator → Phase
final_phase t =
    if t.has_error
    then phase_of t
    else if is_zero (output_tokens t)
    then between t.next_index
    else stopped

accept-if :
    (p q r : Phase) (b : Bool) (x y : Translator × List StreamEvent)
    → accept p x.1 ≡ some q
    → accept p y.1 ≡ some r
    → accept p (if b then x else y).1 ≡ some (if b then q else r)
accept-if p q r true x y h k = h
accept-if p q r false x y h k = k

accept-else :
    (p : Phase) {q : Phase} (b : Bool) (x y : Translator × List StreamEvent)
    → b ≡ false
    → accept p y.1 ≡ some q
    → accept p (if b then x else y).1 ≡ some q
accept-else p true x y f h = cc
accept-else p false x y f h = h

-- `v` is the translator behind `closeBlock` with its stop reason settled.
finish_open-accept :
    (c : Codec) (t : Translator)
    → IsConsistent t
    → accept (phase_of t) (finish_open c t).1
      ≡ some (if is_zero (output_tokens t) then between t.next_index else stopped)
unfolding finish_open close_block output_tokens
finish_open-accept c t h =
    let closed = (close_block-Keeps c t h).accepted in
    accept-if (phase_of t) (between t.next_index) stopped (is_zero (output_tokens t)) _ _
      (accept-chain (phase_of t) (between t.next_index) (close_block c t).1 _ closed refl)
      (accept-chain (phase_of t) (between t.next_index) (close_block c t).1 _ closed refl)

finish-accept :
    (c : Codec) (t : Translator)
    → IsConsistent t
    → t.finished ≡ false
    → accept (phase_of t) (finish c t).1 ≡ some (final_phase t)
unfolding finish output_tokens
finish-accept c t h f = accept-else (phase_of t) t.finished _ _ f (
    accept-if (phase_of t) (phase_of t) _ t.has_error _ _ refl
      (finish_open-accept c (record t { finished = true }) h))

abbrev pub IsOrderly :
    Codec → Translator → List StreamEvent → Option (Translator × List StreamEvent) → Type 0
IsOrderly c t opening none = ⊥
IsOrderly c t opening (some (u, es)) =
    accept before (opening ++ (es ++ (finish c u).1)) ≡ some (final_phase u)

-- For every upstream body whose `error` events carry their object: no line faults, and the events
-- of `Start`, of all lines and of `Finish`, in this order, keep the protocol. They end with the
-- message stopped, or, for an answer without output tokens, with every block closed and no message
-- stop; after an upstream error no end is written.
pub stream-IsOrderly :
    (c : Codec) (model id : String) (lines : List (String × String))
    → All (IsSoundLine c) lines
    → IsOrderly c
        (new_translator model id)
        (start (new_translator model id))
        (feed_lines c (new_translator model id) lines)
unfolding start
stream-IsOrderly c model id lines sound =
    let t = new_translator model id in
    let (u, es, e, k) = feed_lines-Feeds c t lines tt sound in
    rw e (
      accept-chain (between 0) (phase_of u) es (finish c u).1 k.accepted
        (finish-accept c u k.consistent k.unfinished))

finish_open-finished : (c : Codec) (t : Translator) → (finish_open c t).0.finished ≡ t.finished
unfolding finish_open close_block delta_usage
finish_open-finished c t = finished-if (is_zero (output_tokens _)) _ _ refl refl
  where
    finished-if :
        (b : Bool) (x y : Translator × List StreamEvent)
        → x.0.finished ≡ t.finished
        → y.0.finished ≡ t.finished
        → (if b then x else y).0.finished ≡ t.finished
    finished-if true x y h k = h
    finished-if false x y h k = k

finished-if :
    (b : Bool) (x y : Translator × List StreamEvent)
    → x.0.finished ≡ true
    → y.0.finished ≡ true
    → (if b then x else y).0.finished ≡ true
finished-if true x y h k = h
finished-if false x y h k = k

finish-finished : (c : Codec) (t : Translator) → (finish c t).0.finished ≡ true
unfolding finish
finish-finished c t =
    elim t.finished as (λ b. t.finished ≡ b → (if b then (t, []) else open_end).0.finished ≡ true) [
      | true ↦ λ f. f
      | false ↦ λ f.
          finished-if t.has_error _ _ refl (finish_open-finished c (record t { finished = true }))
    ]
      refl
  where
    open_end : Translator × List StreamEvent
    open_end =
        let u = record t { finished = true } in if t.has_error then (u, []) else finish_open c u

finish-again : (c : Codec) (t : Translator) → t.finished ≡ true → (finish c t).1 ≡ []
unfolding finish
finish-again c t f = simp f

-- A second `Finish` writes nothing, whatever the state of the translator.
pub finish_idempotent : (c : Codec) (t : Translator) → (finish c (finish c t).0).1 ≡ []
finish_idempotent c t = finish-again c (finish c t).0 (finish-finished c t)
