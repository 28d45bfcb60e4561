-- ===== src/Stream/Verdict.antt =====
-- The stop reason that a whole stream ends with.
use mathlib.Core.Path.{ap₂}
use cmdc2api.Base.{
  String, ◌≡◌, refl, sym, ◌∙◌, ap, Bool, true, false, ◌||◌, Option, none, some, List, [], ◌∷◌, ◌==◌,
  ==→≡, is_some, or_else, if◌then◌else◌,
}
use cmdc2api.Types.Cmdc.{CcEvent}
use cmdc2api.Types.Event.{StreamEvent}
use cmdc2api.Stream.{
  Codec, Translator, map_stop_reason, close_block, feed_text, feed_reasoning, feed_tool_call,
  feed_error, error_case, feed_event, feed_parsed, read_line, feed, feed_lines, new_translator,
  after, ◌>>=◌,
}
use cmdc2api.Stream.Reason.{
  settle, reason_in, reason_of_line, last_reason, pick, pick-pick, Picks, same-Picks, SameReason,
  feed_text-SameReason, feed_reasoning-SameReason, feed_finish_step-Picks, feed_finish-Picks,
}

abbrev PicksResult :
    Translator → Option String → Option String → Option (Translator × List StreamEvent) → Type 0
PicksResult t s f none = Unit
PicksResult t s f (some (u, es)) = Picks t s f u

PicksResult-if :
    (t : Translator) (s f : Option String) (b : Bool) (x y : Option (Translator × List StreamEvent))
    → (b ≡ true → PicksResult t s f x)
    → (b ≡ false → PicksResult t s f y)
    → PicksResult t s f (if b then x else y)
PicksResult-if t s f true x y h k = h refl
PicksResult-if t s f false x y h k = k refl

-- A type is not another.
other : (type a b : String) → (type == a) ≡ true → (a == b) ≡ false → (type == b) ≡ false
other type a b e h = ap (λ x. x == b) (==→≡ type a e) ∙ h

-- An event of another type that leaves the two fields alone.
quiet :
    (t u : Translator) (ev : CcEvent)
    → (ev.type == "finish-step") ≡ false
    → (ev.type == "finish") ≡ false
    → SameReason u t
    → Picks t (reason_in "finish-step" ev) (reason_in "finish" ev) u
quiet t u ev s f h = rw (s, f) (same-Picks t u h.0 h.1)

error_case-PicksResult :
    (t : Translator) (ev : CcEvent) (o : Option String)
    → (ev.type == "finish-step") ≡ false
    → (ev.type == "finish") ≡ false
    → PicksResult t (reason_in "finish-step" ev) (reason_in "finish" ev) (error_case t o ev.message)
unfolding error_case
error_case-PicksResult t ev none s f = tt
error_case-PicksResult t ev (some inner) s f =
    quiet t (feed_error t inner ev.message).0 ev s f (unfold feed_error in (refl, refl))

feed_event-Picks :
    (c : Codec) (fresh : String) (t : Translator) (ev : CcEvent)
    → PicksResult t (reason_in "finish-step" ev) (reason_in "finish" ev) (feed_event c fresh t ev)
unfolding feed_event
feed_event-Picks c fresh t ev =
    let s = reason_in "finish-step" ev in
    let f = reason_in "finish" ev in
    let ty = ev.type in
    let text = if ev.text == "" then ev.delta else ev.text in
    PicksResult-if t s f (ty == "text-delta") _ _
      (λ e.
        quiet t (feed_text c t text).0 ev (other ty "text-delta" "finish-step" e refl)
          (other ty "text-delta" "finish" e refl) (feed_text-SameReason c t text))
      (λ e₁.
        PicksResult-if t s f (ty == "reasoning-delta") _ _
          (λ e.
            quiet t (feed_reasoning c t ev.text).0 ev
              (other ty "reasoning-delta" "finish-step" e refl)
              (other ty "reasoning-delta" "finish" e refl) (feed_reasoning-SameReason c t ev.text))
          (λ e₂.
            PicksResult-if t s f (ty == "tool-call") _ _
              (λ e.
                quiet t (feed_tool_call c fresh t ev).0 ev
                  (other ty "tool-call" "finish-step" e refl) (other ty "tool-call" "finish" e refl)
                  (unfold feed_tool_call close_block in (refl, refl)))
              (λ e₃.
                PicksResult-if t s f (ty == "finish-step") _ _
                  (λ e.
                    rw (e, other ty "finish-step" "finish" e refl) (feed_finish_step-Picks t ev))
                  (λ e₄.
                    PicksResult-if t s f (ty == "finish") _ _
                      (λ e. rw (e₄, e) (feed_finish-Picks t ev))
                      (λ e₅.
                        PicksResult-if t s f (ty == "error") _ _
                          (λ e. error_case-PicksResult t ev ev.error e₄ e₅)
                          (λ e. quiet t t ev e₄ e₅ (refl, refl)))))))

relabel :
    (t : Translator) (label : String) (s f : Option String)
    (o : Option (Translator × List StreamEvent))
    → PicksResult (record t { last_event = label }) s f o
    → PicksResult t s f o
relabel t label s f none h = tt
relabel t label s f (some (u, es)) h = h

feed_parsed-Picks :
    (c : Codec) (fresh : String) (t : Translator) (o : Option CcEvent)
    → PicksResult t
        (reason_of_line "finish-step" o)
        (reason_of_line "finish" o)
        (feed_parsed c fresh t o)
unfolding feed_parsed
feed_parsed-Picks c fresh t none = same-Picks t t refl refl
feed_parsed-Picks c fresh t (some ev) =
    relabel t ev.type _ _ (feed_event c fresh (record t { last_event = ev.type }) ev)
      (feed_event-Picks c fresh (record t { last_event = ev.type }) ev)

flags :
    (set : Bool) (s₁ s₂ : Option String)
    → ((set || is_some s₁) || is_some s₂) ≡ (set || is_some (or_else s₂ s₁))
flags true s₁ s₂ = refl
flags false none none = refl
flags false none (some r) = refl
flags false (some r) none = refl
flags false (some r) (some q) = refl

Picks-trans :
    (t v u : Translator) (s₁ f₁ s₂ f₂ : Option String)
    → Picks t s₁ f₁ v
    → Picks v s₂ f₂ u
    → Picks t (or_else s₂ s₁) (or_else f₂ f₁) u
Picks-trans t v u s₁ f₁ s₂ f₂ h k = (
  k.0 ∙ ap (λ b. b || is_some s₂) h.0 ∙ flags t.step_reason_set s₁ s₂,
  k.1
      ∙ ap₂ (λ b r. pick s₂ b f₂ r) h.0 h.1
      ∙ pick-pick s₂ s₁ t.step_reason_set f₂ f₁ (settle t.stop_reason),
)

-- The translator behind the rest of the lines.
rest_of :
    (fs : List StreamEvent) (o : Option (Translator × List StreamEvent)) (u : Translator)
    (es : List StreamEvent)
    → (o >>= after fs) ≡ some (u, es)
    → (gs : List StreamEvent) × (o ≡ some (u, gs))
rest_of fs none u es h = cc
rest_of fs (some (w, gs)) u es h = (gs, cc)

module _ (c : Codec) (rest : List (String × String)) (u : Translator) (s₂ f₂ : Option String) where
  bind-Picks :
      (t : Translator) (s₁ f₁ : Option String) (o : Option (Translator × List StreamEvent))
      (es : List StreamEvent)
      → PicksResult t s₁ f₁ o
      → ((v : Translator) (gs : List StreamEvent)
          → feed_lines c v rest ≡ some (u, gs)
          → Picks v s₂ f₂ u)
      → (o >>= λ r. feed_lines c r.0 rest >>= after r.1) ≡ some (u, es)
      → Picks t (or_else s₂ s₁) (or_else f₂ f₁) u
  bind-Picks t s₁ f₁ none es h k e = cc
  bind-Picks t s₁ f₁ (some (v, fs)) es h k e =
      let (gs, d) = rest_of fs (feed_lines c v rest) u es e in
      Picks-trans t v u s₁ f₁ s₂ f₂ h (k v gs d)

-- From any translator: the reasons of the lines are picked in the order of their authority.
pub feed_lines-Picks :
    (c : Codec) (t : Translator) (lines : List (String × String)) (u : Translator)
    (es : List StreamEvent)
    → feed_lines c t lines ≡ some (u, es)
    → Picks t (last_reason c "finish-step" lines) (last_reason c "finish" lines) u
unfolding feed_lines last_reason feed
feed_lines-Picks c t [] u es h =
    let same : t ≡ u = cc in
    same-Picks t u (ap (λ x. x.step_reason_set) (sym same)) (ap (λ x. x.stop_reason) (sym same))
feed_lines-Picks c t ((fresh, line) ∷ rest) u es h =
    bind-Picks c rest u (last_reason c "finish-step" rest) (last_reason c "finish" rest) t
      (reason_of_line "finish-step" (read_line c line)) (reason_of_line "finish" (read_line c line))
      (feed_parsed c fresh t (read_line c line)) es (feed_parsed-Picks c fresh t (read_line c line))
      (λ v gs d. feed_lines-Picks c v rest u gs d) h

-- The reason by the authority of its source: the last step, else the last finish, else none.
abbrev pub declared : Option String → Option String → String
declared (some r) f = map_stop_reason r
declared none (some r) = map_stop_reason r
declared none none = "end_turn"

pick-declared : (s f : Option String) → pick s false f "end_turn" ≡ declared s f
pick-declared (some r) f = refl
pick-declared none (some r) = refl
pick-declared none none = refl

-- For every upstream body that is read without a fault, whatever the order of its lines: the stop
-- reason of the stream is that of the last `finish-step`
-- that gives a reason; where none does, that of the last `finish` that gives one; where none does
-- either, "end_turn".
pub stop_reason_declared :
    (c : Codec) (model id : String) (lines : List (String × String)) (u : Translator)
    (es : List StreamEvent)
    → feed_lines c (new_translator model id) lines ≡ some (u, es)
    → settle u.stop_reason
      ≡ declared (last_reason c "finish-step" lines) (last_reason c "finish" lines)
stop_reason_declared c model id lines u es h =
    (feed_lines-Picks c (new_translator model id) lines u es h).1 ∙ pick-declared _ _
