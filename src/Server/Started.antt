-- ===== src/Server/Started.antt =====
-- internal/translate/stream.go: a translator that has seen content does not forget it.
use cmdc2api.Base.{
  [], String, ◌≡◌, ◌∙◌, is_some, refl, Bool, true, false, Option, none, some, List, arith,
  if◌then◌else◌, ◌==◌,
}
use cmdc2api.Types.Cmdc.{CcEvent, CcUsage}
use cmdc2api.Types.Event.{StreamEvent}
use cmdc2api.Stream.{
  Codec, Translator, start_block, feed_text, feed_reasoning, feed_tool_call, set_usage,
  feed_finish_step, feed_finish, feed_error, error_case, feed_event, feed_parsed, feed, read_line,
  close_block,
}

abbrev pub StaysStarted : Translator → Option (Translator × List StreamEvent) → Type 0
StaysStarted t none = Unit
StaysStarted t (some (u, es)) = t.content_started ≡ true → u.content_started ≡ true

StaysStarted-if :
    (t : Translator) (b : Bool) (x y : Option (Translator × List StreamEvent))
    → StaysStarted t x
    → StaysStarted t y
    → StaysStarted t (if b then x else y)
StaysStarted-if t true x y h k = h
StaysStarted-if t false x y h k = k

feed_text-StaysStarted :
    (c : Codec) (t : Translator) (text : String) → StaysStarted t (some (feed_text c t text))
unfolding feed_text start_block close_block
feed_text-StaysStarted c t text h = ground arith

feed_reasoning-StaysStarted :
    (c : Codec) (t : Translator) (text : String) → StaysStarted t (some (feed_reasoning c t text))
unfolding feed_reasoning start_block close_block
feed_reasoning-StaysStarted c t text h = ground arith

feed_tool_call-StaysStarted :
    (c : Codec) (fresh : String) (t : Translator) (ev : CcEvent)
    → StaysStarted t (some (feed_tool_call c fresh t ev))
unfolding feed_tool_call close_block
feed_tool_call-StaysStarted c fresh t ev h = ground arith

set_usage-content_started :
    (o : Option CcUsage) (t : Translator) → (set_usage o t).content_started ≡ t.content_started
unfolding set_usage
set_usage-content_started none t = refl
set_usage-content_started (some u) t = refl

content_started-if :
    (b : Bool) (t x y : Translator)
    → x.content_started ≡ t.content_started
    → y.content_started ≡ t.content_started
    → (if b then x else y).content_started ≡ t.content_started
content_started-if true t x y h k = h
content_started-if false t x y h k = k

feed_finish_step-StaysStarted :
    (t : Translator) (ev : CcEvent) → StaysStarted t (some (feed_finish_step t ev, []))
unfolding feed_finish_step
feed_finish_step-StaysStarted t ev h =
    set_usage-content_started ev.usage _
    ∙ content_started-if (ev.finish_reason == "") t t _ refl refl
    ∙ h

feed_finish-StaysStarted :
    (t : Translator) (ev : CcEvent) → StaysStarted t (some (feed_finish t ev, []))
unfolding feed_finish
feed_finish-StaysStarted t ev h =
    content_started-if (is_some ev.total_usage) t _ _ (set_usage-content_started ev.total_usage t)
      (set_usage-content_started ev.usage t)
    ∙ h

error_case-StaysStarted :
    (t : Translator) (o : Option String) (message : String)
    → StaysStarted t (error_case t o message)
unfolding error_case feed_error
error_case-StaysStarted t none message = tt
error_case-StaysStarted t (some s) message = λ h. h

feed_event-StaysStarted :
    (c : Codec) (fresh : String) (t : Translator) (ev : CcEvent)
    → StaysStarted t (feed_event c fresh t ev)
unfolding feed_event
feed_event-StaysStarted c fresh t ev =
    StaysStarted-if t (ev.type == "text-delta") _ _ (feed_text-StaysStarted c t _) (
      StaysStarted-if t (ev.type == "reasoning-delta") _ _ (feed_reasoning-StaysStarted c t _) (
        StaysStarted-if t (ev.type == "tool-call") _ _ (feed_tool_call-StaysStarted c fresh t ev) (
          StaysStarted-if t (ev.type == "finish-step") _ _ (feed_finish_step-StaysStarted t ev) (
            StaysStarted-if t (ev.type == "finish") _ _ (feed_finish-StaysStarted t ev) (
              StaysStarted-if t (ev.type == "error") _ _
                (error_case-StaysStarted t ev.error ev.message) (λ h. h))))))

feed_parsed-StaysStarted :
    (c : Codec) (fresh : String) (t : Translator) (o : Option CcEvent)
    → StaysStarted t (feed_parsed c fresh t o)
unfolding feed_parsed
feed_parsed-StaysStarted c fresh t none = λ h. h
feed_parsed-StaysStarted c fresh t (some ev) =
    feed_event-StaysStarted c fresh (record t { last_event = ev.type }) ev

pub feed-StaysStarted :
    (c : Codec) (fresh : String) (t : Translator) (line : String)
    → StaysStarted t (feed c fresh t line)
unfolding feed
feed-StaysStarted c fresh t line = feed_parsed-StaysStarted c fresh t (read_line c line)
