-- ===== src/Stream/Reason.antt =====
-- The stop reason of a message: which upstream event decides it.
use mathlib.Core.Path.{ap₂}
use cmdc2api.Base.{
  String, ◌≡◌, refl, ◌∙◌, ap, Bool, true, false, ◌||◌, Option, none, some, inl, inr, List, [], ◌∷◌,
  ◌==◌, Bool-cases, is_some, or_else, non_empty, if◌then◌else◌,
}
use cmdc2api.Types.Cmdc.{CcEvent}
use cmdc2api.Stream.{
  same_kind, text_kind, thinking_kind, CcUsage, BlockKind, Codec, Translator, map_stop_reason,
  set_usage, feed_text, feed_reasoning, start_block, feed_finish_step, finish_reason_of,
  feed_finish, read_line,
}

-- The reason of a stream that states none is "end_turn", here as in `Finish`.
abbrev pub settle : String → String
settle s = if s == "" then "end_turn" else s

-- The reason that an event of type `type` gives.
abbrev pub reason_in : String → CcEvent → Option String
reason_in type ev = if ev.type == type then non_empty ev.finish_reason else none

abbrev pub reason_of_line : String → Option CcEvent → Option String
reason_of_line type none = none
reason_of_line type (some ev) = reason_in type ev

-- The reason of the last line that has an event of type `type` with a reason.
unfoldable pub last_reason : Codec → String → List (String × String) → Option String
last_reason c type [] = none
last_reason c type ((fresh, line) ∷ rest) =
    or_else (last_reason c type rest) (reason_of_line type (read_line c line))

-- The stop reason from a step's reason, the flag, a finish's reason and the reason so far.
abbrev pub pick : Option String → Bool → Option String → String → String
pick (some r) set f old = map_stop_reason r
pick none true f old = old
pick none false (some r) old = map_stop_reason r
pick none false none old = old

pub pick-pick :
    (s₂ s₁ : Option String) (set : Bool) (f₂ f₁ : Option String) (old : String)
    → pick s₂ (set || is_some s₁) f₂ (pick s₁ set f₁ old)
      ≡ pick (or_else s₂ s₁) set (or_else f₂ f₁) old
pick-pick (some r) s₁ set f₂ f₁ old = refl
pick-pick none (some r) true f₂ f₁ old = refl
pick-pick none (some r) false f₂ f₁ old = refl
pick-pick none none true f₂ f₁ old = refl
pick-pick none none false (some r) f₁ old = refl
pick-pick none none false none f₁ old = refl

settle-if :
    (b : Bool) (x y : String)
    → settle x ≡ x
    → settle y ≡ y
    → settle (if b then x else y) ≡ (if b then x else y)
settle-if true x y h k = h
settle-if false x y h k = k

settle-map_stop_reason : (r : String) → settle (map_stop_reason r) ≡ map_stop_reason r
unfolding map_stop_reason
settle-map_stop_reason r = settle-if (r == "stop") _ _ refl (
    settle-if (r == "length") _ _ refl
      (settle-if (r == "tool-calls") _ _ refl (settle-if (r == "content-filter") _ _ refl refl)))

-- `t` goes to `u` by an event that gives the step reason `s` and the finish reason `f`.
abbrev pub Picks : Translator → Option String → Option String → Translator → Type 0
Picks t s f u =
    (u.step_reason_set ≡ (t.step_reason_set || is_some s))
    × (settle u.stop_reason ≡ pick s t.step_reason_set f (settle t.stop_reason))

||-false : (b : Bool) → b ≡ (b || false)
||-false true = refl
||-false false = refl

||-true : (b : Bool) → true ≡ (b || true)
||-true true = refl
||-true false = refl

pick-none : (set : Bool) (old : String) → old ≡ pick none set none old
pick-none true old = refl
pick-none false old = refl

-- An event that leaves both fields alone.
pub same-Picks :
    (t u : Translator)
    → u.step_reason_set ≡ t.step_reason_set
    → u.stop_reason ≡ t.stop_reason
    → Picks t none none u
same-Picks t u h k = (
  h ∙ ||-false t.step_reason_set,
  ap settle k ∙ pick-none t.step_reason_set (settle t.stop_reason),
)

-- The two fields.
abbrev pub SameReason : Translator → Translator → Type 0
SameReason u t = (u.step_reason_set ≡ t.step_reason_set) × (u.stop_reason ≡ t.stop_reason)

set_usage-SameReason : (o : Option CcUsage) (t : Translator) → SameReason (set_usage o t) t
unfolding set_usage
set_usage-SameReason none t = (refl, refl)
set_usage-SameReason (some u) t = (refl, refl)

pub feed_finish_step-Picks :
    (t : Translator) (ev : CcEvent)
    → Picks t (non_empty ev.finish_reason) none (feed_finish_step t ev)
unfolding feed_finish_step
feed_finish_step-Picks t ev = elim (Bool-cases (ev.finish_reason == "")) [
  | inl e ↦
      let same = set_usage-SameReason ev.usage t in
      rw e (same-Picks t (set_usage ev.usage t) same.0 same.1)
  | inr e ↦
      let u = record t { stop_reason = map_stop_reason ev.finish_reason; step_reason_set = true } in
      let same = set_usage-SameReason ev.usage u in
      rw e (
        same.0 ∙ ||-true t.step_reason_set,
        ap settle same.1 ∙ settle-map_stop_reason ev.finish_reason,
      )
]

settle-finish_reason_of :
    (set : Bool) (stop reason : String)
    → settle (finish_reason_of set stop reason) ≡ pick none set (non_empty reason) (settle stop)
unfolding finish_reason_of
settle-finish_reason_of true stop reason = refl
settle-finish_reason_of false stop reason = elim (Bool-cases (reason == "")) [
  | inl e ↦ elim (Bool-cases (stop == "")) [
    | inl d ↦ rw (e, d) refl
    | inr d ↦ rw (e, d) (rw d refl)
  ]
  | inr e ↦ rw e (settle-map_stop_reason reason)
]

finish_usage : Translator → CcEvent → Translator
finish_usage t ev =
    if is_some ev.total_usage then set_usage ev.total_usage t else set_usage ev.usage t

finish_usage-SameReason : (t : Translator) (ev : CcEvent) → SameReason (finish_usage t ev) t
unfolding finish_usage
finish_usage-SameReason t ev = elim (Bool-cases (is_some ev.total_usage)) [
  | inl e ↦ rw e (set_usage-SameReason ev.total_usage t)
  | inr e ↦ rw e (set_usage-SameReason ev.usage t)
]

pub feed_finish-Picks :
    (t : Translator) (ev : CcEvent) → Picks t none (non_empty ev.finish_reason) (feed_finish t ev)
unfolding feed_finish finish_usage
feed_finish-Picks t ev =
    let u = finish_usage t ev in
    let same = finish_usage-SameReason t ev in
    (
      same.0 ∙ ||-false t.step_reason_set,
      settle-finish_reason_of u.step_reason_set u.stop_reason ev.finish_reason
          ∙ ap₂ (λ set stop. pick none set (non_empty ev.finish_reason) (settle stop)) same.0
              same.1,
    )

start_block-SameReason :
    (c : Codec) (t : Translator) (k : BlockKind) → SameReason (start_block c t k).0 t
unfolding start_block
start_block-SameReason c t k = elim (Bool-cases (same_kind t.open_type k)) [
  | inl e ↦ rw e (refl, refl)
  | inr e ↦ rw e (refl, refl)
]

pub feed_text-SameReason :
    (c : Codec) (t : Translator) (text : String) → SameReason (feed_text c t text).0 t
unfolding feed_text
feed_text-SameReason c t text = elim (Bool-cases (text == "")) [
  | inl e ↦ rw e (refl, refl)
  | inr e ↦ rw e (start_block-SameReason c t text_kind)
]

pub feed_reasoning-SameReason :
    (c : Codec) (t : Translator) (text : String) → SameReason (feed_reasoning c t text).0 t
unfolding feed_reasoning
feed_reasoning-SameReason c t text = elim (Bool-cases (text == "")) [
  | inl e ↦ rw e (refl, refl)
  | inr e ↦ rw e (start_block-SameReason c t thinking_kind)
]
