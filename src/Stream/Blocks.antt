-- ===== src/Stream/Blocks.antt =====
-- The translator keeps the protocol: whatever lines the upstream sends, the events so far are
-- accepted, and the translator's open block is the client's.
use cmdc2api.Base.{
  ◌<>◌, is_some, ℕ, suc, String, ◌≡◌, refl, ◌∙◌, Bool, true, false, Option, none, some, inl, inr,
  List, [], ◌∷◌, ◌++◌, ◌==◌, Bool-cases, arith, if◌then◌else◌,
}
use cmdc2api.Types.Cmdc.{CcEvent}
use cmdc2api.Types.Event.{
  tool_use_start, input_json_delta, Delta, text_delta, thinking_delta, StreamEvent,
  content_block_start, content_block_stop, content_block_delta,
}
use cmdc2api.Stream.{
  partial_json, error_case, CcUsage, map_stop_reason, Codec, BlockKind, text_kind, thinking_kind,
  Translator, close_events, close_block, block_start, same_kind, start_block, feed_text,
  feed_reasoning, feed_tool_call, set_usage, feed_finish_step, feed_finish, feed_error, feed_event,
}
use cmdc2api.Stream.Protocol.{Phase, between, in_text, in_thinking, accept, accept-append}

abbrev delta_of : BlockKind → String → Delta
delta_of text_kind text = text_delta text
delta_of thinking_kind text = thinking_delta text

-- The phase that the translator's fields stand for.
abbrev pub phase : Option BlockKind → ℕ → ℕ → Phase
phase none i n = between n
phase (some text_kind) i n = in_text i
phase (some thinking_kind) i n = in_thinking i

abbrev pub phase_of : Translator → Phase
phase_of t = phase t.open_type t.open_index t.next_index

-- An open block is the last one that was started.
abbrev pub IsAligned : Option BlockKind → ℕ → ℕ → Type 0
IsAligned none i n = Unit
IsAligned (some k) i n = n ≡ suc i

abbrev pub IsConsistent : Translator → Type 0
IsConsistent t = IsAligned t.open_type t.open_index t.next_index

-- `t` goes to `u` with the events `es`.
pub record Keeps (t u : Translator) (es : List StreamEvent) : Type 0 where
  pub accepted : accept (phase_of t) es ≡ some (phase_of u)
  pub consistent : IsConsistent u
  pub unfinished : u.finished ≡ t.finished

close_events-accept :
    (c : Codec) (s : String) (o : Option BlockKind) (i n : ℕ)
    → IsAligned o i n
    → accept (phase o i n) (close_events c s o i) ≡ some (between n)
unfolding close_events
close_events-accept c s none i n h = refl
close_events-accept c s (some text_kind) i n h = ground arith
close_events-accept c s (some thinking_kind) i n h = ground arith

pub close_block-Keeps :
    (c : Codec) (t : Translator) → IsConsistent t → Keeps t (close_block c t).0 (close_block c t).1
unfolding close_block
close_block-Keeps c t h = record {
  accepted = close_events-accept c t.thinking_text t.open_type t.open_index t.next_index h;
  consistent = tt;
  unfinished = refl;
}

-- A block of kind `k` is open.
abbrev IsOpen : BlockKind → Translator → Type 0
IsOpen k t = t.open_type ≡ some k

pub accept-chain :
    (p q : Phase) {r : Phase} (es fs : List StreamEvent)
    → accept p es ≡ some q
    → accept q fs ≡ some r
    → accept p (es ++ fs) ≡ some r
accept-chain p q es fs h k = accept-append p es fs ∙ rw h k

start-accept :
    (k : BlockKind) (n : ℕ)
    → accept (between n) (content_block_start n (block_start k) ∷ [])
      ≡ some (phase (some k) n (suc n))
start-accept text_kind n = ground arith
start-accept thinking_kind n = ground arith

same_kind→≡ : (o : Option BlockKind) (k : BlockKind) → same_kind o k ≡ true → o ≡ some k
same_kind→≡ (some text_kind) text_kind h = refl
same_kind→≡ (some thinking_kind) thinking_kind h = refl
same_kind→≡ (some text_kind) thinking_kind h = cc
same_kind→≡ (some thinking_kind) text_kind h = cc
same_kind→≡ none text_kind h = cc
same_kind→≡ none thinking_kind h = cc

start_block-Keeps :
    (c : Codec) (t : Translator) (k : BlockKind)
    → IsConsistent t
    → Keeps t (start_block c t k).0 (start_block c t k).1 × IsOpen k (start_block c t k).0
unfolding start_block close_block
start_block-Keeps c t k h = elim (Bool-cases (same_kind t.open_type k)) [
  | inl e ↦
      rw e
        (record { accepted = refl; consistent = h; unfinished = refl }, same_kind→≡ t.open_type k e)
  | inr e ↦ rw e (
    record {
      accepted =
          accept-chain (phase_of t) (between t.next_index) (close_block c t).1
            (content_block_start t.next_index (block_start k) ∷ [])
            (close_block-Keeps c t h).accepted (start-accept k t.next_index);
      consistent = refl;
      unfinished = refl;
    },
    refl,
  )
]

-- A delta of the open block's kind.
delta-accept :
    (k : BlockKind) (u : Translator) (text : String)
    → IsOpen k u
    → accept (phase_of u) (content_block_delta u.open_index (delta_of k text) ∷ [])
      ≡ some (phase_of u)
delta-accept text_kind u text h = rw h (ground arith)
delta-accept thinking_kind u text h = rw h (ground arith)

with_delta :
    (k : BlockKind) (t u : Translator) (out : List StreamEvent) (text : String)
    → Keeps t u out
    → IsOpen k u
    → accept (phase_of t) (out ++ content_block_delta u.open_index (delta_of k text) ∷ [])
      ≡ some (phase_of u)
with_delta k t u out text h o =
    accept-chain (phase_of t) (phase_of u) out _ h.accepted (delta-accept k u text o)

feed_text-Keeps :
    (c : Codec) (t : Translator) (text : String)
    → IsConsistent t
    → Keeps t (feed_text c t text).0 (feed_text c t text).1
unfolding feed_text
feed_text-Keeps c t text h = elim (Bool-cases (text == "")) [
  | inl e ↦ rw e (record { accepted = refl; consistent = h; unfinished = refl })
  | inr e ↦
      let u = start_block c t text_kind in
      let (keeps, open_now) = start_block-Keeps c t text_kind h in
      rw e (record {
        accepted = with_delta text_kind t u.0 u.1 text keeps open_now;
        consistent = keeps.consistent;
        unfinished = keeps.unfinished;
      })
]

feed_reasoning-Keeps :
    (c : Codec) (t : Translator) (text : String)
    → IsConsistent t
    → Keeps t (feed_reasoning c t text).0 (feed_reasoning c t text).1
unfolding feed_reasoning
feed_reasoning-Keeps c t text h = elim (Bool-cases (text == "")) [
  | inl e ↦ rw e (record { accepted = refl; consistent = h; unfinished = refl })
  | inr e ↦
      let u = start_block c t thinking_kind in
      let (keeps, open_now) = start_block-Keeps c t thinking_kind h in
      rw e (record {
        accepted = with_delta thinking_kind t u.0 u.1 text keeps open_now;
        consistent = keeps.consistent;
        unfinished = keeps.unfinished;
      })
]

tool_events-accept :
    (n : ℕ) (id name input : String)
    → accept (between n) (
        content_block_start n (tool_use_start id name)
        ∷ content_block_delta n (input_json_delta input)
        ∷ content_block_stop n
        ∷ [])
      ≡ some (between (suc n))
tool_events-accept n id name input = ground arith

feed_tool_call-Keeps :
    (c : Codec) (fresh : String) (t : Translator) (ev : CcEvent)
    → IsConsistent t
    → Keeps t (feed_tool_call c fresh t ev).0 (feed_tool_call c fresh t ev).1
unfolding feed_tool_call close_block
feed_tool_call-Keeps c fresh t ev h =
    let n = t.next_index in
    let id = if ev.tool_call_id == "" then "toolu_" <> fresh else ev.tool_call_id in
    record {
      accepted =
          accept-chain (phase_of t) (between n) (close_block c t).1
            (content_block_start n (tool_use_start id ev.tool_name)
              ∷ content_block_delta n (input_json_delta (partial_json c ev.input))
              ∷ content_block_stop n
              ∷ [])
            (close_block-Keeps c t h).accepted
            (tool_events-accept n id ev.tool_name (partial_json c ev.input));
      consistent = tt;
      unfinished = refl;
    }

-- What touches no block.
idle-Keeps :
    (t u : Translator)
    → u.open_type ≡ t.open_type
    → u.open_index ≡ t.open_index
    → u.next_index ≡ t.next_index
    → u.finished ≡ t.finished
    → IsConsistent t
    → Keeps t u []
idle-Keeps t u o i n f h = record {
  accepted = rw (o, i, n);
  consistent = rw (o, i, n) h;
  unfinished = f;
}

-- The fields of the open block.
abbrev SameBlock : Translator → Translator → Type 0
SameBlock u t =
    (u.open_type ≡ t.open_type)
    × (u.open_index ≡ t.open_index)
    × (u.next_index ≡ t.next_index)
    × (u.finished ≡ t.finished)

set_usage-SameBlock : (o : Option CcUsage) (t : Translator) → SameBlock (set_usage o t) t
unfolding set_usage
set_usage-SameBlock none t = (refl, refl, refl, refl)
set_usage-SameBlock (some u) t = (refl, refl, refl, refl)

feed_finish_step-SameBlock : (t : Translator) (ev : CcEvent) → SameBlock (feed_finish_step t ev) t
unfolding feed_finish_step
feed_finish_step-SameBlock t ev = elim (Bool-cases (ev.finish_reason == "")) [
  | inl e ↦ rw e (set_usage-SameBlock ev.usage t)
  | inr e ↦ rw e (
      set_usage-SameBlock ev.usage
        (record t { stop_reason = map_stop_reason ev.finish_reason; step_reason_set = true }))
]

feed_finish-SameBlock : (t : Translator) (ev : CcEvent) → SameBlock (feed_finish t ev) t
unfolding feed_finish
feed_finish-SameBlock t ev = elim (Bool-cases (is_some ev.total_usage)) [
  | inl e ↦ rw e (set_usage-SameBlock ev.total_usage t)
  | inr e ↦ rw e (set_usage-SameBlock ev.usage t)
]

SameBlock-Keeps : (t u : Translator) → SameBlock u t → IsConsistent t → Keeps t u []
SameBlock-Keeps t u s h = idle-Keeps t u s.0 s.1 s.2 s.3 h

-- What a feed that does not fault leaves.
abbrev pub KeepsResult : Translator → Option (Translator × List StreamEvent) → Type 0
KeepsResult t none = Unit
KeepsResult t (some (u, es)) = Keeps t u es

feed_error-Keeps :
    (t : Translator) (inner message : String)
    → IsConsistent t
    → Keeps t (feed_error t inner message).0 (feed_error t inner message).1
unfolding feed_error
feed_error-Keeps t inner message h = record { accepted = refl; consistent = h; unfinished = refl }

error_case-Keeps :
    (t : Translator) (o : Option String) (message : String)
    → IsConsistent t
    → KeepsResult t (error_case t o message)
unfolding error_case
error_case-Keeps t none message h = tt
error_case-Keeps t (some inner) message h = feed_error-Keeps t inner message h

Keeps-if :
    (t : Translator) (b : Bool) (x y : Option (Translator × List StreamEvent))
    → KeepsResult t x
    → KeepsResult t y
    → KeepsResult t (if b then x else y)
Keeps-if t true x y h k = h
Keeps-if t false x y h k = k

pub feed_event-Keeps :
    (c : Codec) (fresh : String) (t : Translator) (ev : CcEvent)
    → IsConsistent t
    → KeepsResult t (feed_event c fresh t ev)
unfolding feed_event
feed_event-Keeps c fresh t ev h =
    Keeps-if t (ev.type == "text-delta") _ _ (feed_text-Keeps c t _ h) (
      Keeps-if t (ev.type == "reasoning-delta") _ _ (feed_reasoning-Keeps c t ev.text h) (
        Keeps-if t (ev.type == "tool-call") _ _ (feed_tool_call-Keeps c fresh t ev h) (
          Keeps-if t (ev.type == "finish-step") _ _
            (SameBlock-Keeps t (feed_finish_step t ev) (feed_finish_step-SameBlock t ev) h)
            (Keeps-if t (ev.type == "finish") _ _
              (SameBlock-Keeps t (feed_finish t ev) (feed_finish-SameBlock t ev) h)
              (Keeps-if t (ev.type == "error") _ _ (error_case-Keeps t ev.error ev.message h)
                (record { accepted = refl; consistent = h; unfinished = refl }))))))
