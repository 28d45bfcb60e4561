-- ===== src/ChatOut/Readers.antt =====
-- What a client reads off the Chat frames, and how each event changes it beside the aggregator.
use cmdc2api.Base.{
  ℕ, suc, String, ◌≡◌, refl, sym, ◌∙◌, ap, false, ◌||◌, Option, none, some, inl, inr, List, [], ◌∷◌,
  ◌++◌, ◌<>◌, map, ◌==◌, Bool-cases, ==→≡,
}
use mathlib.Core.List.{append_assoc, append-nil, map-append}
use text.Mathlib.TextLemmas.{
  append-nil as text_append-nil, append_assoc as text_append_assoc, nil-append as text_nil-append,
}
use cmdc2api.Types.Event.{
  BlockStart, text_start, thinking_start, tool_use_start, Delta, text_delta, thinking_delta,
  signature_delta, input_json_delta, DeltaUsage, StreamEvent, message_start, content_block_start,
  content_block_delta, content_block_stop, message_delta, message_stop, error_event,
}
use cmdc2api.ChatOut.Split.{chat_split_runes}
use cmdc2api.ChatOut.{
  ChatUsage, chat_arg_chunk_size, Frame, role_frame, content_frame, reasoning_frame, tool_frame,
  args_frame, finish_frame, usage_frame, ChatEncoder, with_role, encode_start, encode_delta,
  encode_event, encoder_feed, ChatAggTool, ChatAggregator, add_args, aggregate_start,
  aggregate_args, aggregate_delta, aggregator_feed, tool_of_block,
}

-- What a client reads off the frames: the text, the reasoning, the tools by id and name, the finish
-- reasons and the usages.
abbrev pub text_in : Frame → String
text_in (content_frame s) = s
text_in _ = ""

abbrev pub reasoning_in : Frame → String
reasoning_in (reasoning_frame s) = s
reasoning_in _ = ""

abbrev pub tools_in : Frame → List (String × String)
tools_in (tool_frame k id name) = (id, name) ∷ []
tools_in _ = []

abbrev pub reasons_in : Frame → List String
reasons_in (finish_frame r) = r ∷ []
reasons_in _ = []

abbrev pub usages_in : Frame → List ChatUsage
usages_in (usage_frame u) = u ∷ []
usages_in _ = []

abbrev pub gather : (Frame → String) → List Frame → String
gather f [] = ""
gather f (x ∷ xs) = f x <> gather f xs

abbrev pub collect : {A : Type 0} → (Frame → List A) → List Frame → List A
collect f [] = []
collect f (x ∷ xs) = f x ++ collect f xs

pub gather-append :
    (f : Frame → String) (xs ys : List Frame) → gather f (xs ++ ys) ≡ gather f xs <> gather f ys
gather-append f [] ys = sym (text_nil-append (gather f ys))
gather-append f (x ∷ xs) ys =
    ap (λ z. f x <> z) (gather-append f xs ys)
    ∙ sym (text_append_assoc (f x) (gather f xs) (gather f ys))

pub collect-append :
    {A : Type 0} (f : Frame → List A) (xs ys : List Frame)
    → collect f (xs ++ ys) ≡ collect f xs ++ collect f ys
collect-append f [] ys = refl
collect-append f (x ∷ xs) ys =
    ap (λ z. f x ++ z) (collect-append f xs ys)
    ∙ sym (append_assoc (f x) (collect f xs) (collect f ys))

abbrev pub tool_names_of : List ChatAggTool → List (String × String)
tool_names_of ts = map (λ (t : ChatAggTool). (t.id, t.name)) ts

-- `aggregator_feed` over a whole answer.
abbrev pub aggregate : ChatAggregator → List StreamEvent → ChatAggregator
aggregate a [] = a
aggregate a (ev ∷ evs) = aggregate (aggregator_feed a ev) evs

-- Neither the end of a message nor an error.
abbrev pub IsMiddle : StreamEvent → Type 0
IsMiddle message_stop = ⊥
IsMiddle (error_event _ _) = ⊥
IsMiddle _ = Unit

-- The encoder went to `r` while the aggregator went from `a` to `a'`.
pub record Agrees (a a' : ChatAggregator) (r : ChatEncoder × List Frame) : Type 0 where
  pub same_text : a'.text ≡ a.text <> gather text_in r.1
  pub same_reasoning : a'.reasoning ≡ a.reasoning <> gather reasoning_in r.1
  pub same_tools : tool_names_of a'.tools ≡ tool_names_of a.tools ++ collect tools_in r.1
  pub no_reason : collect reasons_in r.1 ≡ []
  pub no_usage : collect usages_in r.1 ≡ []
  pub reason_kept : r.0.stop_reason ≡ a'.stop_reason
  pub usage_kept : r.0.usage ≡ a'.usage
  pub not_over : (r.0.finished || r.0.has_error) ≡ false

with_role-gather :
    (f : Frame → String) (e : ChatEncoder) (x : Frame)
    → f role_frame ≡ ""
    → gather f (with_role e x).1 ≡ f x
unfolding with_role
with_role-gather f e x h = elim (Bool-cases e.started) [
  | inl s ↦ simp s (text_append-nil (f x))
  | inr s ↦ simp (s, h) (text_nil-append (f x <> "") ∙ text_append-nil (f x))
]

with_role-collect :
    {A : Type 0} (f : Frame → List A) (e : ChatEncoder) (x : Frame)
    → f role_frame ≡ []
    → collect f (with_role e x).1 ≡ f x
unfolding with_role
with_role-collect f e x h = elim (Bool-cases e.started) [
  | inl s ↦ simp s (append-nil (f x))
  | inr s ↦ simp (s, h) (append-nil (f x))
]

-- Beside `started` the role changes nothing.
with_role-keeps :
    (e : ChatEncoder) (x : Frame)
    → ((with_role e x).0.stop_reason ≡ e.stop_reason)
      × ((with_role e x).0.usage ≡ e.usage)
      × (((with_role e x).0.finished || (with_role e x).0.has_error) ≡ (e.finished || e.has_error))
unfolding with_role
with_role-keeps e x = elim (Bool-cases e.started) [
  | inl s ↦ (simp s, simp s, simp s)
  | inr s ↦ (simp s, simp s, simp s)
]

args-gather :
    (f : Frame → String)
    → ((k : ℕ) (t : String) → f (args_frame k t) ≡ "")
    → (k : ℕ) (ss : List String) → gather f (map (args_frame k) ss) ≡ ""
args-gather f h k [] = refl
args-gather f h k (t ∷ ss) = rw (h k t, args-gather f h k ss) refl

args-collect :
    {A : Type 0} (f : Frame → List A)
    → ((k : ℕ) (t : String) → f (args_frame k t) ≡ [])
    → (k : ℕ) (ss : List String) → collect f (map (args_frame k) ss) ≡ []
args-collect f h k [] = refl
args-collect f h k (t ∷ ss) = rw (h k t, args-collect f h k ss) refl

add_args-names :
    (ts : List ChatAggTool) (k : ℕ) (s : String)
    → tool_names_of (add_args ts k s) ≡ tool_names_of ts
unfolding add_args
add_args-names [] k s = refl
add_args-names (t ∷ ts) ℕ.zero s = refl
add_args-names (t ∷ ts) (suc k) s = ap (λ z. (t.id, t.name) ∷ z) (add_args-names ts k s)

module _ (e : ChatEncoder) (a : ChatAggregator) (s : e.stop_reason ≡ a.stop_reason)
    (u : e.usage ≡ a.usage) (o : (e.finished || e.has_error) ≡ false) where
  silent-Agrees : Agrees a a (e, [])
  silent-Agrees = record {
    same_text = sym (text_append-nil a.text);
    same_reasoning = sym (text_append-nil a.reasoning);
    same_tools = sym (append-nil _);
    no_reason = refl;
    no_usage = refl;
    reason_kept = s;
    usage_kept = u;
    not_over = o;
  }

  said-Agrees :
      (text : String)
      → Agrees a (record a { text = a.text <> text }) (with_role e (content_frame text))
  said-Agrees text = record {
    same_text = ap (λ z. a.text <> z) (sym (with_role-gather text_in e (content_frame text) refl));
    same_reasoning = sym (
        ap (λ z. a.reasoning <> z) (with_role-gather reasoning_in e (content_frame text) refl)
        ∙ text_append-nil a.reasoning);
    same_tools = sym (
        ap (λ z. tool_names_of a.tools ++ z)
          (with_role-collect tools_in e (content_frame text) refl)
        ∙ append-nil _);
    no_reason = with_role-collect reasons_in e (content_frame text) refl;
    no_usage = with_role-collect usages_in e (content_frame text) refl;
    reason_kept = (with_role-keeps e (content_frame text)).0 ∙ s;
    usage_kept = (with_role-keeps e (content_frame text)).1 ∙ u;
    not_over = (with_role-keeps e (content_frame text)).2 ∙ o;
  }

  thought-Agrees :
      (text : String)
      → Agrees a (record a { reasoning = a.reasoning <> text }) (with_role e (reasoning_frame text))
  thought-Agrees text = record {
    same_text = sym (
        ap (λ z. a.text <> z) (with_role-gather text_in e (reasoning_frame text) refl)
        ∙ text_append-nil a.text);
    same_reasoning =
        ap (λ z. a.reasoning <> z)
          (sym (with_role-gather reasoning_in e (reasoning_frame text) refl));
    same_tools = sym (
        ap (λ z. tool_names_of a.tools ++ z)
          (with_role-collect tools_in e (reasoning_frame text) refl)
        ∙ append-nil _);
    no_reason = with_role-collect reasons_in e (reasoning_frame text) refl;
    no_usage = with_role-collect usages_in e (reasoning_frame text) refl;
    reason_kept = (with_role-keeps e (reasoning_frame text)).0 ∙ s;
    usage_kept = (with_role-keeps e (reasoning_frame text)).1 ∙ u;
    not_over = (with_role-keeps e (reasoning_frame text)).2 ∙ o;
  }

  called-Agrees :
      (i k : ℕ) (id name : String) (m : List (ℕ × ℕ))
      → Agrees a
          (record a {
            tool_by_blk = m;
            tools = a.tools ++ record { id = id; name = name; args = "" } ∷ [];
          })
          (with_role (record e { cur_tool = i; tool_index = k }) (tool_frame i id name))
  called-Agrees i k id name m =
      let e' = record e { cur_tool = i; tool_index = k } in
      let x = tool_frame i id name in
      record {
        same_text =
            sym
              (ap (λ z. a.text <> z) (with_role-gather text_in e' x refl) ∙ text_append-nil a.text);
        same_reasoning = sym (
            ap (λ z. a.reasoning <> z) (with_role-gather reasoning_in e' x refl)
            ∙ text_append-nil a.reasoning);
        same_tools =
            map-append _ a.tools _
            ∙ ap (λ z. tool_names_of a.tools ++ z) (sym (with_role-collect tools_in e' x refl));
        no_reason = with_role-collect reasons_in e' x refl;
        no_usage = with_role-collect usages_in e' x refl;
        reason_kept = (with_role-keeps e' x).0 ∙ s;
        usage_kept = (with_role-keeps e' x).1 ∙ u;
        not_over = (with_role-keeps e' x).2 ∙ o;
      }

  summed-Agrees :
      (reason : String) (usage : DeltaUsage)
      → Agrees a
          (record a { stop_reason = reason; usage = usage })
          (record e { stop_reason = reason; usage = usage }, [])
  summed-Agrees reason usage = record {
    same_text = sym (text_append-nil a.text);
    same_reasoning = sym (text_append-nil a.reasoning);
    same_tools = sym (append-nil _);
    no_reason = refl;
    no_usage = refl;
    reason_kept = refl;
    usage_kept = refl;
    not_over = o;
  }

  filled-Agrees :
      (k : ℕ) (ss : List String) (ts : List ChatAggTool)
      → tool_names_of ts ≡ tool_names_of a.tools
      → Agrees a (record a { tools = ts }) (e, map (args_frame k) ss)
  filled-Agrees k ss ts h = record {
    same_text =
        sym
          (ap (λ z. a.text <> z) (args-gather text_in (λ k t. refl) k ss) ∙ text_append-nil a.text);
    same_reasoning = sym (
        ap (λ z. a.reasoning <> z) (args-gather reasoning_in (λ k t. refl) k ss)
        ∙ text_append-nil a.reasoning);
    same_tools =
        h
        ∙ sym (
            ap (λ z. tool_names_of a.tools ++ z) (args-collect tools_in (λ k t. refl) k ss)
            ∙ append-nil _);
    no_reason = args-collect reasons_in (λ k t. refl) k ss;
    no_usage = args-collect usages_in (λ k t. refl) k ss;
    reason_kept = s;
    usage_kept = u;
    not_over = o;
  }

  args_if-Agrees :
      (o : Option ℕ) (k : ℕ) (ss : List String) (json : String)
      → Agrees a (aggregate_args a o json) (e, map (args_frame k) ss)
  unfolding aggregate_args
  args_if-Agrees none k ss json = filled-Agrees k ss a.tools refl
  args_if-Agrees (some i) k ss json =
      filled-Agrees k ss (add_args a.tools i json) (add_args-names a.tools i json)

  delta-Agrees : (i : ℕ) (d : Delta) → Agrees a (aggregate_delta a i d) (encode_delta e d)
  unfolding aggregate_delta encode_delta
  delta-Agrees i (text_delta text) = elim (Bool-cases (text == "")) [
    | inl h ↦ rw h (rw (==→≡ text "" h) (rw (text_append-nil a.text) silent-Agrees))
    | inr h ↦ rw h (said-Agrees text)
  ]
  delta-Agrees i (thinking_delta text) = elim (Bool-cases (text == "")) [
    | inl h ↦ rw h (rw (==→≡ text "" h) (rw (text_append-nil a.reasoning) silent-Agrees))
    | inr h ↦ rw h (thought-Agrees text)
  ]
  delta-Agrees i (signature_delta t) = silent-Agrees
  delta-Agrees i (input_json_delta json) =
      args_if-Agrees (tool_of_block a.tool_by_blk i) e.cur_tool
        (chat_split_runes json chat_arg_chunk_size) json

  start-Agrees : (i : ℕ) (b : BlockStart) → Agrees a (aggregate_start a i b) (encode_start e b)
  unfolding aggregate_start encode_start
  start-Agrees i text_start = silent-Agrees
  start-Agrees i thinking_start = silent-Agrees
  start-Agrees i (tool_use_start id name) = called-Agrees e.tool_index (suc e.tool_index) id name _

  pub event-Agrees :
      (ev : StreamEvent) → IsMiddle ev → Agrees a (aggregator_feed a ev) (encoder_feed e ev)
  unfolding aggregator_feed encoder_feed encode_event
  event-Agrees ev m = rw o (go ev m)
    where
      go : (ev : StreamEvent) → IsMiddle ev → Agrees a (aggregator_feed a ev) (encode_event e ev)
      go (message_start id model) m = silent-Agrees
      go (content_block_start i b) m = start-Agrees i b
      go (content_block_delta i d) m = delta-Agrees i d
      go (content_block_stop i) m = silent-Agrees
      go (message_delta reason usage) m = summed-Agrees reason usage
      go message_stop m = absurd m
      go (error_event type message) m = absurd m
