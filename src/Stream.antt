-- ===== src/Stream.antt =====
-- internal/translate/stream.go: the translator from cmdc's NDJSON events to Anthropic SSE events.
-- A method returns the new state beside its events. `Feed` may fault: in the `error` case it reads
-- `ev.Error.Message` with no test for a nil pointer, and a fault is `none`.
pub mod Protocol
pub mod Blocks
pub mod Reason
pub mod Verdict
pub mod Usage
pub mod Ending
use cmdc2api.Base.{
  ℕ, suc, ◌+◌, String, Bool, true, false, not, ◌&&◌, ◌||◌, Option, none, some, List, [], ◌∷◌, ◌++◌,
  ◌<>◌, ◌==◌, ℤ, pos, is_zero, is_neg, is_pos, ◌-ℤ◌, is_some, length, if◌then◌else◌,
}
use cmdc2api.Types.Inbound.{Json}
use cmdc2api.Types.Cmdc.{CcEvent, CcUsage, CcInputTokenDetails, normalize}
use cmdc2api.Types.Event.{
  BlockStart, text_start, thinking_start, tool_use_start, Delta, text_delta, thinking_delta,
  signature_delta, input_json_delta, DeltaUsage, StreamEvent, message_start, content_block_start,
  content_block_delta, content_block_stop, message_delta, message_stop, error_event,
}
use text.Mathlib.Text.{starts_with}
use cmdc2api.Errs.{map_event}

infixl 5 ◌>>=◌
abbrev pub ◌>>=◌ {ℓ κ} : {A : Type ℓ} {B : Type κ} → Option A → (A → Option B) → Option B
none >>= f = none
some a >>= f = f a

-- The library calls of stream.go: `bytes.TrimSpace`, `json.Unmarshal` into a `CcEvent` and into a
-- string, SHA-256 and base64.
pub record Codec : Type 0 where
  pub trim_space : String → String
  pub unmarshal_event : String → Option CcEvent
  pub unmarshal_string : String → Option String
  pub sha256 : String → List ℕ
  pub base64 : List ℕ → String

-- `openType`, of which "" is `none`.
pub data BlockKind : Type 0 where
  text_kind thinking_kind : BlockKind

pub record Translator : Type 0 where
  pub model : String
  pub message_id : String
  pub next_index : ℕ
  pub open_type : Option BlockKind
  pub open_index : ℕ
  pub thinking_text : String
  pub usage : CcUsage
  pub has_usage : Bool
  pub out_estimate : ℕ
  pub stop_reason : String
  pub step_reason_set : Bool
  pub content_started : Bool
  pub has_error : Bool
  pub err_message : String
  pub last_event : String
  pub finished : Bool

abbrev pub zero_usage : CcUsage
zero_usage = record {
  input_tokens = pos 0;
  output_tokens = pos 0;
  cached_input_tokens = pos 0;
  input_token_details = none;
}

-- `NewStreamTranslator`.
abbrev pub new_translator : String → String → Translator
new_translator model message_id = record {
  model = model;
  message_id = message_id;
  next_index = 0;
  open_type = none;
  open_index = 0;
  thinking_text = "";
  usage = zero_usage;
  has_usage = false;
  out_estimate = 0;
  stop_reason = "";
  step_reason_set = false;
  content_started = false;
  has_error = false;
  err_message = "";
  last_event = "";
  finished = false;
}

unfoldable pub start : Translator → List StreamEvent
start t = message_start t.message_id t.model ∷ []

-- `FakeThinkingSignature`: 0x12, the length of the digest and the digest, in base64.
unfoldable pub fake_thinking_signature : Codec → String → String
fake_thinking_signature c text =
    let seed = c.sha256 (if text == "" then "dsh-proxy-thinking" else text) in
    c.base64 (18 ∷ length seed ∷ seed)

unfoldable pub partial_json : Codec → String → String
partial_json c raw =
    if raw == "" || raw == "null"
    then "{}"
    else elim (c.unmarshal_string raw) [ some str ↦ str | none ↦ raw ]

unfoldable pub map_stop_reason : String → String
map_stop_reason cc =
    if cc == "stop"
    then "end_turn"
    else if cc == "length"
    then "max_tokens"
    else if cc == "tool-calls"
    then "tool_use"
    else if cc == "content-filter"
    then "refusal"
    else "end_turn"

-- The events of `closeBlock` for a block of kind `k`.
unfoldable pub close_events : Codec → String → Option BlockKind → ℕ → List StreamEvent
close_events c thinking none i = []
close_events c thinking (some text_kind) i = content_block_stop i ∷ []
close_events c thinking (some thinking_kind) i =
    content_block_delta i (signature_delta (fake_thinking_signature c thinking))
    ∷ content_block_stop i
    ∷ []

unfoldable pub close_block : Codec → Translator → Translator × List StreamEvent
close_block c t =
    (record t { open_type = none }, close_events c t.thinking_text t.open_type t.open_index)

abbrev pub block_start : BlockKind → BlockStart
block_start text_kind = text_start
block_start thinking_kind = thinking_start

abbrev pub same_kind : Option BlockKind → BlockKind → Bool
same_kind (some text_kind) text_kind = true
same_kind (some thinking_kind) thinking_kind = true
same_kind _ _ = false

-- `startBlock`: a block of the same kind goes on.
unfoldable pub start_block : Codec → Translator → BlockKind → Translator × List StreamEvent
start_block c t kind = if same_kind t.open_type kind then (t, []) else (
  record t { open_type = some kind; open_index = t.next_index; next_index = suc t.next_index },
  (close_block c t).1 ++ content_block_start t.next_index (block_start kind) ∷ [],
)

-- The `text-delta` case for its text.
unfoldable pub feed_text : Codec → Translator → String → Translator × List StreamEvent
feed_text c t text =
    if text == ""
    then (t, [])
    else (let (u, out) = start_block c t text_kind in
        (
          record u { out_estimate = u.out_estimate + 1; content_started = true },
          out ++ content_block_delta u.open_index (text_delta text) ∷ [],
        ))

-- The `reasoning-delta` case.
unfoldable pub feed_reasoning : Codec → Translator → String → Translator × List StreamEvent
feed_reasoning c t text =
    if text == ""
    then (t, [])
    else (let (u, out) = start_block c t thinking_kind in
        (
          record u {
            thinking_text = u.thinking_text <> text;
            out_estimate = u.out_estimate + 1;
            content_started = true;
          },
          out ++ content_block_delta u.open_index (thinking_delta text) ∷ [],
        ))

-- The `tool-call` case; `fresh` is the random id that stands in for a missing one.
unfoldable pub feed_tool_call :
    Codec → String → Translator → CcEvent → Translator × List StreamEvent
feed_tool_call c fresh t ev =
    let (u, out) = close_block c t in
    let id = if ev.tool_call_id == "" then "toolu_" <> fresh else ev.tool_call_id in
    (
      record u {
        next_index = suc u.next_index;
        out_estimate = u.out_estimate + 20;
        content_started = true;
      },
      out
          ++ content_block_start u.next_index (tool_use_start id ev.tool_name)
            ∷ content_block_delta u.next_index (input_json_delta (partial_json c ev.input))
            ∷ content_block_stop u.next_index
            ∷ [],
    )

-- `t.usage = *u; t.hasUsage = true`, where the pointer is there.
unfoldable pub set_usage : Option CcUsage → Translator → Translator
set_usage none t = t
set_usage (some u) t = record t { usage = u; has_usage = true }

-- The `finish-step` case.
unfoldable pub feed_finish_step : Translator → CcEvent → Translator
feed_finish_step t ev =
    let u =
      if ev.finish_reason == ""
      then t
      else record t { stop_reason = map_stop_reason ev.finish_reason; step_reason_set = true } in
    set_usage ev.usage u

-- The stop reason after the `finish` case, from the flag, the reason so far and the event's.
unfoldable pub finish_reason_of : Bool → String → String → String
finish_reason_of step_reason_set stop_reason finish_reason =
    if step_reason_set
    then stop_reason
    else if not (finish_reason == "")
    then map_stop_reason finish_reason
    else if stop_reason == ""
    then "end_turn"
    else stop_reason

unfoldable pub feed_finish : Translator → CcEvent → Translator
feed_finish t ev =
    let u = if is_some ev.total_usage then set_usage ev.total_usage t else set_usage ev.usage t in
    record u { stop_reason = finish_reason_of u.step_reason_set u.stop_reason ev.finish_reason }

-- The `error` case, for the message that `ev.Error` points to.
unfoldable pub feed_error : Translator → String → String → Translator × List StreamEvent
feed_error t inner message =
    let msg =
      if not (inner == "")
      then inner
      else if not (message == "")
      then message
      else "Unknown CC error" in
    (
      record t { has_error = true; err_message = msg },
      error_event ((map_event msg).0).type msg ∷ [],
    )

-- That case: `none` is the fault of a nil `ev.Error`.
unfoldable pub error_case :
    Translator → Option String → String → Option (Translator × List StreamEvent)
error_case t none message = none
error_case t (some inner) message = some (feed_error t inner message)

-- The `switch` on `ev.Type`.
unfoldable pub feed_event :
    Codec → String → Translator → CcEvent → Option (Translator × List StreamEvent)
feed_event c fresh t ev =
    if ev.type == "text-delta"
    then some (feed_text c t (if ev.text == "" then ev.delta else ev.text))
    else if ev.type == "reasoning-delta"
    then some (feed_reasoning c t ev.text)
    else if ev.type == "tool-call"
    then some (feed_tool_call c fresh t ev)
    else if ev.type == "finish-step"
    then some (feed_finish_step t ev, [])
    else if ev.type == "finish"
    then some (feed_finish t ev, [])
    else if ev.type == "error"
    then error_case t ev.error ev.message
    else some (t, [])

-- The lines that `Feed` passes over, and the event of the others.
unfoldable pub read_line : Codec → String → Option CcEvent
read_line c line =
    let trimmed = c.trim_space line in
    if trimmed == "" || starts_with trimmed ":" || trimmed == "[DONE]"
    then none
    else elim (c.unmarshal_event trimmed) [
      | some ev ↦ if ev.type == "" then none else some ev
      | none ↦ none
    ]

unfoldable pub feed_parsed :
    Codec → String → Translator → Option CcEvent → Option (Translator × List StreamEvent)
feed_parsed c fresh t none = some (t, [])
feed_parsed c fresh t (some ev) = feed_event c fresh (record t { last_event = ev.type }) ev

unfoldable pub feed : Codec → String → Translator → String → Option (Translator × List StreamEvent)
feed c fresh t line = feed_parsed c fresh t (read_line c line)

unfoldable pub output_tokens : Translator → ℤ
output_tokens t = if t.has_usage then t.usage.output_tokens else pos t.out_estimate

-- Events that come after others.
abbrev pub after :
    List StreamEvent → Translator × List StreamEvent → Option (Translator × List StreamEvent)
after es (t, fs) = some (t, es ++ fs)

-- The loop over the lines of an upstream body, each with the random id that it may draw.
unfoldable pub feed_lines :
    Codec → Translator → List (String × String) → Option (Translator × List StreamEvent)
feed_lines c t [] = some (t, [])
feed_lines c t ((fresh, line) ∷ rest) =
    feed c fresh t line >>= λ r. feed_lines c r.0 rest >>= after r.1
