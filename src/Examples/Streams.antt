-- ===== src/Examples/Streams.antt =====
-- Upstream bodies for internal/translate/stream.go.
use cmdc2api.Base.{
  String, ◌≡◌, refl, true, false, Option, none, some, List, [], ◌∷◌, ◌==◌, pos, All, is_neg,
  if◌then◌else◌, arith,
}
use cmdc2api.Types.Cmdc.{CcEvent, CcUsage}
use cmdc2api.Types.Event.{StreamEvent}
use cmdc2api.Stream.{
  feed_finish, feed_finish_step, feed_tool_call, feed_reasoning, feed_text, feed_event, feed_parsed,
  Codec, Translator, new_translator, start, feed, feed_lines, read_line,
}
use cmdc2api.Stream.Usage.{finish, delta_usage}
use cmdc2api.Stream.Usage.Bill.{IsFree, delta_usage_exact, delta_usage_nonneg, delta_usage-IsFree}
use cmdc2api.Stream.Ending.{IsOrderly, IsSoundLine, stream-IsOrderly, finish_idempotent}
use cmdc2api.Stream.Reason.{settle, last_reason}
use cmdc2api.Stream.Verdict.{declared, stop_reason_declared}

abbrev event : String → CcEvent
event type = record {
  type = type;
  text = "";
  delta = "";
  tool_call_id = "";
  tool_name = "";
  input = "";
  finish_reason = "";
  total_usage = none;
  usage = none;
  error = none;
  message = "";
}

abbrev usage : CcUsage
usage = record {
  input_tokens = pos 100;
  output_tokens = pos 7;
  cached_input_tokens = pos 40;
  input_token_details = none;
}

abbrev sample_event : String → Option CcEvent
sample_event line =
    if line == "say"
    then some (record (event "text-delta") { text = "Hi" })
    else if line == "think"
    then some (record (event "reasoning-delta") { text = "Hm" })
    else if line == "call"
    then some (record (event "tool-call") { tool_call_id = "a"; tool_name = "read"; input = "{}" })
    else if line == "step"
    then some (record (event "finish-step") { finish_reason = "tool-calls" })
    else if line == "end"
    then some (record (event "finish") { finish_reason = "stop"; total_usage = some usage })
    else if line == "error"
    then some (record (event "error") { message = "<429> slow" })
    else none

abbrev pub sample_codec : Codec
sample_codec = record {
  trim_space = λ s. s;
  unmarshal_event = sample_event;
  unmarshal_string = λ s. none;
  sha256 = λ s. [];
  base64 = λ b. "";
}

abbrev pub body : List (String × String)
body = ("r1", "think") ∷ ("r2", "say") ∷ ("r3", "call") ∷ ("r4", "step") ∷ ("r5", "end") ∷ []

pub body-IsSound : All (IsSoundLine sample_codec) body
unfolding read_line
body-IsSound = ground arith

stream-IsOrderly_example :
    IsOrderly sample_codec
      (new_translator "m" "msg_1")
      (start (new_translator "m" "msg_1"))
      (feed_lines sample_codec (new_translator "m" "msg_1") body)
stream-IsOrderly_example = stream-IsOrderly sample_codec "m" "msg_1" body body-IsSound

abbrev result_of : Option (Translator × List StreamEvent) → Translator × List StreamEvent
result_of none = (new_translator "m" "msg_1", [])
result_of (some r) = r

abbrev pub ran : Translator × List StreamEvent
ran = result_of (feed_lines sample_codec (new_translator "m" "msg_1") body)

pub body_runs : feed_lines sample_codec (new_translator "m" "msg_1") body ≡ some (ran.0, ran.1)
unfolding feed_lines feed feed_parsed feed_event feed_text feed_reasoning feed_tool_call
    feed_finish_step feed_finish read_line
body_runs = refl

stop_reason_declared_example :
    settle ran.0.stop_reason
    ≡ declared
        (last_reason sample_codec "finish-step" body)
        (last_reason sample_codec "finish" body)
stop_reason_declared_example =
    stop_reason_declared sample_codec "m" "msg_1" body ran.0 ran.1 body_runs

abbrev billed : Translator
billed = record (new_translator "m" "msg_1") { has_usage = true; usage = usage }

delta_usage_exact_example : (delta_usage billed).1 ≡ record {
  output_tokens = pos 7;
  input_tokens = pos 60;
  cache_read_input_tokens = pos 40;
  cache_creation_input_tokens = none;
}
delta_usage_exact_example = delta_usage_exact billed 100 40 6 refl refl (omega arith) (omega arith)

abbrev unanswered : Translator
unanswered = record billed { usage = record usage { output_tokens = pos 0 } }

delta_usage-IsFree_example : IsFree (delta_usage unanswered).1
delta_usage-IsFree_example = delta_usage-IsFree unanswered refl

delta_usage_nonneg_example : is_neg (delta_usage billed).1.input_tokens ≡ false
delta_usage_nonneg_example = delta_usage_nonneg billed

finish_idempotent_example : (finish sample_codec (finish sample_codec billed).0).1 ≡ []
finish_idempotent_example = finish_idempotent sample_codec billed
