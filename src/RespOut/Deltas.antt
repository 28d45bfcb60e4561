-- ===== src/RespOut/Deltas.antt =====
-- internal/translate/respout.go: deltas, the ends of blocks and of the answer.
use Prim.Native.String.{slice, len}
use text.Mathlib.Text.{starts_with}
use cmdc2api.Base.{
  ℕ, String, ◌<>◌, true, not, ◌||◌, Option, none, some, List, [], ◌∷◌, ◌==◌, if◌then◌else◌,
}
use cmdc2api.Types.Event.{
  StreamEvent, message_start, content_block_start, content_block_delta, content_block_stop,
  message_delta, message_stop, error_event, DeltaUsage, Delta, text_delta, thinking_delta,
  signature_delta, input_json_delta,
}
use cmdc2api.Types.Responses.{
  Response, ItemStatus, completed, incomplete, failed, Payload, output_text_delta, summary_delta,
  args_delta, args_done, input_delta, input_done, response_completed, response_failed,
  response_incomplete,
}
use cmdc2api.ChatOut.Split.{chat_split_runes}
use cmdc2api.RespOut.Machine.{
  OutJson, message, reasoning, function_call, custom_call, search_call, OpenItem, RespOut, Emitted,
  emit, quiet, then_do, with_open, put_open, response,
}
use cmdc2api.RespOut.Steps.{
  custom_input, is_message, is_reasoning, close_text_part, close_open, start_response,
  start_resp_block,
}

-- The loop of `emitToolDeltas` over the pieces.
unfoldable pub emit_pieces : (String → Payload) → List String → RespOut → Emitted
emit_pieces f [] o = quiet o
emit_pieces f (p ∷ ps) o = then_do (emit (f p) o) (emit_pieces f ps)

unfoldable pub emit_tool_deltas : (String → Payload) → String → RespOut → Emitted
emit_tool_deltas f chunk o =
    if chunk == "" then quiet o else emit_pieces f (chat_split_runes chunk 10) o

abbrev pub of_args : OpenItem → String → Payload
of_args i s = args_delta i.index i.id i.call_id i.name s

abbrev pub of_input : OpenItem → String → Payload
of_input i s = input_delta i.index i.id i.call_id i.name s

-- What of an input has been sent already.
abbrev pub sent_of : OpenItem → String → ℕ
sent_of i input = if starts_with input i.unwrapped then i.input_emitted else 0

-- `appendCustomInputDelta`.
unfoldable pub append_custom : OutJson → OpenItem → RespOut → Emitted
append_custom oj i o = elim (custom_input oj i.arguments) [
  | none ↦ quiet (put_open i o)
  | some u ↦
      emit_tool_deltas (of_input i) (slice u (sent_of i u) (len u))
        (put_open (record i { unwrapped = u; input_emitted = len u }) o)
]

unfoldable pub append_tool_arguments : OutJson → String → OpenItem → RespOut → Emitted
append_tool_arguments oj partial i o =
    let j = record i { arguments = i.arguments <> partial } in
    if partial == "" then quiet o else elim i.kind [
      | function_call ↦ emit_tool_deltas (of_args i) partial (put_open j o)
      | custom_call ↦ append_custom oj j o
      | search_call ↦ quiet (put_open j o)
      | _ ↦ quiet o
    ]

-- `blockDelta`, on the open item.
unfoldable pub item_delta : OutJson → Delta → OpenItem → RespOut → Emitted
item_delta oj (text_delta s) i o =
    if not (is_message i.kind) || s == ""
    then quiet o
    else emit (output_text_delta i.index i.content_index i.id s)
        (put_open (record i { part_text = i.part_text <> s }) o)
item_delta oj (thinking_delta s) i o =
    if not (is_reasoning i.kind) || s == ""
    then quiet o
    else emit (summary_delta i.index s) (put_open (record i { thinking = i.thinking <> s }) o)
item_delta oj (signature_delta s) i o =
    if is_reasoning i.kind then quiet (put_open (record i { signature = s }) o) else quiet o
item_delta oj (input_json_delta s) i o = append_tool_arguments oj s i o

abbrev pub or_raw : Option String → String → String
or_raw none raw = raw
or_raw (some s) raw = s

-- `closeCustom`.
unfoldable pub close_custom : OutJson → OpenItem → RespOut → Emitted
close_custom oj i o =
    let input = or_raw (custom_input oj i.arguments) i.arguments in
    then_do (emit_tool_deltas (of_input i) (slice input (sent_of i input) (len input)) o) (λ o.
      then_do
        (emit (input_done i.index i.id i.call_id i.name input)
          (put_open (record i { unwrapped = input; input_emitted = sent_of i input }) o))
        (close_open oj))

-- `closeBlock`.
unfoldable pub close_resp_block : OutJson → RespOut → Emitted
close_resp_block oj = with_open (λ i o. elim i.kind [
  | message ↦ close_text_part o
  | reasoning ↦ close_open oj o
  | function_call ↦
      then_do (emit (args_done i.index i.id i.call_id i.name i.arguments) o) (close_open oj)
  | custom_call ↦ close_custom oj i o
  | search_call ↦ close_open oj o
])

unfoldable pub capture_meta : String → DeltaUsage → RespOut → RespOut
capture_meta reason u o = record o {
  stop_reason = if reason == "" then o.stop_reason else reason;
  usage = record o.usage {
    input_tokens = u.input_tokens;
    output_tokens = u.output_tokens;
    cache_read_input_tokens = u.cache_read_input_tokens;
  };
  cc_total = elim u.cache_creation_input_tokens [ none ↦ o.cc_total | some n ↦ n ];
  cc_seen = elim u.cache_creation_input_tokens [ none ↦ o.cc_seen | some n ↦ true ];
}

unfoldable pub terminal_status : RespOut → ItemStatus
terminal_status o =
    if o.failed
    then failed
    else if o.stop_reason == "max_tokens" || o.stop_reason == "refusal"
    then incomplete
    else completed

unfoldable pub incomplete_reason : RespOut → String
incomplete_reason o = if o.stop_reason == "refusal" then "content_filter" else "max_output_tokens"

unfoldable pub terminal_event : RespOut → Payload
terminal_event o =
    let r = response (terminal_status o) o in
    elim (terminal_status o) [
      | failed ↦ response_failed r o.err_code o.err_msg
      | incomplete ↦ response_incomplete r (incomplete_reason o)
      | _ ↦ response_completed r
    ]

unfoldable pub finish_response : OutJson → RespOut → Emitted
finish_response oj o =
    if o.terminated
    then quiet o
    else then_do (close_open oj (record o { terminated = true })) (λ o. emit (terminal_event o) o)

unfoldable pub fail : OutJson → String → String → RespOut → Emitted
fail oj code msg o =
    if o.terminated
    then quiet o
    else finish_response oj (record o {
      failed = true;
      err_code = if code == "" then "api_error" else code;
      err_msg = msg;
    })

-- The switch of `feed`.
unfoldable pub feed_open : OutJson → String → StreamEvent → RespOut → Emitted
feed_open oj fresh (message_start id model) o = start_response o
feed_open oj fresh (content_block_start n b) o = start_resp_block oj fresh b o
feed_open oj fresh (content_block_delta n d) o = with_open (item_delta oj d) o
feed_open oj fresh (content_block_stop n) o = close_resp_block oj o
feed_open oj fresh (message_delta reason u) o = quiet (capture_meta reason u o)
feed_open oj fresh message_stop o = finish_response oj o
feed_open oj fresh (error_event type msg) o = fail oj type msg o

unfoldable pub feed_response : OutJson → String → StreamEvent → RespOut → Emitted
feed_response oj fresh ev o = if o.terminated then quiet o else feed_open oj fresh ev o

-- All events of an answer, with fresh ids, and `Finish` behind them.
unfoldable pub feed_all : OutJson → List (String × StreamEvent) → RespOut → Emitted
feed_all oj [] o = finish_response oj o
feed_all oj ((fresh, ev) ∷ evs) o = then_do (feed_response oj fresh ev o) (feed_all oj evs)

-- `result`, the answer of the aggregator: the response with its incomplete reason and its error.
unfoldable pub result_response :
    OutJson → RespOut → Response × Option String × Option (String × String)
result_response oj o =
    let u = if o.terminated then o else (finish_response oj o).0 in
    (
      response (terminal_status u) u,
      elim (terminal_status u) [ incomplete ↦ some (incomplete_reason u) | _ ↦ none ],
      if u.failed then some (u.err_code, u.err_msg) else none,
    )
