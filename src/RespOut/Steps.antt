-- ===== src/RespOut/Steps.antt =====
-- internal/translate/respout.go: what each event of the upstream's answer does to the machine.
use cmdc2api.Base.{
  ℕ, suc, String, ◌<>◌, Bool, true, false, ◌&&◌, Option, none, some, [], ◌∷◌, ◌++◌, ◌==◌,
  if◌then◌else◌,
}
use cmdc2api.Types.Event.{BlockStart, text_start, thinking_start, tool_use_start}
use cmdc2api.Types.Responses.{
  in_progress, completed, OutputItem, message_item, reasoning_item, function_item, custom_item,
  search_item, response_created, response_in_progress, item_added, item_done, part_added,
  output_text_done, part_done, summary_part_added, summary_done, summary_part_done,
}
use cmdc2api.RespOut.Machine.{
  OutJson, ToolMapping, ItemKind, message, reasoning, function_call, custom_call, search_call,
  OpenItem, zero_item, RespOut, Emitted, emit, quiet, then_do, with_open, put_open, response,
}

-- `responsesCustomInput`.
unfoldable pub field_text : OutJson → Option String → String
field_text oj none = ""
field_text oj (some v) =
    if v == "null" then "" else elim (oj.unmarshal_string v) [ some s ↦ s | none ↦ v ]

unfoldable pub custom_input : OutJson → String → Option String
custom_input oj raw =
    let trimmed = oj.trim_space raw in
    if trimmed == "" then some "" else elim (oj.unmarshal_fields trimmed) [
      | none ↦ none
      | some fields ↦ some (field_text oj (fields "input"))
    ]

-- `toolSearchArguments`.
unfoldable pub search_arguments : OutJson → String → Option String
search_arguments oj arguments =
    let raw = oj.trim_space arguments in
    if raw == "" then none else elim (oj.unmarshal_fields raw) [ none ↦ none | some f ↦ some raw ]

unfoldable pub done_item : OutJson → OpenItem → OutputItem
done_item oj i = elim i.kind [
  | message ↦ message_item i.id completed i.parts
  | reasoning ↦ reasoning_item i.signature (i.thinking ∷ [])
  | function_call ↦ function_item i.id i.call_id i.name i.namespace i.arguments completed
  | custom_call ↦ custom_item i.id i.call_id i.name i.unwrapped completed
  | search_call ↦ search_item i.id i.call_id (search_arguments oj i.arguments) completed
]

abbrev pub is_message : ItemKind → Bool
is_message message = true
is_message _ = false

abbrev pub is_reasoning : ItemKind → Bool
is_reasoning reasoning = true
is_reasoning _ = false

-- The item behind its text part.
abbrev pub next_part : OpenItem → OpenItem
next_part i = record i {
  parts = i.parts ++ i.part_text ∷ [];
  part_text = "";
  part_open = false;
  content_index = suc i.content_index;
}

unfoldable pub close_text_part : RespOut → Emitted
close_text_part = with_open (λ i o.
    if is_message i.kind && i.part_open
    then then_do
        (then_do (emit (output_text_done i.index i.content_index i.id i.part_text) o)
          (emit (part_done i.index i.content_index i.id i.part_text)))
        (λ o. quiet (put_open (next_part i) o))
    else quiet o)

-- `closeReasoningSummary`.
unfoldable pub close_summary : OpenItem → RespOut → Emitted
close_summary i o =
    then_do (emit (summary_done i.index i.thinking) o) (emit (summary_part_done i.index i.thinking))

-- The end of `closeOpen`.
unfoldable pub close_item : OutJson → OpenItem → RespOut → Emitted
close_item oj i o = then_do (emit (item_done i.index (done_item oj i)) o) (λ o. quiet (record o {
  output = o.output ++ done_item oj i ∷ [];
  output_index = suc o.output_index;
  opened = none;
}))

unfoldable pub close_open : OutJson → RespOut → Emitted
close_open oj = with_open (λ i o.
    then_do
      (if is_message i.kind
        then close_text_part o
        else if is_reasoning i.kind
        then close_summary i o
        else quiet o)
      (with_open (close_item oj)))

unfoldable pub start_response : RespOut → Emitted
start_response o =
    if o.started
    then quiet o
    else then_do (emit (response_created (response in_progress o)) (record o { started = true }))
        (emit (response_in_progress (response in_progress o)))

-- `nextMessageItemID`.
unfoldable pub message_id : OutJson → RespOut → String
message_id oj o =
    if o.base == ""
    then "msg_" <> oj.itoa o.message_seq
    else "msg_" <> (o.base <> ("_" <> oj.itoa o.message_seq))

unfoldable pub open_message : OutJson → RespOut → Emitted
open_message oj o =
    let id = message_id oj o in
    let i = record (zero_item message o.output_index) { id = id } in
    emit (item_added i.index (message_item id in_progress []))
      (put_open i (record o { message_seq = suc o.message_seq }))

abbrev pub in_message : Option OpenItem → Bool
in_message none = false
in_message (some i) = is_message i.kind

unfoldable pub start_text_part : OutJson → RespOut → Emitted
start_text_part oj o =
    then_do
      (if in_message o.opened
        then close_text_part o
        else then_do (close_open oj o) (open_message oj))
      (with_open (λ i o.
        emit (part_added i.index i.content_index i.id)
          (put_open (record i { part_open = true }) o)))

unfoldable pub start_reasoning : OutJson → RespOut → Emitted
start_reasoning oj o = then_do (close_open oj o) (λ o.
    then_do
      (emit (item_added o.output_index (reasoning_item "" []))
        (put_open (zero_item reasoning o.output_index) o))
      (emit (summary_part_added o.output_index)))

-- The item of a tool call, by the mapping of its name.
unfoldable pub tool_item : ToolMapping → String → String → ℕ → OpenItem
tool_item m call_id name index =
    if m.tool_search && name == "tool_search"
    then record (zero_item search_call index) { call_id = call_id; id = "tsc_" <> call_id }
    else if m.custom name
    then record (zero_item custom_call index) {
      call_id = call_id;
      id = "ctc_" <> call_id;
      name = name;
    }
    else elim (m.namespace name) [
      | none ↦ record (zero_item function_call index) {
        call_id = call_id;
        id = "fc_" <> call_id;
        name = name;
      }
      | some (short, space) ↦ record (zero_item function_call index) {
        call_id = call_id;
        id = "fc_" <> call_id;
        name = short;
        namespace = space;
      }
    ]

unfoldable pub announced : OpenItem → OutputItem
announced i = elim i.kind [
  | search_call ↦ search_item i.id i.call_id none in_progress
  | custom_call ↦ custom_item i.id i.call_id i.name "" in_progress
  | _ ↦ function_item i.id i.call_id i.name i.namespace "" in_progress
]

-- `startToolCall`; `fresh` is what `responsesToolCallID` makes for a call without an id.
unfoldable pub start_tool_call : OutJson → String → String → String → RespOut → Emitted
start_tool_call oj fresh id name o = then_do (close_open oj o) (λ o.
    let i = tool_item o.mapping (if id == "" then fresh else id) name o.output_index in
    emit (item_added i.index (announced i)) (put_open i o))

unfoldable pub start_resp_block : OutJson → String → BlockStart → RespOut → Emitted
start_resp_block oj fresh text_start o = start_text_part oj o
start_resp_block oj fresh thinking_start o = start_reasoning oj o
start_resp_block oj fresh (tool_use_start id name) o = start_tool_call oj fresh id name o
