-- ===== src/RespOut/Machine.antt =====
-- internal/translate/respout.go: `responsesOut`. A method that emits events returns the new state and the
-- events, each with its sequence number. JSON decoding and `TrimSpace` are parameters.
use cmdc2api.Base.{
  ℕ, suc, String, Bool, false, Option, none, some, List, [], ◌∷◌, ◌++◌, ℤ, pos, if◌then◌else◌,
}
use cmdc2api.Types.Event.{DeltaUsage}
use cmdc2api.Types.Responses.{ItemStatus, OutputItem, Response, Payload}
use cmdc2api.ChatOut.{zero_delta_usage}

-- `ResponsesToolMapping` as the machine reads it, and the library calls: the members of a JSON object,
-- a JSON string, `TrimSpace` and the decimal form of a number.
pub record ToolMapping : Type 0 where
  pub tool_search : Bool
  pub custom : String → Bool
  pub namespace : String → Option (String × String)

pub record OutJson : Type 0 where
  pub unmarshal_fields : String → Option (String → Option String)
  pub unmarshal_string : String → Option String
  pub trim_space : String → String
  pub itoa : ℕ → String

pub data ItemKind : Type 0 where
  message reasoning function_call custom_call search_call : ItemKind

pub record OpenItem : Type 0 where
  pub kind : ItemKind
  pub index : ℕ
  pub id : String
  pub content_index : ℕ
  pub part_open : Bool
  pub part_text : String
  pub parts : List String
  pub thinking : String
  pub signature : String
  pub call_id : String
  pub name : String
  pub namespace : String
  pub arguments : String
  pub unwrapped : String
  pub input_emitted : ℕ

abbrev pub zero_item : ItemKind → ℕ → OpenItem
zero_item kind index = record {
  kind = kind;
  index = index;
  id = "";
  content_index = 0;
  part_open = false;
  part_text = "";
  parts = [];
  thinking = "";
  signature = "";
  call_id = "";
  name = "";
  namespace = "";
  arguments = "";
  unwrapped = "";
  input_emitted = 0;
}

-- `responsesOut`; `opened` is its field `open`, `base` the response id without its prefix.
pub record RespOut : Type 0 where
  pub base : String
  pub mapping : ToolMapping
  pub seq : ℕ
  pub output_index : ℕ
  pub output : List OutputItem
  pub opened : Option OpenItem
  pub stop_reason : String
  pub usage : DeltaUsage
  pub cc_total : ℤ
  pub cc_seen : Bool
  pub started : Bool
  pub terminated : Bool
  pub failed : Bool
  pub err_code : String
  pub err_msg : String
  pub message_seq : ℕ

unfoldable pub new_resp_out : String → ToolMapping → RespOut
new_resp_out base mapping = record {
  base = base;
  mapping = mapping;
  seq = 0;
  output_index = 0;
  output = [];
  opened = none;
  stop_reason = "";
  usage = zero_delta_usage;
  cc_total = pos 0;
  cc_seen = false;
  started = false;
  terminated = false;
  failed = false;
  err_code = "";
  err_msg = "";
  message_seq = 0;
}

abbrev pub Emitted : Type 0
Emitted = RespOut × List (ℕ × Payload)

-- One event with the next number, `nextSeq`.
unfoldable pub emit : Payload → RespOut → Emitted
emit p o = (record o { seq = suc o.seq }, (o.seq, p) ∷ [])

abbrev pub quiet : RespOut → Emitted
quiet o = (o, [])

-- Two steps, and their events in order.
unfoldable pub then_do : Emitted → (RespOut → Emitted) → Emitted
then_do (o, evs) f = let (o', more) = f o in (o', evs ++ more)

-- A step where an item is open, and nothing where none is.
unfoldable pub with_open : (OpenItem → RespOut → Emitted) → RespOut → Emitted
with_open f o = elim o.opened [ none ↦ quiet o | some i ↦ f i o ]

abbrev pub put_open : OpenItem → RespOut → RespOut
put_open i o = record o { opened = some i }

-- `finalUsage`, before `ResponsesUsageFromDelta`.
unfoldable pub final_usage : RespOut → DeltaUsage
final_usage o =
    if o.cc_seen then record o.usage { cache_creation_input_tokens = some o.cc_total } else o.usage

unfoldable pub response : ItemStatus → RespOut → Response
response status o = record { status = status; output = o.output; usage = final_usage o }
