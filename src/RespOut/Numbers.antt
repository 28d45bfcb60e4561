-- ===== src/RespOut/Numbers.antt =====
-- internal/translate/respout.go: the sequence numbers of a Responses stream.
use cmdc2api.Base.{
  ℕ, suc, String, ◌≡◌, refl, Bool, true, false, not, ◌&&◌, ◌||◌, Option, none, some, List, [], ◌∷◌,
  ◌++◌, ◌==◌, if◌then◌else◌,
}
use cmdc2api.Types.Event.{
  StreamEvent, message_start, content_block_start, content_block_delta, content_block_stop,
  message_delta, message_stop, error_event, BlockStart, text_start, thinking_start, tool_use_start,
  Delta, text_delta, thinking_delta, signature_delta, input_json_delta,
}
use cmdc2api.Types.Responses.{Payload}
use cmdc2api.ChatOut.Split.{chat_split_runes}
use cmdc2api.RespOut.Machine.{
  OutJson, ToolMapping, ItemKind, message, reasoning, function_call, custom_call, search_call,
  OpenItem, RespOut, new_resp_out, Emitted, emit, quiet, then_do, with_open,
}
use cmdc2api.RespOut.Steps.{
  custom_input, is_message, is_reasoning, in_message, close_text_part, close_summary, close_item,
  close_open, start_response, open_message, start_text_part, start_reasoning, start_tool_call,
  start_resp_block,
}
use cmdc2api.RespOut.Deltas.{
  capture_meta, emit_pieces, emit_tool_deltas, of_args, of_input, append_custom,
  append_tool_arguments, item_delta, close_custom, close_resp_block, finish_response, fail,
  feed_open, feed_response, feed_all,
}

-- The events are numbered from `n` on without a gap, and the next number is `m`.
abbrev pub Runs : ℕ → List (ℕ × Payload) → ℕ → Type 0
Runs n [] m = n ≡ m
Runs n ((k, p) ∷ evs) m = (k ≡ n) × Runs (suc n) evs m

abbrev pub IsRun : ℕ → Emitted → Type 0
IsRun n (o, evs) = Runs n evs o.seq

Runs-append :
    (a b c : ℕ) (xs ys : List (ℕ × Payload)) → Runs a xs b → Runs b ys c → Runs a (xs ++ ys) c
Runs-append a b c [] ys h k = rw h k
Runs-append a b c ((n, p) ∷ xs) ys h k = (h.0, Runs-append (suc a) b c xs ys h.1 k)

then-IsRun :
    (n : ℕ) (r : Emitted) (f : RespOut → Emitted)
    → IsRun n r
    → ((o : RespOut) → IsRun o.seq (f o))
    → IsRun n (then_do r f)
unfolding then_do
then-IsRun n (o, evs) f h k = Runs-append n o.seq (f o).0.seq evs (f o).1 h (k o)

emit-IsRun : (p : Payload) (o : RespOut) → IsRun o.seq (emit p o)
unfolding emit
emit-IsRun p o = (refl, refl)

if-IsRun : (n : ℕ) (b : Bool) (x y : Emitted) → IsRun n x → IsRun n y → IsRun n (if b then x else y)
if-IsRun n true x y h k = h
if-IsRun n false x y h k = k

with_open-IsRun :
    (f : OpenItem → RespOut → Emitted)
    → ((i : OpenItem) (o : RespOut) → IsRun o.seq (f i o))
    → (o : RespOut) → IsRun o.seq (with_open f o)
unfolding with_open
with_open-IsRun f h o = go o.opened
  where
    go : (x : Option OpenItem) → IsRun o.seq (elim x [ none ↦ quiet o | some i ↦ f i o ])
    go none = refl
    go (some i) = h i o

close_text_part-IsRun : (o : RespOut) → IsRun o.seq (close_text_part o)
unfolding close_text_part
close_text_part-IsRun = with_open-IsRun _ (λ i o.
    if-IsRun o.seq (is_message i.kind && i.part_open) _ _
      (then-IsRun o.seq _ _ (then-IsRun o.seq _ _ (emit-IsRun _ o) (emit-IsRun _)) (λ o. refl))
      refl)

close_item-IsRun : (oj : OutJson) (i : OpenItem) (o : RespOut) → IsRun o.seq (close_item oj i o)
unfolding close_item
close_item-IsRun oj i o = then-IsRun o.seq _ _ (emit-IsRun _ o) (λ o. refl)

close_open-IsRun : (oj : OutJson) (o : RespOut) → IsRun o.seq (close_open oj o)
unfolding close_open close_summary
close_open-IsRun oj = with_open-IsRun _ (λ i o.
    then-IsRun o.seq _ _
      (if-IsRun o.seq (is_message i.kind) _ _ (close_text_part-IsRun o) (
        if-IsRun o.seq (is_reasoning i.kind) _ _
          (then-IsRun o.seq _ _ (emit-IsRun _ o) (emit-IsRun _)) refl))
      (with_open-IsRun _ (close_item-IsRun oj)))

start_response-IsRun : (o : RespOut) → IsRun o.seq (start_response o)
unfolding start_response
start_response-IsRun o =
    if-IsRun o.seq o.started _ _ refl
      (then-IsRun o.seq _ _ (emit-IsRun _ (record o { started = true })) (emit-IsRun _))

open_message-IsRun : (oj : OutJson) (o : RespOut) → IsRun o.seq (open_message oj o)
unfolding open_message
open_message-IsRun oj o = emit-IsRun _ _

start_text_part-IsRun : (oj : OutJson) (o : RespOut) → IsRun o.seq (start_text_part oj o)
unfolding start_text_part
start_text_part-IsRun oj o =
    then-IsRun o.seq _ _
      (if-IsRun o.seq (in_message o.opened) _ _ (close_text_part-IsRun o)
        (then-IsRun o.seq _ _ (close_open-IsRun oj o) (open_message-IsRun oj)))
      (with_open-IsRun _ (λ i o. emit-IsRun _ _))

start_reasoning-IsRun : (oj : OutJson) (o : RespOut) → IsRun o.seq (start_reasoning oj o)
unfolding start_reasoning
start_reasoning-IsRun oj o =
    then-IsRun o.seq _ _ (close_open-IsRun oj o)
      (λ o. then-IsRun o.seq _ _ (emit-IsRun _ _) (emit-IsRun _))

start_tool_call-IsRun :
    (oj : OutJson) (fresh id name : String) (o : RespOut)
    → IsRun o.seq (start_tool_call oj fresh id name o)
unfolding start_tool_call
start_tool_call-IsRun oj fresh id name o =
    then-IsRun o.seq _ _ (close_open-IsRun oj o) (λ o. emit-IsRun _ _)

start_resp_block-IsRun :
    (oj : OutJson) (fresh : String) (b : BlockStart) (o : RespOut)
    → IsRun o.seq (start_resp_block oj fresh b o)
unfolding start_resp_block
start_resp_block-IsRun oj fresh text_start o = start_text_part-IsRun oj o
start_resp_block-IsRun oj fresh thinking_start o = start_reasoning-IsRun oj o
start_resp_block-IsRun oj fresh (tool_use_start id name) o =
    start_tool_call-IsRun oj fresh id name o

emit_pieces-IsRun :
    (f : String → Payload) (ps : List String) (o : RespOut) → IsRun o.seq (emit_pieces f ps o)
unfolding emit_pieces
emit_pieces-IsRun f [] o = refl
emit_pieces-IsRun f (p ∷ ps) o = then-IsRun o.seq _ _ (emit-IsRun _ o) (emit_pieces-IsRun f ps)

emit_tool_deltas-IsRun :
    (f : String → Payload) (chunk : String) (o : RespOut) → IsRun o.seq (emit_tool_deltas f chunk o)
unfolding emit_tool_deltas
emit_tool_deltas-IsRun f chunk o =
    if-IsRun o.seq (chunk == "") _ _ refl (emit_pieces-IsRun f (chat_split_runes chunk 10) o)

option-IsRun :
    (n : ℕ) (x : Option String) (a : Emitted) (f : String → Emitted)
    → IsRun n a
    → ((s : String) → IsRun n (f s))
    → IsRun n (elim x [ none ↦ a | some s ↦ f s ])
option-IsRun n none a f h k = h
option-IsRun n (some s) a f h k = k s

kind-IsRun :
    (n : ℕ) (k : ItemKind) (a b c d e : Emitted)
    → IsRun n a
    → IsRun n b
    → IsRun n c
    → IsRun n d
    → IsRun n e
    → IsRun n (elim k [
      | message ↦ a
      | reasoning ↦ b
      | function_call ↦ c
      | custom_call ↦ d
      | search_call ↦ e
    ])
kind-IsRun n message a b c d e f g h i j = f
kind-IsRun n reasoning a b c d e f g h i j = g
kind-IsRun n function_call a b c d e f g h i j = h
kind-IsRun n custom_call a b c d e f g h i j = i
kind-IsRun n search_call a b c d e f g h i j = j

append_custom-IsRun :
    (oj : OutJson) (i : OpenItem) (o : RespOut) → IsRun o.seq (append_custom oj i o)
unfolding append_custom
append_custom-IsRun oj i o =
    option-IsRun o.seq (custom_input oj i.arguments) _ _ refl
      (λ u. emit_tool_deltas-IsRun (of_input i) _ _)

append_tool_arguments-IsRun :
    (oj : OutJson) (partial : String) (i : OpenItem) (o : RespOut)
    → IsRun o.seq (append_tool_arguments oj partial i o)
unfolding append_tool_arguments
append_tool_arguments-IsRun oj partial i o = if-IsRun o.seq (partial == "") _ _ refl (
    kind-IsRun o.seq i.kind _ _ _ _ _ refl refl (emit_tool_deltas-IsRun (of_args i) partial _)
      (append_custom-IsRun oj _ _) refl)

item_delta-IsRun :
    (oj : OutJson) (d : Delta) (i : OpenItem) (o : RespOut) → IsRun o.seq (item_delta oj d i o)
unfolding item_delta
item_delta-IsRun oj (text_delta s) i o =
    if-IsRun o.seq (not (is_message i.kind) || s == "") _ _ refl (emit-IsRun _ _)
item_delta-IsRun oj (thinking_delta s) i o =
    if-IsRun o.seq (not (is_reasoning i.kind) || s == "") _ _ refl (emit-IsRun _ _)
item_delta-IsRun oj (signature_delta s) i o = if-IsRun o.seq (is_reasoning i.kind) _ _ refl refl
item_delta-IsRun oj (input_json_delta s) i o = append_tool_arguments-IsRun oj s i o

close_custom-IsRun : (oj : OutJson) (i : OpenItem) (o : RespOut) → IsRun o.seq (close_custom oj i o)
unfolding close_custom
close_custom-IsRun oj i o =
    then-IsRun o.seq _ _ (emit_tool_deltas-IsRun (of_input i) _ o)
      (λ o. then-IsRun o.seq _ _ (emit-IsRun _ _) (close_open-IsRun oj))

close_resp_block-IsRun : (oj : OutJson) (o : RespOut) → IsRun o.seq (close_resp_block oj o)
unfolding close_resp_block
close_resp_block-IsRun oj = with_open-IsRun _ (λ i o.
    kind-IsRun o.seq i.kind _ _ _ _ _ (close_text_part-IsRun o) (close_open-IsRun oj o)
      (then-IsRun o.seq _ _ (emit-IsRun _ o) (close_open-IsRun oj)) (close_custom-IsRun oj i o)
      (close_open-IsRun oj o))

finish_response-IsRun : (oj : OutJson) (o : RespOut) → IsRun o.seq (finish_response oj o)
unfolding finish_response
finish_response-IsRun oj o = if-IsRun o.seq o.terminated _ _ refl (
    then-IsRun o.seq _ _ (close_open-IsRun oj (record o { terminated = true }))
      (λ o. emit-IsRun _ o))

feed_open-IsRun :
    (oj : OutJson) (fresh : String) (ev : StreamEvent) (o : RespOut)
    → IsRun o.seq (feed_open oj fresh ev o)
unfolding feed_open fail capture_meta
feed_open-IsRun oj fresh (message_start id model) o = start_response-IsRun o
feed_open-IsRun oj fresh (content_block_start n b) o = start_resp_block-IsRun oj fresh b o
feed_open-IsRun oj fresh (content_block_delta n d) o = with_open-IsRun _ (item_delta-IsRun oj d) o
feed_open-IsRun oj fresh (content_block_stop n) o = close_resp_block-IsRun oj o
feed_open-IsRun oj fresh (message_delta reason u) o = refl
feed_open-IsRun oj fresh message_stop o = finish_response-IsRun oj o
feed_open-IsRun oj fresh (error_event type msg) o =
    if-IsRun o.seq o.terminated _ _ refl (finish_response-IsRun oj _)

feed_response-IsRun :
    (oj : OutJson) (fresh : String) (ev : StreamEvent) (o : RespOut)
    → IsRun o.seq (feed_response oj fresh ev o)
unfolding feed_response
feed_response-IsRun oj fresh ev o =
    if-IsRun o.seq o.terminated _ _ refl (feed_open-IsRun oj fresh ev o)

feed_all-IsRun :
    (oj : OutJson) (evs : List (String × StreamEvent)) (o : RespOut)
    → IsRun o.seq (feed_all oj evs o)
unfolding feed_all
feed_all-IsRun oj [] o = finish_response-IsRun oj o
feed_all-IsRun oj ((fresh, ev) ∷ evs) o =
    then-IsRun o.seq _ _ (feed_response-IsRun oj fresh ev o) (feed_all-IsRun oj evs)

-- For every event list, in whatever order its events come, and every tool mapping: the events of a
-- Responses stream, those of the encoder's end included, are numbered 0, 1, 2 and so on without a gap
-- or a repetition, and the machine's next number is their number.
pub responses-IsRun :
    (oj : OutJson) (base : String) (m : ToolMapping) (evs : List (String × StreamEvent))
    → IsRun 0 (feed_all oj evs (new_resp_out base m))
unfolding new_resp_out
responses-IsRun oj base m evs = feed_all-IsRun oj evs (new_resp_out base m)
