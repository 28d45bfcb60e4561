-- ===== src/Stream/Protocol.antt =====
-- The protocol of Anthropic's SSE events, as an automaton that reads them one by one. It is
-- described from the client's side and knows nothing of the translator.
use cmdc2api.Base.{ℕ, suc, ◌≡◌, refl, Option, none, some, List, [], ◌∷◌, ◌++◌, eqb, if◌then◌else◌}
use cmdc2api.Types.Event.{
  BlockStart, text_start, thinking_start, tool_use_start, Delta, text_delta, thinking_delta,
  signature_delta, input_json_delta, StreamEvent, message_start, content_block_start,
  content_block_delta, content_block_stop, message_delta, message_stop, error_event,
}

-- Where a message stands: between two blocks, where the next block has the given index; inside a
-- text, a thinking or a tool block; after the signature of a thinking block or the input of a tool
-- block; after the message delta; at the end.
pub data Phase : Type 0 where
  before : Phase
  between in_text in_thinking signed in_tool filled : ℕ → Phase
  summed stopped : Phase

-- A block starts between two blocks and has the next index.
abbrev pub on_start : Phase → ℕ → BlockStart → Option Phase
on_start (between n) i text_start = if eqb i n then some (in_text i) else none
on_start (between n) i thinking_start = if eqb i n then some (in_thinking i) else none
on_start (between n) i (tool_use_start _ _) = if eqb i n then some (in_tool i) else none
on_start _ _ _ = none

-- A delta belongs to the open block, has its index and its kind; the signature is the last delta of
-- a thinking block and the input the only one of a tool block.
abbrev pub on_delta : Phase → ℕ → Delta → Option Phase
on_delta (in_text n) i (text_delta _) = if eqb i n then some (in_text n) else none
on_delta (in_thinking n) i (thinking_delta _) = if eqb i n then some (in_thinking n) else none
on_delta (in_thinking n) i (signature_delta _) = if eqb i n then some (signed n) else none
on_delta (in_tool n) i (input_json_delta _) = if eqb i n then some (filled n) else none
on_delta _ _ _ = none

-- A thinking block is closed only after its signature, a tool block only after its input.
abbrev pub on_stop : Phase → ℕ → Option Phase
on_stop (in_text n) i = if eqb i n then some (between (suc n)) else none
on_stop (signed n) i = if eqb i n then some (between (suc n)) else none
on_stop (filled n) i = if eqb i n then some (between (suc n)) else none
on_stop _ _ = none

abbrev pub on_message_start : Phase → Option Phase
on_message_start before = some (between 0)
on_message_start _ = none

abbrev pub on_message_delta : Phase → Option Phase
on_message_delta (between n) = some summed
on_message_delta _ = none

abbrev pub on_message_stop : Phase → Option Phase
on_message_stop summed = some stopped
on_message_stop _ = none

-- An error may come at any time and leaves the message where it is.
abbrev pub advance : Phase → StreamEvent → Option Phase
advance p (message_start _ _) = on_message_start p
advance p (content_block_start i b) = on_start p i b
advance p (content_block_delta i d) = on_delta p i d
advance p (content_block_stop i) = on_stop p i
advance p (message_delta _ _) = on_message_delta p
advance p message_stop = on_message_stop p
advance p (error_event _ _) = some p

abbrev pub then_run : (Phase → Option Phase) → Option Phase → Option Phase
then_run f none = none
then_run f (some p) = f p

-- `none` where an event is out of place.
abbrev pub accept : Phase → List StreamEvent → Option Phase
accept p [] = some p
accept p (e ∷ es) = then_run (λ q. accept q es) (advance p e)

then_run-accept :
    (o : Option Phase) (xs ys : List StreamEvent)
    → ((p : Phase) → accept p (xs ++ ys) ≡ then_run (λ q. accept q ys) (accept p xs))
    → then_run (λ q. accept q (xs ++ ys)) o
      ≡ then_run (λ q. accept q ys) (then_run (λ q. accept q xs) o)
then_run-accept none xs ys h = refl
then_run-accept (some p) xs ys h = h p

pub accept-append :
    (p : Phase) (xs ys : List StreamEvent)
    → accept p (xs ++ ys) ≡ then_run (λ q. accept q ys) (accept p xs)
accept-append p [] ys = refl
accept-append p (x ∷ xs) ys = then_run-accept (advance p x) xs ys (λ q. accept-append q xs ys)
