-- ===== src/Aggregate/ReadBack.antt =====
-- The message that a client puts together from the events by their block index.
use text.Mathlib.TextLemmas.{nil-append, append-nil, append_assoc}
use mathlib.Core.Path.{ap₂}
use cmdc2api.Base.{
  ℕ, suc, ◌≡◌, refl, ◌∙◌, ap, String, ◌<>◌, ◌==◌, Bool, true, false, not, ◌&&◌, ◌||◌, some, List,
  [], ◌∷◌, eqb, inl, inr, Bool-cases, if◌then◌else◌,
}
use cmdc2api.Types.Event.{
  BlockStart, text_start, thinking_start, tool_use_start, Delta, text_delta, thinking_delta,
  signature_delta, input_json_delta, StreamEvent, message_start, content_block_start,
  content_block_delta, content_block_stop, message_delta, message_stop, error_event, ContentBlock,
}
use cmdc2api.Stream.Protocol.{Phase, before, accept}
use cmdc2api.Aggregate.{new_aggregator, block_of_start, write_block, settled_input, message_of}
use cmdc2api.Aggregate.Reading.{fill, input_at, starts, input_for, blocks_from, aggregated}
use cmdc2api.Aggregate.ByIndex.{filled_by_index}

abbrev text_in : Delta → String
text_in (text_delta s) = s
text_in _ = ""

abbrev thinking_in : Delta → String
thinking_in (thinking_delta s) = s
thinking_in _ = ""

-- The signature behind a delta that follows the signature `s`.
abbrev signature_in : String → Delta → String
signature_in s (signature_delta t) = t
signature_in s _ = s

-- The text deltas of an index, put together.
abbrev pub texts_at : ℕ → List StreamEvent → String
texts_at i [] = ""
texts_at i (content_block_delta j d ∷ evs) =
    let rest = texts_at i evs in if eqb j i then text_in d <> rest else rest
texts_at i (_ ∷ evs) = texts_at i evs

-- The thinking deltas of an index, put together.
abbrev pub thinkings_at : ℕ → List StreamEvent → String
thinkings_at i [] = ""
thinkings_at i (content_block_delta j d ∷ evs) =
    let rest = thinkings_at i evs in if eqb j i then thinking_in d <> rest else rest
thinkings_at i (_ ∷ evs) = thinkings_at i evs

-- The last signature of an index, else `s`.
abbrev pub signature_at : ℕ → String → List StreamEvent → String
signature_at i s [] = s
signature_at i s (content_block_delta j d ∷ evs) =
    signature_at i (if eqb j i then signature_in s d else s) evs
signature_at i s (_ ∷ evs) = signature_at i s evs

-- An input that is there and valid JSON, else an empty object.
abbrev pub input_read : (String → Bool) → String → String
input_read valid raw = if not (raw == "") && valid raw then raw else "{}"

-- The block of index `i` with this start.
abbrev pub block_read : (String → Bool) → ℕ → BlockStart → List StreamEvent → ContentBlock
block_read valid i text_start evs = record {
  type = "text";
  text = texts_at i evs;
  thinking = thinkings_at i evs;
  signature = signature_at i "" evs;
  id = "";
  name = "";
  input = "";
}
block_read valid i thinking_start evs = record {
  type = "thinking";
  text = texts_at i evs;
  thinking = thinkings_at i evs;
  signature = signature_at i "" evs;
  id = "";
  name = "";
  input = "";
}
block_read valid i (tool_use_start id name) evs = record {
  type = "tool_use";
  text = texts_at i evs;
  thinking = thinkings_at i evs;
  signature = signature_at i "" evs;
  id = id;
  name = name;
  input = input_read valid (input_at i evs);
}

-- The blocks from index `i` on.
abbrev pub blocks_read :
    (String → Bool) → ℕ → List BlockStart → List StreamEvent → List ContentBlock
blocks_read valid i [] evs = []
blocks_read valid i (b ∷ bs) evs = block_read valid i b evs ∷ blocks_read valid (suc i) bs evs

-- A block with a text and a thinking behind its own, and a signature.
abbrev extended : ContentBlock → String → String → String → ContentBlock
extended b t h s = record b { text = b.text <> t; thinking = b.thinking <> h; signature = s }

extended-write :
    (b : ContentBlock) (d : Delta) (t h s : String)
    → extended (write_block b d) t h s ≡ extended b (text_in d <> t) (thinking_in d <> h) s
unfolding write_block
extended-write b (text_delta r) t h s = rw (append_assoc b.text r t, nil-append h) refl
extended-write b (thinking_delta r) t h s = rw (append_assoc b.thinking r h, nil-append t) refl
extended-write b (signature_delta r) t h s = rw (nil-append t, nil-append h) refl
extended-write b (input_json_delta r) t h s = rw (nil-append t, nil-append h) refl

write_block-signature :
    (b : ContentBlock) (d : Delta) → (write_block b d).signature ≡ signature_in b.signature d
unfolding write_block
write_block-signature b (text_delta r) = refl
write_block-signature b (thinking_delta r) = refl
write_block-signature b (signature_delta r) = refl
write_block-signature b (input_json_delta r) = refl

-- A block filled with the deltas of an index, field by field.
fill-extended :
    (i : ℕ) (b : ContentBlock) (evs : List StreamEvent)
    → fill i b evs
      ≡ extended b (texts_at i evs) (thinkings_at i evs) (signature_at i b.signature evs)
fill-extended i b [] = rw (append-nil b.text, append-nil b.thinking) refl
fill-extended i b (content_block_delta j d ∷ evs) = elim (Bool-cases (eqb j i)) [
  | inl e ↦ rw e (
      fill-extended i (write_block b d) evs
      ∙ extended-write b d (texts_at i evs) (thinkings_at i evs) _
      ∙ ap
          (λ z.
            extended b (text_in d <> texts_at i evs) (thinking_in d <> thinkings_at i evs)
              (signature_at i z evs))
          (write_block-signature b d))
  | inr e ↦ rw e (fill-extended i b evs)
]
fill-extended i b (message_start id model ∷ evs) = fill-extended i b evs
fill-extended i b (content_block_start j c ∷ evs) = fill-extended i b evs
fill-extended i b (content_block_stop j ∷ evs) = fill-extended i b evs
fill-extended i b (message_delta reason u ∷ evs) = fill-extended i b evs
fill-extended i b (message_stop ∷ evs) = fill-extended i b evs
fill-extended i b (error_event type message ∷ evs) = fill-extended i b evs

input_read-settled :
    (e v : Bool) (raw : String)
    → (if e || not v then "{}" else raw) ≡ (if not e && v then raw else "{}")
input_read-settled true v raw = refl
input_read-settled false true raw = refl
input_read-settled false false raw = refl

abbrev with_input : ContentBlock → String → ContentBlock
with_input b s = record b { input = s }

settled_input-block_read :
    (valid : String → Bool) (i : ℕ) (b : BlockStart) (evs : List StreamEvent)
    → settled_input valid (fill i (block_of_start b) evs) (input_for b (input_at i evs))
      ≡ block_read valid i b evs
unfolding block_of_start
settled_input-block_read valid i text_start evs =
    fill-extended i (block_of_start text_start) evs
    ∙ rw (nil-append (texts_at i evs), nil-append (thinkings_at i evs)) refl
settled_input-block_read valid i thinking_start evs =
    fill-extended i (block_of_start thinking_start) evs
    ∙ rw (nil-append (texts_at i evs), nil-append (thinkings_at i evs)) refl
settled_input-block_read valid i (tool_use_start id name) evs =
    let raw = input_at i evs in
    ap₂ with_input (fill-extended i (block_of_start (tool_use_start id name)) evs)
      (input_read-settled (raw == "") (valid raw) raw)
    ∙ rw (nil-append (texts_at i evs), nil-append (thinkings_at i evs)) refl

blocks_from-read :
    (valid : String → Bool) (i : ℕ) (bs : List BlockStart) (evs : List StreamEvent)
    → blocks_from valid i bs evs ≡ blocks_read valid i bs evs
blocks_from-read valid i [] evs = refl
blocks_from-read valid i (b ∷ bs) evs =
    ap₂ (λ x y. x ∷ y) (settled_input-block_read valid i b evs)
      (blocks_from-read valid (suc i) bs evs)

-- For every event list that keeps the protocol from its start: the content of the aggregated message
-- has one block for each block that is started, in order, with the type, the id and the name of its
-- start. Its text is all text deltas of its index put together and its thinking is all thinking
-- deltas, whatever the aggregator's last block is; its signature is the last one of its index; and the
-- input of a tool call is the input fragments of its index put together, where they are valid JSON
-- and not empty, and `{}` where not.
pub message_by_index :
    (valid : String → Bool) (q : Phase) (evs : List StreamEvent)
    → accept before evs ≡ some q
    → (message_of valid (aggregated new_aggregator evs)).content
      ≡ blocks_read valid 0 (starts evs) evs
message_by_index valid q evs e =
    filled_by_index valid q evs e ∙ blocks_from-read valid 0 (starts evs) evs
