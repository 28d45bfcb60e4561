-- ===== src/Aggregate/Reading.antt =====
-- What the events of a stream say of the block of an index, and which events come when.
use cmdc2api.Base.{
  ℕ, suc, ◌≤◌, ◌<◌, ◌≡◌, refl, ◌∙◌, ap, String, ◌<>◌, Bool, false, Option, none, some, List, [],
  ◌∷◌, eqb, arith, if◌then◌else◌,
}
use cmdc2api.Types.Event.{
  BlockStart, text_start, thinking_start, tool_use_start, Delta, input_json_delta, StreamEvent,
  message_start, content_block_start, content_block_delta, content_block_stop, message_delta,
  message_stop, error_event, ContentBlock,
}
use cmdc2api.Stream.Protocol.{
  Phase, before, between, in_text, in_thinking, signed, in_tool, filled, summed, stopped, advance,
  accept, then_run,
}
use cmdc2api.Aggregate.{Aggregator, block_of_start, write_block, feed_message, settled_input}

-- A block filled with the deltas of its index, in order.
abbrev pub fill : ℕ → ContentBlock → List StreamEvent → ContentBlock
fill i b [] = b
fill i b (content_block_delta j d ∷ evs) = fill i (if eqb j i then write_block b d else b) evs
fill i b (_ ∷ evs) = fill i b evs

abbrev pub input_in : Delta → String
input_in (input_json_delta s) = s
input_in _ = ""

-- The input fragments of an index, put together.
abbrev pub input_at : ℕ → List StreamEvent → String
input_at i [] = ""
input_at i (content_block_delta j d ∷ evs) =
    let rest = input_at i evs in if eqb j i then input_in d <> rest else rest
input_at i (_ ∷ evs) = input_at i evs

-- The blocks that are started, in order.
abbrev pub starts : List StreamEvent → List BlockStart
starts [] = []
starts (content_block_start i b ∷ evs) = b ∷ starts evs
starts (_ ∷ evs) = starts evs

abbrev pub input_for : BlockStart → String → Option String
input_for (tool_use_start id name) s = some s
input_for _ s = none

-- The blocks from index `i` on.
abbrev pub blocks_from :
    (String → Bool) → ℕ → List BlockStart → List StreamEvent → List ContentBlock
blocks_from valid i [] evs = []
blocks_from valid i (b ∷ bs) evs =
    settled_input valid (fill i (block_of_start b) evs) (input_for b (input_at i evs))
    ∷ blocks_from valid (suc i) bs evs

abbrev pub aggregated : Aggregator → List StreamEvent → Aggregator
aggregated a [] = a
aggregated a (ev ∷ evs) = aggregated (feed_message a ev) evs

-- The open block's index.
abbrev pub open_at : Phase → Option ℕ
open_at (in_text n) = some n
open_at (in_thinking n) = some n
open_at (signed n) = some n
open_at (in_tool n) = some n
open_at (filled n) = some n
open_at _ = none

pub delta_open :
    (p q : Phase) (n i : ℕ) (d : Delta)
    → open_at p ≡ some n
    → advance p (content_block_delta i d) ≡ some q
    → (i ≡ n) × (open_at q ≡ some n)
delta_open p q n i d h a = (ground arith, ground arith)

pub stop_open :
    (p q : Phase) (n i : ℕ)
    → open_at p ≡ some n
    → advance p (content_block_stop i) ≡ some q
    → q ≡ between (suc n)
stop_open p q n i h a = ground arith

pub start_between :
    (q : Phase) (n i : ℕ) (b : BlockStart)
    → advance (between n) (content_block_start i b) ≡ some q
    → (i ≡ n) × (open_at q ≡ some n)
start_between q n i text_start a = (ground arith, ground arith)
start_between q n i thinking_start a = (ground arith, ground arith)
start_between q n i (tool_use_start id name) a = (ground arith, ground arith)

pub no_start :
    (p q : Phase) (n i : ℕ) (b : BlockStart)
    → open_at p ≡ some n
    → advance p (content_block_start i b) ≡ some q
    → ⊥
no_start p q n i b h a = ground arith

-- An event that says nothing of the blocks from `k` on.
pub blocks_from-skip :
    (valid : String → Bool) (k : ℕ) (bs : List BlockStart) (ev : StreamEvent)
    (evs : List StreamEvent)
    → ((i : ℕ) (b : ContentBlock) → k ≤ i → fill i b (ev ∷ evs) ≡ fill i b evs)
    → ((i : ℕ) → k ≤ i → input_at i (ev ∷ evs) ≡ input_at i evs)
    → blocks_from valid k bs (ev ∷ evs) ≡ blocks_from valid k bs evs
blocks_from-skip valid k [] ev evs f g = refl
blocks_from-skip valid k (b ∷ bs) ev evs f g =
    rw (f k (block_of_start b) (omega arith), g k (omega arith))
      (ap
        (λ z.
          settled_input valid (fill k (block_of_start b) evs) (input_for b (input_at k evs)) ∷ z)
        (blocks_from-skip valid (suc k) bs ev evs (λ i c h. f i c (omega arith))
          (λ i h. g i (omega arith))))

-- Behind block `n`.
abbrev pub Past : ℕ → Phase → Type 0
Past n before = ⊥
Past n (between k) = n < k
Past n (in_text k) = n < k
Past n (in_thinking k) = n < k
Past n (signed k) = n < k
Past n (in_tool k) = n < k
Past n (filled k) = n < k
Past n summed = Unit
Past n stopped = Unit

pub Past-delta :
    (n i : ℕ) (d : Delta) (p q : Phase)
    → Past n p
    → advance p (content_block_delta i d) ≡ some q
    → eqb i n ≡ false
Past-delta n i d p q h a = ground arith

pub Past-next :
    (n : ℕ) (ev : StreamEvent) (p q : Phase) → Past n p → advance p ev ≡ some q → Past n q
Past-next n ev p q h a = ground arith

pub accepted_next :
    (p q : Phase) (ev : StreamEvent) (evs : List StreamEvent)
    → accept p (ev ∷ evs) ≡ some q
    → (r : Phase) × (advance p ev ≡ some r) × (accept r evs ≡ some q)
accepted_next p q ev evs a = go (advance p ev) refl a
  where
    go :
        (o : Option Phase)
        → advance p ev ≡ o
        → then_run (λ r. accept r evs) o ≡ some q
        → (r : Phase) × (advance p ev ≡ some r) × (accept r evs ≡ some q)
    go none e k = cc
    go (some r) e k = (r, e, k)

-- The event is no delta of block `n`.
abbrev pub IsElse : ℕ → StreamEvent → Type 0
IsElse n (content_block_delta i d) = eqb i n ≡ false
IsElse n _ = Unit

pub fill-else :
    (n : ℕ) (b : ContentBlock) (ev : StreamEvent) (evs : List StreamEvent)
    → IsElse n ev
    → (fill n b (ev ∷ evs) ≡ fill n b evs) × (input_at n (ev ∷ evs) ≡ input_at n evs)
fill-else n b (content_block_delta i d) evs h = (rw h refl, rw h refl)
fill-else n b (message_start id model) evs h = (refl, refl)
fill-else n b (content_block_start i c) evs h = (refl, refl)
fill-else n b (content_block_stop i) evs h = (refl, refl)
fill-else n b (message_delta reason u) evs h = (refl, refl)
fill-else n b message_stop evs h = (refl, refl)
fill-else n b (error_event type message) evs h = (refl, refl)

pub Past-IsElse :
    (n : ℕ) (ev : StreamEvent) (p q : Phase) → Past n p → advance p ev ≡ some q → IsElse n ev
Past-IsElse n (content_block_delta i d) p q h a = Past-delta n i d p q h a
Past-IsElse n (message_start id model) p q h a = tt
Past-IsElse n (content_block_start i c) p q h a = tt
Past-IsElse n (content_block_stop i) p q h a = tt
Past-IsElse n (message_delta reason u) p q h a = tt
Past-IsElse n message_stop p q h a = tt
Past-IsElse n (error_event type message) p q h a = tt

-- Events behind block `n` say nothing of it.
pub Past-fill :
    (n : ℕ) (b : ContentBlock) (p q : Phase) (evs : List StreamEvent)
    → Past n p
    → accept p evs ≡ some q
    → (fill n b evs ≡ b) × (input_at n evs ≡ "")
Past-fill n b p q [] h a = (refl, refl)
Past-fill n b p q (ev ∷ evs) h a =
    let (r, e, k) = accepted_next p q ev evs a in
    let (f, g) = Past-fill n b r q evs (Past-next n ev p r h e) k in
    let (f', g') = fill-else n b ev evs (Past-IsElse n ev p r h e) in (f' ∙ f, g' ∙ g)

pub skip_else :
    (valid : String → Bool) (k : ℕ) (bs : List BlockStart) (ev : StreamEvent)
    (evs : List StreamEvent)
    → ((i : ℕ) → k ≤ i → IsElse i ev)
    → blocks_from valid k bs (ev ∷ evs) ≡ blocks_from valid k bs evs
skip_else valid k bs ev evs h =
    blocks_from-skip valid k bs ev evs (λ i b l. (fill-else i b ev evs (h i l)).0)
      (λ i l. (fill-else i (block_of_start text_start) ev evs (h i l)).1)

abbrev pub IsOver : Phase → Type 0
IsOver summed = Unit
IsOver stopped = Unit
IsOver _ = ⊥

abbrev pub IsQuiet : StreamEvent → Type 0
IsQuiet message_stop = Unit
IsQuiet (error_event type message) = Unit
IsQuiet _ = ⊥

pub IsOver-IsQuiet :
    (ev : StreamEvent) (p q : Phase) → IsOver p → advance p ev ≡ some q → IsQuiet ev × IsOver q
IsOver-IsQuiet ev p q h e = (ground arith, ground arith)

pub quiet_next :
    (ev : StreamEvent) (a : Aggregator)
    → IsQuiet ev
    → (feed_message a ev ≡ a) × ((evs : List StreamEvent) → starts (ev ∷ evs) ≡ starts evs)
unfolding feed_message
quiet_next message_stop a h = (refl, λ evs. refl)
quiet_next (error_event type message) a h = (refl, λ evs. refl)
quiet_next (message_start id model) a h = absurd h
quiet_next (content_block_start i b) a h = absurd h
quiet_next (content_block_delta i d) a h = absurd h
quiet_next (content_block_stop i) a h = absurd h
quiet_next (message_delta reason u) a h = absurd h
