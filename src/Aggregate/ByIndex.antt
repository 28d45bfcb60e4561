-- ===== src/Aggregate/ByIndex.antt =====
-- The aggregated message of a stream that keeps the protocol, filled block by block from its events.
use cmdc2api.Base.{
  length-append, ℕ, suc, ◌≤◌, ◌<◌, ◌≡◌, refl, sym, ◌∙◌, ap, String, ◌<>◌, Bool, false, Option, none,
  some, List, [], ◌∷◌, ◌++◌, eqb, length, arith, if◌then◌else◌,
}
use mathlib.Core.Path.{ap₂}
use mathlib.Core.List.{append_assoc, append-nil}
use text.Mathlib.TextLemmas.{append-nil as text_append-nil, append_assoc as text_append_assoc}
use cmdc2api.Types.Event.{
  BlockStart, Delta, StreamEvent, message_start, content_block_start, content_block_delta,
  content_block_stop, message_delta, message_stop, error_event, ContentBlock,
}
use cmdc2api.Stream.Protocol.{Phase, before, between, advance, accept}
use cmdc2api.Aggregate.{
  Aggregator, new_aggregator, input_of, write_input, block_of_start, open_input, write_block,
  write_last, write_delta_input, feed_message, settled_input, settle_from, message_of,
}
use cmdc2api.Aggregate.Reading.{
  fill, input_in, input_at, starts, blocks_from, aggregated, open_at, delta_open, stop_open,
  start_between, no_start, accepted_next, Past-fill, skip_else, IsOver, IsOver-IsQuiet, quiet_next,
}
use cmdc2api.Aggregate.Settle.{
  settle_from-append, eqb_self, eqb-less, and_write, input_of-write-other, input_of-write,
  settle_from-same, write_last-snoc, write_delta-snoc, eqb-more, open_input-other, open_input-here,
  rebuilt,
}

module _ (valid : String → Bool) where
  abbrev settled : Aggregator → List ContentBlock
  settled a = settle_from valid a.input_json 0 a.msg.content

  -- With block `n` open, of which `b` is read, behind the blocks `cs`.
  record IsOpen (n : ℕ) (cs : List ContentBlock) (b : ContentBlock) (a : Aggregator) : Type 0 where
    count : length cs ≡ n
    read : a.msg.content ≡ cs ++ b ∷ []
    fresh : (k : ℕ) → n < k → input_of a.input_json k ≡ none

  record IsClosed (n : ℕ) (a : Aggregator) : Type 0 where
    count : length a.msg.content ≡ n
    fresh : (k : ℕ) → n ≤ k → input_of a.input_json k ≡ none

  -- What is read in the end.
  abbrev FromClosed : ℕ → Aggregator → List StreamEvent → Type 0
  FromClosed n a evs =
      settled (aggregated a evs) ≡ settled a ++ blocks_from valid n (starts evs) evs

  abbrev FromOpen : ℕ → List ContentBlock → ContentBlock → Aggregator → List StreamEvent → Type 0
  FromOpen n cs b a evs =
      settled (aggregated a evs)
      ≡ settle_from valid a.input_json 0 cs
        ++ settled_input valid (fill n b evs) (and_write (input_of a.input_json n) (input_at n evs))
          ∷ blocks_from valid (suc n) (starts evs) evs

  and_write-nil : (o : Option String) → and_write o "" ≡ o
  and_write-nil none = refl
  and_write-nil (some t) = ap some (text_append-nil t)

  and_write-twice :
      (o : Option String) (s t : String) → and_write (and_write o s) t ≡ and_write o (s <> t)
  and_write-twice none s t = refl
  and_write-twice (some r) s t = ap some (text_append_assoc r s t)

  -- A block that was open is one of the blocks.
  settled-open :
      (n : ℕ) (cs : List ContentBlock) (b : ContentBlock) (a : Aggregator)
      → IsOpen n cs b a
      → settled a
        ≡ settle_from valid a.input_json 0 cs
          ++ settled_input valid b (input_of a.input_json n) ∷ []
  settled-open n cs b a o =
      ap (settle_from valid a.input_json 0) o.read
      ∙ settle_from-append valid a.input_json 0 cs b
      ∙ ap
          (λ k.
            settle_from valid a.input_json 0 cs
            ++ settled_input valid b (input_of a.input_json k) ∷ [])
          (omega (arith, o.count))

  from_over :
      (p q : Phase) (a : Aggregator) (evs : List StreamEvent)
      → IsOver p
      → accept p evs ≡ some q
      → (settled (aggregated a evs) ≡ settled a) × (starts evs ≡ [])
  from_over p q a [] h e = (refl, refl)
  from_over p q a (ev ∷ evs) h e =
      let (r, d, k) = accepted_next p q ev evs e in
      let (quiet, over) = IsOver-IsQuiet ev p r h d in
      let (same, none_new) = quiet_next ev a quiet in
      let (f, g) = from_over r q (feed_message a ev) evs over k in
      (f ∙ ap settled same, none_new evs ∙ g)

  abbrev ClosedGoal : List StreamEvent → Type 0
  ClosedGoal evs =
      (q : Phase) (n : ℕ) (a : Aggregator)
      → accept (between n) evs ≡ some q
      → IsClosed n a
      → FromClosed n a evs

  abbrev OpenGoal : List StreamEvent → Type 0
  OpenGoal evs =
      (p q : Phase) (n : ℕ) (cs : List ContentBlock) (b : ContentBlock) (a : Aggregator)
      → open_at p ≡ some n
      → accept p evs ≡ some q
      → IsOpen n cs b a
      → FromOpen n cs b a evs

  closed_start :
      (evs : List StreamEvent) (q r : Phase) (n : ℕ) (s : BlockStart) (a : Aggregator)
      → OpenGoal evs
      → IsClosed n a
      → open_at r ≡ some n
      → accept r evs ≡ some q
      → FromClosed n a (content_block_start n s ∷ evs)
  unfolding feed_message
  closed_start evs q r n s a goal c e k =
      let m' = open_input a.input_json n s in
      let other : (j : ℕ) → eqb n j ≡ false → input_of m' j ≡ input_of a.input_json j =
        λ j l. open_input-other a.input_json n j s l in
      goal r q n a.msg.content (block_of_start s) (feed_message a (content_block_start n s)) e k
        (record {
          count = c.count;
          read = refl;
          fresh = λ j l. other j (eqb-more j n l) ∙ c.fresh j (omega arith);
        })
      ∙ rebuilt _ _ _ _ _ _
          (settle_from-same valid a.input_json m' 0 a.msg.content n
            (λ j l. other j (eqb-less j n l)) (omega (arith, c.count)))
          (ap (settled_input valid (fill n (block_of_start s) evs))
            (open_input-here a.input_json n s (input_at n evs) (c.fresh n (omega arith))))
          (sym (skip_else valid (suc n) (starts evs) (content_block_start n s) evs (λ i l. tt)))

  closed_step :
      (ev : StreamEvent) (evs : List StreamEvent)
      → OpenGoal evs
      → ClosedGoal evs
      → ClosedGoal (ev ∷ evs)
  unfolding feed_message
  closed_step ev evs goal closed q n a e c =
      let (r, d, k) = accepted_next (between n) q ev evs e in go ev r d k
    where
      go :
          (ev : StreamEvent) (r : Phase)
          → advance (between n) ev ≡ some r
          → accept r evs ≡ some q
          → FromClosed n a (ev ∷ evs)
      go (content_block_start i s) r d k =
          let (same, opened) = start_between r n i s d in
          rw same (closed_start evs q r n s a goal c opened k)
      go (message_delta reason u) r d k =
          let over : IsOver r = ground arith in
          let a' = feed_message a (message_delta reason u) in
          let (f, g) = from_over r q a' evs over k in
          f
          ∙ sym (
              ap (λ z. settled a ++ blocks_from valid n z (message_delta reason u ∷ evs)) g
              ∙ append-nil _)
      go (error_event type message) r d k =
          let same : r ≡ between n = cc in
          closed q n a (rw (sym same) k) c
          ∙ ap (λ z. settled a ++ z)
              (sym (skip_else valid n (starts evs) (error_event type message) evs (λ i l. tt)))
      go (message_start id model) r d k = cc
      go (content_block_delta i dl) r d k = cc
      go (content_block_stop i) r d k = cc
      go message_stop r d k = cc

  open_delta :
      (evs : List StreamEvent) (q r : Phase) (n : ℕ) (d : Delta) (cs : List ContentBlock)
      (b : ContentBlock) (a : Aggregator)
      → OpenGoal evs
      → IsOpen n cs b a
      → open_at r ≡ some n
      → accept r evs ≡ some q
      → FromOpen n cs b a (content_block_delta n d ∷ evs)
  unfolding feed_message
  open_delta evs q r n d cs b a goal o e k =
      let a' = feed_message a (content_block_delta n d) in
      let map_eq : a'.input_json ≡ write_input a.input_json n (input_in d) =
        ap (λ z. write_delta_input z a.input_json n d) o.read
        ∙ write_delta-snoc cs b a.input_json n d in
      let other : (j : ℕ) → eqb n j ≡ false → input_of a'.input_json j ≡ input_of a.input_json j =
        λ j l.
          ap (λ z. input_of z j) map_eq ∙ input_of-write-other a.input_json n j (input_in d) l in
      goal r q n cs (write_block b d) a' e k (record {
        count = o.count;
        read = ap (λ z. write_last z d) o.read ∙ write_last-snoc cs b d;
        fresh = λ j l. other j (eqb-more j n l) ∙ o.fresh j l;
      })
      ∙ rebuilt _ _ _ _ _ _
          (settle_from-same valid a.input_json a'.input_json 0 cs n
            (λ j l. other j (eqb-less j n l)) (omega (arith, o.count)))
          (ap₂ (settled_input valid)
            (sym (ap (λ z. fill n (if z then write_block b d else b) evs) (eqb_self n)))
            (ap (λ z. and_write (input_of z n) (input_at n evs)) map_eq
              ∙ ap (λ z. and_write z (input_at n evs)) (input_of-write a.input_json n (input_in d))
              ∙ and_write-twice (input_of a.input_json n) (input_in d) (input_at n evs)
              ∙ sym (
                  ap
                    (λ z.
                      and_write (input_of a.input_json n)
                        (if z then input_in d <> input_at n evs else input_at n evs))
                    (eqb_self n))))
          (sym (
            skip_else valid (suc n) (starts evs) (content_block_delta n d) evs
              (λ i l. eqb-more i n (omega arith))))

  open_stop :
      (evs : List StreamEvent) (q : Phase) (n i : ℕ) (cs : List ContentBlock) (b : ContentBlock)
      (a : Aggregator)
      → ClosedGoal evs
      → IsOpen n cs b a
      → accept (between (suc n)) evs ≡ some q
      → FromOpen n cs b a (content_block_stop i ∷ evs)
  unfolding feed_message
  open_stop evs q n i cs b a goal o k =
      let (f, g) = Past-fill n b (between (suc n)) q evs (omega arith) k in
      goal q (suc n) a k (record {
        count = ap length o.read ∙ length-append cs (b ∷ []) ∙ omega (arith, o.count);
        fresh = λ j l. o.fresh j (omega arith);
      })
      ∙ ap (λ z. z ++ blocks_from valid (suc n) (starts evs) evs) (settled-open n cs b a o)
      ∙ append_assoc (settle_from valid a.input_json 0 cs)
          (settled_input valid b (input_of a.input_json n) ∷ []) _
      ∙ rebuilt _ _ _ _ _ _ refl
          (ap₂ (settled_input valid) (sym f)
            (sym (ap (and_write (input_of a.input_json n)) g ∙ and_write-nil _)))
          (sym (skip_else valid (suc n) (starts evs) (content_block_stop i) evs (λ i l. tt)))

  error_open :
      (n : ℕ) (cs : List ContentBlock) (b : ContentBlock) (a : Aggregator) (evs : List StreamEvent)
      (type message : String)
      → FromOpen n cs b a evs
      → FromOpen n cs b a (error_event type message ∷ evs)
  unfolding feed_message
  error_open n cs b a evs type message f =
      f
      ∙ rebuilt _ _ _ _ _ _ refl refl
          (sym (skip_else valid (suc n) (starts evs) (error_event type message) evs (λ i l. tt)))

  open_step :
      (ev : StreamEvent) (evs : List StreamEvent)
      → OpenGoal evs
      → ClosedGoal evs
      → OpenGoal (ev ∷ evs)
  open_step ev evs goal closed p q n cs b a h e o =
      let (r, d, k) = accepted_next p q ev evs e in go ev r d k
    where
      go :
          (ev : StreamEvent) (r : Phase)
          → advance p ev ≡ some r
          → accept r evs ≡ some q
          → FromOpen n cs b a (ev ∷ evs)
      go (content_block_delta i dl) r d k =
          let (same, opened) = delta_open p r n i dl h d in
          rw same (open_delta evs q r n dl cs b a goal o opened k)
      go (content_block_stop i) r d k =
          open_stop evs q n i cs b a closed o (rw (sym (stop_open p r n i h d)) k)
      go (error_event type message) r d k =
          let same : r ≡ p = cc in
          error_open n cs b a evs type message (goal p q n cs b a h (rw (sym same) k) o)
      go (content_block_start i s) r d k = absurd (no_start p r n i s h d)
      go (message_delta reason u) r d k = absurd (ground arith)
      go (message_start id model) r d k = absurd (ground arith)
      go message_stop r d k = absurd (ground arith)

  both : (evs : List StreamEvent) → ClosedGoal evs × OpenGoal evs
  both [] = (
    λ q n a e c. sym (append-nil _),
    λ p q n cs b a h e o.
        settled-open n cs b a o
        ∙ rebuilt _ _ _ _ _ _ refl
            (ap (settled_input valid b) (sym (and_write-nil (input_of a.input_json n)))) refl,
  )
  both (ev ∷ evs) =
      let (closed, goal) = both evs in
      (closed_step ev evs goal closed, open_step ev evs goal closed)

  from_before :
      (q : Phase) (a : Aggregator) (evs : List StreamEvent)
      → a.msg.content ≡ []
      → a.input_json ≡ []
      → accept before evs ≡ some q
      → settled (aggregated a evs) ≡ blocks_from valid 0 (starts evs) evs
  unfolding feed_message settle_from input_of
  from_before q a [] c m e = ap (settle_from valid a.input_json 0) c
  from_before q a (error_event type message ∷ evs) c m e =
      from_before q a evs c m e
      ∙ sym (skip_else valid 0 (starts evs) (error_event type message) evs (λ i l. tt))
  from_before q a (message_start id model ∷ evs) c m e =
      let a' = feed_message a (message_start id model) in
      (both evs).0 q 0 a' e
        (record { count = ap length c; fresh = λ k l. ap (λ z. input_of z k) m })
      ∙ ap (λ z. settle_from valid a.input_json 0 z ++ blocks_from valid 0 (starts evs) evs) c
      ∙ sym (skip_else valid 0 (starts evs) (message_start id model) evs (λ i l. tt))
  from_before q a (content_block_start i s ∷ evs) c m e = ground arith
  from_before q a (content_block_delta i d ∷ evs) c m e = cc
  from_before q a (content_block_stop i ∷ evs) c m e = cc
  from_before q a (message_delta reason u ∷ evs) c m e = cc
  from_before q a (message_stop ∷ evs) c m e = cc

-- The content of the message, each block filled by the aggregator's own steps over its index alone.
pub filled_by_index :
    (valid : String → Bool) (q : Phase) (evs : List StreamEvent)
    → accept before evs ≡ some q
    → (message_of valid (aggregated new_aggregator evs)).content
      ≡ blocks_from valid 0 (starts evs) evs
unfolding message_of
filled_by_index valid q evs e = from_before valid q new_aggregator evs refl refl e
