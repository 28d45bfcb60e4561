-- ===== src/Aggregate/Settle.antt =====
-- The aggregator's map of inputs and its list of blocks, entry by entry.
use cmdc2api.Base.{
  inr, inl, Bool-cases, ℕ, suc, ◌+◌, ◌≤◌, ◌<◌, ◌≡◌, refl, sym, ◌∙◌, ap, String, ◌<>◌, Bool, true,
  false, Option, none, some, List, [], ◌∷◌, ◌++◌, eqb, length, arith,
}
use text.Mathlib.TextLemmas.{append-nil as text_append-nil, nil-append as text_nil-append}
use cmdc2api.Types.Event.{
  BlockStart, text_start, thinking_start, tool_use_start, Delta, text_delta, thinking_delta,
  signature_delta, input_json_delta, ContentBlock,
}
use cmdc2api.Aggregate.{
  input_of, write_input, open_input, write_block, write_last, write_delta_input, settled_input,
  settle_from,
}
use cmdc2api.Aggregate.Reading.{input_in, input_for}

pub settle_from-append :
    (valid : String → Bool) (m : List (ℕ × String)) (i : ℕ) (bs : List ContentBlock)
    (b : ContentBlock)
    → settle_from valid m i (bs ++ b ∷ [])
      ≡ settle_from valid m i bs ++ settled_input valid b (input_of m (i + length bs)) ∷ []
unfolding settle_from
settle_from-append valid m i [] b = rw (plus-zero i) refl
  where
    plus-zero : (i : ℕ) → i + 0 ≡ i
    plus-zero i = omega arith
settle_from-append valid m i (c ∷ bs) b =
    ap (λ z. settled_input valid c (input_of m i) ∷ z)
      (settle_from-append valid m (suc i) bs b ∙ rw (shift i (length bs)) refl)
  where
    shift : (i n : ℕ) → suc i + n ≡ i + suc n
    shift i n = omega arith

pub eqb_self : (n : ℕ) → eqb n n ≡ true
eqb_self n = ground arith

pub eqb-less : (i n : ℕ) → i < n → eqb n i ≡ false
eqb-less i n h = ground arith

pub eqb-apart : (j n i : ℕ) → eqb j n ≡ true → eqb n i ≡ false → eqb j i ≡ false
eqb-apart j n i e h = ground arith

-- `WriteString`, where there is a builder.
abbrev pub and_write : Option String → String → Option String
and_write none s = none
and_write (some t) s = some (t <> s)

pub input_of-write-other :
    (m : List (ℕ × String)) (n i : ℕ) (s : String)
    → eqb n i ≡ false
    → input_of (write_input m n s) i ≡ input_of m i
unfolding input_of write_input
input_of-write-other [] n i s h = refl
input_of-write-other ((j, t) ∷ m) n i s h = elim (Bool-cases (eqb j n)) [
  | inl e ↦ simp (e, eqb-apart j n i e h)
  | inr e ↦ simp e (rw (input_of-write-other m n i s h) refl)
]

pub input_of-write :
    (m : List (ℕ × String)) (n : ℕ) (s : String)
    → input_of (write_input m n s) n ≡ and_write (input_of m n) s
unfolding input_of write_input
input_of-write [] n s = refl
input_of-write ((j, t) ∷ m) n s = elim (Bool-cases (eqb j n)) [
  | inl e ↦ simp e
  | inr e ↦ simp e (input_of-write m n s)
]

pub write_input-nil : (m : List (ℕ × String)) (n : ℕ) → write_input m n "" ≡ m
unfolding write_input
write_input-nil [] n = refl
write_input-nil ((j, t) ∷ m) n = elim (Bool-cases (eqb j n)) [
  | inl e ↦ simp (e, text_append-nil t)
  | inr e ↦ simp e (ap (λ z. (j, t) ∷ z) (write_input-nil m n))
]

-- Entries of later indices change nothing.
pub settle_from-same :
    (valid : String → Bool) (m m' : List (ℕ × String)) (i : ℕ) (bs : List ContentBlock) (n : ℕ)
    → ((k : ℕ) → k < n → input_of m' k ≡ input_of m k)
    → i + length bs ≤ n
    → settle_from valid m' i bs ≡ settle_from valid m i bs
unfolding settle_from
settle_from-same valid m m' i [] n same h = refl
settle_from-same valid m m' i (b ∷ bs) n same h =
    rw (same i (omega arith), settle_from-same valid m m' (suc i) bs n same (omega arith)) refl

pub write_last-snoc :
    (cs : List ContentBlock) (b : ContentBlock) (d : Delta)
    → write_last (cs ++ b ∷ []) d ≡ cs ++ write_block b d ∷ []
unfolding write_last
write_last-snoc [] b d = refl
write_last-snoc (c ∷ []) b d = refl
write_last-snoc (c ∷ e ∷ cs) b d = ap (λ z. c ∷ z) (write_last-snoc (e ∷ cs) b d)

pub write_delta-snoc :
    (cs : List ContentBlock) (b : ContentBlock) (m : List (ℕ × String)) (n : ℕ) (d : Delta)
    → write_delta_input (cs ++ b ∷ []) m n d ≡ write_input m n (input_in d)
write_delta-snoc [] b m n (input_json_delta s) = refl
write_delta-snoc (c ∷ cs) b m n (input_json_delta s) = refl
write_delta-snoc [] b m n (text_delta s) = sym (write_input-nil m n)
write_delta-snoc (c ∷ cs) b m n (text_delta s) = sym (write_input-nil m n)
write_delta-snoc [] b m n (thinking_delta s) = sym (write_input-nil m n)
write_delta-snoc (c ∷ cs) b m n (thinking_delta s) = sym (write_input-nil m n)
write_delta-snoc [] b m n (signature_delta s) = sym (write_input-nil m n)
write_delta-snoc (c ∷ cs) b m n (signature_delta s) = sym (write_input-nil m n)

pub eqb-more : (i n : ℕ) → n < i → eqb n i ≡ false
eqb-more i n h = ground arith

pub open_input-other :
    (m : List (ℕ × String)) (n k : ℕ) (s : BlockStart)
    → eqb n k ≡ false
    → input_of (open_input m n s) k ≡ input_of m k
unfolding input_of
open_input-other m n k text_start h = refl
open_input-other m n k thinking_start h = refl
open_input-other m n k (tool_use_start id name) h = simp h

pub open_input-here :
    (m : List (ℕ × String)) (n : ℕ) (s : BlockStart) (t : String)
    → input_of m n ≡ none
    → and_write (input_of (open_input m n s) n) t ≡ input_for s t
unfolding input_of
open_input-here m n text_start t h = rw h refl
open_input-here m n thinking_start t h = rw h refl
open_input-here m n (tool_use_start id name) t h = simp (eqb_self n) (ap some (text_nil-append t))

pub rebuilt :
    (xs xs' ys ys' : List ContentBlock) (b b' : ContentBlock)
    → xs ≡ xs'
    → b ≡ b'
    → ys ≡ ys'
    → xs ++ b ∷ ys ≡ xs' ++ b' ∷ ys'
rebuilt xs xs' ys ys' b b' e f g = rw (e, f, g) refl
