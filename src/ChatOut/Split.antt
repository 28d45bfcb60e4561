-- ===== src/ChatOut/Split.antt =====
-- `chatSplitRunes` of internal/translate/chatout.go.
use text.Mathlib.TextLemmas.{cons-append, nil-append, append-nil}
use cmdc2api.Base.{
  ℕ, zero, suc, ◌-◌, ◌≤◌, ◌<◌, String, ◌≡◌, refl, sym, ap, ◌∙◌, ◌||◌, true, inl, inr, List, [], ◌∷◌,
  ◌<>◌, ◌==◌, ==→≡, Bool-cases, All, leb, eqb, arith, if◌then◌else◌,
}

-- The number of runes of a text, and the runes before and after a position.
abbrev pub rune_count : String → ℕ
rune_count String.[] = 0
rune_count (String.◌∷◌ c s) = suc (rune_count s)

abbrev pub take_runes : ℕ → String → String
take_runes zero s = ""
take_runes (suc n) String.[] = ""
take_runes (suc n) (String.◌∷◌ c s) = String.◌∷◌ c (take_runes n s)

abbrev pub drop_runes : ℕ → String → String
drop_runes zero s = s
drop_runes (suc n) String.[] = ""
drop_runes (suc n) (String.◌∷◌ c s) = drop_runes n s

-- The loop `for i := 0; i < len(runes); i += size` over the runes that are left; the number of
-- runes is fuel enough, since a round takes one at least.
unfoldable pub pieces : ℕ → ℕ → String → List String
pieces zero size s = []
pieces (suc fuel) size s =
    let rest = pieces fuel size (drop_runes size s) in
    if eqb (rune_count s) 0 then [] else take_runes size s ∷ rest

unfoldable pub chat_split_runes : String → ℕ → List String
chat_split_runes s size =
    if s == ""
    then []
    else if eqb size 0 || leb (rune_count s) size
    then s ∷ []
    else pieces (rune_count s) size s

abbrev pub join_texts : List String → String
join_texts [] = ""
join_texts (s ∷ ss) = s <> join_texts ss

take-append-drop : (n : ℕ) (s : String) → take_runes n s <> drop_runes n s ≡ s
take-append-drop zero s = nil-append s
take-append-drop (suc n) String.[] = refl
take-append-drop (suc n) (String.◌∷◌ c s) =
    cons-append c (take_runes n s) (drop_runes n s) ∙ ap (String.◌∷◌ c) (take-append-drop n s)

count-drop_runes : (n : ℕ) (s : String) → rune_count (drop_runes n s) ≡ rune_count s - n
count-drop_runes zero s = omega arith
count-drop_runes (suc n) String.[] = omega arith
count-drop_runes (suc n) (String.◌∷◌ c s) = omega (arith, count-drop_runes n s)

count-take_runes : (n : ℕ) (s : String) → rune_count (take_runes n s) ≤ n
count-take_runes zero s = omega arith
count-take_runes (suc n) String.[] = omega arith
count-take_runes (suc n) (String.◌∷◌ c s) = omega (arith, count-take_runes n s)

no_runes : (s : String) → eqb (rune_count s) 0 ≡ true → s ≡ ""
no_runes String.[] h = refl
no_runes (String.◌∷◌ c s) h = absurd (ground arith)

join-pieces :
    (fuel size : ℕ) (s : String)
    → 0 < size
    → rune_count s ≤ fuel
    → join_texts (pieces fuel size s) ≡ s
unfolding pieces
join-pieces zero size String.[] h k = refl
join-pieces zero size (String.◌∷◌ c s) h k = absurd (omega arith)
join-pieces (suc fuel) size s h k = elim (Bool-cases (eqb (rune_count s) 0)) [
  | inl e ↦ rw e (sym (no_runes s e))
  | inr e ↦ rw e (
      ap (λ r. take_runes size s <> r)
        (join-pieces fuel size (drop_runes size s) h (ground (arith, count-drop_runes size s)))
      ∙ take-append-drop size s)
]

pieces-small : (fuel size : ℕ) (s : String) → All (λ p. rune_count p ≤ size) (pieces fuel size s)
unfolding pieces
pieces-small zero size s = tt
pieces-small (suc fuel) size s = elim (Bool-cases (eqb (rune_count s) 0)) [
  | inl e ↦ rw e tt
  | inr e ↦ rw e (count-take_runes size s, pieces-small fuel size (drop_runes size s))
]

fits :
    (s : String) (size : ℕ)
    → 0 < size
    → (eqb size 0 || leb (rune_count s) size) ≡ true
    → rune_count s ≤ size
fits s size h d = ground arith

-- For every text and every size above zero: the fragments of the text, put together in order, are
-- the text, and no fragment has more runes than the size.
pub chat_split_runes_exact :
    (s : String) (size : ℕ)
    → 0 < size
    → (join_texts (chat_split_runes s size) ≡ s)
      × All (λ p. rune_count p ≤ size) (chat_split_runes s size)
unfolding chat_split_runes
chat_split_runes_exact s size h = elim (Bool-cases (s == "")) [
  | inl e ↦ rw e (sym (==→≡ s "" e), tt)
  | inr e ↦ elim (Bool-cases (eqb size 0 || leb (rune_count s) size)) [
    | inl d ↦ rw (e, d) (append-nil s, (fits s size h d, tt))
    | inr d ↦
        rw (e, d)
          (join-pieces (rune_count s) size s h (omega arith), pieces-small (rune_count s) size s)
  ]
]
