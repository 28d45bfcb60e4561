-- ===== src/ChatIn/Families.antt =====
-- internal/translate/chatin.go: the aggregation of the warnings loses none of them.
use cmdc2api.Base.{
  ℕ, suc, String, ◌≡◌, refl, sym, ap, ◌∙◌, Bool, true, false, ◌||◌, List, [], ◌∷◌, ◌++◌, ◌==◌, ==→≡,
  ≢→==, ==-ne, map, foldl, All, select, select-append, Bool-cases, inl, inr, length, ltb, eq_refl,
  arith, if◌then◌else◌,
}
use mathlib.Core.Path.{subst}
use mathlib.Core.List.{append_assoc, append-nil}
use cmdc2api.ChatIn.Family.{
  Family, chat_warn_family_key, note_family, add_warn, families, describe, aggregate_request_warns,
}

abbrev pub has_family : List Family → String → Bool
has_family [] k = false
has_family (f ∷ fs) k = f.key == k || has_family fs k

-- The warnings of a key.
abbrev pub of_key : String → List String → List String
of_key k ws = select (λ w. k == chat_warn_family_key w) ws

-- A family has exactly the warnings of its key, in order.
abbrev pub HasAll : List String → Family → Type 0
HasAll ws f = f.first ∷ f.rest ≡ of_key f.key ws

abbrev pub Distinct : List Family → Type 0
Distinct [] = Unit
Distinct (f ∷ fs) = (has_family fs f.key ≡ false) × Distinct fs

abbrev pub AreFamilies : List String → List Family → Type 0
AreFamilies ws fs =
    All (HasAll ws) fs × Distinct fs × All (λ w. has_family fs (chat_warn_family_key w) ≡ true) ws

of_key-same :
    (w : String) (ws : List String)
    → of_key (chat_warn_family_key w) (ws ++ w ∷ []) ≡ of_key (chat_warn_family_key w) ws ++ w ∷ []
of_key-same w ws =
    rw
      (
        select-append (λ v. chat_warn_family_key w == chat_warn_family_key v) ws (w ∷ []),
        eq_refl (chat_warn_family_key w),
      )
      refl

of_key-other :
    (k w : String) (ws : List String)
    → (k == chat_warn_family_key w) ≡ false
    → of_key k (ws ++ w ∷ []) ≡ of_key k ws
of_key-other k w ws h =
    rw (select-append (λ v. k == chat_warn_family_key v) ws (w ∷ []), h) (append-nil (of_key k ws))

or_left : (a b : Bool) → (a || b) ≡ false → a ≡ false
or_left a b h = ground arith

or_right : (a b : Bool) → (a || b) ≡ false → b ≡ false
or_right a b h = ground arith

or_false : (a b : Bool) → a ≡ false → b ≡ false → (a || b) ≡ false
or_false a b h k = ground arith

or_true_left : (a b : Bool) → a ≡ true → (a || b) ≡ true
or_true_left a b h = ground arith

or_true_right : (a b : Bool) → b ≡ true → (a || b) ≡ true
or_true_right a b h = ground arith

==-flip : (s t : String) → (s == t) ≡ false → (t == s) ≡ false
==-flip s t h = ≢→== t s (λ e. ==-ne s t h (sym e))

-- A key that no family has is the key of no warning so far.
of_key-none :
    (fs : List Family) (k : String) (ws : List String)
    → has_family fs k ≡ false
    → All (λ w. has_family fs (chat_warn_family_key w) ≡ true) ws
    → of_key k ws ≡ []
of_key-none fs k [] h a = refl
of_key-none fs k (w ∷ ws) h a = elim (Bool-cases (k == chat_warn_family_key w)) [
  | inl e ↦ absurd (
      true_not_false (sym (a.0) ∙ ap (has_family fs) (sym (==→≡ k (chat_warn_family_key w) e)) ∙ h))
  | inr e ↦ rw e (of_key-none fs k ws h a.1)
]
  where
    true_not_false : true ≡ false → ⊥
    true_not_false e = ground arith

module _ (w : String) where
  abbrev key : String
  key = chat_warn_family_key w

  others-HasAll :
      (ws : List String) (fs : List Family)
      → All (HasAll ws) fs
      → has_family fs key ≡ false
      → All (HasAll (ws ++ w ∷ [])) fs
  others-HasAll ws [] a h = tt
  others-HasAll ws (f ∷ fs) a h = (
    a.0 ∙ sym (of_key-other f.key w ws (or_left (f.key == key) (has_family fs key) h)),
    others-HasAll ws fs a.1 (or_right (f.key == key) (has_family fs key) h),
  )

  note-HasAll :
      (ws : List String) (fs : List Family)
      → All (HasAll ws) fs
      → Distinct fs
      → (has_family fs key ≡ false → of_key key ws ≡ [])
      → All (HasAll (ws ++ w ∷ [])) (note_family fs key w)
  unfolding note_family
  note-HasAll ws [] a d n = (sym (of_key-same w ws ∙ ap (λ z. z ++ w ∷ []) (n refl)), tt)
  note-HasAll ws (f ∷ fs) a d n = elim (Bool-cases (f.key == key)) [
    | inl e ↦ rw e (
      ap (λ z. z ++ w ∷ []) a.0
          ∙ subst (λ k. of_key k ws ++ w ∷ [] ≡ of_key k (ws ++ w ∷ [])) (sym (==→≡ f.key key e))
              (sym (of_key-same w ws)),
      others-HasAll ws fs a.1 (subst (λ k. has_family fs k ≡ false) (==→≡ f.key key e) d.0),
    )
    | inr e ↦ rw e (
      a.0 ∙ sym (of_key-other f.key w ws e),
      note-HasAll ws fs a.1 d.1 (λ h. n (or_false (f.key == key) (has_family fs key) e h)),
    )
  ]

  note-has_family :
      (fs : List Family) (j : String)
      → has_family (note_family fs key w) j ≡ (has_family fs j || key == j)
  unfolding note_family
  note-has_family [] j = ground arith
  note-has_family (f ∷ fs) j = elim (Bool-cases (f.key == key)) [
    | inl e ↦ rw e (
        subst (λ k. (f.key == j || has_family fs j) ≡ ((f.key == j || has_family fs j) || k == j))
          (==→≡ f.key key e) (ground arith))
    | inr e ↦ rw (e, note-has_family fs j) (ground arith)
  ]

  note-Distinct : (fs : List Family) → Distinct fs → Distinct (note_family fs key w)
  unfolding note_family
  note-Distinct [] d = (refl, tt)
  note-Distinct (f ∷ fs) d = elim (Bool-cases (f.key == key)) [
    | inl e ↦ rw e d
    | inr e ↦ rw e (
      note-has_family fs f.key
          ∙ or_false (has_family fs f.key) (key == f.key) d.0 (==-flip f.key key e),
      note-Distinct fs d.1,
    )
  ]

  kept-has_family :
      (fs : List Family) (ws : List String)
      → All (λ v. has_family fs (chat_warn_family_key v) ≡ true) ws
      → All (λ v. has_family (note_family fs key w) (chat_warn_family_key v) ≡ true) (ws ++ w ∷ [])
  kept-has_family fs [] a =
      (note-has_family fs key ∙ or_true_right (has_family fs key) (key == key) (eq_refl key), tt)
  kept-has_family fs (v ∷ ws) a = (
    note-has_family fs (chat_warn_family_key v)
        ∙ or_true_left (has_family fs (chat_warn_family_key v)) (key == chat_warn_family_key v) a.0,
    kept-has_family fs ws a.1,
  )

  add_warn-AreFamilies :
      (ws : List String) (fs : List Family)
      → AreFamilies ws fs
      → AreFamilies (ws ++ w ∷ []) (add_warn fs w)
  unfolding add_warn
  add_warn-AreFamilies ws fs (a, d, h) = (
    note-HasAll ws fs a d (λ n. of_key-none fs key ws n h),
    note-Distinct fs d,
    kept-has_family fs ws h,
  )

fold-AreFamilies :
    (before ws : List String) (fs : List Family)
    → AreFamilies before fs
    → AreFamilies (before ++ ws) (foldl add_warn fs ws)
fold-AreFamilies before [] fs h = subst (λ z. AreFamilies z fs) (sym (append-nil before)) h
fold-AreFamilies before (w ∷ ws) fs h =
    subst (λ z. AreFamilies z (foldl add_warn (add_warn fs w) ws)) (append_assoc before (w ∷ []) ws)
      (fold-AreFamilies (before ++ w ∷ []) ws (add_warn fs w) (add_warn-AreFamilies w before fs h))

ltb-two : (n : ℕ) → ltb (suc (suc n)) 2 ≡ false
ltb-two n = ground arith

short-describe :
    (itoa : ℕ → String) (ws : List String)
    → (if ltb (length ws) 2 then ws else map (λ f. describe itoa f.first f.rest) (families ws))
      ≡ map (λ f. describe itoa f.first f.rest) (families ws)
unfolding families add_warn note_family describe
short-describe itoa [] = refl
short-describe itoa (w ∷ []) = refl
short-describe itoa (v ∷ w ∷ ws) = rw (ltb-two (length ws)) refl

-- For every list of warnings: what is reported is one text for each family; the families have
-- distinct keys, each has exactly the warnings of its key, in order, and no warning is without a
-- family.
pub aggregate_request_warns-AreFamilies :
    (itoa : ℕ → String) (ws : List String)
    → (aggregate_request_warns itoa ws ≡ map (λ f. describe itoa f.first f.rest) (families ws))
      × AreFamilies ws (families ws)
unfolding aggregate_request_warns families
aggregate_request_warns-AreFamilies itoa ws =
    (short-describe itoa ws, fold-AreFamilies [] ws [] (tt, tt, tt))
