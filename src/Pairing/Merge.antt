-- ===== src/Pairing/Merge.antt =====
-- `mergeSameRole` against a recursion that looks ahead, and what merging keeps.
use mathlib.Core.List.{foldl, append_assoc, append-nil, map-append}
use cmdc2api.Base.{
  String, ◌≡◌, ◌≢◌, refl, sym, ◌∙◌, ap, Bool, true, false, not, inl, inr, List, [], ◌∷◌, ◌++◌, map,
  ◌==◌, ==→≡, ==-ne, Bool-cases, All, select, select-append, arith, if◌then◌else◌,
}
use cmdc2api.Types.Inbound.{Block}
use cmdc2api.Pairing.{PairingMessage, is_use, is_result, join, merge_step, merge_same_role}
use cmdc2api.Pairing.Spec.{
  contents, offered, expected, offers, expects, IsPaired, Alternates, HasBlocks, plain_blocks,
  plain_content, call_blocks, calls, result_blocks, results,
}

-- The reference: `p` is the message that is being collected.
unfoldable pub merge_from : PairingMessage → List PairingMessage → List PairingMessage
merge_from p [] = p ∷ []
merge_from p (m ∷ ms) =
    let joined = merge_from (join p m) ms in
    let apart = p ∷ merge_from m ms in if p.role == m.role then joined else apart

merge_step-snoc :
    (out : List PairingMessage) (p m : PairingMessage)
    → merge_step (out ++ p ∷ []) m ≡ out ++ merge_step (p ∷ []) m
unfolding merge_step
merge_step-snoc [] p m = refl
merge_step-snoc (q ∷ []) p m = refl
merge_step-snoc (q ∷ r ∷ out) p m = ap (λ t. q ∷ t) (merge_step-snoc (r ∷ out) p m)

merge_step-same :
    (out : List PairingMessage) (p m : PairingMessage)
    → (p.role == m.role) ≡ true
    → merge_step (out ++ p ∷ []) m ≡ out ++ join p m ∷ []
unfolding merge_step
merge_step-same out p m e = merge_step-snoc out p m ∙ rw e

merge_step-other :
    (out : List PairingMessage) (p m : PairingMessage)
    → (p.role == m.role) ≡ false
    → merge_step (out ++ p ∷ []) m ≡ (out ++ p ∷ []) ++ m ∷ []
unfolding merge_step
merge_step-other out p m e =
    merge_step-snoc out p m ∙ rw e (sym (append_assoc out (p ∷ []) (m ∷ [])))

foldl-merge_step :
    (out : List PairingMessage) (p : PairingMessage) (ms : List PairingMessage)
    → foldl merge_step (out ++ p ∷ []) ms ≡ out ++ merge_from p ms
unfolding merge_from
foldl-merge_step out p [] = refl
foldl-merge_step out p (m ∷ ms) = elim (Bool-cases (p.role == m.role)) [
  | inl e ↦ rw (merge_step-same out p m e, e) (foldl-merge_step out (join p m) ms)
  | inr e ↦
      rw (merge_step-other out p m e, e)
        (foldl-merge_step (out ++ p ∷ []) m ms ∙ append_assoc out (p ∷ []) (merge_from m ms))
]

pub merge_same_role-cons :
    (p : PairingMessage) (ms : List PairingMessage) → merge_same_role (p ∷ ms) ≡ merge_from p ms
unfolding merge_same_role merge_step
merge_same_role-cons p ms = foldl-merge_step [] p ms

ids-append :
    (f : Block → String) (q : Block → Bool) (xs ys : List Block)
    → map f (select q (xs ++ ys)) ≡ map f (select q xs) ++ map f (select q ys)
ids-append f q xs ys = rw (select-append q xs ys) (map-append f (select q xs) (select q ys))

offered-append :
    (r : String) (xs ys : List Block) → offered r (xs ++ ys) ≡ offered r xs ++ offered r ys
offered-append r xs ys = ground (arith, ids-append (λ b. b.id) is_use xs ys)

expected-append :
    (r : String) (xs ys : List Block) → expected r (xs ++ ys) ≡ expected r xs ++ expected r ys
expected-append r xs ys = ground (arith, ids-append (λ b. b.tool_use_id) is_result xs ys)

result_blocks-append :
    (r : String) (xs ys : List Block)
    → result_blocks r (xs ++ ys) ≡ result_blocks r xs ++ result_blocks r ys
result_blocks-append r xs ys = ground (arith, select-append is_result xs ys)

plain_blocks-append :
    (r : String) (xs ys : List Block)
    → plain_blocks r (xs ++ ys) ≡ plain_blocks r xs ++ plain_blocks r ys
plain_blocks-append r xs ys = ground (
  arith,
  select-append (λ (b : Block). not (is_use b)) xs ys,
  select-append (λ (b : Block). not (is_result b)) xs ys,
)

call_blocks-append :
    (r : String) (xs ys : List Block)
    → call_blocks r (xs ++ ys) ≡ call_blocks r xs ++ call_blocks r ys
call_blocks-append r xs ys = ground (arith, select-append is_use xs ys)

-- A family of lists that follows the blocks of a role is appended by `join`.
join-append {ℓ} :
    {A : Type ℓ} (f : String → List Block → List A)
    → ((r : String) (xs ys : List Block) → f r (xs ++ ys) ≡ f r xs ++ f r ys)
    → (p m : PairingMessage) → p.role ≡ m.role
    → f (join p m).role (join p m).blocks ≡ f p.role p.blocks ++ f m.role m.blocks
unfolding join
join-append f append p m e =
    append p.role p.blocks m.blocks ∙ ap (λ r. f p.role p.blocks ++ f r m.blocks) e

pub assistant_expects_nothing :
    (r : String) (bs : List Block) → r ≡ "assistant" → expected r bs ≡ []
assistant_expects_nothing r bs e = rw e

-- A message whose role is that of the message before it cannot answer that one's calls.
same_role_offers_nothing :
    (p m : PairingMessage) → p.role ≡ m.role → expects m ≡ offers p → offers p ≡ []
same_role_offers_nothing p m e h = elim (Bool-cases (p.role == "assistant")) [
  | inl a ↦ sym h ∙ assistant_expects_nothing m.role m.blocks (sym e ∙ ==→≡ p.role "assistant" a)
  | inr n ↦ rw n
]

pub merge_from-IsPaired :
    (pending : List String) (p : PairingMessage) (ms : List PairingMessage)
    → IsPaired pending (p ∷ ms)
    → IsPaired pending (merge_from p ms)
unfolding merge_from
merge_from-IsPaired pending p [] h = h
merge_from-IsPaired pending p (m ∷ ms) h = elim (Bool-cases (p.role == m.role)) [
  | inl e ↦
      let roles = ==→≡ p.role m.role e in
      let none_offered = same_role_offers_nothing p m roles h.1.0 in
      rw e (
        merge_from-IsPaired pending (join p m) ms (
          join-append expected expected-append p m roles
              ∙ rw (h.1.0, none_offered) (append-nil _ ∙ h.0),
          rw (join-append offered offered-append p m roles, none_offered) h.1.1,
        ))
  | inr e ↦ rw e (h.0, merge_from-IsPaired (offers p) m ms h.1)
]

-- The collected message keeps the role of its first part.
abbrev StartsWithRole : String → List PairingMessage → Type 0
StartsWithRole r [] = ⊥
StartsWithRole r (m ∷ ms) = m.role ≡ r

merge_from-role :
    (p : PairingMessage) (ms : List PairingMessage) → StartsWithRole p.role (merge_from p ms)
unfolding merge_from join
merge_from-role p [] = refl
merge_from-role p (m ∷ ms) = elim (Bool-cases (p.role == m.role)) [
  | inl e ↦ rw e (merge_from-role (join p m) ms)
  | inr e ↦ rw e refl
]

Alternates-cons :
    (p : PairingMessage) (r : String) (ms : List PairingMessage)
    → p.role ≢ r
    → StartsWithRole r ms
    → Alternates ms
    → Alternates (p ∷ ms)
Alternates-cons p r [] h s a = absurd s
Alternates-cons p r (m ∷ ms) h s a = (λ e. h (e ∙ s), a)

pub merge_from-Alternates :
    (p : PairingMessage) (ms : List PairingMessage) → Alternates (merge_from p ms)
unfolding merge_from
merge_from-Alternates p [] = tt
merge_from-Alternates p (m ∷ ms) = elim (Bool-cases (p.role == m.role)) [
  | inl e ↦ rw e (merge_from-Alternates (join p m) ms)
  | inr e ↦ rw e (
      Alternates-cons p m.role (merge_from m ms) (==-ne p.role m.role e) (merge_from-role m ms)
        (merge_from-Alternates m ms))
]

-- Any sequence of contents that follows the blocks of a role is kept by merging.
module _ {ℓ} {A : Type ℓ} (f : String → List Block → List A)
    (append : (r : String) (xs ys : List Block) → f r (xs ++ ys) ≡ f r xs ++ f r ys) where
  pub merge_from-contents :
      (p : PairingMessage) (ms : List PairingMessage)
      → contents f (merge_from p ms) ≡ f p.role p.blocks ++ contents f ms
  unfolding merge_from
  merge_from-contents p [] = refl
  merge_from-contents p (m ∷ ms) = elim (Bool-cases (p.role == m.role)) [
    | inl e ↦ rw e (
        merge_from-contents (join p m) ms
        ∙ rw (join-append f append p m (==→≡ p.role m.role e))
            (append_assoc (f p.role p.blocks) (f m.role m.blocks) (contents f ms)))
    | inr e ↦ rw (e, merge_from-contents m ms)
  ]

module _ (P : PairingMessage → Type 0) (keeps : (p m : PairingMessage) → P p → P (join p m)) where
  pub merge_from-All :
      (p : PairingMessage) (ms : List PairingMessage) → P p → All P ms → All P (merge_from p ms)
  unfolding merge_from
  merge_from-All p [] h hs = (h, tt)
  merge_from-All p (m ∷ ms) h hs = elim (Bool-cases (p.role == m.role)) [
    | inl e ↦ rw e (merge_from-All (join p m) ms (keeps p m h) hs.1)
    | inr e ↦ rw e (h, merge_from-All m ms hs.0 hs.1)
  ]

append-ne-nil : (xs ys : List Block) → xs ≢ [] → xs ++ ys ≢ []
append-ne-nil [] ys h e = h refl
append-ne-nil (x ∷ xs) ys h e = cc

join-HasBlocks : (p m : PairingMessage) → HasBlocks p → HasBlocks (join p m)
unfolding join
join-HasBlocks p m h = append-ne-nil p.blocks m.blocks h

pub merge_same_role-HasBlocks :
    (ms : List PairingMessage) → All HasBlocks ms → All HasBlocks (merge_same_role ms)
unfolding merge_same_role
merge_same_role-HasBlocks [] h = tt
merge_same_role-HasBlocks (p ∷ ms) h =
    rw (merge_same_role-cons p ms) (merge_from-All HasBlocks join-HasBlocks p ms h.0 h.1)

pub merge_same_role-Alternates : (ms : List PairingMessage) → Alternates (merge_same_role ms)
merge_same_role-Alternates [] = unfold merge_same_role in tt
merge_same_role-Alternates (p ∷ ms) = rw (merge_same_role-cons p ms) (merge_from-Alternates p ms)

pub merge_same_role-IsPaired :
    (pending : List String) (ms : List PairingMessage)
    → IsPaired pending ms
    → IsPaired pending (merge_same_role ms)
merge_same_role-IsPaired pending [] h = unfold merge_same_role in h
merge_same_role-IsPaired pending (p ∷ ms) h =
    rw (merge_same_role-cons p ms) (merge_from-IsPaired pending p ms h)

pub merge_same_role-plain_content :
    (ms : List PairingMessage) → plain_content (merge_same_role ms) ≡ plain_content ms
merge_same_role-plain_content [] = unfold merge_same_role in refl
merge_same_role-plain_content (p ∷ ms) =
    rw (merge_same_role-cons p ms) (merge_from-contents plain_blocks plain_blocks-append p ms)

pub merge_same_role-calls : (ms : List PairingMessage) → calls (merge_same_role ms) ≡ calls ms
merge_same_role-calls [] = unfold merge_same_role in refl
merge_same_role-calls (p ∷ ms) =
    rw (merge_same_role-cons p ms) (merge_from-contents call_blocks call_blocks-append p ms)

pub merge_same_role-results : (ms : List PairingMessage) → results (merge_same_role ms) ≡ results ms
merge_same_role-results [] = unfold merge_same_role in refl
merge_same_role-results (p ∷ ms) =
    rw (merge_same_role-cons p ms) (merge_from-contents result_blocks result_blocks-append p ms)
