-- ===== src/Pairing/Results.antt =====
-- The result index of `pairToolCalls`: what stands in it answers the id it stands under.
use mathlib.Core.List.{foldl}
use cmdc2api.Base.{
  ap, String, ◌≡◌, refl, ◌∙◌, Bool, true, false, not, ◌&&◌, Option, none, some, inl, inr, List, [],
  ◌∷◌, map, ◌==◌, ==→≡, Bool-cases, All, select, get, Dict, is_some, arith,
}
use cmdc2api.Types.Inbound.{Block}
use cmdc2api.Pairing.{
  PairingMessage, is_use, is_result, Index, empty_index, note_duplicate, index_block, index_message,
  index_messages, answered, answer, or_zero,
}
use cmdc2api.Pairing.Spec.{result_ids}

abbrev pub Answers : String × Block → Type 0
Answers e = (e.1.type ≡ "tool_result") × (e.1.tool_use_id ≡ e.0)

-- Every entry is a tool_result of the id that it is stored under.
abbrev pub IsIndex : Dict Block → Type 0
IsIndex results = All Answers results

pub note_duplicate-results : (s : Index) (id : String) → (note_duplicate s id).results ≡ s.results
unfolding note_duplicate
note_duplicate-results s id = ground arith

&&-left : (a b : Bool) → (a && b) ≡ true → a ≡ true
&&-left true b h = refl
&&-left false b h = h

&&-right : (a b : Bool) → (a && b) ≡ true → b ≡ true
&&-right true b h = h
&&-right false b h = absurd (cc)

index_block-IsIndex :
    (role : String) (s : Index) (b : Block)
    → IsIndex s.results
    → IsIndex (index_block role s b).results
unfolding index_block
index_block-IsIndex role s b h =
    elim (Bool-cases (role == "user" && (is_result b && not (b.tool_use_id == "")))) [
      | inl e ↦ rw e (
        (==→≡ b.type "tool_result" (&&-left (is_result b) _ (&&-right (role == "user") _ e)), refl),
        rw (note_duplicate-results s b.tool_use_id) h,
      )
      | inr e ↦ elim (Bool-cases (role == "assistant" && (is_use b && not (b.id == "")))) [
        | inl d ↦ rw (e, d) h
        | inr d ↦ rw (e, d) h
      ]
    ]

index_blocks-IsIndex :
    (role : String) (s : Index) (bs : List Block)
    → IsIndex s.results
    → IsIndex (foldl (index_block role) s bs).results
index_blocks-IsIndex role s [] h = h
index_blocks-IsIndex role s (b ∷ bs) h =
    index_blocks-IsIndex role (index_block role s b) bs (index_block-IsIndex role s b h)

index_from-IsIndex :
    (s : Index) (ms : List PairingMessage)
    → IsIndex s.results
    → IsIndex (foldl index_message s ms).results
index_from-IsIndex s [] h = h
index_from-IsIndex s (m ∷ ms) h =
    index_from-IsIndex (index_message s m) ms
      (unfold index_message in index_blocks-IsIndex m.role s m.blocks h)

pub index_messages-IsIndex : (ms : List PairingMessage) → IsIndex (index_messages ms).results
unfolding index_messages
index_messages-IsIndex ms = index_from-IsIndex empty_index ms tt

pub get-Answers :
    (results : Dict Block) (k : String) (b : Block)
    → IsIndex results
    → get results k ≡ some b
    → Answers (k, b)
get-Answers [] k b h e = cc
get-Answers ((j, v) ∷ results) k b h e = elim (Bool-cases (j == k)) [
  | inl q ↦
      let found : some v ≡ some b = rw q at e in
      let same : v ≡ b = cc found in rw (← same) (h.0.0, h.0.1 ∙ ==→≡ j k q)
  | inr q ↦ get-Answers results k b h.1 (rw q at e)
]

-- The answer of an answered call is a tool_result of its id.
pub answer-Answers :
    (results : Dict Block) (b : Block)
    → IsIndex results
    → answered results b ≡ true
    → Answers (b.id, answer results b)
answer-Answers results b h e = go (get results b.id) refl e
  where
    go : (o : Option Block) → get results b.id ≡ o → is_some o ≡ true → Answers (b.id, or_zero o)
    go none p q = cc
    go (some r) p q = get-Answers results b.id r h p

-- The results that stand for a list of answered calls have the calls' ids, in the calls' order.
pub result_ids-answers :
    (results : Dict Block) (uses : List Block)
    → IsIndex results
    → result_ids (map (answer results) (select (answered results) uses))
      ≡ map (λ (b : Block). b.id) (select (answered results) uses)
result_ids-answers results [] h = refl
result_ids-answers results (b ∷ uses) h = elim (Bool-cases (answered results b)) [
  | inl e ↦
      let (type, id) = answer-Answers results b h e in
      rw (e, type) (rw id (ap (λ t. b.id ∷ t) (result_ids-answers results uses h)))
  | inr e ↦ rw e (result_ids-answers results uses h)
]
