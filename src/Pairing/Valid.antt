-- ===== src/Pairing/Valid.antt =====
-- The messages that the second loop of `pairToolCalls` leaves are paired, and none is empty.
use cmdc2api.Base.{
  ℕ, suc, Option, none, some, String, ◌≡◌, ◌≢◌, refl, sym, ap, ◌∙◌, inl, inr, List, [], ◌∷◌, ◌++◌,
  map, ◌==◌, ==→≡, Bool-cases, All, All-append, Dict,
}
use cmdc2api.Types.Inbound.{Block, InboundMessage, Json}
use cmdc2api.Pairing.{
  PairingMessage, Warning, is_use, is_result, answer, pair_assistant, strip_tool_results,
  pair_message, pair_messages, keep_parsed, parse_from,
}
use cmdc2api.Content.{parse_blocks}
use cmdc2api.Pairing.Spec.{IsPaired, HasBlocks}
use cmdc2api.Pairing.Merge.{assistant_expects_nothing}
use cmdc2api.Pairing.Contents.{kept_calls}
use cmdc2api.Pairing.Results.{IsIndex, result_ids-answers}
use cmdc2api.Pairing.Split.{
  select_none, no_calls, vanished, without_calls, with_answers, assistant_case, no_results,
  only_results, stripped, user_case, calls_in, others_in,
}

abbrev ids : List Block → List String
ids bs = map (λ (b : Block). b.id) bs

module _ (results : Dict Block) (indexed : IsIndex results) where
  pair_assistant-IsPaired :
      (m : PairingMessage) (rest : List PairingMessage)
      → m.role ≡ "assistant"
      → IsPaired [] rest
      → IsPaired [] ((pair_assistant results m).0 ++ rest)
  pair_assistant-IsPaired m rest r h = elim (assistant_case results m) [
    | no_calls q e ↦ rw e (assistant_expects_nothing m.role m.blocks r, rw r (rw q h))
    | vanished q others e ↦ rw e h
    | without_calls q others e ↦ rw e (refl, rw (select_none is_use m.blocks) h)
    | with_answers k e ↦ rw e (
      refl,
      (result_ids-answers results (calls_in m) indexed ∙ sym (ap ids (kept_calls results m)), h),
    )
  ]

  strip_tool_results-IsPaired :
      (m : PairingMessage) (rest : List PairingMessage)
      → m.role ≡ "user"
      → IsPaired [] rest
      → IsPaired [] (strip_tool_results m ++ rest)
  strip_tool_results-IsPaired m rest r h = elim (user_case m) [
    | no_results q e ↦ rw e (rw r (rw q refl), rw r h)
    | only_results q e ↦ rw e h
    | stripped k e ↦ rw e (rw r (rw (select_none is_result m.blocks) refl), rw r h)
  ]

  pair_message-IsPaired :
      (m : PairingMessage) (rest : List PairingMessage)
      → IsPaired [] rest
      → IsPaired [] ((pair_message results m).0 ++ rest)
  unfolding pair_message
  pair_message-IsPaired m rest h = elim (Bool-cases (m.role == "assistant")) [
    | inl a ↦ rw a (pair_assistant-IsPaired m rest (==→≡ m.role "assistant" a) h)
    | inr a ↦ elim (Bool-cases (m.role == "user")) [
      | inl u ↦ rw (a, u) (strip_tool_results-IsPaired m rest (==→≡ m.role "user" u) h)
      | inr u ↦ rw (a, u) (rw u refl, rw a h)
    ]
  ]

  pub pair_messages-IsPaired : (ms : List PairingMessage) → IsPaired [] (pair_messages results ms).0
  unfolding pair_messages
  pair_messages-IsPaired [] = refl
  pair_messages-IsPaired (m ∷ ms) =
      pair_message-IsPaired m (pair_messages results ms).0 (pair_messages-IsPaired ms)

module _ (results : Dict Block) where
  map-ne-nil : (xs : List Block) → xs ≢ [] → map (answer results) xs ≢ []
  map-ne-nil [] h = absurd (h refl)
  map-ne-nil (x ∷ xs) h = λ e. cc

  append-ne-nil_right : (xs ys : List Block) → ys ≢ [] → xs ++ ys ≢ []
  append-ne-nil_right [] ys h = h
  append-ne-nil_right (x ∷ xs) ys h = λ e. cc

  pair_assistant-HasBlocks :
      (m : PairingMessage) → HasBlocks m → All HasBlocks (pair_assistant results m).0
  pair_assistant-HasBlocks m h = elim (assistant_case results m) [
    | no_calls q e ↦ rw e (h, tt)
    | vanished q others e ↦ rw e tt
    | without_calls q others e ↦ rw e (others, tt)
    | with_answers k e ↦ rw e (append-ne-nil_right (others_in m) _ k, (map-ne-nil _ k, tt))
  ]

  strip_tool_results-HasBlocks :
      (m : PairingMessage) → HasBlocks m → All HasBlocks (strip_tool_results m)
  strip_tool_results-HasBlocks m h = elim (user_case m) [
    | no_results q e ↦ rw e (h, tt)
    | only_results q e ↦ rw e tt
    | stripped k e ↦ rw e (k, tt)
  ]

  pair_message-HasBlocks :
      (m : PairingMessage) → HasBlocks m → All HasBlocks (pair_message results m).0
  unfolding pair_message
  pair_message-HasBlocks m h = elim (Bool-cases (m.role == "assistant")) [
    | inl a ↦ rw a (pair_assistant-HasBlocks m h)
    | inr a ↦ elim (Bool-cases (m.role == "user")) [
      | inl u ↦ rw (a, u) (strip_tool_results-HasBlocks m h)
      | inr u ↦ rw (a, u) (h, tt)
    ]
  ]

  pub pair_messages-HasBlocks :
      (ms : List PairingMessage) → All HasBlocks ms → All HasBlocks (pair_messages results ms).0
  unfolding pair_messages
  pair_messages-HasBlocks [] h = tt
  pair_messages-HasBlocks (m ∷ ms) h =
      All-append HasBlocks (pair_message results m).0 (pair_messages results ms).0
        (pair_message-HasBlocks m h.0) (pair_messages-HasBlocks ms h.1)

keep_parsed-HasBlocks :
    (i : ℕ) (m : InboundMessage) (o : Option (List Block))
    (rest : List PairingMessage × List Warning)
    → All HasBlocks rest.0
    → All HasBlocks (keep_parsed i m o rest).0
unfolding keep_parsed
keep_parsed-HasBlocks i m none rest h = h
keep_parsed-HasBlocks i m (some []) rest h = h
keep_parsed-HasBlocks i m (some (b ∷ bs)) rest h = ((λ q. cc), h)

pub parse_from-HasBlocks :
    (json : Json) (i : ℕ) (msgs : List InboundMessage) → All HasBlocks (parse_from json i msgs).0
unfolding parse_from
parse_from-HasBlocks json i [] = tt
parse_from-HasBlocks json i (m ∷ ms) =
    keep_parsed-HasBlocks i m (parse_blocks json m.content) (parse_from json (suc i) ms)
      (parse_from-HasBlocks json (suc i) ms)
