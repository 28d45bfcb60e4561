-- ===== src/Pairing/Contents.antt =====
-- What the second loop of `pairToolCalls` keeps, drops and adds, message by message.
use mathlib.Core.List.{append-nil, append_assoc, map-append}
use cmdc2api.Base.{
  String, ◌≡◌, refl, sym, ap, ◌∙◌, false, not, inl, inr, List, [], ◌∷◌, ◌++◌, map, ◌==◌, ==→≡,
  Bool-cases, select, select-append, Dict,
}
use cmdc2api.Types.Inbound.{Block}
use cmdc2api.Pairing.{
  PairingMessage, is_use, is_result, answered, answer, pair_assistant, strip_tool_results,
  pair_message, pair_messages,
}
use cmdc2api.Pairing.Spec.{
  result_blocks, plain_blocks, plain, contents, plain_content, call_blocks, calls_of, calls,
}
use cmdc2api.Pairing.Results.{IsIndex, answer-Answers}
use cmdc2api.Pairing.Split.{
  select_none, select_all, reject_none, select_comm, no_calls, vanished, without_calls,
  with_answers, assistant_case, no_results, only_results, stripped, user_case, calls_in, others_in,
}

contents-append {ℓ} :
    {A : Type ℓ} (f : String → List Block → List A) (ms ns : List PairingMessage)
    → contents f (ms ++ ns) ≡ contents f ms ++ contents f ns
contents-append f [] ns = refl
contents-append f (m ∷ ms) ns =
    rw (contents-append f ms ns)
      (sym (append_assoc (f m.role m.blocks) (contents f ms) (contents f ns)))

-- The calls of a rebuilt assistant message are those that were kept.
pub kept_calls :
    (results : Dict Block) (m : PairingMessage)
    → select is_use (others_in m ++ select (answered results) (calls_in m))
      ≡ select (answered results) (calls_in m)
kept_calls results m =
    rw
      (
        select-append is_use (others_in m) (select (answered results) (calls_in m)),
        select_none is_use m.blocks,
      )
      (select_comm is_use (answered results) m.blocks)

-- A content is settled message by message, by the role.
module _ {ℓ} {A : Type ℓ} (f : String → List Block → List A) (spec : PairingMessage → List A)
    (results : Dict Block)
    (of_assistant : (m : PairingMessage)
      → m.role ≡ "assistant"
      → contents f (pair_assistant results m).0 ≡ spec m)
    (of_user : (m : PairingMessage) → m.role ≡ "user" → contents f (strip_tool_results m) ≡ spec m)
    (of_other : (m : PairingMessage)
      → (m.role == "assistant") ≡ false
      → (m.role == "user") ≡ false
      → contents f (m ∷ []) ≡ spec m) where
  pair_message-contents : (m : PairingMessage) → contents f (pair_message results m).0 ≡ spec m
  unfolding pair_message
  pair_message-contents m = elim (Bool-cases (m.role == "assistant")) [
    | inl a ↦ rw a (of_assistant m (==→≡ m.role "assistant" a))
    | inr a ↦ elim (Bool-cases (m.role == "user")) [
      | inl u ↦ rw (a, u) (of_user m (==→≡ m.role "user" u))
      | inr u ↦ rw (a, u) (of_other m a u)
    ]
  ]

  pub pair_messages-contents :
      (all : List PairingMessage → List A)
      → all [] ≡ []
      → ((m : PairingMessage) (ms : List PairingMessage) → all (m ∷ ms) ≡ spec m ++ all ms)
      → (ms : List PairingMessage) → contents f (pair_messages results ms).0 ≡ all ms
  unfolding pair_messages
  pair_messages-contents all base step [] = sym base
  pair_messages-contents all base step (m ∷ ms) =
      contents-append f (pair_message results m).0 (pair_messages results ms).0
      ∙ rw (pair_message-contents m, pair_messages-contents all base step ms) (sym (step m ms))

module _ (results : Dict Block) (indexed : IsIndex results) where
  -- The answers are the only blocks that the pairing adds, and they are results of a user.
  answers_are_results :
      (uses : List Block)
      → select (λ b. not (is_result b)) (map (answer results) (select (answered results) uses)) ≡ []
  answers_are_results [] = refl
  answers_are_results (b ∷ uses) = elim (Bool-cases (answered results b)) [
    | inl e ↦ rw e (rw ((answer-Answers results b indexed e).0) (answers_are_results uses))
    | inr e ↦ rw e (answers_are_results uses)
  ]

  other_blocks :
      (m : PairingMessage)
      → select (λ b. not (is_use b)) (others_in m ++ select (answered results) (calls_in m))
        ≡ others_in m
  other_blocks m =
      select-append (λ b. not (is_use b)) (others_in m) (select (answered results) (calls_in m))
      ∙ rw
          (
            select_all (λ (b : Block). not (is_use b)) m.blocks,
            reject_none is_use (answered results) m.blocks,
          )
          (append-nil (others_in m))

  pair_assistant-plain :
      (m : PairingMessage)
      → m.role ≡ "assistant"
      → plain_content (pair_assistant results m).0 ≡ plain m
  pair_assistant-plain m r = elim (assistant_case results m) [
    | no_calls q e ↦ rw e (append-nil (plain m))
    | vanished q others e ↦ rw e (rw r (sym others))
    | without_calls q others e ↦
        rw e (rw r (append-nil _ ∙ select_all (λ b. not (is_use b)) m.blocks))
    | with_answers k e ↦
        rw e
          (rw (other_blocks m, answers_are_results (calls_in m)) (rw r (append-nil (others_in m))))
  ]

  strip_tool_results-plain :
      (m : PairingMessage) → m.role ≡ "user" → plain_content (strip_tool_results m) ≡ plain m
  strip_tool_results-plain m r = elim (user_case m) [
    | no_results q e ↦ rw e (append-nil (plain m))
    | only_results q e ↦ rw e (rw r (sym q))
    | stripped k e ↦ rw e (rw r (append-nil _ ∙ select_all (λ b. not (is_result b)) m.blocks))
  ]

  -- No other block is lost or moved.
  pub pair_messages-plain :
      (ms : List PairingMessage) → plain_content (pair_messages results ms).0 ≡ plain_content ms
  pair_messages-plain =
      pair_messages-contents plain_blocks plain results pair_assistant-plain
        strip_tool_results-plain (λ m a u. append-nil (plain m)) plain_content refl (λ m ms. refl)

  kept_of : PairingMessage → List Block
  kept_of m = select (answered results) (calls_of m)

  pair_assistant-calls :
      (m : PairingMessage)
      → m.role ≡ "assistant"
      → contents call_blocks (pair_assistant results m).0 ≡ kept_of m
  unfolding kept_of
  pair_assistant-calls m r = elim (assistant_case results m) [
    | no_calls q e ↦ rw e (rw r (rw q refl))
    | vanished q others e ↦ rw e (rw r (sym q))
    | without_calls q others e ↦ rw e (rw (select_none is_use m.blocks) (rw r (sym q)))
    | with_answers k e ↦ rw e (rw (kept_calls results m) (rw r (append-nil _)))
  ]

  strip_tool_results-calls :
      (m : PairingMessage)
      → m.role ≡ "user"
      → contents call_blocks (strip_tool_results m) ≡ kept_of m
  unfolding kept_of
  strip_tool_results-calls m r = elim (user_case m) [
    | no_results q e ↦ rw e (rw r refl)
    | only_results q e ↦ rw e (rw r refl)
    | stripped k e ↦ rw e (rw r refl)
  ]

  -- Of the calls exactly the answered ones stay, in their order.
  pub pair_messages-calls :
      (ms : List PairingMessage)
      → calls (pair_messages results ms).0 ≡ select (answered results) (calls ms)
  unfolding kept_of
  pair_messages-calls =
      pair_messages-contents call_blocks kept_of results pair_assistant-calls
        strip_tool_results-calls (λ m a u. rw a refl) (λ ms. select (answered results) (calls ms))
        refl (λ m ms. select-append (answered results) (calls_of m) (calls ms))

  answers_all_results :
      (uses : List Block)
      → select is_result (map (answer results) (select (answered results) uses))
        ≡ map (answer results) (select (answered results) uses)
  answers_all_results [] = refl
  answers_all_results (b ∷ uses) = elim (Bool-cases (answered results b)) [
    | inl e ↦ rw e (
        rw ((answer-Answers results b indexed e).0)
          (ap (λ t. answer results b ∷ t) (answers_all_results uses)))
    | inr e ↦ rw e (answers_all_results uses)
  ]

  answers_of : PairingMessage → List Block
  answers_of m = map (answer results) (select (answered results) (calls_of m))

  pair_assistant-results :
      (m : PairingMessage)
      → m.role ≡ "assistant"
      → contents result_blocks (pair_assistant results m).0 ≡ answers_of m
  unfolding answers_of
  pair_assistant-results m r = elim (assistant_case results m) [
    | no_calls q e ↦ rw e (rw r (rw q refl))
    | vanished q others e ↦ rw e (rw r (rw q refl))
    | without_calls q others e ↦ rw e (rw r (rw q refl))
    | with_answers k e ↦ rw e (rw (answers_all_results (calls_in m)) (rw r (append-nil _)))
  ]

  strip_tool_results-results :
      (m : PairingMessage)
      → m.role ≡ "user"
      → contents result_blocks (strip_tool_results m) ≡ answers_of m
  unfolding answers_of
  strip_tool_results-results m r = elim (user_case m) [
    | no_results q e ↦ rw e (rw r (rw q refl))
    | only_results q e ↦ rw e (rw r refl)
    | stripped k e ↦ rw e (rw r (rw (select_none is_result m.blocks) refl))
  ]

  answers_of-append :
      (xs ys : List Block)
      → map (answer results) (select (answered results) (xs ++ ys))
        ≡ map (answer results) (select (answered results) xs)
          ++ map (answer results) (select (answered results) ys)
  answers_of-append xs ys =
      ap (map (answer results)) (select-append (answered results) xs ys)
      ∙ map-append (answer results) (select (answered results) xs) (select (answered results) ys)

  -- The results that remain are the answers of those calls, in the order of the calls.
  pub pair_messages-results :
      (ms : List PairingMessage)
      → contents result_blocks (pair_messages results ms).0
        ≡ map (answer results) (select (answered results) (calls ms))
  unfolding answers_of
  pair_messages-results =
      pair_messages-contents result_blocks answers_of results pair_assistant-results
        strip_tool_results-results (λ m a u. rw (a, u) refl)
        (λ ms. map (answer results) (select (answered results) (calls ms))) refl
        (λ m ms. answers_of-append (calls_of m) (calls ms))
