-- ===== src/Pairing/Repair.antt =====
-- The theorems about `RepairToolPairing`.
use mathlib.Core.Path.{ap₂, fun_ext}
use cmdc2api.Base.{
  get, is_some, String, ◌≡◌, refl, sym, ap, ◌∙◌, inl, inr, List, [], ◌∷◌, map, Bool-cases, All,
  select, is_nil, Dict,
}
use cmdc2api.Types.Inbound.{Block, InboundMessage, Json}
use cmdc2api.Pairing.{
  PairingMessage, answered, answer, or_zero, pair_messages, pair_tool_calls, index_messages,
  parse_from, merge_same_role, build_message, build_inbound_messages, repair_tool_pairing,
}
use cmdc2api.Pairing.Spec.{
  IsPaired, Alternates, HasBlocks, is_answered, latest, latest_answer, results, plain_content,
  calls,
}
use cmdc2api.Pairing.Merge.{
  merge_same_role-HasBlocks, merge_same_role-Alternates, merge_same_role-IsPaired,
  merge_same_role-plain_content, merge_same_role-calls, merge_same_role-results,
}
use cmdc2api.Pairing.Contents.{pair_messages-plain, pair_messages-calls, pair_messages-results}
use cmdc2api.Pairing.Latest.{or_else-none, get-index_messages}
use cmdc2api.Pairing.Valid.{pair_messages-IsPaired, pair_messages-HasBlocks, parse_from-HasBlocks}
use cmdc2api.Pairing.Results.{index_messages-IsIndex}
use cmdc2api.Pairing.Split.{is_nil→≡}

-- The working form of the history, as it is read and as it is written.
abbrev pub parsed : Json → List InboundMessage → List PairingMessage
parsed json msgs = (parse_from json 0 msgs).0

abbrev pub repaired : Json → List InboundMessage → List PairingMessage
repaired json msgs = merge_same_role (pair_tool_calls (merge_same_role (parsed json msgs))).0

build-All :
    (json : Json) (ms : List PairingMessage)
    → All HasBlocks ms
    → build_inbound_messages json ms ≡ map (build_message json) ms
unfolding build_inbound_messages
build-All json [] h = refl
build-All json (m ∷ ms) h = elim (Bool-cases (is_nil m.blocks)) [
  | inl e ↦ absurd (h.0 (is_nil→≡ m.blocks e))
  | inr e ↦ rw e (ap (λ t. build_message json m ∷ t) (build-All json ms h.1))
]

module _ (json : Json) (msgs : List InboundMessage) where
  abbrev merged : List PairingMessage
  merged = merge_same_role (parsed json msgs)

  abbrev found : Dict Block
  found = (index_messages merged).results

  found-latest : (k : String) → get found k ≡ latest (results (parsed json msgs)) k
  found-latest k =
      get-index_messages merged k
      ∙ or_else-none (latest (results merged) k)
      ∙ ap (λ rs. latest rs k) (merge_same_role-results (parsed json msgs))

  found-answered : answered found ≡ is_answered (results (parsed json msgs))
  found-answered = fun_ext (λ b. ap is_some (found-latest b.id))

  found-answer : answer found ≡ latest_answer (results (parsed json msgs))
  found-answer = fun_ext (λ b. ap or_zero (found-latest b.id))

  repaired-HasBlocks : All HasBlocks (repaired json msgs)
  unfolding pair_tool_calls
  repaired-HasBlocks = merge_same_role-HasBlocks (pair_messages found merged).0 (
      pair_messages-HasBlocks found merged
        (merge_same_role-HasBlocks (parsed json msgs) (parse_from-HasBlocks json 0 msgs)))

  -- For every history, whatever it holds, the messages that `RepairToolPairing` returns are the
  -- encodings of a sequence in which each message answers exactly the calls of the message before
  -- it, in the order of the calls, no call is left unanswered, neighbours have different roles and
  -- no message is empty.
  pub repair_valid :
      ((repair_tool_pairing json msgs).0 ≡ map (build_message json) (repaired json msgs))
      × IsPaired [] (repaired json msgs)
      × Alternates (repaired json msgs)
      × All HasBlocks (repaired json msgs)
  unfolding repair_tool_pairing pair_tool_calls
  repair_valid = (
    build-All json (repaired json msgs) repaired-HasBlocks,
    merge_same_role-IsPaired [] (pair_messages found merged).0
        (pair_messages-IsPaired found (index_messages-IsIndex merged) merged),
    merge_same_role-Alternates (pair_messages found merged).0,
    repaired-HasBlocks,
  )

  -- The repair keeps every block that is neither a call of an assistant nor a result of a user,
  -- and keeps them in their order.
  pub repair-plain_content : plain_content (repaired json msgs) ≡ plain_content (parsed json msgs)
  unfolding pair_tool_calls
  repair-plain_content =
      merge_same_role-plain_content (pair_messages found merged).0
      ∙ pair_messages-plain found (index_messages-IsIndex merged) merged
      ∙ merge_same_role-plain_content (parsed json msgs)

  -- Of the calls of the history exactly those with a result of their id somewhere in a user
  -- message are kept, in their order.
  pub repair-calls :
      calls (repaired json msgs)
      ≡ select (is_answered (results (parsed json msgs))) (calls (parsed json msgs))
  unfolding pair_tool_calls
  repair-calls =
      merge_same_role-calls (pair_messages found merged).0
      ∙ pair_messages-calls found (index_messages-IsIndex merged) merged
      ∙ ap₂ select found-answered (merge_same_role-calls (parsed json msgs))

  -- Each call that is kept is followed by the last result that the history has for its id: the
  -- results of the repaired history are those of its calls, one for each, in order.
  pub repair-results :
      results (repaired json msgs)
      ≡ map (latest_answer (results (parsed json msgs))) (calls (repaired json msgs))
  unfolding pair_tool_calls
  repair-results =
      merge_same_role-results (pair_messages found merged).0
      ∙ pair_messages-results found (index_messages-IsIndex merged) merged
      ∙ ap₂ map found-answer (
          sym (
            merge_same_role-calls (pair_messages found merged).0
            ∙ pair_messages-calls found (index_messages-IsIndex merged) merged))
