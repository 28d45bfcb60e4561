-- ===== src/Pairing.antt =====
-- internal/translate/pairing.go: the repair of tool_use and tool_result pairs that the Chat and the
-- Responses inbound paths share. Each function of the file is one definition; a `warns` pointer is
-- a second result, and each format string of a warning is a constructor of `Warning`.
pub mod Merge
pub mod Spec
pub mod Split
pub mod Results
pub mod Latest
pub mod Contents
pub mod Valid
pub mod Repair
use cmdc2api.Base.{
  ℕ, suc, String, ◌<>◌, Bool, true, false, not, ◌&&◌, Option, none, some, List, [], ◌∷◌, ◌++◌, map,
  foldl, ◌==◌, is_some, is_nil, select, Dict, get, put, member, if◌then◌else◌,
}
use cmdc2api.Types.Inbound.{Block, zero_block, InboundMessage, Json}
use cmdc2api.Content.{parse_blocks}

pub record PairingMessage : Type 0 where
  pub role : String
  pub blocks : List Block
  pub reasoning : String

pub data Warning : Type 0 where
  message_dropped : ℕ → String → Warning
  duplicate_result : String → Warning
  result_without_id : Warning
  orphan_result : String → Warning
  unanswered_call : String → Warning

-- One round of the loop of `parseInboundMessages`: message `i`, with what its content parses to.
unfoldable pub keep_parsed :
    ℕ
    → InboundMessage
    → Option (List Block)
    → List PairingMessage × List Warning
    → List PairingMessage × List Warning
keep_parsed i m none (out, warns) = (out, message_dropped i m.role ∷ warns)
keep_parsed i m (some []) rest = rest
keep_parsed i m (some (b ∷ bs)) (out, warns) =
    (record { role = m.role; blocks = b ∷ bs; reasoning = m.reasoning_content } ∷ out, warns)

-- `parseInboundMessages`, from message `i` on.
unfoldable pub parse_from : Json → ℕ → List InboundMessage → List PairingMessage × List Warning
parse_from json i [] = ([], [])
parse_from json i (m ∷ ms) =
    keep_parsed i m (parse_blocks json m.content) (parse_from json (suc i) ms)

-- The body of the loop of `mergeSameRole` where the roles agree: `m` is joined to `prev`.
unfoldable pub join : PairingMessage → PairingMessage → PairingMessage
join prev m = record {
  role = prev.role;
  blocks = prev.blocks ++ m.blocks;
  reasoning =
      if m.reasoning == ""
      then prev.reasoning
      else if prev.reasoning == ""
      then m.reasoning
      else prev.reasoning <> "\n\n" <> m.reasoning;
}

-- One round of that loop: `m` is joined to the last message of `out`, or appended.
unfoldable pub merge_step : List PairingMessage → PairingMessage → List PairingMessage
unfolding join
merge_step [] m = m ∷ []
merge_step (p ∷ []) m = if p.role == m.role then join p m ∷ [] else p ∷ m ∷ []
merge_step (p ∷ q ∷ r) m = p ∷ merge_step (q ∷ r) m

unfoldable pub merge_same_role : List PairingMessage → List PairingMessage
merge_same_role ms = foldl merge_step [] ms

abbrev pub is_use : Block → Bool
is_use b = b.type == "tool_use"

abbrev pub is_result : Block → Bool
is_result b = b.type == "tool_result"

-- The local variables of the first loop of `pairToolCalls`.
pub record Index : Type 0 where
  pub results : Dict Block
  pub dup_warned : List String
  pub declared : List String
  pub warns : List Warning

abbrev pub empty_index : Index
empty_index = record { results = []; dup_warned = []; declared = []; warns = [] }

-- The warning of a result that overwrites another, once for each id.
unfoldable pub note_duplicate : Index → String → Index
note_duplicate s id =
    if is_some (get s.results id) && not (member s.dup_warned id)
    then record s { dup_warned = id ∷ s.dup_warned; warns = s.warns ++ duplicate_result id ∷ [] }
    else s

unfoldable pub index_block : String → Index → Block → Index
index_block role s b =
    if role == "user" && (is_result b && not (b.tool_use_id == ""))
    then (let t = note_duplicate s b.tool_use_id in
        record t { results = put t.results b.tool_use_id b })
    else if role == "assistant" && (is_use b && not (b.id == ""))
    then record s { declared = b.id ∷ s.declared }
    else s

unfoldable pub index_message : Index → PairingMessage → Index
unfolding index_block
index_message s m = foldl (index_block m.role) s m.blocks

unfoldable pub index_messages : List PairingMessage → Index
unfolding index_message
index_messages ms = foldl index_message empty_index ms

-- `orphanWarnings`: the loop over the blocks of one user message, with the set `seen`.
unfoldable pub orphan_block :
    List String → List String × List Warning → Block → List String × List Warning
orphan_block declared (seen, warns) b =
    if not (is_result b)
    then (seen, warns)
    else if b.tool_use_id == ""
    then (if member seen "" then (seen, warns) else ("" ∷ seen, warns ++ result_without_id ∷ []))
    else if member declared b.tool_use_id
    then (seen, warns)
    else if member seen b.tool_use_id
    then (seen, warns)
    else (b.tool_use_id ∷ seen, warns ++ orphan_result b.tool_use_id ∷ [])

unfoldable pub orphan_message :
    List String → List String × List Warning → PairingMessage → List String × List Warning
unfolding orphan_block
orphan_message declared s m =
    if m.role == "user" then foldl (orphan_block declared) s m.blocks else s

unfoldable pub orphan_warnings : List PairingMessage → List String → List Warning
unfolding orphan_message
orphan_warnings ms declared = (foldl (orphan_message declared) ([], []) ms).1

-- `_, ok := results[b.ID]` and `results[b.ID]`, a zero block where the key is missing.
abbrev pub answered : Dict Block → Block → Bool
answered results b = is_some (get results b.id)

abbrev pub or_zero : Option Block → Block
or_zero none = zero_block
or_zero (some b) = b

abbrev pub answer : Dict Block → Block → Block
answer results b = or_zero (get results b.id)

unfoldable pub pair_assistant : Dict Block → PairingMessage → List PairingMessage × List Warning
pair_assistant results m =
    let tool_uses = select is_use m.blocks in
    let others = select (λ b. not (is_use b)) m.blocks in
    let kept = select (answered results) tool_uses in
    let warns =
      map (λ (b : Block). unanswered_call b.id)
        (select (λ b. not (answered results b)) tool_uses) in
    if is_nil tool_uses
    then (m ∷ [], [])
    else if is_nil kept
    then (if is_nil others
        then ([], warns)
        else (record { role = "assistant"; blocks = others; reasoning = m.reasoning } ∷ [], warns))
    else (
      record { role = "assistant"; blocks = others ++ kept; reasoning = m.reasoning }
          ∷ record { role = "user"; blocks = map (answer results) kept; reasoning = "" }
          ∷ [],
      warns,
    )

unfoldable pub strip_tool_results : PairingMessage → List PairingMessage
strip_tool_results m =
    let kept = select (λ b. not (is_result b)) m.blocks in
    if is_nil (select is_result m.blocks)
    then m ∷ []
    else if is_nil kept
    then []
    else record { role = m.role; blocks = kept; reasoning = m.reasoning } ∷ []

-- The `switch` on the role in the second loop of `pairToolCalls`.
unfoldable pub pair_message : Dict Block → PairingMessage → List PairingMessage × List Warning
unfolding pair_assistant strip_tool_results
pair_message results m =
    if m.role == "assistant"
    then pair_assistant results m
    else if m.role == "user"
    then (strip_tool_results m, [])
    else (m ∷ [], [])

unfoldable pub pair_messages : Dict Block → List PairingMessage → List PairingMessage × List Warning
unfolding pair_message
pair_messages results [] = ([], [])
pair_messages results (m ∷ ms) =
    let (out, warns) = pair_message results m in
    let (outs, more) = pair_messages results ms in (out ++ outs, warns ++ more)

unfoldable pub pair_tool_calls : List PairingMessage → List PairingMessage × List Warning
pair_tool_calls ms =
    let s = index_messages ms in
    let (out, warns) = pair_messages s.results ms in
    (out, s.warns ++ orphan_warnings ms s.declared ++ warns)

-- `InboundBlocksContent`: a marshalling error leaves an empty array.
unfoldable pub inbound_blocks_content : Json → List Block → String
inbound_blocks_content json blocks = elim (json.marshal_blocks blocks) [ none ↦ "[]" | some s ↦ s ]

unfoldable pub build_message : Json → PairingMessage → InboundMessage
unfolding inbound_blocks_content
build_message json m = record {
  role = m.role;
  content = inbound_blocks_content json m.blocks;
  reasoning_content = m.reasoning;
}

unfoldable pub build_inbound_messages : Json → List PairingMessage → List InboundMessage
unfolding build_message
build_inbound_messages json [] = []
build_inbound_messages json (m ∷ ms) =
    let rest = build_inbound_messages json ms in
    if is_nil m.blocks then rest else build_message json m ∷ rest

unfoldable pub repair_tool_pairing : Json → List InboundMessage → List InboundMessage × List Warning
repair_tool_pairing json msgs =
    let (work, w₁) = parse_from json 0 msgs in
    let (paired, w₂) = pair_tool_calls (merge_same_role work) in
    (build_inbound_messages json (merge_same_role paired), w₁ ++ w₂)
