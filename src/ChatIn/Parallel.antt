-- ===== src/ChatIn/Parallel.antt =====
-- internal/translate/chatin.go: the request for one tool call at a time is met or reported.
use cmdc2api.Base.{
  arith, String, ◌≡◌, refl, Bool, true, false, not, ◌&&◌, ◌||◌, Option, none, some, List, [], ◌∷◌,
  ◌++◌, ◌⊎◌, ◌==◌, inl, inr, if◌then◌else◌, is_nil, map,
}
use cmdc2api.Types.Chat.{ChatRequest, ChatJson, ParallelChoice, is_absent}
use cmdc2api.Pairing.{repair_tool_pairing}
use cmdc2api.ChatIn.Warnings.{
  ChatWarn, stop_ignored, response_format_ignored, parallel_ignored, repaired,
}
use cmdc2api.ChatIn.Tools.{
  merge_parallel, chat_apply_parallel_tool_calls, sequential, parallel_type, chat_tools,
  chat_tool_choice, chat_reasoning_effort,
}
use cmdc2api.ChatIn.Fields.{warn_if, chat_dropped_field_warnings, is_false}
use cmdc2api.ChatIn.Convert.{normalize_messages, converted}

abbrev pub says_parallel : List ChatWarn → Bool
says_parallel [] = false
says_parallel (parallel_ignored ∷ ws) = true
says_parallel (_ ∷ ws) = says_parallel ws

says_here : (xs ys : List ChatWarn) → says_parallel xs ≡ true → says_parallel (xs ++ ys) ≡ true
says_here [] ys h = absurd (ground arith)
says_here (w ∷ xs) ys h = ground (arith, says_here xs ys)

says_behind : (xs ys : List ChatWarn) → says_parallel ys ≡ true → says_parallel (xs ++ ys) ≡ true
says_behind [] ys h = h
says_behind (w ∷ xs) ys h = ground (arith, says_behind xs ys h)

-- The `tool_choice` has the flag, or a warning says that it has no effect.
abbrev pub IsSequential : ChatJson → String → List ChatWarn → Type 0
IsSequential cj choice warns =
    ((c : ParallelChoice) × (choice ≡ cj.marshal_parallel c) × (c.disable_parallel_tool_use ≡ true))
    ⊎ (says_parallel warns ≡ true)

abbrev IsFlagged : Option ParallelChoice → Type 0
IsFlagged none = Unit
IsFlagged (some c) = c.disable_parallel_tool_use ≡ true

if-IsFlagged :
    (b : Bool) (o q : Option ParallelChoice)
    → IsFlagged o
    → IsFlagged q
    → IsFlagged (if b then o else q)
if-IsFlagged true o q h k = h
if-IsFlagged false o q h k = k

merge_parallel-IsFlagged : (cj : ChatJson) (raw : String) → IsFlagged (merge_parallel cj raw)
unfolding merge_parallel
merge_parallel-IsFlagged cj raw =
    if-IsFlagged (is_absent raw) _ _ refl
      (string_form (cj.json.unmarshal_string raw) _ (object_form (cj.unmarshal_parallel raw)))
  where
    object_form :
        (o : Option ParallelChoice)
        → IsFlagged (elim o [
          | none ↦ none
          | some c ↦
              if c.type == "" then none else some (record c { disable_parallel_tool_use = true })
        ])
    object_form none = tt
    object_form (some c) = if-IsFlagged (c.type == "") _ _ tt refl

    string_form :
        (o : Option String) (rest : Option ParallelChoice)
        → IsFlagged rest
        → IsFlagged (elim o [ some s ↦ some (sequential (parallel_type s)) | none ↦ rest ])
    string_form (some s) rest h = refl
    string_form none rest h = h

-- What is applied has the flag.
abbrev AppliesResult : ChatJson → String × Bool → Type 0
AppliesResult cj (raw, false) = Unit
AppliesResult cj (raw, true) =
    (c : ParallelChoice) × (raw ≡ cj.marshal_parallel c) × (c.disable_parallel_tool_use ≡ true)

chat_apply-AppliesResult :
    (cj : ChatJson) (parallel : Option Bool) (has_tools : Bool) (raw : String)
    → AppliesResult cj (chat_apply_parallel_tool_calls cj parallel has_tools raw)
unfolding chat_apply_parallel_tool_calls
chat_apply-AppliesResult cj none has_tools raw = tt
chat_apply-AppliesResult cj (some p) has_tools raw =
    go (p || not has_tools) (merge_parallel cj raw) (merge_parallel-IsFlagged cj raw)
  where
    go :
        (b : Bool) (o : Option ParallelChoice)
        → IsFlagged o
        → AppliesResult cj (
            if b
            then (raw, false)
            else elim o [ none ↦ (raw, false) | some c ↦ (cj.marshal_parallel c, true) ])
    go true o h = tt
    go false none h = tt
    go false (some c) h = (c, refl, h)

dropped-says :
    (req : ChatRequest)
    → is_false req.parallel_tool_calls ≡ true
    → says_parallel (chat_dropped_field_warnings req false) ≡ true
unfolding chat_dropped_field_warnings
dropped-says req h = says_behind (warn_if (not (is_absent req.stop)) stop_ignored) _ (
    says_behind (warn_if (not (is_absent req.response_format)) response_format_ignored) _ (
      says_here (warn_if (is_false req.parallel_tool_calls && true) parallel_ignored) _
        (rw h refl)))

settled :
    (cj : ChatJson) (req : ChatRequest) (applied : String × Bool)
    → is_false req.parallel_tool_calls ≡ true
    → AppliesResult cj applied
    → IsSequential cj applied.0 (chat_dropped_field_warnings req applied.1)
settled cj req (raw, true) h k = inl k
settled cj req (raw, false) h k = inr (dropped-says req h)

behind :
    (cj : ChatJson) (choice : String) (xs ys : List ChatWarn)
    → IsSequential cj choice ys
    → IsSequential cj choice (xs ++ ys)
behind cj choice xs ys (inl h) = inl h
behind cj choice xs ys (inr h) = inr (says_behind xs ys h)

-- For every Chat request that asks for one tool call at a time: the converted request has a
-- `tool_choice` with the flag for it, or a warning says that the field has no effect.
pub converted-IsSequential :
    (cj : ChatJson) (req : ChatRequest)
    → is_false req.parallel_tool_calls ≡ true
    → IsSequential cj (converted cj req).0.tool_choice (converted cj req).1
unfolding converted
converted-IsSequential cj req h =
    let parts = normalize_messages cj 0 req.messages in
    let pw = map repaired (repair_tool_pairing cj.json parts.msgs).1 in
    let (tools, tw) = chat_tools 0 req.tools in
    let (choice, cw) = chat_tool_choice cj req.tool_choice (not (is_nil tools)) in
    let ew = (chat_reasoning_effort cj req.reasoning_effort).1 in
    let applied = chat_apply-AppliesResult cj req.parallel_tool_calls (not (is_nil tools)) choice in
    behind cj _ parts.warns _ (
      behind cj _ pw _
        (behind cj _ tw _ (behind cj _ cw _ (behind cj _ ew _ (settled cj req _ h applied)))))
