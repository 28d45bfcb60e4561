-- ===== src/ChatIn/Sent.antt =====
-- internal/translate/chatin.go: the blocks that each Chat message becomes, and how they are read back
-- by the repair of the pairing.
use cmdc2api.Base.{
  ℕ, suc, String, ◌≡◌, refl, ap, ◌∙◌, Bool, ◌||◌, Option, none, some, inl, inr, Bool-cases, ==→≡,
  List, [], ◌∷◌, ◌++◌, ◌==◌, if◌then◌else◌,
}
use cmdc2api.Types.Inbound.{Block, zero_block, InboundMessage, Json}
use cmdc2api.Types.Chat.{ChatMessage, ChatJson}
use cmdc2api.Content.{parse_blocks}
use cmdc2api.Pairing.{PairingMessage, Warning, keep_parsed, parse_from, inbound_blocks_content}
use cmdc2api.ChatIn.Warnings.{ChatWarn}
use cmdc2api.ChatIn.User.{
  chat_user_blocks, call_id, chat_tool_result_content, chat_tool_result_message,
}
use cmdc2api.ChatIn.Assistant.{chat_assistant_blocks}
use cmdc2api.ChatIn.Convert.{
  is_system, kept_message, downgraded, blocks_message, normalize_message, Parts, add_message,
  normalize_messages,
}

abbrev pub result_block : ChatJson → ℕ → ChatMessage → Block
result_block cj idx m = record zero_block {
  type = "tool_result";
  tool_use_id = call_id m;
  content = (chat_tool_result_content cj idx m.content).0;
}

abbrev pub tool_blocks : ChatJson → ℕ → ChatMessage → List Block
tool_blocks cj idx m = if call_id m == "" then [] else result_block cj idx m ∷ []

abbrev pub is_tool : String → Bool
is_tool role = role == "tool" || role == "function"

-- The blocks that a message becomes, none for the system's.
abbrev pub sent_blocks : ChatJson → ℕ → ChatMessage → List Block
sent_blocks cj idx m =
    if is_system m.role
    then []
    else if m.role == "user"
    then (chat_user_blocks cj idx m).0
    else if m.role == "assistant"
    then (chat_assistant_blocks cj idx m).0
    else if is_tool m.role
    then tool_blocks cj idx m
    else (chat_user_blocks cj idx m).0

abbrev pub sent_role : String → String
sent_role role = if role == "assistant" then "assistant" else "user"

-- A message with these blocks, encoded and in its working form; none without blocks.
abbrev encoded : Json → String → List Block → List InboundMessage
encoded json role [] = []
encoded json role (b ∷ bs) =
    record { role = role; content = inbound_blocks_content json (b ∷ bs); reasoning_content = "" }
    ∷ []

abbrev pub working : String → List Block → List PairingMessage
working role [] = []
working role (b ∷ bs) = record { role = role; blocks = b ∷ bs; reasoning = "" } ∷ []

abbrev pub history : ChatJson → ℕ → List ChatMessage → List PairingMessage
history cj idx [] = []
history cj idx (m ∷ ms) =
    working (sent_role m.role) (sent_blocks cj idx m) ++ history cj (suc idx) ms

-- The JSON of these blocks is read as the blocks.
abbrev Reads : Json → List Block → Type 0
Reads json [] = Unit
Reads json (b ∷ bs) = parse_blocks json (inbound_blocks_content json (b ∷ bs)) ≡ some (b ∷ bs)

-- The JSON of the blocks of each message, from message `idx` on, is read as the blocks.
abbrev pub ReadsBack : ChatJson → ℕ → List ChatMessage → Type 0
ReadsBack cj idx [] = Unit
ReadsBack cj idx (m ∷ ms) = Reads cj.json (sent_blocks cj idx m) × ReadsBack cj (suc idx) ms

blocks_message-encoded :
    (cj : ChatJson) (role : String) (r : List Block × List ChatWarn)
    → (blocks_message cj role r).0 ≡ encoded cj.json role r.0
unfolding blocks_message
blocks_message-encoded cj role ([], ws) = refl
blocks_message-encoded cj role (b ∷ bs, ws) = refl

downgraded-same :
    (idx : ℕ) (role : String) (r : List InboundMessage × List ChatWarn)
    → (downgraded idx role r).0 ≡ r.0
downgraded-same idx role (ms, ws) = refl

tool_message-encoded :
    (cj : ChatJson) (idx : ℕ) (m : ChatMessage)
    → (kept_message (chat_tool_result_message cj idx m)).0
      ≡ encoded cj.json "user" (tool_blocks cj idx m)
unfolding chat_tool_result_message kept_message
tool_message-encoded cj idx m = elim (Bool-cases (call_id m == "")) [
  | inl e ↦ rw e refl
  | inr e ↦ rw e refl
]

add_message-encoded :
    (cj : ChatJson) (idx : ℕ) (m : ChatMessage) (rest : Parts)
    → (add_message cj idx m rest).msgs
      ≡ encoded cj.json (sent_role m.role) (sent_blocks cj idx m) ++ rest.msgs
unfolding add_message normalize_message
add_message-encoded cj idx m rest = elim (Bool-cases (is_system m.role)) [
  | inl s ↦ rw s refl
  | inr s ↦ rw s (elim (Bool-cases (m.role == "user")) [
    | inl u ↦
        rw (u, ap sent_role (==→≡ m.role "user" u))
          (ap (λ z. z ++ rest.msgs) (blocks_message-encoded cj "user" (chat_user_blocks cj idx m)))
    | inr u ↦ rw u (elim (Bool-cases (m.role == "assistant")) [
      | inl a ↦ rw a (
          ap (λ z. z ++ rest.msgs)
            (blocks_message-encoded cj "assistant" (chat_assistant_blocks cj idx m)))
      | inr a ↦ rw a (elim (Bool-cases (is_tool m.role)) [
        | inl t ↦ rw t (ap (λ z. z ++ rest.msgs) (tool_message-encoded cj idx m))
        | inr t ↦ rw t (
            ap (λ z. z ++ rest.msgs)
              (downgraded-same idx m.role (blocks_message cj "user" (chat_user_blocks cj idx m))
                ∙ blocks_message-encoded cj "user" (chat_user_blocks cj idx m)))
      ])
    ])
  ])
]

abbrev working_as : InboundMessage → List Block → PairingMessage
working_as m bs = record { role = m.role; blocks = bs; reasoning = m.reasoning_content }

keep_parsed-index :
    (i j : ℕ) (m : InboundMessage) (o : Option (List Block))
    (r t : List PairingMessage × List Warning)
    → r.0 ≡ t.0
    → (keep_parsed i m o r).0 ≡ (keep_parsed j m o t).0
unfolding keep_parsed
keep_parsed-index i j m none r t h = h
keep_parsed-index i j m (some []) r t h = h
keep_parsed-index i j m (some (b ∷ bs)) r t h = ap (λ z. working_as m (b ∷ bs) ∷ z) h

parse_from-index :
    (json : Json) (i j : ℕ) (ms : List InboundMessage)
    → (parse_from json i ms).0 ≡ (parse_from json j ms).0
unfolding parse_from
parse_from-index json i j [] = refl
parse_from-index json i j (m ∷ ms) =
    keep_parsed-index i j m (parse_blocks json m.content) (parse_from json (suc i) ms)
      (parse_from json (suc j) ms) (parse_from-index json (suc i) (suc j) ms)

parse_from-encoded :
    (json : Json) (i : ℕ) (role : String) (bs : List Block) (ms : List InboundMessage)
    → Reads json bs
    → (parse_from json i (encoded json role bs ++ ms)).0
      ≡ working role bs ++ (parse_from json i ms).0
unfolding parse_from keep_parsed
parse_from-encoded json i role [] ms h = refl
parse_from-encoded json i role (b ∷ bs) ms h =
    rw h (ap (λ z. working role (b ∷ bs) ++ z) (parse_from-index json (suc i) i ms))

-- What the repair reads is the history of blocks.
pub parsed-history :
    (cj : ChatJson) (i idx : ℕ) (ms : List ChatMessage)
    → ReadsBack cj idx ms
    → (parse_from cj.json i (normalize_messages cj idx ms).msgs).0 ≡ history cj idx ms
unfolding normalize_messages parse_from
parsed-history cj i idx [] h = refl
parsed-history cj i idx (m ∷ ms) h =
    ap (λ z. (parse_from cj.json i z).0)
      (add_message-encoded cj idx m (normalize_messages cj (suc idx) ms))
    ∙ parse_from-encoded cj.json i (sent_role m.role) (sent_blocks cj idx m) _ h.0
    ∙ ap (λ z. working (sent_role m.role) (sent_blocks cj idx m) ++ z)
        (parsed-history cj i (suc idx) ms h.1)
