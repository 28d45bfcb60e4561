-- ===== src/ChatIn/Kept.antt =====
-- internal/translate/chatin.go: which tool calls of a Chat history a converted request has.
use mathlib.Core.Path.{ap₂, fun_ext}
use cmdc2api.Base.{
  arith, ℕ, suc, String, ◌≡◌, refl, sym, ap, ◌∙◌, Bool, true, false, not, ◌&&◌, ◌||◌, Option, none,
  some, inl, inr, Bool-cases, ==→≡, List, [], ◌∷◌, ◌++◌, ◌==◌, map, select, member, is_some,
  or_else, if◌then◌else◌,
}
use cmdc2api.Types.Inbound.{Block, zero_block, InboundMessage}
use cmdc2api.Types.Chat.{ChatMessage, ChatRequest, ChatJson}
use cmdc2api.Pairing.{PairingMessage, is_result, build_message}
use cmdc2api.Pairing.Spec.{IsPaired, contents, call_blocks, calls, result_blocks, results, latest}
use cmdc2api.Pairing.Repair.{repaired, repair_valid, repair-calls}
use cmdc2api.ChatIn.User.{call_id, chat_tool_result_content}
use cmdc2api.ChatIn.Calls.{use_of, is_usable}
use cmdc2api.ChatIn.Convert.{is_system, converted, normalize_messages}
use cmdc2api.ChatIn.Blocks.{assistant-uses, NoResult, user-NoResult}
use cmdc2api.ChatIn.Sent.{
  tool_blocks, is_tool, sent_blocks, sent_role, working, history, ReadsBack, parsed-history,
}

-- The calls that a message makes: those of an assistant with a name and an id.
abbrev calls_in : ChatJson → ChatMessage → List Block
calls_in cj m =
    if m.role == "assistant" then map (use_of cj) (select is_usable m.tool_calls) else []

abbrev pub asked : ChatJson → List ChatMessage → List Block
asked cj [] = []
asked cj (m ∷ ms) = calls_in cj m ++ asked cj ms

-- The call that a message answers, by its id or, in the older form, by its name; "" for none.
abbrev pub answer_id : ChatMessage → String
answer_id m =
    if m.role == "tool"
    then m.tool_call_id
    else if m.role == "function"
    then (if m.tool_call_id == "" then m.name else m.tool_call_id)
    else ""

abbrev pub answered_ids : List ChatMessage → List String
answered_ids [] = []
answered_ids (m ∷ ms) =
    let rest = answered_ids ms in if answer_id m == "" then rest else answer_id m ∷ rest

contents-working {ℓ} :
    {A : Type ℓ} (f : String → List Block → List A) (role : String) (bs : List Block)
    (ms : List PairingMessage)
    → f role [] ≡ []
    → contents f (working role bs ++ ms) ≡ f role bs ++ contents f ms
contents-working f role [] ms h = ap (λ z. z ++ contents f ms) (sym h)
contents-working f role (b ∷ bs) ms h = refl

abbrev NoSpeaker : String → Type 0
NoSpeaker role =
    (is_system role ≡ false) × ((role == "user") ≡ false) × ((role == "assistant") ≡ false)

is_tool-NoSpeaker : (role : String) → is_tool role ≡ true → NoSpeaker role
is_tool-NoSpeaker role t = elim (Bool-cases (role == "tool")) [
  | inl e ↦
      let q = ==→≡ role "tool" e in
      (ap is_system q, ap (λ z. z == "user") q, ap (λ z. z == "assistant") q)
  | inr e ↦
      let f : (role == "function") ≡ true = sym (ap (λ z. z || role == "function") e) ∙ t in
      let q = ==→≡ role "function" f in
      (ap is_system q, ap (λ z. z == "user") q, ap (λ z. z == "assistant") q)
]

-- The calls of a message's blocks.
message-calls :
    (cj : ChatJson) (idx : ℕ) (m : ChatMessage)
    → call_blocks (sent_role m.role) (sent_blocks cj idx m) ≡ calls_in cj m
message-calls cj idx m = elim (Bool-cases (m.role == "assistant")) [
  | inl a ↦
      let q = ==→≡ m.role "assistant" a in
      let s : is_system m.role ≡ false = ap is_system q in
      let u : (m.role == "user") ≡ false = ap (λ z. z == "user") q in
      rw (a, s, u) (assistant-uses cj idx m)
  | inr a ↦ rw a refl
]

-- The result of a message that answers this call, where there is one.
abbrev answer_with_id : ChatJson → ℕ → ChatMessage → String → List Block
answer_with_id cj idx m id =
    if id == ""
    then []
    else record zero_block {
      type = "tool_result";
      tool_use_id = id;
      content = (chat_tool_result_content cj idx m.content).0;
    }
      ∷ []

answer_id-tool : (m : ChatMessage) → is_tool m.role ≡ true → call_id m ≡ answer_id m
unfolding call_id
answer_id-tool m t = elim (Bool-cases (m.role == "tool")) [
  | inl e ↦
      let f : (m.role == "function") ≡ false = ap (λ z. z == "function") (==→≡ m.role "tool" e) in
      ground (arith, e, f)
  | inr e ↦
      let f : (m.role == "function") ≡ true = sym (ap (λ z. z || m.role == "function") e) ∙ t in
      ground (arith, e, f)
]

answer_id-other : (m : ChatMessage) → is_tool m.role ≡ false → answer_id m ≡ ""
answer_id-other m t = ground (arith, t)

tool_blocks-results :
    (cj : ChatJson) (idx : ℕ) (m : ChatMessage)
    → select is_result (tool_blocks cj idx m) ≡ answer_with_id cj idx m (call_id m)
tool_blocks-results cj idx m = elim (Bool-cases (call_id m == "")) [
  | inl e ↦ rw e refl
  | inr e ↦ rw e refl
]

select-if :
    (b : Bool) (xs ys : List Block) → NoResult xs → NoResult ys → NoResult (if b then xs else ys)
select-if true xs ys h k = h
select-if false xs ys h k = k

-- The results of a message's blocks.
message-results :
    (cj : ChatJson) (idx : ℕ) (m : ChatMessage)
    → result_blocks (sent_role m.role) (sent_blocks cj idx m)
      ≡ answer_with_id cj idx m (answer_id m)
message-results cj idx m = elim (Bool-cases (is_tool m.role)) [
  | inl t ↦
      let (s, u, a) = is_tool-NoSpeaker m.role t in
      rw (s, u, a, t)
        (tool_blocks-results cj idx m ∙ ap (answer_with_id cj idx m) (answer_id-tool m t))
  | inr t ↦
      let n = ap (answer_with_id cj idx m) (sym (answer_id-other m t)) in
      elim (Bool-cases (m.role == "assistant")) [
        | inl a ↦ rw a n
        | inr a ↦
            rw (a, t)
              (select-if (is_system m.role) _ _ refl (
                  select-if (m.role == "user") _ _ (user-NoResult cj idx m)
                    (user-NoResult cj idx m))
                ∙ n)
      ]
]

role-no_results : (role : String) → result_blocks role [] ≡ []
role-no_results role = elim (Bool-cases (role == "user")) [ inl e ↦ rw e refl | inr e ↦ rw e refl ]

role-no_calls : (role : String) → call_blocks role [] ≡ []
role-no_calls role = elim (Bool-cases (role == "assistant")) [
  | inl e ↦ rw e refl
  | inr e ↦ rw e refl
]

history-calls :
    (cj : ChatJson) (idx : ℕ) (ms : List ChatMessage) → calls (history cj idx ms) ≡ asked cj ms
history-calls cj idx [] = refl
history-calls cj idx (m ∷ ms) =
    contents-working call_blocks (sent_role m.role) (sent_blocks cj idx m) _
      (role-no_calls (sent_role m.role))
    ∙ ap₂ (λ x y. x ++ y) (message-calls cj idx m) (history-calls cj (suc idx) ms)

or_else-is_some :
    (o : Option Block) (c : Bool) (b : Block)
    → is_some (or_else o (if c then some b else none)) ≡ (c || is_some o)
or_else-is_some none true b = refl
or_else-is_some none false b = refl
or_else-is_some (some x) true b = refl
or_else-is_some (some x) false b = refl

-- A result answers its own call, beside those that the results behind it answer.
latest-answered :
    (cj : ChatJson) (idx : ℕ) (m : ChatMessage) (id : String) (rs : List Block) (k : String)
    → is_some (latest (answer_with_id cj idx m id ++ rs) k)
      ≡ ((not (id == "") && id == k) || is_some (latest rs k))
unfolding latest
latest-answered cj idx m id rs k = elim (Bool-cases (id == "")) [
  | inl e ↦ rw e refl
  | inr e ↦ rw e (rw e (or_else-is_some (latest rs k) (id == k) _))
]

history-answered :
    (cj : ChatJson) (idx : ℕ) (ms : List ChatMessage) (k : String)
    → is_some (latest (results (history cj idx ms)) k) ≡ member (answered_ids ms) k
unfolding latest
history-answered cj idx [] k = refl
history-answered cj idx (m ∷ ms) k =
    let rest = history cj (suc idx) ms in
    ap (λ z. is_some (latest z k))
      (contents-working result_blocks (sent_role m.role) (sent_blocks cj idx m) rest
          (role-no_results (sent_role m.role))
        ∙ ap (λ z. z ++ results rest) (message-results cj idx m))
    ∙ latest-answered cj idx m (answer_id m) (results rest) k
    ∙ ap (λ z. (not (answer_id m == "") && answer_id m == k) || z)
        (history-answered cj (suc idx) ms k)
    ∙ go (answer_id m == "")
  where
    go :
        (e : Bool)
        → ((not e && answer_id m == k) || member (answered_ids ms) k)
          ≡ member (if e then answered_ids ms else answer_id m ∷ answered_ids ms) k
    go true = refl
    go false = refl

-- These are the encodings of a valid history whose calls are the calls of the Chat history that one of
-- its tool messages answers.
abbrev pub KeepsAnswered : ChatJson → List ChatMessage → List InboundMessage → Type 0
KeepsAnswered cj history out =
    (ms : List PairingMessage) × (out ≡ map (build_message cj.json) ms)
    × IsPaired [] ms
    × (calls ms ≡ select (λ b. member (answered_ids history) b.id) (asked cj history))

-- For every Chat request whose messages' blocks are read back from the JSON that they are encoded to:
-- the messages of the converted request encode a sequence in which each message answers exactly the
-- calls of the message before it, and whose calls are exactly those calls of the assistant messages
-- that have a name and an id and that some tool or function message answers, with their names, ids and
-- arguments, in their order.
pub converted-KeepsAnswered :
    (cj : ChatJson) (req : ChatRequest)
    → ReadsBack cj 0 req.messages
    → KeepsAnswered cj req.messages (converted cj req).0.messages
unfolding converted
converted-KeepsAnswered cj req h =
    let msgs = (normalize_messages cj 0 req.messages).msgs in
    let (encoded, paired, alternates, filled) = repair_valid cj.json msgs in
    let read = parsed-history cj 0 0 req.messages h in
    (
      repaired cj.json msgs,
      encoded,
      paired,
      repair-calls cj.json msgs
          ∙ ap₂ select
              (fun_ext (λ b.
                ap (λ z. is_some (latest (results z) b.id)) read
                ∙ history-answered cj 0 req.messages b.id))
              (ap calls read ∙ history-calls cj 0 req.messages),
    )
