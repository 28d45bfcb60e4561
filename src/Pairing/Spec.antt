-- ===== src/Pairing/Spec.antt =====
-- What pairing.go promises of a message sequence: the three constraints of its opening comment.
use cmdc2api.Base.{
  or_else, Bool, Option, none, some, is_some, ◌&&◌, String, ◌≡◌, ◌≢◌, List, [], ◌∷◌, ◌++◌, ◌==◌,
  not, map, select, if◌then◌else◌,
}
use cmdc2api.Types.Inbound.{Block}
use cmdc2api.Pairing.{PairingMessage, is_use, is_result, or_zero}

abbrev pub use_ids : List Block → List String
use_ids bs = map (λ (b : Block). b.id) (select is_use bs)

abbrev pub result_ids : List Block → List String
result_ids bs = map (λ (b : Block). b.tool_use_id) (select is_result bs)

-- The ids that a message leaves for the next message to answer: the calls of an assistant.
abbrev pub offered : String → List Block → List String
offered role bs = if role == "assistant" then use_ids bs else []

abbrev pub offers : PairingMessage → List String
offers m = offered m.role m.blocks

-- The ids that a message answers: the results of a user.
abbrev pub expected : String → List Block → List String
expected role bs = if role == "user" then result_ids bs else []

abbrev pub expects : PairingMessage → List String
expects m = expected m.role m.blocks

-- Every message answers exactly the calls of the message before it, in the order of the calls;
-- `pending` are those before the first message, and none is left after the last.
abbrev pub IsPaired : List String → List PairingMessage → Type 0
IsPaired pending [] = pending ≡ []
IsPaired pending (m ∷ ms) = (expects m ≡ pending) × IsPaired (offers m) ms

-- No two neighbours have one role.
abbrev pub Alternates : List PairingMessage → Type 0
Alternates [] = Unit
Alternates (m ∷ []) = Unit
Alternates (m ∷ n ∷ ms) = (m.role ≢ n.role) × Alternates (n ∷ ms)

abbrev pub HasBlocks : PairingMessage → Type 0
HasBlocks m = m.blocks ≢ []

-- What `f` reads off the blocks of each message, at its role, in order.
abbrev pub contents {ℓ} :
    {A : Type ℓ} → (String → List Block → List A) → List PairingMessage → List A
contents f [] = []
contents f (m ∷ ms) = f m.role m.blocks ++ contents f ms

-- The blocks of a message that take no part in the pairing.
abbrev pub plain_blocks : String → List Block → List Block
plain_blocks role bs =
    if role == "assistant"
    then select (λ b. not (is_use b)) bs
    else if role == "user"
    then select (λ b. not (is_result b)) bs
    else bs

abbrev pub plain : PairingMessage → List Block
plain m = plain_blocks m.role m.blocks

abbrev pub plain_content : List PairingMessage → List Block
plain_content = contents plain_blocks

-- The calls of all assistant messages, in order.
abbrev pub call_blocks : String → List Block → List Block
call_blocks role bs = if role == "assistant" then select is_use bs else []

abbrev pub calls_of : PairingMessage → List Block
calls_of m = call_blocks m.role m.blocks

abbrev pub calls : List PairingMessage → List Block
calls = contents call_blocks

-- The results of all user messages, in order; those without an id answer nothing.
abbrev pub result_blocks : String → List Block → List Block
result_blocks role bs = if role == "user" then select is_result bs else []

abbrev pub results : List PairingMessage → List Block
results = contents result_blocks

-- The last result of an id: the one that wins where there are several.
unfoldable pub latest : List Block → String → Option Block
latest [] k = none
latest (b ∷ bs) k =
    or_else (latest bs k) (if not (b.tool_use_id == "") && b.tool_use_id == k then some b else none)

abbrev pub is_answered : List Block → Block → Bool
is_answered rs b = is_some (latest rs b.id)

abbrev pub latest_answer : List Block → Block → Block
latest_answer rs b = or_zero (latest rs b.id)
