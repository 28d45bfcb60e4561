-- ===== src/Request/Order.antt =====
-- internal/translate/request.go: what `convertAssistant` forwards, and in which order.
use cmdc2api.Base.{
  inr, ==→≡, inl, Bool-cases, arith, String, ◌≡◌, refl, sym, ◌∙◌, ap, Bool, true, false, not, ◌&&◌,
  ◌||◌, List, [], ◌∷◌, ◌++◌, map, ◌==◌, is_nil, select, if◌then◌else◌,
}
use mathlib.Core.List.{append_assoc, append-nil}
use cmdc2api.Types.Inbound.{Block}
use cmdc2api.Types.Cmdc.{CcPart, CcMessage}
use cmdc2api.Request.Shape.{Warn, ParsedMessage}
use cmdc2api.Request.Assistant.{
  no_parts, AssistantState, reasoning_part, text_part, tool_call_part, thinking_of, assistant_start,
  assistant_thinking, assistant_block, assistant_blocks, convert_assistant, no_parts,
}

abbrev pub is_thought : Block → Bool
is_thought b = b.type == "thinking" || b.type == "reasoning"

abbrev pub is_plain_text : Block → Bool
is_plain_text b = b.type == "text" && not (b.text == "")

abbrev pub is_call : Block → Bool
is_call b = b.type == "tool_use"

-- The thinking of a message that is sent: none where the option is off; else the message's own
-- reasoning first, then every thinking block whose text is not empty and not that reasoning.
abbrev pub is_new_thought : String → Block → Bool
is_new_thought reasoning b =
    is_thought b && (not (thinking_of b == "") && not (reasoning == thinking_of b))

abbrev pub own_reasoning : String → List CcPart
own_reasoning reasoning = if reasoning == "" then [] else reasoning_part reasoning ∷ []

abbrev pub thoughts : Bool → String → List Block → List CcPart
thoughts keep reasoning bs =
    if keep
    then own_reasoning reasoning
      ++ map (λ b. reasoning_part (thinking_of b)) (select (is_new_thought reasoning) bs)
    else []

-- The content of the message that is sent.
abbrev pub assistant_parts : Bool → String → List Block → List CcPart
assistant_parts keep reasoning bs =
    thoughts keep reasoning bs
    ++ (map text_part (select is_plain_text bs) ++ map tool_call_part (select is_call bs))

abbrev pub assistant_messages : List CcPart → List CcMessage
assistant_messages parts =
    if is_nil parts then [] else record { role = "assistant"; content = parts } ∷ []

abbrev pub part_if : Bool → CcPart → List CcPart
part_if b p = if b then p ∷ [] else []

-- `t` is `s` with a part of `b` behind each list whose Boolean is true.
record Adds (r x c : Bool) (s t : AssistantState) (b : Block) : Type 0 where
  reasoned : t.reasoning_parts ≡ s.reasoning_parts ++ part_if r (reasoning_part (thinking_of b))
  said : t.text_parts ≡ s.text_parts ++ part_if x (text_part b)
  called : t.tool_parts ≡ s.tool_parts ++ part_if c (tool_call_part b)

Adds-nothing : (s : AssistantState) (b : Block) → Adds false false false s s b
Adds-nothing s b = record {
  reasoned = sym (append-nil _);
  said = sym (append-nil _);
  called = sym (append-nil _);
}

thought-Adds :
    (keep : Bool) (reasoning text : String) (s : AssistantState) (b : Block)
    → text ≡ thinking_of b
    → Adds
        (keep && (not (text == "") && not (reasoning == text)))
        false
        false
        s
        (assistant_thinking keep reasoning s text)
        b
unfolding assistant_thinking
thought-Adds keep reasoning text s b e = go keep (text == "") (reasoning == text)
  where
    go :
        (k z d : Bool)
        → Adds
            (k && (not z && not d))
            false
            false
            s
            (if z
              then s
              else if k
              then (if d
                  then s
                  else record s { reasoning_parts = s.reasoning_parts ++ reasoning_part text ∷ [] })
              else record s { dropped = true })
            b
    go true true d = Adds-nothing s b
    go false true d = Adds-nothing s b
    go true false true = Adds-nothing s b
    go true false false = record {
      reasoned = ap (λ z. s.reasoning_parts ++ reasoning_part z ∷ []) e;
      said = sym (append-nil _);
      called = sym (append-nil _);
    }
    go false false d = record {
      reasoned = sym (append-nil _);
      said = sym (append-nil _);
      called = sym (append-nil _);
    }

text-Adds :
    (s : AssistantState) (b : Block) (z : Bool)
    → Adds false
        (not z)
        false
        s
        (if z then s else record s { text_parts = s.text_parts ++ text_part b ∷ [] })
        b
text-Adds s b true = Adds-nothing s b
text-Adds s b false = record {
  reasoned = sym (append-nil _);
  said = refl;
  called = sym (append-nil _);
}

call-Adds :
    (s : AssistantState) (b : Block)
    → Adds false false true s (record s { tool_parts = s.tool_parts ++ tool_call_part b ∷ [] }) b
call-Adds s b = record { reasoned = sym (append-nil _); said = sym (append-nil _); called = refl }

module _ (keep : Bool) (reasoning : String) (s : AssistantState) (b : Block) where
  abbrev AddsBlock : Type 0
  AddsBlock =
      Adds (keep && is_new_thought reasoning b) (is_plain_text b) (is_call b) s
        (assistant_block keep reasoning s b).0 b

  AddsBlock_of :
      {r x c : Bool} {t : AssistantState}
      → Adds r x c s t b
      → (assistant_block keep reasoning s b).0 ≡ t
      → (keep && is_new_thought reasoning b) ≡ r
      → is_plain_text b ≡ x
      → is_call b ≡ c
      → AddsBlock
  AddsBlock_of a e f g h = rw (e, f, g, h) a

  no_thought :
      (k t : Bool)
      → t ≡ false
      → (k && (t && (not (thinking_of b == "") && not (reasoning == thinking_of b)))) ≡ false
  no_thought true t e = rw e refl
  no_thought false t e = refl

  assistant_block-Adds : AddsBlock
  unfolding assistant_block
  assistant_block-Adds = elim (Bool-cases (b.type == "thinking")) [
    | inl e ↦
        let ty = ==→≡ b.type "thinking" e in
        AddsBlock_of (thought-Adds keep reasoning (thinking_of b) s b refl) (simp ty) (simp ty)
          (simp ty) (simp ty)
    | inr n₁ ↦ elim (Bool-cases (b.type == "reasoning")) [
      | inl e ↦
          let ty = ==→≡ b.type "reasoning" e in
          AddsBlock_of (thought-Adds keep reasoning (thinking_of b) s b refl) (simp ty) (simp ty)
            (simp ty) (simp ty)
      | inr n₂ ↦ elim (Bool-cases (b.type == "text")) [
        | inl e ↦
            let ty = ==→≡ b.type "text" e in
            AddsBlock_of (text-Adds s b (b.text == "")) (simp ty)
              (no_thought keep (is_thought b) (simp ty)) (simp ty) (simp ty)
        | inr n₃ ↦ elim (Bool-cases (b.type == "tool_use")) [
          | inl e ↦
              let ty = ==→≡ b.type "tool_use" e in
              AddsBlock_of (call-Adds s b) (simp ty) (no_thought keep (is_thought b) (simp ty))
                (simp ty) (simp ty)
          | inr n₄ ↦
              AddsBlock_of (Adds-nothing s b)
                (simp (n₁, n₂, n₃, n₄)
                  (kept (b.type == "redacted_thinking") (b.type == "image") _ _ _))
                (no_thought keep (is_thought b) (simp (n₁, n₂))) (simp n₃) n₄
        ]
      ]
    ]
  ]
    where
      kept :
          (c d : Bool) (x y z : List Warn)
          → (if◌then◌else◌ {A = AssistantState × List Warn} c
              (s, x)
              (if d then (s, y) else (s, z))).0
            ≡ s
      kept true d x y z = refl
      kept false true x y z = refl
      kept false false x y z = refl

select-map :
    (p : Block → Bool) (f : Block → CcPart) (b : Block) (bs : List Block)
    → map f (select p (b ∷ bs)) ≡ part_if (p b) (f b) ++ map f (select p bs)
select-map p f b bs = go (p b)
  where
    go :
        (c : Bool)
        → map f (if c then b ∷ select p bs else select p bs)
          ≡ part_if c (f b) ++ map f (select p bs)
    go true = refl
    go false = refl

record Collects (keep : Bool) (reasoning : String) (s t : AssistantState) (bs : List Block)
    : Type 0 where
  reasoned :
      t.reasoning_parts
      ≡ s.reasoning_parts
        ++ map
            (λ b. reasoning_part (thinking_of b))
            (select (λ b. keep && is_new_thought reasoning b) bs)
  said : t.text_parts ≡ s.text_parts ++ map text_part (select is_plain_text bs)
  called : t.tool_parts ≡ s.tool_parts ++ map tool_call_part (select is_call bs)

chain :
    (p : Block → Bool) (f : Block → CcPart) (b : Block) (bs : List Block) (x y z : List CcPart)
    → y ≡ x ++ part_if (p b) (f b)
    → z ≡ y ++ map f (select p bs)
    → z ≡ x ++ map f (select p (b ∷ bs))
chain p f b bs x y z g h =
    h
    ∙ ap (λ w. w ++ map f (select p bs)) g
    ∙ append_assoc x (part_if (p b) (f b)) (map f (select p bs))
    ∙ ap (λ w. x ++ w) (sym (select-map p f b bs))

assistant_blocks-Collects :
    (keep : Bool) (reasoning : String) (s : AssistantState) (bs : List Block)
    → Collects keep reasoning s (assistant_blocks keep reasoning s bs).0 bs
unfolding assistant_blocks
assistant_blocks-Collects keep reasoning s [] = record {
  reasoned = sym (append-nil _);
  said = sym (append-nil _);
  called = sym (append-nil _);
}
assistant_blocks-Collects keep reasoning s (b ∷ bs) =
    let one = assistant_block-Adds keep reasoning s b in
    let rest = assistant_blocks-Collects keep reasoning (assistant_block keep reasoning s b).0 bs in
    record {
      reasoned =
          chain (λ b. keep && is_new_thought reasoning b) (λ b. reasoning_part (thinking_of b)) b bs
            _ _ _ one.reasoned rest.reasoned;
      said = chain is_plain_text text_part b bs _ _ _ one.said rest.said;
      called = chain is_call tool_call_part b bs _ _ _ one.called rest.called;
    }

select-none : {A : Type 0} (xs : List A) → select (λ x. false) xs ≡ []
select-none [] = refl
select-none (x ∷ xs) = select-none xs

started_thoughts :
    (keep : Bool) (reasoning : String) (bs : List Block)
    → (assistant_start keep reasoning).reasoning_parts
        ++ map
            (λ b. reasoning_part (thinking_of b))
            (select (λ b. keep && is_new_thought reasoning b) bs)
      ≡ thoughts keep reasoning bs
unfolding assistant_start
started_thoughts keep reasoning bs = go keep (reasoning == "")
  where
    go :
        (k z : Bool)
        → (if z
              then no_parts
              else if k
              then record no_parts { reasoning_parts = reasoning_part reasoning ∷ [] }
              else record no_parts { dropped = true }).reasoning_parts
            ++ map
                (λ b. reasoning_part (thinking_of b))
                (select (λ b. k && is_new_thought reasoning b) bs)
          ≡ (if k
              then (if z then [] else reasoning_part reasoning ∷ [])
                ++ map (λ b. reasoning_part (thinking_of b)) (select (is_new_thought reasoning) bs)
              else [])
    go true true = refl
    go true false = refl
    go false true = ap (map (λ b. reasoning_part (thinking_of b))) (select-none bs)
    go false false = ap (map (λ b. reasoning_part (thinking_of b))) (select-none bs)

started_empty :
    (keep : Bool) (reasoning : String)
    → ((assistant_start keep reasoning).text_parts ≡ [])
      × ((assistant_start keep reasoning).tool_parts ≡ [])
unfolding assistant_start
started_empty keep reasoning = ground arith

joined : (x x' y y' z z' : List CcPart) → x ≡ x' → y ≡ y' → z ≡ z' → x ++ y ++ z ≡ x' ++ (y' ++ z')
joined x x' y y' z z' e f g = rw (e, f, g) (append_assoc x' y' z')

-- For every assistant message: it becomes one assistant message, or none where nothing is left, and
-- its parts are, in this order, the thinking that is sent, the texts that are not empty and the tool
-- calls, each group complete and in the order of its blocks. Thinking is sent where the option is
-- on: the message's own reasoning, then each thinking block that is neither empty nor that text.
pub convert_assistant_orders :
    (keep : Bool) (pm : ParsedMessage)
    → (convert_assistant keep pm).0
      ≡ assistant_messages (assistant_parts keep pm.reasoning_content pm.blocks)
unfolding convert_assistant
convert_assistant_orders keep pm =
    let r = pm.reasoning_content in
    let k = assistant_blocks-Collects keep r (assistant_start keep r) pm.blocks in
    let (texts, tools) = started_empty keep r in
    let thoughts_eq = k.reasoned ∙ started_thoughts keep r pm.blocks in
    let texts_eq = k.said ∙ ap (λ z. z ++ map text_part (select is_plain_text pm.blocks)) texts in
    let tools_eq = k.called ∙ ap (λ z. z ++ map tool_call_part (select is_call pm.blocks)) tools in
    ap assistant_messages (joined _ _ _ _ _ _ thoughts_eq texts_eq tools_eq)
