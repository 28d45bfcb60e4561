-- ===== src/Pairing/Split.antt =====
-- How `pairAssistant` and `stripToolResults` split the blocks of one message.
use cmdc2api.Base.{
  ◌≡◌, ◌≢◌, refl, ap, Bool, true, false, not, inl, inr, List, [], ◌∷◌, ◌++◌, map, Bool-cases,
  select, is_nil, Dict,
}
use cmdc2api.Types.Inbound.{Block}
use cmdc2api.Pairing.{
  PairingMessage, Warning, unanswered_call, is_use, is_result, answered, answer, pair_assistant,
  strip_tool_results,
}

module _ {ℓ} {A : Type ℓ} (p : A → Bool) where
  pub select_none : (xs : List A) → select p (select (λ x. not (p x)) xs) ≡ []
  select_none [] = refl
  select_none (x ∷ xs) = elim (Bool-cases (p x)) [
    | inl e ↦ rw e (select_none xs)
    | inr e ↦ rw e (rw e (select_none xs))
  ]

  pub select_all : (xs : List A) → select p (select p xs) ≡ select p xs
  select_all [] = refl
  select_all (x ∷ xs) = elim (Bool-cases (p x)) [
    | inl e ↦ rw e (rw e (ap (λ t. x ∷ t) (select_all xs)))
    | inr e ↦ rw e (select_all xs)
  ]

  -- Nothing that was selected is rejected, also after a further selection.
  pub reject_none :
      (q : A → Bool) (xs : List A) → select (λ x. not (p x)) (select q (select p xs)) ≡ []
  reject_none q [] = refl
  reject_none q (x ∷ xs) = elim (Bool-cases (p x)) [
    | inl e ↦ elim (Bool-cases (q x)) [
      | inl d ↦ rw (e, d) (rw e (reject_none q xs))
      | inr d ↦ rw (e, d) (reject_none q xs)
    ]
    | inr e ↦ rw e (reject_none q xs)
  ]

  -- Selecting twice does not mind the order.
  pub select_comm :
      (q : A → Bool) (xs : List A) → select p (select q (select p xs)) ≡ select q (select p xs)
  select_comm q [] = refl
  select_comm q (x ∷ xs) = elim (Bool-cases (p x)) [
    | inl e ↦ elim (Bool-cases (q x)) [
      | inl d ↦ rw (e, d) (rw e (ap (λ t. x ∷ t) (select_comm q xs)))
      | inr d ↦ rw e (rw d (select_comm q xs))
    ]
    | inr e ↦ rw e (select_comm q xs)
  ]

module _ {ℓ} {A : Type ℓ} where
  pub is_nil→≡ : (xs : List A) → is_nil xs ≡ true → xs ≡ []
  is_nil→≡ [] h = refl
  is_nil→≡ (x ∷ xs) h = cc

  pub is_nil→≢ : (xs : List A) → is_nil xs ≡ false → xs ≢ []
  is_nil→≢ [] h = cc
  is_nil→≢ (x ∷ xs) h = λ e. cc

abbrev pub calls_in : PairingMessage → List Block
calls_in m = select is_use m.blocks

abbrev pub others_in : PairingMessage → List Block
others_in m = select (λ b. not (is_use b)) m.blocks

abbrev pub unanswered : Dict Block → PairingMessage → List Warning
unanswered results m =
    map (λ (b : Block). unanswered_call b.id) (select (λ b. not (answered results b)) (calls_in m))

abbrev pub reduced : PairingMessage → List Block → PairingMessage
reduced m bs = record { role = "assistant"; blocks = bs; reasoning = m.reasoning }

abbrev pub answers : Dict Block → List Block → PairingMessage
answers results uses = record { role = "user"; blocks = map (answer results) uses; reasoning = "" }

-- The four ways out of `pairAssistant`.
pub data AssistantCase (results : Dict Block) (m : PairingMessage) : Type 0 where
  no_calls : calls_in m ≡ [] → pair_assistant results m ≡ (m ∷ [], []) → AssistantCase results m
  vanished :
      select (answered results) (calls_in m) ≡ []
      → others_in m ≡ []
      → pair_assistant results m ≡ ([], unanswered results m)
      → AssistantCase results m
  without_calls :
      select (answered results) (calls_in m) ≡ []
      → others_in m ≢ []
      → pair_assistant results m ≡ (reduced m (others_in m) ∷ [], unanswered results m)
      → AssistantCase results m
  with_answers :
      select (answered results) (calls_in m) ≢ []
      → pair_assistant results m ≡ (
        reduced m (others_in m ++ select (answered results) (calls_in m))
            ∷ answers results (select (answered results) (calls_in m))
            ∷ [],
        unanswered results m,
      )
      → AssistantCase results m

pub assistant_case : (results : Dict Block) (m : PairingMessage) → AssistantCase results m
unfolding pair_assistant
assistant_case results m = elim (Bool-cases (is_nil (calls_in m))) [
  | inl e ↦ no_calls (is_nil→≡ (calls_in m) e) (rw e)
  | inr e ↦
      let kept = select (answered results) (calls_in m) in
      elim (Bool-cases (is_nil kept)) [
        | inl d ↦ elim (Bool-cases (is_nil (others_in m))) [
          | inl c ↦ vanished (is_nil→≡ kept d) (is_nil→≡ (others_in m) c) (rw (e, d, c))
          | inr c ↦ without_calls (is_nil→≡ kept d) (is_nil→≢ (others_in m) c) (rw (e, d, c))
        ]
        | inr d ↦ with_answers (is_nil→≢ kept d) (rw (e, d))
      ]
]

-- The three ways out of `stripToolResults`.
pub data UserCase (m : PairingMessage) : Type 0 where
  no_results : select is_result m.blocks ≡ [] → strip_tool_results m ≡ m ∷ [] → UserCase m
  only_results :
      select (λ b. not (is_result b)) m.blocks ≡ [] → strip_tool_results m ≡ [] → UserCase m
  stripped :
      select (λ b. not (is_result b)) m.blocks ≢ []
      → strip_tool_results m ≡ record m { blocks = select (λ b. not (is_result b)) m.blocks } ∷ []
      → UserCase m

pub user_case : (m : PairingMessage) → UserCase m
unfolding strip_tool_results
user_case m = elim (Bool-cases (is_nil (select is_result m.blocks))) [
  | inl e ↦ no_results (is_nil→≡ (select is_result m.blocks) e) (rw e)
  | inr e ↦
      let kept = select (λ b. not (is_result b)) m.blocks in
      elim (Bool-cases (is_nil kept)) [
        | inl d ↦ only_results (is_nil→≡ kept d) (rw (e, d))
        | inr d ↦ stripped (is_nil→≢ kept d) (rw (e, d))
      ]
]
