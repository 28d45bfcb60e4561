-- ===== src/Pairing/Latest.antt =====
-- The result index of `pairToolCalls` holds, for each id, the last result of the history.
use mathlib.Core.List.{foldl}
use cmdc2api.Base.{
  or_else, String, ◌≡◌, refl, sym, ap, ◌∙◌, Option, none, some, inl, inr, List, [], ◌∷◌, ◌++◌, ◌==◌,
  Bool-cases, get, arith,
}
use cmdc2api.Types.Inbound.{Block}
use cmdc2api.Pairing.{
  PairingMessage, is_result, Index, empty_index, index_block, index_message, index_messages,
}
use cmdc2api.Pairing.Spec.{result_blocks, results, latest}
use cmdc2api.Pairing.Results.{note_duplicate-results}

pub or_else-none : (o : Option Block) → or_else o none ≡ o
or_else-none none = refl
or_else-none (some x) = refl

or_else_assoc : (a b c : Option Block) → or_else (or_else a b) c ≡ or_else a (or_else b c)
or_else_assoc none b c = refl
or_else_assoc (some x) b c = refl

latest-append :
    (xs ys : List Block) (k : String) → latest (xs ++ ys) k ≡ or_else (latest ys k) (latest xs k)
unfolding latest
latest-append [] ys k = sym (or_else-none (latest ys k))
latest-append (x ∷ xs) ys k =
    rw (latest-append xs ys k) (or_else_assoc (latest ys k) (latest xs k) _)

get-index_block :
    (role : String) (s : Index) (b : Block) (k : String)
    → get (index_block role s b).results k
      ≡ or_else (latest (result_blocks role (b ∷ [])) k) (get s.results k)
unfolding index_block latest
get-index_block role s b k = elim (Bool-cases (role == "user")) [
  | inl u ↦ elim (Bool-cases (is_result b)) [
    | inl r ↦ elim (Bool-cases (b.tool_use_id == "")) [
      | inl z ↦ rw (u, r, z) (ground arith)
      | inr z ↦ rw (u, r, z) (rw (note_duplicate-results s b.tool_use_id) (ground arith))
    ]
    | inr r ↦ rw (u, r) (ground arith)
  ]
  | inr u ↦ rw u (ground arith)
]

result_blocks-cons :
    (role : String) (b : Block) (bs : List Block)
    → result_blocks role (b ∷ bs) ≡ result_blocks role (b ∷ []) ++ result_blocks role bs
result_blocks-cons role b bs = ground arith

latest-result_blocks-cons :
    (role : String) (b : Block) (bs : List Block) (k : String)
    → latest (result_blocks role (b ∷ bs)) k
      ≡ or_else (latest (result_blocks role bs) k) (latest (result_blocks role (b ∷ [])) k)
latest-result_blocks-cons role b bs k =
    ap (λ t. latest t k) (result_blocks-cons role b bs)
    ∙ latest-append (result_blocks role (b ∷ [])) (result_blocks role bs) k

get-index_blocks :
    (role : String) (s : Index) (bs : List Block) (k : String)
    → get (foldl (index_block role) s bs).results k
      ≡ or_else (latest (result_blocks role bs) k) (get s.results k)
get-index_blocks role s [] k = elim (Bool-cases (role == "user")) [
  | inl u ↦ rw u (unfold latest in refl)
  | inr u ↦ rw u (unfold latest in refl)
]
get-index_blocks role s (b ∷ bs) k =
    get-index_blocks role (index_block role s b) bs k
    ∙ ap (or_else (latest (result_blocks role bs) k)) (get-index_block role s b k)
    ∙ sym (
        or_else_assoc (latest (result_blocks role bs) k) (latest (result_blocks role (b ∷ [])) k)
          (get s.results k))
    ∙ ap (λ o. or_else o (get s.results k)) (sym (latest-result_blocks-cons role b bs k))

get-index_from :
    (s : Index) (ms : List PairingMessage) (k : String)
    → get (foldl index_message s ms).results k ≡ or_else (latest (results ms) k) (get s.results k)
get-index_from s [] k = unfold latest in refl
get-index_from s (m ∷ ms) k =
    get-index_from (index_message s m) ms k
    ∙ rw (latest-append (result_blocks m.role m.blocks) (results ms) k) (
        unfold index_message in
        rw (get-index_blocks m.role s m.blocks k) (
          sym (
            or_else_assoc (latest (results ms) k) (latest (result_blocks m.role m.blocks) k)
              (get s.results k))))

-- The index holds the last result of each id, whatever came before it.
pub get-index_messages :
    (ms : List PairingMessage) (k : String)
    → get (index_messages ms).results k ≡ or_else (latest (results ms) k) none
unfolding index_messages
get-index_messages ms k = get-index_from empty_index ms k
