-- ===== src/Server/Body.antt =====
-- internal/server/body.go: the request body with its limit, and the key of the client.
use Prim.Native.Nat.{◌/◌}
use cmdc2api.Base.{
  ℕ, ◌+◌, ◌-◌, ◌≤◌, ◌≡◌, ap, ◌∙◌, String, ◌<>◌, Bool, true, false, not, Option, none, some, List,
  [], ◌∷◌, ◌++◌, ◌==◌, leb, length, length-append, Bool-cases, inl, inr, if◌then◌else◌, arith,
}
use cmdc2api.ChatIn.Content.{cut_prefix}
use cmdc2api.Server.Writer.{Write, error_reply}

-- What `io.ReadAll` returns; the bytes that are read before an error are dropped by the caller.
pub data BodyRead : Type 0 where
  complete : List ℕ → BodyRead
  too_large unreadable : BodyRead

unfoldable pub prepend : List ℕ → BodyRead → BodyRead
prepend c (complete bytes) = complete (c ++ bytes)
prepend c too_large = too_large
prepend c unreadable = unreadable

-- `io.ReadAll` of the `limitedReader`: the chunks that the reads give, and whether the last read
-- fails. `remaining` is the limit less what was read; it is below zero where a chunk is longer.
unfoldable pub read_limited : ℕ → List (List ℕ) → Bool → BodyRead
read_limited remaining [] fails = if fails then unreadable else complete []
read_limited remaining (c ∷ cs) fails =
    let rest = read_limited (remaining - length c) cs fails in
    if leb (length c) remaining then prepend c rest else too_large

-- `readBody`: the body, or the error reply. `json.Valid` and the `%d` of the message are arguments.
unfoldable pub read_body :
    {F R : Type 0}
    → (List ℕ → Bool)
    → (ℕ → String)
    → ℕ
    → List (List ℕ)
    → Bool
    → Option (List ℕ) × List (Write F R)
read_body valid itoa limit chunks fails = elim (read_limited limit chunks fails) [
  | too_large ↦ (
    none,
    error_reply 413 "invalid_request_error"
          ("Request body exceeds " <> (itoa (limit / 1048576) <> "MB limit")) 0
        ∷ [],
  )
  | unreadable ↦ (none, error_reply 400 "invalid_request_error" "Invalid JSON body" 0 ∷ [])
  | complete bytes ↦
      if not (valid bytes)
      then (none, error_reply 400 "invalid_request_error" "Invalid JSON body" 0 ∷ [])
      else (some bytes, [])
]

-- The token of an `Authorization` header, empty where it has another scheme.
unfoldable pub bearer_token : (String → String) → String → String
bearer_token trim_space auth = elim (cut_prefix "Bearer " auth) [
  | none ↦ ""
  | some token ↦ trim_space token
]

-- `getAPIKey`, for the two headers; `strings.TrimSpace` is an argument.
unfoldable pub get_api_key : (String → String) → String → String → String
get_api_key trim_space auth x_api_key =
    let token = bearer_token trim_space auth in if token == "" then trim_space x_api_key else token

abbrev pub missing_api_key : {F R : Type 0} → Write F R
missing_api_key =
    error_reply 401 "authentication_error"
      "Missing API key. Send a cmdc key (user_ prefix) in Authorization: Bearer <key> or x-api-key header"
      0

abbrev pub concat_bytes : List (List ℕ) → List ℕ
concat_bytes [] = []
concat_bytes (c ∷ cs) = c ++ concat_bytes cs

abbrev judged : Bool → ℕ → ℕ → List ℕ → BodyRead
judged fails total limit bytes =
    if leb total limit then (if fails then unreadable else complete bytes) else too_large

prepend-judged :
    (fails : Bool) (c bytes : List ℕ) (limit : ℕ)
    → length c ≤ limit
    → prepend c (judged fails (length bytes) (limit - length c) bytes)
      ≡ judged fails (length (c ++ bytes)) limit (c ++ bytes)
unfolding prepend
prepend-judged fails c bytes limit h = rw (length-append c bytes) (go fails)
  where
    go :
        (b : Bool)
        → prepend c (judged b (length bytes) (limit - length c) bytes)
          ≡ judged b (length c + length bytes) limit (c ++ bytes)
    go true = ground arith
    go false = ground arith

-- For every way in which a body arrives in chunks: it is refused as too large exactly where all its
-- bytes are more than the limit; else it is its bytes in order, or unreadable where a read fails.
pub read_limited-judged :
    (limit : ℕ) (chunks : List (List ℕ)) (fails : Bool)
    → read_limited limit chunks fails ≡ (
        let bytes = concat_bytes chunks in
        if leb (length bytes) limit
        then (if fails then unreadable else complete bytes)
        else too_large)
unfolding read_limited
read_limited-judged limit [] fails = ground arith
read_limited-judged limit (c ∷ cs) fails = elim (Bool-cases (leb (length c) limit)) [
  | inl e ↦ rw e (
      ap (prepend c) (read_limited-judged (limit - length c) cs fails)
      ∙ prepend-judged fails c (concat_bytes cs) limit (ground arith))
  | inr e ↦ rw (e, length-append c (concat_bytes cs)) (ground arith)
]
