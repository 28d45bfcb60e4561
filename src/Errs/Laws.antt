-- ===== src/Errs/Laws.antt =====
-- What the error mappings guarantee.
use Prim.Native.Char.{Char}
use text.Mathlib.TextLemmas.{cons-append}
use cmdc2api.Base.{
  cons-ne, ℕ, ◌≤◌, ◌<◌, String, ◌<>◌, ◌≡◌, ◌≢◌, Option, none, some, inl, inr, List, [], ◌∷◌, ◌==◌,
  ==-ne, Bool-cases, or_else, non_empty, eqb, take, arith, if◌then◌else◌,
}
use cmdc2api.Errs.{
  Mapped, map_status, BodyText, status_text, parsed_message, body_or, extract_message,
}

-- The table of Anthropic error types by status.
abbrev pub type_of_status : ℕ → String
type_of_status s =
    if eqb s 400
    then "invalid_request_error"
    else if eqb s 401
    then "authentication_error"
    else if eqb s 404
    then "not_found_error"
    else if eqb s 429
    then "rate_limit_error"
    else if eqb s 503
    then "overloaded_error"
    else "api_error"

abbrev pub IsErrorMapping : Mapped → Type 0
IsErrorMapping m =
    (400 ≤ m.status)
    × (m.status < 600)
    × (m.type ≡ type_of_status m.status)
    × (m.retry_after ≡ (if eqb m.status 429 then 30 else 0))

-- Every upstream status becomes an HTTP error status, the error type is the one that belongs to the
-- outgoing status, and a client is told to retry, after 30 seconds, exactly on 429.
pub map_status_consistent : (cc_status : ℕ) → IsErrorMapping (map_status cc_status)
unfolding map_status
map_status_consistent cc_status = ground arith

abbrev IsFilled : Option String → Type 0
IsFilled none = Unit
IsFilled (some m) = m ≢ ""

non_empty-IsFilled : (s : String) → IsFilled (non_empty s)
non_empty-IsFilled s = elim (Bool-cases (s == "")) [ inl e ↦ rw e tt | inr e ↦ rw e (==-ne s "" e) ]

or_else-IsFilled : (o p : Option String) → IsFilled o → IsFilled p → IsFilled (or_else o p)
or_else-IsFilled none p h k = k
or_else-IsFilled (some m) p h k = h

parsed_message-IsFilled : (o : Option (Option String × String)) → IsFilled (parsed_message o)
unfolding parsed_message
parsed_message-IsFilled none = tt
parsed_message-IsFilled (some (none, m)) = non_empty-IsFilled m
parsed_message-IsFilled (some (some i, m)) =
    or_else-IsFilled (non_empty i) (non_empty m) (non_empty-IsFilled i) (non_empty-IsFilled m)

body_or-ne : (s fallback : String) → fallback ≢ "" → body_or s fallback ≢ ""
unfolding body_or
body_or-ne s fallback h = elim (Bool-cases (s == "")) [
  | inl e ↦ rw e h
  | inr e ↦ rw e (==-ne s "" e)
]

or_body-ne :
    (o : Option String) (s : String)
    → IsFilled o
    → s ≢ ""
    → (let r : String = elim o [ some message ↦ message | none ↦ s ] in r) ≢ ""
or_body-ne none s h k = k
or_body-ne (some m) s h k = h

append-ne : (c : Char) (p s : String) → String.◌∷◌ c p <> s ≢ ""
append-ne c p s = rw (cons-append c p s) (cons-ne c (p <> s))

status_text-ne : (text : BodyText) (cc_status : ℕ) → status_text text cc_status ≢ ""
status_text-ne text cc_status = append-ne "C" "C API error (" (text.itoa cc_status <> ")")

-- The message for the client is never empty, whatever the body and the status.
pub extract_message-ne-nil :
    (text : BodyText) (body : List ℕ) (cc_status : ℕ) → extract_message text body cc_status ≢ ""
unfolding extract_message
extract_message-ne-nil text [] cc_status = status_text-ne text cc_status
extract_message-ne-nil text (b ∷ body) cc_status =
    or_body-ne (parsed_message (text.unmarshal (b ∷ body)))
      (body_or (text.trimmed (take 200 (b ∷ body))) (status_text text cc_status))
      (parsed_message-IsFilled (text.unmarshal (b ∷ body)))
      (body_or-ne (text.trimmed (take 200 (b ∷ body))) (status_text text cc_status)
        (status_text-ne text cc_status))
