-- ===== src/Errs.antt =====
-- internal/errs/errs.go: upstream statuses and messages become a client's status, an error type and
-- the seconds of `Retry-After`.
pub mod Laws
use Prim.Native.Char.{code}
use cmdc2api.Base.{
  ◌<>◌, ℕ, ◌+◌, ◌-◌, ◌*◌, String, Bool, ◌&&◌, ◌||◌, Option, none, some, List, [], ◌∷◌, ◌==◌, leb,
  eqb, is_nil, or_else, non_empty, take, if◌then◌else◌,
}

-- What `MapStatus` returns.
pub record Mapped : Type 0 where
  pub status : ℕ
  pub type : String
  pub retry_after : ℕ

unfoldable pub map_status : ℕ → Mapped
map_status cc_status =
    if eqb cc_status 400
    then record { status = 400; type = "invalid_request_error"; retry_after = 0 }
    else if eqb cc_status 401
    then record { status = 401; type = "authentication_error"; retry_after = 0 }
    else if eqb cc_status 402
    then record { status = 429; type = "rate_limit_error"; retry_after = 30 }
    else if eqb cc_status 403
    then record { status = 401; type = "authentication_error"; retry_after = 0 }
    else if eqb cc_status 404
    then record { status = 404; type = "not_found_error"; retry_after = 0 }
    else if eqb cc_status 422
    then record { status = 400; type = "invalid_request_error"; retry_after = 0 }
    else if eqb cc_status 429
    then record { status = 429; type = "rate_limit_error"; retry_after = 30 }
    else if eqb cc_status 500 || eqb cc_status 502
    then record { status = 502; type = "api_error"; retry_after = 0 }
    else if eqb cc_status 503
    then record { status = 503; type = "overloaded_error"; retry_after = 0 }
    else record { status = 502; type = "api_error"; retry_after = 0 }

abbrev pub is_digit : ℕ → Bool
is_digit c = leb b'0' c && leb c b'9'

-- The match of `^<(\d{3})>` and the number that `Sscanf` reads from the group.
unfoldable pub status_from_message : String → ℕ
status_from_message
      (String.◌∷◌ l (String.◌∷◌ a (String.◌∷◌ b (String.◌∷◌ c (String.◌∷◌ g rest))))) =
    if eqb (code l) b'<'
      && (is_digit (code a) && (is_digit (code b) && (is_digit (code c) && eqb (code g) b'>')))
    then (code a - b'0') * 100 + (code b - b'0') * 10 + (code c - b'0')
    else 502
status_from_message _ = 502

-- The library calls of `ExtractMessage`: `json.Unmarshal` of a body into its two message fields,
-- `strings.TrimSpace(string(body))` and the digits of the status in `Sprintf`.
pub record BodyText : Type 0 where
  pub unmarshal : List ℕ → Option (Option String × String)
  pub trimmed : List ℕ → String
  pub itoa : ℕ → String

-- `parsed.Error.Message` where it is there and not empty, else `parsed.Message` likewise.
unfoldable pub parsed_message : Option (Option String × String) → Option String
parsed_message none = none
parsed_message (some (none, message)) = non_empty message
parsed_message (some (some inner, message)) = or_else (non_empty inner) (non_empty message)

unfoldable pub body_or : String → String → String
body_or s fallback = if s == "" then fallback else s

-- `fallback` in `ExtractMessage`.
abbrev pub status_text : BodyText → ℕ → String
status_text text cc_status = "CC API error (" <> (text.itoa cc_status <> ")")

-- `ExtractMessage` over the bytes of the body; `body[:200]` where it is longer.
unfoldable pub extract_message : BodyText → List ℕ → ℕ → String
extract_message text body cc_status =
    if is_nil body
    then status_text text cc_status
    else elim (parsed_message (text.unmarshal body)) [
      | some message ↦ message
      | none ↦ body_or (text.trimmed (take 200 body)) (status_text text cc_status)
    ]

-- `Map` and `MapEvent`; the message comes beside the mapping.
unfoldable pub map_error : BodyText → ℕ → List ℕ → Mapped × String
map_error text cc_status body = (map_status cc_status, extract_message text body cc_status)

unfoldable pub map_event : String → Mapped × String
map_event message =
    let m = if message == "" then "Unknown CC error" else message in
    (map_status (status_from_message m), m)
