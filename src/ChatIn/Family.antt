-- ===== src/ChatIn/Family.antt =====
-- internal/translate/chatin.go: `aggregateRequestWarns`, on the texts of the warnings. `itoa` is the
-- `%d` of fmt.Sprintf.
use Prim.Native.Char.{code}
use cmdc2api.Base.{
  ℕ, ◌-◌, String, Bool, true, false, ◌&&◌, ◌||◌, List, [], ◌∷◌, ◌++◌, ◌<>◌, ◌==◌, map, foldl, leb,
  ltb, length, take, if◌then◌else◌,
}
use cmdc2api.Request.Shape.{join_with}
use cmdc2api.Errs.{is_digit}

-- `warnIdentByte`.
abbrev pub warn_ident_byte : ℕ → Bool
warn_ident_byte c =
    is_digit c
    || ((leb b'a' c && leb c b'z') || ((leb b'A' c && leb c b'Z') || (leb b'_' c && leb c b'_')))

-- Where the loop of `chatWarnFamilyKey` stands: outside, within quotes, or within a word that was
-- `read` so far and has a digit or not.
pub data Scan : Type 0 where
  outside quoted : Scan
  within : String → Bool → Scan

-- What is written for a word.
abbrev word_key : String → Bool → String
word_key read true = "#"
word_key read false = read

unfoldable pub key_from : Scan → String → String
key_from outside String.[] = ""
key_from quoted String.[] = ""
key_from (within read digit) String.[] = word_key read digit
key_from outside (String.◌∷◌ c s) =
    let one = String.◌∷◌ c String.[] in
    elim (one == "\"") [
      | true ↦ String.◌∷◌ c (key_from quoted s)
      | false ↦ elim (warn_ident_byte (code c)) [
        | true ↦ key_from (within one (is_digit (code c))) s
        | false ↦ String.◌∷◌ c (key_from outside s)
      ]
    ]
key_from quoted (String.◌∷◌ c s) = elim (String.◌∷◌ c String.[] == "\"") [
  | true ↦ String.◌∷◌ c (key_from outside s)
  | false ↦ String.◌∷◌ c (key_from quoted s)
]
key_from (within read digit) (String.◌∷◌ c s) =
    let one = String.◌∷◌ c String.[] in
    elim (warn_ident_byte (code c)) [
      | true ↦ key_from (within (read <> one) (digit || is_digit (code c))) s
      | false ↦ elim (one == "\"") [
        | true ↦ word_key read digit <> String.◌∷◌ c (key_from quoted s)
        | false ↦ word_key read digit <> String.◌∷◌ c (key_from outside s)
      ]
    ]

unfoldable pub chat_warn_family_key : String → String
chat_warn_family_key w = key_from outside w

pub record Family : Type 0 where
  pub key : String
  pub first : String
  pub rest : List String

-- One warning, added to the families in the order of their first warnings.
unfoldable pub note_family : List Family → String → String → List Family
note_family [] k w = record { key = k; first = w; rest = [] } ∷ []
note_family (f ∷ fs) k w =
    let more = note_family fs k w in
    if f.key == k then record f { rest = f.rest ++ w ∷ [] } ∷ fs else f ∷ more

unfoldable pub add_warn : List Family → String → List Family
add_warn fs w = note_family fs (chat_warn_family_key w) w

unfoldable pub families : List String → List Family
families ws = foldl add_warn [] ws

unfoldable pub limit_warn_details : (ℕ → String) → List String → ℕ → List String
limit_warn_details itoa items max =
    if leb (length items) max
    then items
    else take max items ++ ("... +" <> (itoa (length items - max) <> " more")) ∷ []

unfoldable pub describe : (ℕ → String) → String → List String → String
describe itoa first [] = first
describe itoa first (w ∷ ws) =
    first
    <> (" (and "
        <> (itoa (length (w ∷ ws))
            <> (" more of the same kind in this request: "
                <> (join_with "; " (limit_warn_details itoa (w ∷ ws) 3) <> ")"))))

unfoldable pub aggregate_request_warns : (ℕ → String) → List String → List String
aggregate_request_warns itoa ws =
    if ltb (length ws) 2 then ws else map (λ f. describe itoa f.first f.rest) (families ws)
