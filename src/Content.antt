-- ===== src/Content.antt =====
-- internal/translate/request.go: `parseBlocks`, the reading of a `content` field.
use cmdc2api.Base.{String, Option, none, some, List, [], ◌∷◌, ◌==◌, if◌then◌else◌}
use cmdc2api.Types.Inbound.{Block, zero_block, Json}

-- A text becomes one text block, the empty text none.
abbrev pub text_block : String → List Block
text_block s = if s == "" then [] else record zero_block { type = "text"; text = s } ∷ []

unfoldable pub parse_blocks : Json → String → Option (List Block)
parse_blocks json raw = if raw == "" then some [] else elim (json.unmarshal_string raw) [
  | some s ↦ some (text_block s)
  | none ↦ json.unmarshal_blocks raw
]
