-- ===== src/Examples/Histories.antt =====
-- A history for internal/translate/pairing.go: one of two calls is answered, twice.
use cmdc2api.Base.{
  ◌<>◌, String, ◌≡◌, Option, none, some, List, [], ◌∷◌, ◌==◌, map, select, All, if◌then◌else◌,
}
use cmdc2api.Types.Inbound.{Block, zero_block, InboundMessage, Json}
use cmdc2api.Pairing.{repair_tool_pairing, build_message}
use cmdc2api.Pairing.Spec.{
  IsPaired, Alternates, HasBlocks, plain_content, calls, results, is_answered, latest_answer,
}
use cmdc2api.Pairing.Repair.{
  parsed, repaired, repair_valid, repair-plain_content, repair-calls, repair-results,
}

abbrev call : String → Block
call id = record zero_block { type = "tool_use"; id = id; name = "read" }

abbrev result : String → String → Block
result id text = record zero_block { type = "tool_result"; tool_use_id = id; content = text }

abbrev text : String → Block
text s = record zero_block { type = "text"; text = s }

abbrev sample_blocks : String → Option (List Block)
sample_blocks raw =
    if raw == "[calls]"
    then some (text "I look." ∷ call "a" ∷ call "b" ∷ [])
    else if raw == "[first]"
    then some (result "a" "old" ∷ [])
    else if raw == "[second]"
    then some (result "a" "new" ∷ text "Well?" ∷ [])
    else none

abbrev types_of : List Block → String
types_of [] = ""
types_of (b ∷ bs) = b.type <> "," <> types_of bs

abbrev sample_json : Json
sample_json = record {
  unmarshal_string = λ raw. if raw == "hello" then some "Hello" else none;
  unmarshal_blocks = sample_blocks;
  marshal_blocks = λ bs. some (types_of bs);
}

abbrev says : String → String → InboundMessage
says role content = record { role = role; content = content; reasoning_content = "" }

abbrev history : List InboundMessage
history =
    says "user" "hello"
    ∷ says "assistant" "[calls]"
    ∷ says "user" "[first]"
    ∷ says "user" "[second]"
    ∷ []

repair_valid_example :
    ((repair_tool_pairing sample_json history).0
      ≡ map (build_message sample_json) (repaired sample_json history))
    × IsPaired [] (repaired sample_json history)
    × Alternates (repaired sample_json history)
    × All HasBlocks (repaired sample_json history)
repair_valid_example = repair_valid sample_json history

repair-plain_content_example :
    plain_content (repaired sample_json history) ≡ plain_content (parsed sample_json history)
repair-plain_content_example = repair-plain_content sample_json history

repair-calls_example :
    calls (repaired sample_json history)
    ≡ select
        (is_answered (results (parsed sample_json history)))
        (calls (parsed sample_json history))
repair-calls_example = repair-calls sample_json history

repair-results_example :
    results (repaired sample_json history)
    ≡ map
        (latest_answer (results (parsed sample_json history)))
        (calls (repaired sample_json history))
repair-results_example = repair-results sample_json history
