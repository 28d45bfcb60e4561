-- ===== src/Examples/Responses.antt =====
-- A Responses stream for internal/translate/respout.go.
use cmdc2api.Base.{String, true, false, none, List, [], ◌∷◌}
use cmdc2api.Types.Event.{StreamEvent}
use cmdc2api.RespOut.Machine.{OutJson, ToolMapping, new_resp_out}
use cmdc2api.RespOut.Deltas.{feed_all}
use cmdc2api.RespOut.Numbers.{IsRun, responses-IsRun}
use cmdc2api.Examples.Chats.{events}

abbrev json : OutJson
json = record {
  unmarshal_fields = λ s. none;
  unmarshal_string = λ s. none;
  trim_space = λ s. s;
  itoa = λ n. "0";
}

abbrev mapping : ToolMapping
mapping = record { tool_search = false; custom = λ s. true; namespace = λ s. none }

abbrev with_ids : List StreamEvent → List (String × StreamEvent)
with_ids [] = []
with_ids (ev ∷ evs) = ("toolu_1", ev) ∷ with_ids evs

responses-IsRun_example : IsRun 0 (feed_all json (with_ids events) (new_resp_out "r1" mapping))
responses-IsRun_example = responses-IsRun json "r1" mapping (with_ids events)
