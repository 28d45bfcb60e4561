-- ===== src/Request/Marker.antt =====
-- internal/translate/request.go: `synthesizeCacheMarker`, the cache breakpoint at the end of the
-- envelope. The two loops that go backwards are structural: the rest of the list is looked at first.
use cmdc2api.Base.{
  Bool, false, not, ◌||◌, Option, none, some, List, [], ◌∷◌, ◌==◌, is_some, if◌then◌else◌,
}
use cmdc2api.Types.Cmdc.{CcPart, CcMessage}
use cmdc2api.Request.Shape.{Warn, marker_synthesized, marker_impossible}

unfoldable pub mark : CcPart → CcPart
mark p = record p { cache_control = some (record { type = "ephemeral"; ttl = "" }) }

-- The inner loop: the last text part is marked; `none` where there is no text part.
unfoldable pub mark_parts : List CcPart → Option (List CcPart)
mark_parts [] = none
mark_parts (p ∷ ps) = elim (mark_parts ps) [
  | some qs ↦ some (p ∷ qs)
  | none ↦ if p.type == "text" then some (mark p ∷ ps) else none
]

abbrev pub marked_message :
    CcMessage → List CcMessage → Option (List CcPart) → Option (List CcMessage)
marked_message m ms none = none
marked_message m ms (some parts) = some (record m { content = parts } ∷ ms)

-- The outer loop.
unfoldable pub mark_last : List CcMessage → Option (List CcMessage)
mark_last [] = none
mark_last (m ∷ ms) = elim (mark_last ms) [
  | some ns ↦ some (m ∷ ns)
  | none ↦ marked_message m ms (mark_parts m.content)
]

abbrev pub any_part_marked : List CcPart → Bool
any_part_marked [] = false
any_part_marked (p ∷ ps) = is_some p.cache_control || any_part_marked ps

abbrev pub any_message_marked : List CcMessage → Bool
any_message_marked [] = false
any_message_marked (m ∷ ms) = any_part_marked m.content || any_message_marked ms

unfoldable pub place : Bool → List CcMessage → Option (List CcMessage) → List CcMessage × List Warn
place force msgs none = (msgs, marker_impossible ∷ [])
place force msgs (some marked) = (marked, if force then [] else marker_synthesized ∷ [])

unfoldable pub synthesize_cache_marker : List CcMessage → Bool → Bool → List CcMessage × List Warn
synthesize_cache_marker msgs need force =
    if not need || any_message_marked msgs then (msgs, []) else place force msgs (mark_last msgs)
