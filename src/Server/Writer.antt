-- ===== src/Server/Writer.antt =====
-- internal/server/body.go: the SSE writer that holds frames back until the head is sent. What is
-- handed to the HTTP library is a list of writes; that the library fails is not modelled.
use cmdc2api.Base.{ℕ, String, Bool, true, false, List, [], ◌∷◌, ◌++◌, map, if◌then◌else◌}

-- The 200 head of an event stream, a frame, an error reply with its status, type, message and
-- `Retry-After` (0 is none), and a 200 reply with a body.
pub data Write (F R : Type 0) : Type 0 where
  head : Write F R
  frame : F → Write F R
  error_reply : ℕ → String → String → ℕ → Write F R
  json_reply : R → Write F R

pub record SseWriter (F R : Type 0) : Type 0 where
  pub started : Bool
  pub pending : List F
  pub sent : List (Write F R)

module _ {F R : Type 0} where
  unfoldable pub new_writer : SseWriter F R
  new_writer = record { started = false; pending = []; sent = [] }

  -- `add`.
  unfoldable pub add_frames : SseWriter F R → List F → SseWriter F R
  add_frames w [] = w
  add_frames w (f ∷ fs) =
      if w.started
      then record w { sent = w.sent ++ map frame (f ∷ fs) }
      else record w { pending = w.pending ++ f ∷ fs }

  -- `start`.
  unfoldable pub start_writer : SseWriter F R → SseWriter F R
  start_writer w =
      if w.started
      then w
      else record { started = true; pending = []; sent = w.sent ++ head ∷ map frame w.pending }

  -- An error reply or a body, which the handlers write past the SSE writer.
  unfoldable pub reply : SseWriter F R → Write F R → SseWriter F R
  reply w r = record w { sent = w.sent ++ r ∷ [] }
