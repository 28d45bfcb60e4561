-- ===== src/Server/Log.antt =====
-- internal/server/body.go: the SSE writer refines a log of frames with a flag.
use cmdc2api.Base.{◌≡◌, refl, sym, ap, Bool, true, false, List, [], ◌∷◌, ◌++◌, map}
use mathlib.Core.List.{append-nil, map-append}
use cmdc2api.Server.Writer.{
  Write, head, frame, SseWriter, new_writer, add_frames, start_writer, reply,
}

module _ {F R : Type 0} where
  -- The writer whose frames so far are `fs`, with its head sent or not.
  abbrev pub logged : Bool → List F → SseWriter F R
  logged false fs = record { started = false; pending = fs; sent = [] }
  logged true fs = record { started = true; pending = []; sent = head ∷ map frame fs }

  pub new-logged : new_writer ≡ logged false []
  unfolding new_writer
  new-logged = refl

  pub add-logged : (b : Bool) (fs gs : List F) → add_frames (logged b fs) gs ≡ logged b (fs ++ gs)
  unfolding add_frames
  add-logged b fs [] = ap (logged b) (sym (append-nil fs))
  add-logged false fs (g ∷ gs) = refl
  add-logged true fs (g ∷ gs) =
      ap (λ z. record { started = true; pending = []; sent = head ∷ z })
        (sym (map-append frame fs (g ∷ gs)))

  pub start-logged : (b : Bool) (fs : List F) → start_writer (logged b fs) ≡ logged true fs
  unfolding start_writer
  start-logged false fs = refl
  start-logged true fs = refl

  pub sent-reply : (fs : List F) (r : Write F R) → (reply (logged false fs) r).sent ≡ r ∷ []
  unfolding reply
  sent-reply fs r = refl
