-- ===== src/Base/Maps.antt =====
-- A Go map that the program never iterates over: the latest entry of a key stands first.
use mathlib.Core.Bool.{Bool, false, ◌||◌}
use mathlib.Core.Option.{Option, none, some}
use mathlib.Core.List.{List, [], ◌∷◌}
use Prim.Native.String.{String}
use text.Mathlib.Text.{◌==◌}
use cmdc2api.Base.Tests.{if◌then◌else◌}

abbrev pub Dict {ℓ} : Type ℓ → Type ℓ
Dict V = List (String × V)

module _ {ℓ} {V : Type ℓ} where
  -- m[k]
  abbrev pub get : Dict V → String → Option V
  get [] k = none
  get ((j, v) ∷ m) k = if j == k then some v else get m k

  -- m[k] = v
  abbrev pub put : Dict V → String → V → Dict V
  put m k v = (k, v) ∷ m

-- A `map[string]bool` that holds only `true` is a list of its keys.
abbrev pub member : List String → String → Bool
member [] k = false
member (j ∷ m) k = j == k || member m k
