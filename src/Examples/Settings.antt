-- ===== src/Examples/Settings.antt =====
-- A session store and an environment, for internal/masq/session.go and internal/config/config.go.
use cmdc2api.Base.{
  ℕ, String, ◌≡◌, refl, true, none, some, List, [], ◌∷◌, ◌==◌, ◌⊎◌, pos, is_pos, if◌then◌else◌,
  arith,
}
use cmdc2api.Session.{SessionStore, Call, entry_of, session_header, resolve_session}
use cmdc2api.Session.Sticky.{Move, resolving, cleaning, run, IsPlain, session_sticky}
use cmdc2api.Config.{Environment, load}
use cmdc2api.Config.Valid.{load_valid}

abbrev store : SessionStore
store = record { strategy = "key"; by_key = [] }

abbrev at_time : ℕ → String → Call
at_time now id = record { get = λ name. ""; now = now; new_id = id; jitter = 5 }

abbrev moves : List Move
moves = resolving (at_time 20 "id_2") "user_2" "p" ∷ cleaning 30 ∷ []

at_time-IsPlain : (now : ℕ) (id : String) → IsPlain (at_time now id)
unfolding session_header
at_time-IsPlain now id = refl

session_sticky_example :
    ((resolve_session store (at_time 10 "id_1") "user_1" "p").1 ≡ "id_1")
    × ((resolve_session
          (run (resolve_session store (at_time 10 "id_1") "user_1" "p").0 moves)
          (at_time 40 "id_3")
          "user_1"
          "q").1
        ≡ "id_1")
unfolding entry_of
session_sticky_example =
    session_sticky store (at_time 10 "id_1") (at_time 40 "id_3") "user_1" "p" "q" moves refl
      (at_time-IsPlain 10 "id_1") (at_time-IsPlain 40 "id_3") refl (omega arith, (omega arith, tt))
      (omega arith)

abbrev environment : Environment
environment = record {
  getenv = λ name. if name == "CC_MAX_BODY_MB" then "5" else "";
  atoi = λ s. none;
  parse_int = λ s. some (pos 5);
  parse_duration = λ s. none;
}

load_valid_example :
    (is_pos (load environment).port ≡ true)
    × (is_pos (load environment).max_body_bytes ≡ true)
    × (is_pos (load environment).model_refresh ≡ true)
    × (((load environment).session_strategy ≡ "prefix")
        ⊎ ((load environment).session_strategy ≡ "key"))
    × (((load environment).cache_markers ≡ "respect")
        ⊎ ((load environment).cache_markers ≡ "replace"))
load_valid_example = load_valid environment (omega arith)
