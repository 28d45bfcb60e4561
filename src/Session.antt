-- ===== src/Session.antt =====
-- internal/masq/session.go: the session store. Times are nanoseconds; the clock, the random id and the
-- random jitter are arguments, and so are the headers, as `Get` reads them.
pub mod Entries
pub mod Sticky
use Prim.Native.String.{len}
use cmdc2api.Base.{
  ℕ, ◌+◌, String, Bool, true, false, not, ◌&&◌, ◌||◌, Option, none, some, List, [], ◌∷◌, ◌==◌, leb,
  ltb, if◌then◌else◌,
}

pub record SessionEntry : Type 0 where
  pub id : String
  pub expires_at : ℕ

pub record SessionStore : Type 0 where
  pub strategy : String
  pub by_key : List (String × SessionEntry)

unfoldable pub new_session_store : String → SessionStore
new_session_store strategy = record { strategy = strategy; by_key = [] }

-- byKey[key]
unfoldable pub entry_of : List (String × SessionEntry) → String → Option SessionEntry
entry_of [] k = none
entry_of ((j, e) ∷ m) k = let rest = entry_of m k in if j == k then some e else rest

-- byKey[key] = e, in the place of an entry that is there.
unfoldable pub set_entry :
    List (String × SessionEntry) → String → SessionEntry → List (String × SessionEntry)
set_entry [] k e = (k, e) ∷ []
set_entry ((j, d) ∷ m) k e =
    let rest = set_entry m k e in if j == k then (k, e) ∷ m else (j, d) ∷ rest

-- `sessionDuration`, and `sessionJitter`, which bounds the random part.
abbrev pub session_duration : ℕ
session_duration = 43200000000000

-- The first of the three headers that has eight bytes or more.
unfoldable pub session_header : (String → String) → List String → Option String
session_header get [] = none
session_header get (name ∷ names) =
    let rest = session_header get names in if leb 8 (len (get name)) then some (get name) else rest

-- What the library gives in a call: the headers, the time, a new id and the jitter.
pub record Call : Type 0 where
  pub get : String → String
  pub now : ℕ
  pub new_id : String
  pub jitter : ℕ

-- The entry of a key, where it is there and has not expired.
abbrev pub is_live : ℕ → Option SessionEntry → Bool
is_live now none = false
is_live now (some e) = ltb now e.expires_at

abbrev pub id_of : Option SessionEntry → String
id_of none = ""
id_of (some e) = e.id

abbrev pub new_entry : Call → SessionEntry
new_entry c = record { id = c.new_id; expires_at = c.now + (session_duration + c.jitter) }

-- `ResolveSession` behind the headers and the prefix.
unfoldable pub resolve_by_key : SessionStore → Call → String → SessionStore × String
resolve_by_key s c api_key =
    let e = entry_of s.by_key api_key in
    if is_live c.now e
    then (s, id_of e)
    else (record s { by_key = set_entry s.by_key api_key (new_entry c) }, c.new_id)

abbrev pub session_headers : List String
session_headers = "x-session-id" ∷ "x-claude-code-session-id" ∷ "session_id" ∷ []

-- A header goes before all else.
unfoldable pub or_header :
    SessionStore → Option String → SessionStore × String → SessionStore × String
or_header s (some v) r = (s, v)
or_header s none r = r

unfoldable pub resolve_session : SessionStore → Call → String → String → SessionStore × String
resolve_session s c api_key prefix_key =
    let by_key = resolve_by_key s c api_key in
    or_header s (session_header c.get session_headers)
      (if s.strategy == "prefix" && not (prefix_key == "") then (s, prefix_key) else by_key)

-- The loop of `Cleanup`.
unfoldable pub drop_expired : ℕ → List (String × SessionEntry) → List (String × SessionEntry)
drop_expired now [] = []
drop_expired now ((k, e) ∷ m) =
    let rest = drop_expired now m in if ltb e.expires_at now then rest else (k, e) ∷ rest

unfoldable pub cleanup : SessionStore → ℕ → SessionStore
cleanup s now =
    if not (s.strategy == "key") then s else record s { by_key = drop_expired now s.by_key }
