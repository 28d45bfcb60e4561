-- ===== src/Session/Sticky.antt =====
-- internal/masq/session.go: a key keeps its session.
use mathlib.Core.Path.{subst}
use cmdc2api.Base.{
  ℕ, ◌+◌, ◌<◌, String, ◌≡◌, refl, sym, ap, ◌∙◌, Bool, true, false, not, ◌&&◌, Option, none, some,
  List, [], ◌∷◌, ◌==◌, ≢→==, ltb, if◌then◌else◌, arith,
}
use cmdc2api.Session.{
  or_header, SessionEntry, SessionStore, entry_of, session_duration, session_header,
  session_headers, Call, is_live, new_entry, resolve_by_key, resolve_session, drop_expired, cleanup,
}
use cmdc2api.Session.Entries.{entry-set_same, entry-set_other, entry-drop_expired, differ}

-- A call of the store, or a cleanup at a time.
pub data Move : Type 0 where
  resolving : Call → String → String → Move
  cleaning : ℕ → Move

abbrev pub time_of : Move → ℕ
time_of (resolving c k p) = c.now
time_of (cleaning now) = now

abbrev pub moved : SessionStore → Move → SessionStore
moved s (resolving c k p) = (resolve_session s c k p).0
moved s (cleaning now) = cleanup s now

-- A run of the store.
abbrev pub run : SessionStore → List Move → SessionStore
run s [] = s
run s (m ∷ ms) = run (moved s m) ms

abbrev pub AllBefore : ℕ → List Move → Type 0
AllBefore t [] = Unit
AllBefore t (m ∷ ms) = (time_of m < t) × AllBefore t ms

more-AllBefore :
    (c : Call) (ms : List Move)
    → AllBefore (c.now + session_duration) ms
    → AllBefore (new_entry c).expires_at ms
more-AllBefore c [] a = tt
more-AllBefore c (m ∷ ms) a = (omega (arith, a.0), more-AllBefore c ms a.1)

-- A store holds an entry for a key.
abbrev IsHeld : SessionStore → String → SessionEntry → Type 0
IsHeld s k e = entry_of s.by_key k ≡ some e

if-IsHeld :
    (b : Bool) (k : String) (e : SessionEntry) (x y : SessionStore × String)
    → (b ≡ true → IsHeld x.0 k e)
    → (b ≡ false → IsHeld y.0 k e)
    → IsHeld (if b then x else y).0 k e
if-IsHeld true k e x y f g = f refl
if-IsHeld false k e x y f g = g refl

resolve_by_key-IsHeld :
    (s : SessionStore) (c : Call) (l k : String) (e : SessionEntry)
    → c.now < e.expires_at
    → IsHeld s k e
    → IsHeld (resolve_by_key s c l).0 k e
unfolding resolve_by_key
resolve_by_key-IsHeld s c l k e h g =
    if-IsHeld (is_live c.now (entry_of s.by_key l)) k e _ _ (λ _. g)
      (λ n. entry-set_other s.by_key k l (new_entry c) (other n) ∙ g)
  where
    live : is_live c.now (some e) ≡ true
    live = ground arith

    other : is_live c.now (entry_of s.by_key l) ≡ false → (l == k) ≡ false
    other n = ≢→== l k (λ q. differ (
        sym live
        ∙ ap (is_live c.now) (sym g)
        ∙ ap (λ z. is_live c.now (entry_of s.by_key z)) (sym q)
        ∙ n))

resolve_session-IsHeld :
    (s : SessionStore) (c : Call) (l p k : String) (e : SessionEntry)
    → c.now < e.expires_at
    → IsHeld s k e
    → IsHeld (resolve_session s c l p).0 k e
unfolding resolve_session or_header
resolve_session-IsHeld s c l p k e h g = go (session_header c.get session_headers) _ (
    if-IsHeld (s.strategy == "prefix" && not (p == "")) k e (s, p) _ (λ _. g)
      (λ _. resolve_by_key-IsHeld s c l k e h g))
  where
    go :
        (o : Option String) (r : SessionStore × String)
        → IsHeld r.0 k e
        → IsHeld (or_header s o r).0 k e
    go (some v) r q = g
    go none r q = q

cleanup-IsHeld :
    (s : SessionStore) (now : ℕ) (k : String) (e : SessionEntry)
    → now < e.expires_at
    → IsHeld s k e
    → IsHeld (cleanup s now) k e
unfolding cleanup
cleanup-IsHeld s now k e h g =
    go (not (s.strategy == "key")) (entry-drop_expired s.by_key now k e h g)
  where
    go :
        (b : Bool)
        → entry_of (drop_expired now s.by_key) k ≡ some e
        → IsHeld (if b then s else record s { by_key = drop_expired now s.by_key }) k e
    go true q = g
    go false q = q

run-IsHeld :
    (s : SessionStore) (ms : List Move) (k : String) (e : SessionEntry)
    → AllBefore e.expires_at ms
    → IsHeld s k e
    → IsHeld (run s ms) k e
run-IsHeld s [] k e a h = h
run-IsHeld s (resolving c l p ∷ ms) k e a h =
    run-IsHeld (moved s (resolving c l p)) ms k e a.1 (resolve_session-IsHeld s c l p k e a.0 h)
run-IsHeld s (cleaning now ∷ ms) k e a h =
    run-IsHeld (moved s (cleaning now)) ms k e a.1 (cleanup-IsHeld s now k e a.0 h)

-- A call that has no header of a session.
abbrev pub IsPlain : Call → Type 0
IsPlain c = session_header c.get session_headers ≡ none

plain-resolve :
    (s : SessionStore) (c : Call) (k p : String)
    → IsPlain c
    → (s.strategy == "prefix") ≡ false
    → resolve_session s c k p ≡ resolve_by_key s c k
unfolding resolve_session or_header
plain-resolve s c k p h n = rw (h, n) refl

strategy-if :
    (b : Bool) (z : String) (x y : SessionStore × String)
    → x.0.strategy ≡ z
    → y.0.strategy ≡ z
    → (if b then x else y).0.strategy ≡ z
strategy-if true z x y f g = f
strategy-if false z x y f g = g

strategy-resolve :
    (s : SessionStore) (c : Call) (k p : String) → (resolve_session s c k p).0.strategy ≡ s.strategy
unfolding resolve_session or_header resolve_by_key
strategy-resolve s c k p = go (session_header c.get session_headers) _ (
    strategy-if (s.strategy == "prefix" && not (p == "")) s.strategy (s, p) _ refl
      (strategy-if (is_live c.now (entry_of s.by_key k)) s.strategy _ _ refl refl))
  where
    go :
        (o : Option String) (r : SessionStore × String)
        → r.0.strategy ≡ s.strategy
        → (or_header s o r).0.strategy ≡ s.strategy
    go (some v) r q = refl
    go none r q = q

strategy-cleanup : (s : SessionStore) (now : ℕ) → (cleanup s now).strategy ≡ s.strategy
unfolding cleanup
strategy-cleanup s now = go (not (s.strategy == "key"))
  where
    go :
        (b : Bool)
        → (if b then s else record s { by_key = drop_expired now s.by_key }).strategy ≡ s.strategy
    go true = refl
    go false = refl

strategy-run : (s : SessionStore) (ms : List Move) → (run s ms).strategy ≡ s.strategy
strategy-run s [] = refl
strategy-run s (resolving c k p ∷ ms) =
    strategy-run (moved s (resolving c k p)) ms ∙ strategy-resolve s c k p
strategy-run s (cleaning now ∷ ms) =
    strategy-run (moved s (cleaning now)) ms ∙ strategy-cleanup s now

held-resolve :
    (s : SessionStore) (c : Call) (k : String) (e : SessionEntry)
    → c.now < e.expires_at
    → IsHeld s k e
    → (resolve_by_key s c k).1 ≡ e.id
unfolding resolve_by_key
held-resolve s c k e h g = rw (g, live) refl
  where
    live : ltb c.now e.expires_at ≡ true
    live = ground arith

new-IsHeld :
    (s : SessionStore) (c : Call) (k : String)
    → is_live c.now (entry_of s.by_key k) ≡ false
    → IsHeld (resolve_by_key s c k).0 k (new_entry c) × ((resolve_by_key s c k).1 ≡ c.new_id)
unfolding resolve_by_key
new-IsHeld s c k h = rw h (entry-set_same s.by_key k (new_entry c), refl)

-- Under any strategy but `prefix`: where a call without a session header finds no live session of its
-- key, it gets a new one, and every such call of the key within twelve hours gets the same one,
-- whatever calls, of this key or others, and cleanups come between them.
pub session_sticky :
    (s : SessionStore) (c d : Call) (k p q : String) (ms : List Move)
    → (s.strategy == "prefix") ≡ false
    → IsPlain c
    → IsPlain d
    → is_live c.now (entry_of s.by_key k) ≡ false
    → AllBefore (c.now + session_duration) ms
    → d.now < c.now + session_duration
    → ((resolve_session s c k p).1 ≡ c.new_id)
      × ((resolve_session (run (resolve_session s c k p).0 ms) d k q).1 ≡ c.new_id)
session_sticky s c d k p q ms strategy hc hd n a b =
    let (held, id) = new-IsHeld s c k n in
    let r = (resolve_session s c k p).0 in
    let same = strategy-run r ms ∙ strategy-resolve s c k p in
    let first = plain-resolve s c k p hc strategy in
    (
      ap (λ z. z.1) first ∙ id,
      ap (λ z. z.1)
            (plain-resolve (run r ms) d k q hd
              (subst (λ z. (z == "prefix") ≡ false) (sym same) strategy))
          ∙ held-resolve (run r ms) d k (new_entry c) (omega arith) (
              run-IsHeld r ms k (new_entry c) (more-AllBefore c ms a)
                (subst (λ z. IsHeld z.0 k (new_entry c)) (sym first) held)),
    )
