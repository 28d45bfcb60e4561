-- ===== src/Session/Entries.antt =====
-- internal/masq/session.go: the entries of the store's map.
use mathlib.Core.Path.{subst}
use cmdc2api.Base.{
  ℕ, ◌<◌, String, ◌≡◌, refl, sym, ap, Bool, true, false, some, List, [], ◌∷◌, ◌==◌, ==→≡, eq_refl,
  ltb, Bool-cases, inl, inr, if◌then◌else◌, arith,
}
use cmdc2api.Session.{SessionEntry, entry_of, set_entry, is_live, drop_expired}

pub entry-set_same :
    (m : List (String × SessionEntry)) (k : String) (e : SessionEntry)
    → entry_of (set_entry m k e) k ≡ some e
unfolding entry_of set_entry
entry-set_same [] k e = rw (eq_refl k) refl
entry-set_same ((j, d) ∷ m) k e = elim (Bool-cases (j == k)) [
  | inl h ↦ rw (h, eq_refl k) refl
  | inr h ↦ rw (h, h) (entry-set_same m k e)
]

pub entry-set_other :
    (m : List (String × SessionEntry)) (k l : String) (e : SessionEntry)
    → (l == k) ≡ false
    → entry_of (set_entry m l e) k ≡ entry_of m k
unfolding entry_of set_entry
entry-set_other [] k l e h = rw h refl
entry-set_other ((j, d) ∷ m) k l e h = elim (Bool-cases (j == l)) [
  | inl g ↦ rw (g, h, subst (λ z. (z == k) ≡ false) (sym (==→≡ j l g)) h) refl
  | inr g ↦ rw (g, entry-set_other m k l e h) refl
]

pub differ : true ≡ false → ⊥
differ e = ground arith

expired-live :
    (d e : SessionEntry) (now : ℕ)
    → now < e.expires_at
    → ltb d.expires_at now ≡ true
    → ltb now d.expires_at ≡ ltb now e.expires_at
    → ⊥
expired-live d e now h y q = ground arith

pub entry-drop_expired :
    (m : List (String × SessionEntry)) (now : ℕ) (k : String) (e : SessionEntry)
    → now < e.expires_at
    → entry_of m k ≡ some e
    → entry_of (drop_expired now m) k ≡ some e
unfolding entry_of drop_expired
entry-drop_expired [] now k e h g = g
entry-drop_expired ((j, d) ∷ m) now k e h g =
    go (entry-drop_expired m now k e h) (j == k) refl g (ltb d.expires_at now) refl
  where
    go :
        (rest : entry_of m k ≡ some e → entry_of (drop_expired now m) k ≡ some e) (b : Bool)
        → (j == k) ≡ b
        → (if b then some d else entry_of m k) ≡ some e
        → (x : Bool) → ltb d.expires_at now ≡ x
        → entry_of (if x then drop_expired now m else (j, d) ∷ drop_expired now m) k ≡ some e
    go rest true p q true y = absurd (expired-live d e now h y (ap (is_live now) q))
    go rest true p q false y = rw p q
    go rest false p q true y = rest q
    go rest false p q false y = rw p (rest q)
