-- ===== src/Config/Valid.antt =====
-- internal/config/config.go: what every configuration has.
use cmdc2api.Base.{
  ℕ, zero, suc, ◌<◌, ◌*◌, String, ◌≡◌, refl, Bool, true, false, ◌⊎◌, inl, inr, Option, none, some,
  ◌==◌, ==→≡, ℤ, pos, negsuc, wrap64, is_pos, Bool-cases, if◌then◌else◌, arith,
}
use cmdc2api.Config.{Environment, positive_or, bytes_of_mb, choice_or, number_or, default_mb, load}

-- A number of megabytes whose bytes an int64 can hold.
abbrev pub Fits : ℤ → Type 0
Fits (pos n) = n < 8796093022208
Fits (negsuc n) = Unit

abbrev pub ParsesFit : Option ℤ → Type 0
ParsesFit none = Unit
ParsesFit (some n) = Fits n

-- A number that is above zero and not too large.
abbrev IsSize : ℤ → Type 0
IsSize n = (is_pos n ≡ true) × Fits n

positive_or-is_pos : (d : ℤ) (o : Option ℤ) → is_pos d ≡ true → is_pos (positive_or d o) ≡ true
unfolding positive_or
positive_or-is_pos d none h = h
positive_or-is_pos d (some n) h = elim (Bool-cases (is_pos n)) [ inl e ↦ rw e e | inr e ↦ rw e h ]

number_or-is_pos :
    (parse : String → Option ℤ) (d : ℤ) (v : String)
    → is_pos d ≡ true
    → is_pos (number_or parse d v) ≡ true
number_or-is_pos parse d v h = go (v == "")
  where
    go : (b : Bool) → is_pos (if b then d else positive_or d (parse v)) ≡ true
    go true = h
    go false = positive_or-is_pos d (parse v) h

positive_or-Fits : (d : ℤ) (o : Option ℤ) → Fits d → ParsesFit o → Fits (positive_or d o)
unfolding positive_or
positive_or-Fits d none h f = h
positive_or-Fits d (some n) h f = go (is_pos n)
  where
    go : (b : Bool) → Fits (if b then n else d)
    go true = f
    go false = h

number_or-Fits :
    (parse : String → Option ℤ) (d : ℤ) (v : String)
    → Fits d
    → ParsesFit (parse v)
    → Fits (number_or parse d v)
number_or-Fits parse d v h f = go (v == "")
  where
    go : (b : Bool) → Fits (if b then d else positive_or d (parse v))
    go true = h
    go false = positive_or-Fits d (parse v) h f

wrap64-small : (m : ℕ) → m < 9223372036854775808 → wrap64 m 0 ≡ pos m
wrap64-small m h = ground arith

is_pos-pos : (m : ℕ) → 0 < m → is_pos (pos m) ≡ true
is_pos-pos zero h = absurd (omega (arith, h))
is_pos-pos (suc m) h = refl

bytes_of_mb-is_pos : (n : ℤ) → is_pos n ≡ true → Fits n → is_pos (bytes_of_mb n) ≡ true
unfolding bytes_of_mb
bytes_of_mb-is_pos (pos zero) h f = h
bytes_of_mb-is_pos (pos (suc n)) h f =
    rw (wrap64-small (suc n * 1048576) (omega (arith, f)))
      (is_pos-pos (suc n * 1048576) (omega arith))
bytes_of_mb-is_pos (negsuc n) h f = absurd (ground arith)

choice_or-known : (d other v : String) → (choice_or d other v ≡ d) ⊎ (choice_or d other v ≡ other)
choice_or-known d other v = elim (Bool-cases (v == d)) [
  | inl e ↦ rw e (inl (==→≡ v d e))
  | inr e ↦ rw e (elim (Bool-cases (v == other)) [
    | inl f ↦ rw f (inr (==→≡ v other f))
    | inr f ↦ rw f (inl refl)
  ])
]

-- For every environment and every parser: where the limit in megabytes, as it is parsed, is below
-- 2^43, the port, the body limit and the refresh time are above zero, and the session strategy and
-- the marker strategy are among the two that the code knows.
pub load_valid :
    (e : Environment)
    → ParsesFit (e.parse_int (e.getenv "CC_MAX_BODY_MB"))
    → (is_pos (load e).port ≡ true)
      × (is_pos (load e).max_body_bytes ≡ true)
      × (is_pos (load e).model_refresh ≡ true)
      × (((load e).session_strategy ≡ "prefix") ⊎ ((load e).session_strategy ≡ "key"))
      × (((load e).cache_markers ≡ "respect") ⊎ ((load e).cache_markers ≡ "replace"))
unfolding load
load_valid e f = (
  number_or-is_pos e.atoi (pos 8050) (e.getenv "PORT") refl,
  bytes_of_mb-is_pos (number_or e.parse_int default_mb (e.getenv "CC_MAX_BODY_MB"))
      (number_or-is_pos e.parse_int default_mb (e.getenv "CC_MAX_BODY_MB") refl)
      (number_or-Fits e.parse_int default_mb (e.getenv "CC_MAX_BODY_MB") (omega arith) f),
  number_or-is_pos e.parse_duration (pos 300000000000) (e.getenv "CC_MODEL_REFRESH") refl,
  choice_or-known "prefix" "key" (e.getenv "CC_SESSION_STRATEGY"),
  choice_or-known "respect" "replace" (e.getenv "CC_CACHE_MARKERS"),
)
