-- ===== src/Base/Int.antt =====
-- Go's `int`: integers, and the signed 64-bit arithmetic that wraps.
use Prim.Native.Nat.{ℕ, suc, ◌+◌, ◌-◌, ◌%◌, ◌<◌}
use mathlib.Core.Path.{◌≡◌}
use mathlib.Core.Bool.{Bool, true, false}
use native.Mathlib.Omega.{arith}
use cmdc2api.Base.Tests.{leb, ltb, if◌then◌else◌}

-- `negsuc n` is -(n + 1).
pub data ℤ : Type 0 where
  pos : ℕ → ℤ
  negsuc : ℕ → ℤ

abbrev pub pos_part : ℤ → ℕ
pos_part (pos n) = n
pos_part (negsuc n) = 0

abbrev pub neg_part : ℤ → ℕ
neg_part (pos n) = 0
neg_part (negsuc n) = suc n

-- a - b, as an integer.
abbrev pub sub_ℕ : ℕ → ℕ → ℤ
sub_ℕ a b = if leb b a then pos (a - b) else negsuc (b - a - 1)

-- The signed 64-bit value whose bits are those of `a - b`: an operation of Go wraps around.
abbrev pub wrap64 : ℕ → ℕ → ℤ
wrap64 a b =
    let r =
      (a % 18446744073709551616 + 18446744073709551616 - b % 18446744073709551616)
      % 18446744073709551616 in
    if ltb r 9223372036854775808 then pos r else negsuc (18446744073709551615 - r)

infixl 65 ◌+ℤ◌ ◌-ℤ◌
-- `a + b` and `a - b` on `int`.
unfoldable pub ◌+ℤ◌ : ℤ → ℤ → ℤ
a +ℤ b = wrap64 (pos_part a + pos_part b) (neg_part a + neg_part b)

unfoldable pub ◌-ℤ◌ : ℤ → ℤ → ℤ
a -ℤ b = wrap64 (pos_part a + neg_part b) (neg_part a + pos_part b)

-- `a == 0`, `a < 0` and `a > 0`.
abbrev pub is_zero : ℤ → Bool
is_zero (pos ℕ.zero) = true
is_zero _ = false

abbrev pub is_neg : ℤ → Bool
is_neg (negsuc n) = true
is_neg (pos n) = false

abbrev pub is_pos : ℤ → Bool
is_pos (pos (suc n)) = true
is_pos _ = false

-- A non-negative sum below 2^63 is exact.
pub pos-+ℤ : (a b : ℕ) → a + b < 9223372036854775808 → pos a +ℤ pos b ≡ pos (a + b)
unfolding ◌+ℤ◌
pos-+ℤ a b h = ground arith

-- A difference of non-negative integers is exact.
pub pos--ℤ :
    (a b : ℕ) → a < 9223372036854775808 → b < 9223372036854775808 → pos a -ℤ pos b ≡ sub_ℕ a b
unfolding ◌-ℤ◌
pos--ℤ a b h k = ground arith
