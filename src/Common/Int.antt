-- ===== src/Common/Int.antt =====
-- C `int` results over the native numbers, under the library's names, and the errno constants.
use Prim.Native.Nat.{ℕ, suc, ◌+◌, ◌-◌, ◌^◌, ◌≤◌}
use mathlib.Core.Bool.{Bool, true, false, not}
use tuxedo_drivers.Common.Tests.{◌==◌, ltb}

-- `negsuc n` is -(n + 1).
pub data ℤ : Type 0 where
  pos : ℕ → ℤ
  negsuc : ℕ → ℤ

abbrev pub pos_part : ℤ → ℕ
pos_part (pos n) = n
pos_part (negsuc n) = 0

abbrev pub neg_part : ℤ → ℕ
neg_part (pos n) = 0
neg_part (negsuc n) = suc n

infix 50 ◌≤ℤ◌
abbrev pub ◌≤ℤ◌ : ℤ → ℤ → Type 0
a ≤ℤ b = pos_part a + neg_part b ≤ pos_part b + neg_part a

abbrev pub ltb_ℤ : ℤ → ℤ → Bool
ltb_ℤ a b = ltb (pos_part a + neg_part b) (pos_part b + neg_part a)

-- `if (result)` and `result != 0`.
abbrev pub nonzero : ℤ → Bool
nonzero (pos n) = not (n == 0)
nonzero (negsuc n) = true

-- `result < 0`.
abbrev pub negative : ℤ → Bool
negative (pos n) = false
negative (negsuc n) = true

-- The success code, and -EIO, -ENOMEM, -ENODEV, -EINVAL of errno-base.h, -EOPNOTSUPP of errno.h.
abbrev pub success : ℤ
success = pos 0

abbrev pub eio : ℤ
eio = negsuc 4

abbrev pub enomem : ℤ
enomem = negsuc 11

abbrev pub enodev : ℤ
enodev = negsuc 18

abbrev pub einval : ℤ
einval = negsuc 21

abbrev pub eopnotsupp : ℤ
eopnotsupp = negsuc 94

-- An `int` stored in a `u32`: the representative modulo 2 ^ 32.
abbrev pub u32_of_int : ℤ → ℕ
u32_of_int (pos n) = n
u32_of_int (negsuc n) = 2 ^ 32 - suc n
