-- ===== src/Common/Bits.antt =====
-- Shifts, masks and complements on bytes and 16-bit words. Facts about `&` and `|` at variables
-- are tables over all values, checked by evaluation.
use Prim.Native.Nat.{ℕ, zero, suc, ◌+◌, ◌-◌, ◌*◌, ◌/◌, ◌%◌, ◌^◌, ◌<◌, bit_and, bit_or}
use mathlib.Core.Path.{◌≡◌, refl, subst}
use mathlib.Core.Bool.{Bool, true, false}
use native.Mathlib.Omega.{arith}
use tuxedo_drivers.Common.Tests.{◌==◌, ==_iff}

infixl 75 ◌<<<◌ ◌>>>◌
abbrev pub ◌<<<◌ : ℕ → ℕ → ℕ
x <<< k = x * 2 ^ k

abbrev pub ◌>>>◌ : ℕ → ℕ → ℕ
x >>> k = x / 2 ^ k

abbrev pub u8 : ℕ → ℕ
u8 n = n % 2 ^ 8

-- `~x` as it acts on a byte that it is and-ed with.
abbrev pub not8 : ℕ → ℕ
not8 x = 255 - x

-- A test of a mask: `(x & m) != 0`.
abbrev pub test_bits : ℕ → ℕ → Bool
test_bits x m = elim (bit_and x m == 0) [ true ↦ false | false ↦ true ]

-- The test of every number below a bound, from the highest one down.
unfoldable pub check_below : ℕ → (ℕ → Bool) → Bool
check_below zero test = true
check_below (suc top) test = elim (test top) [ true ↦ check_below top test | false ↦ false ]

-- A table that was checked holds at a variable.
pub checked_table :
    (bound : ℕ) (test : ℕ → Bool) (value : ℕ)
    → check_below bound test ≡ true
    → value < bound
    → test value ≡ true
unfolding check_below
checked_table zero test value table small = absurd (omega arith)
checked_table (suc top) test value table small = ground (arith, checked_table top test value)

mask_table : check_below 65536 (λ x. bit_and x 255 == x % 256) ≡ true
unfolding check_below
mask_table = refl

pub bit_and-low_byte : (x : ℕ) → x < 65536 → bit_and x 255 ≡ x % 256
bit_and-low_byte x h = ground (arith, checked_table 65536 _ x mask_table h)

join_table : check_below 65536 (λ x. bit_or (x / 256 * 256) (x % 256) == x) ≡ true
unfolding check_below
join_table = refl

-- Two bytes joined by `(hi << 8) | lo`.
pub bit_or-join : (hi lo : ℕ) → hi < 256 → lo < 256 → bit_or (hi * 2 ^ 8) lo ≡ hi * 256 + lo
bit_or-join hi lo h l =
    let x = hi * 256 + lo in
    let q : x / 256 ≡ hi = omega arith in
    let r : x % 256 ≡ lo = omega arith in
    subst (λ a. bit_or (a * 256) lo ≡ x) q
      (subst (λ b. bit_or (x / 256 * 256) b ≡ x) r
        ((==_iff _ x).0 (checked_table 65536 _ x join_table (omega arith))))
