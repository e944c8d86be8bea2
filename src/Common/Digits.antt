-- ===== src/Common/Digits.antt =====
-- Laws of `&` and `|` at variables, by the lowest digit.
use Prim.Native.Nat.{
  ℕ, zero, suc, ◌+◌, ◌*◌, ◌/◌, ◌%◌, ◌≤◌, ◌<◌, bit_and, bit_or, digits, min, max, bit_and-bitwise,
  bit_or-bitwise,
}
use mathlib.Core.Path.{◌≡◌, refl, ap, sym, ◌∙◌}
use native.Mathlib.Omega.{arith}

-- A count that is not less than the first number is enough digits.
digits-enough :
    (z : ℕ → ℕ) (f : ℕ → ℕ → ℕ) (n m a b : ℕ) → a ≤ n → a ≤ m → digits z f n a b ≡ digits z f m a b
digits-enough z f zero zero zero b p q = refl
digits-enough z f zero (suc m) zero b p q = refl
digits-enough z f (suc n) zero zero b p q = refl
digits-enough z f (suc n) (suc m) zero b p q = refl
digits-enough z f zero m (suc a) b p q = absurd (omega arith)
digits-enough z f (suc n) zero (suc a) b p q = absurd (omega arith)
digits-enough z f (suc n) (suc m) (suc a) b p q =
    ap (λ x. x * 2 + f (suc a % 2) (b % 2))
      (digits-enough z f n m (suc a / 2) (b / 2) (omega arith) (omega arith))

pub bit_and-step : (a b : ℕ) → bit_and a b ≡ bit_and (a / 2) (b / 2) * 2 + min (a % 2) (b % 2)
bit_and-step zero b =
    let none_left : bit_and 0 b ≡ 0 = λ i. bit_and-bitwise 0 b i in
    let none_left' : bit_and 0 (b / 2) ≡ 0 = λ i. bit_and-bitwise 0 (b / 2) i in
    none_left ∙ ground (arith, none_left')
bit_and-step (suc a) b =
    let whole : bit_and (suc a) b
        ≡ digits (λ b. zero) min a (suc a / 2) (b / 2) * 2 + min (suc a % 2) (b % 2) =
      λ i. bit_and-bitwise (suc a) b i in
    let half : bit_and (suc a / 2) (b / 2)
        ≡ digits (λ b. zero) min (suc a / 2) (suc a / 2) (b / 2) =
      λ i. bit_and-bitwise (suc a / 2) (b / 2) i in
    whole
    ∙ ap (λ x. x * 2 + min (suc a % 2) (b % 2))
        (digits-enough (λ b. zero) min a (suc a / 2) (suc a / 2) (b / 2) (omega arith) (omega arith)
          ∙ sym half)

pub bit_or-step :
    (a b : ℕ) → bit_or (suc a) b ≡ bit_or (suc a / 2) (b / 2) * 2 + max (suc a % 2) (b % 2)
bit_or-step a b =
    let whole : bit_or (suc a) b
        ≡ digits (λ b. b) max a (suc a / 2) (b / 2) * 2 + max (suc a % 2) (b % 2) =
      λ i. bit_or-bitwise (suc a) b i in
    let half : bit_or (suc a / 2) (b / 2) ≡ digits (λ b. b) max (suc a / 2) (suc a / 2) (b / 2) =
      λ i. bit_or-bitwise (suc a / 2) (b / 2) i in
    whole
    ∙ ap (λ x. x * 2 + max (suc a % 2) (b % 2))
        (digits-enough (λ b. b) max a (suc a / 2) (suc a / 2) (b / 2) (omega arith) (omega arith)
          ∙ sym half)

digits-zero : (n a : ℕ) → digits (λ b. zero) min n a 0 ≡ 0
digits-zero zero a = refl
digits-zero (suc n) zero = refl
digits-zero (suc n) (suc a) = ground (arith, digits-zero n (suc a / 2))

all_zero : (y : ℕ) → bit_and y 0 ≡ 0
all_zero y = (λ i. bit_and-bitwise y 0 i) ∙ digits-zero y y

abbrev Masks : ℕ → ℕ → Type 0
Masks p q = (x : ℕ) → bit_and x p ≡ x % q

-- The lowest bit of any number.
pub bit_and-one : (x : ℕ) → bit_and x 1 ≡ x % 2
bit_and-one x = bit_and-step x 1 ∙ ground (arith, all_zero (x / 2))

mask_3 : Masks 3 4
mask_3 x = bit_and-step x 3 ∙ ground (arith, bit_and-one (x / 2))

mask_7 : Masks 7 8
mask_7 x = bit_and-step x 7 ∙ ground (arith, mask_3 (x / 2))

mask_15 : Masks 15 16
mask_15 x = bit_and-step x 15 ∙ ground (arith, mask_7 (x / 2))

mask_31 : Masks 31 32
mask_31 x = bit_and-step x 31 ∙ ground (arith, mask_15 (x / 2))

mask_63 : Masks 63 64
mask_63 x = bit_and-step x 63 ∙ ground (arith, mask_31 (x / 2))

mask_127 : Masks 127 128
mask_127 x = bit_and-step x 127 ∙ ground (arith, mask_63 (x / 2))

-- The low byte of any number.
pub bit_and-byte : (x : ℕ) → bit_and x 255 ≡ x % 256
bit_and-byte x = bit_and-step x 255 ∙ ground (arith, mask_127 (x / 2))

-- Disjoint digits add up.
Joins : ℕ → Type 0
Joins p = (low high : ℕ) → low < p → bit_or low (high * p) ≡ low + high * p

or_zero : (b : ℕ) → bit_or 0 b ≡ b
or_zero b = λ i. bit_or-bitwise 0 b i

Joins-double : (p : ℕ) → Joins p → Joins (p * 2)
unfolding Joins
Joins-double p h zero high small = or_zero (high * (p * 2)) ∙ omega arith
Joins-double p h (suc a) high small =
    let double : high * (p * 2) ≡ high * p * 2 = omega arith in
    let half : high * (p * 2) / 2 ≡ high * p = ap (λ y. y / 2) double ∙ omega arith in
    let even : high * (p * 2) % 2 ≡ 0 = ap (λ y. y % 2) double ∙ omega arith in
    let rest = h (suc a / 2) high (omega arith) in
    bit_or-step a (high * (p * 2))
    ∙ (ap (λ y. bit_or (suc a / 2) y * 2 + max (suc a % 2) (high * (p * 2) % 2)) half
        ∙ (ap (λ y. bit_or (suc a / 2) (high * p) * 2 + max (suc a % 2) y) even
            ∙ (ap (λ y. y * 2 + max (suc a % 2) 0) rest ∙ omega arith)))

Joins-one : Joins 1
unfolding Joins
Joins-one zero high small = or_zero (high * 1) ∙ omega arith
Joins-one (suc a) high small = absurd (omega arith)

pub bit_or-nibble : (low high : ℕ) → low < 16 → bit_or low (high * 16) ≡ low + high * 16
unfolding Joins
bit_or-nibble = Joins-double 8 (Joins-double 4 (Joins-double 2 (Joins-double 1 Joins-one)))

pub bit_or-byte : (low high : ℕ) → low < 256 → bit_or low (high * 256) ≡ low + high * 256
unfolding Joins
bit_or-byte = Joins-double 128 (Joins-double 64 (Joins-double 32 (Joins-double 16 bit_or-nibble)))

pub bit_or-word : (low high : ℕ) → low < 65536 → bit_or low (high * 65536) ≡ low + high * 65536
unfolding Joins
bit_or-word = Joins-double 32768 (
    Joins-double 16384 (
      Joins-double 8192 (
        Joins-double 4096 (
          Joins-double 2048
            (Joins-double 1024 (Joins-double 512 (Joins-double 256 bit_or-byte)))))))

pub bit_or-three :
    (low high : ℕ) → low < 16777216 → bit_or low (high * 16777216) ≡ low + high * 16777216
unfolding Joins
bit_or-three = Joins-double 8388608 (
    Joins-double 4194304 (
      Joins-double 2097152 (
        Joins-double 1048576 (
          Joins-double 524288
            (Joins-double 262144 (Joins-double 131072 (Joins-double 65536 bit_or-word)))))))

or_right : (n b : ℕ) → b ≤ n → bit_or b 0 ≡ b
or_right n zero p = or_zero 0
or_right zero (suc b) p = absurd (omega arith)
or_right (suc n) (suc b) p = bit_or-step b 0 ∙ ground (arith, or_right n (suc b / 2) (omega arith))

or_comm : (n a b : ℕ) → a ≤ n → bit_or a b ≡ bit_or b a
or_comm n zero b p = or_zero b ∙ sym (or_right b b (omega arith))
or_comm n (suc a) zero p = or_right (suc a) (suc a) (omega arith) ∙ sym (or_zero (suc a))
or_comm zero (suc a) (suc b) p = absurd (omega arith)
or_comm (suc n) (suc a) (suc b) p =
    let rest = or_comm n (suc a / 2) (suc b / 2) (omega arith) in
    bit_or-step a (suc b)
    ∙ (ap (λ x. x * 2 + max (suc a % 2) (suc b % 2)) rest
        ∙ (omega arith ∙ sym (bit_or-step b (suc a))))

pub bit_or_comm : (a b : ℕ) → bit_or a b ≡ bit_or b a
bit_or_comm a b = or_comm a a b (omega arith)

shift_2 : (x m : ℕ) → bit_and x (m * 2) ≡ bit_and (x / 2) m * 2
shift_2 x m =
    let half : m * 2 / 2 ≡ m = omega arith in
    let even : m * 2 % 2 ≡ 0 = omega arith in
    bit_and-step x (m * 2)
    ∙ ((λ i. bit_and (x / 2) (half i) * 2 + min (x % 2) (even i)) ∙ omega arith)

shift_4 : (x m : ℕ) → bit_and x (m * 4) ≡ bit_and (x / 4) m * 4
shift_4 x m =
    let half : m * 4 / 2 ≡ m * 2 = omega arith in
    let even : m * 4 % 2 ≡ 0 = omega arith in
    let down : x / 2 / 2 ≡ x / 4 = omega arith in
    bit_and-step x (m * 4)
    ∙ ((λ i. bit_and (x / 2) (half i) * 2 + min (x % 2) (even i))
        ∙ (ap (λ y. y * 2 + min (x % 2) 0) (shift_2 (x / 2) m)
            ∙ (ap (λ y. bit_and y m * 2 * 2 + min (x % 2) 0) down ∙ omega arith)))

shift_8 : (x m : ℕ) → bit_and x (m * 8) ≡ bit_and (x / 8) m * 8
shift_8 x m =
    let half : m * 8 / 2 ≡ m * 4 = omega arith in
    let even : m * 8 % 2 ≡ 0 = omega arith in
    let down : x / 2 / 4 ≡ x / 8 = omega arith in
    bit_and-step x (m * 8)
    ∙ ((λ i. bit_and (x / 2) (half i) * 2 + min (x % 2) (even i))
        ∙ (ap (λ y. y * 2 + min (x % 2) 0) (shift_4 (x / 2) m)
            ∙ (ap (λ y. bit_and y m * 4 * 2 + min (x % 2) 0) down ∙ omega arith)))

shift_16 : (x m : ℕ) → bit_and x (m * 16) ≡ bit_and (x / 16) m * 16
shift_16 x m =
    let half : m * 16 / 2 ≡ m * 8 = omega arith in
    let even : m * 16 % 2 ≡ 0 = omega arith in
    let down : x / 2 / 8 ≡ x / 16 = omega arith in
    bit_and-step x (m * 16)
    ∙ ((λ i. bit_and (x / 2) (half i) * 2 + min (x % 2) (even i))
        ∙ (ap (λ y. y * 2 + min (x % 2) 0) (shift_8 (x / 2) m)
            ∙ (ap (λ y. bit_and y m * 8 * 2 + min (x % 2) 0) down ∙ omega arith)))

shift_32 : (x m : ℕ) → bit_and x (m * 32) ≡ bit_and (x / 32) m * 32
shift_32 x m =
    let half : m * 32 / 2 ≡ m * 16 = omega arith in
    let even : m * 32 % 2 ≡ 0 = omega arith in
    let down : x / 2 / 16 ≡ x / 32 = omega arith in
    bit_and-step x (m * 32)
    ∙ ((λ i. bit_and (x / 2) (half i) * 2 + min (x % 2) (even i))
        ∙ (ap (λ y. y * 2 + min (x % 2) 0) (shift_16 (x / 2) m)
            ∙ (ap (λ y. bit_and y m * 16 * 2 + min (x % 2) 0) down ∙ omega arith)))

shift_64 : (x m : ℕ) → bit_and x (m * 64) ≡ bit_and (x / 64) m * 64
shift_64 x m =
    let half : m * 64 / 2 ≡ m * 32 = omega arith in
    let even : m * 64 % 2 ≡ 0 = omega arith in
    let down : x / 2 / 32 ≡ x / 64 = omega arith in
    bit_and-step x (m * 64)
    ∙ ((λ i. bit_and (x / 2) (half i) * 2 + min (x % 2) (even i))
        ∙ (ap (λ y. y * 2 + min (x % 2) 0) (shift_32 (x / 2) m)
            ∙ (ap (λ y. bit_and y m * 32 * 2 + min (x % 2) 0) down ∙ omega arith)))

shift_128 : (x m : ℕ) → bit_and x (m * 128) ≡ bit_and (x / 128) m * 128
shift_128 x m =
    let half : m * 128 / 2 ≡ m * 64 = omega arith in
    let even : m * 128 % 2 ≡ 0 = omega arith in
    let down : x / 2 / 64 ≡ x / 128 = omega arith in
    bit_and-step x (m * 128)
    ∙ ((λ i. bit_and (x / 2) (half i) * 2 + min (x % 2) (even i))
        ∙ (ap (λ y. y * 2 + min (x % 2) 0) (shift_64 (x / 2) m)
            ∙ (ap (λ y. bit_and y m * 64 * 2 + min (x % 2) 0) down ∙ omega arith)))

-- A mask that is shifted by a byte.
pub bit_and-shifted : (x m : ℕ) → bit_and x (m * 256) ≡ bit_and (x / 256) m * 256
bit_and-shifted x m =
    let half : m * 256 / 2 ≡ m * 128 = omega arith in
    let even : m * 256 % 2 ≡ 0 = omega arith in
    let down : x / 2 / 128 ≡ x / 256 = omega arith in
    bit_and-step x (m * 256)
    ∙ ((λ i. bit_and (x / 2) (half i) * 2 + min (x % 2) (even i))
        ∙ (ap (λ y. y * 2 + min (x % 2) 0) (shift_128 (x / 2) m)
            ∙ (ap (λ y. bit_and y m * 128 * 2 + min (x % 2) 0) down ∙ omega arith)))
