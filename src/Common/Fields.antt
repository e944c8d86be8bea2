-- ===== src/Common/Fields.antt =====
-- A field of a byte: the bits from `sh` on, for values below `m`, a power of 2.
use Prim.Native.Nat.{ℕ, ◌-◌, ◌<◌, bit_and, bit_or, ◌%◌}
use mathlib.Core.Path.{◌≡◌, refl}
use mathlib.Core.Bool.{Bool, true, ◌&&◌}
use native.Mathlib.Omega.{arith}
use tuxedo_drivers.Common.Tests.{◌==◌, ltb, ==_iff}
use tuxedo_drivers.Common.Bits.{◌<<<◌, ◌>>>◌, not8, check_below, checked_table}

-- The bits outside the field.
abbrev pub rest_of : ℕ → ℕ → ℕ → ℕ
rest_of sh m p = bit_and p (not8 ((m - 1) <<< sh))

abbrev pub insert_field : ℕ → ℕ → ℕ → ℕ → ℕ
insert_field sh m p c = bit_or (rest_of sh m p) (c <<< sh)

abbrev pub extract_field : ℕ → ℕ → ℕ → ℕ
extract_field sh m p = bit_and (p >>> sh) (m - 1)

pub record IsField (sh m : ℕ) : Type 0 where
  pub extract-insert : (p c : ℕ) → p < 256 → c < m → extract_field sh m (insert_field sh m p c) ≡ c
  pub rest-insert :
      (p c : ℕ) → p < 256 → c < m → rest_of sh m (insert_field sh m p c) ≡ rest_of sh m p
  pub insert-lt : (p c : ℕ) → p < 256 → c < m → insert_field sh m p c < 256

holds : ℕ → ℕ → ℕ → ℕ → Bool
holds sh m p c =
    (extract_field sh m (insert_field sh m p c) == c)
    && ((rest_of sh m (insert_field sh m p c) == rest_of sh m p) && ltb (insert_field sh m p c) 256)

table : ℕ → ℕ → Bool
unfolding check_below holds
table sh m = check_below 256 (λ p. check_below m (λ c. holds sh m p c))

table_sound : (sh m : ℕ) → table sh m ≡ true → (p c : ℕ) → p < 256 → c < m → holds sh m p c ≡ true
unfolding table
table_sound sh m t p c hp hc =
    checked_table m (λ x. holds sh m p x) c
      (checked_table 256 (λ q. check_below m (λ x. holds sh m q x)) p t hp) hc

IsField-table : (sh m : ℕ) → table sh m ≡ true → IsField sh m
unfolding holds
IsField-table sh m t = record {
  extract-insert = λ p c hp hc. ground (arith, table_sound sh m t p c hp hc);
  rest-insert = λ p c hp hc. ground (arith, table_sound sh m t p c hp hc);
  insert-lt = λ p c hp hc. ground (arith, table_sound sh m t p c hp hc);
}

pub bit_3-IsField : IsField 3 2
unfolding table
bit_3-IsField = IsField-table 3 2 refl

pub bit_4-IsField : IsField 4 2
unfolding table
bit_4-IsField = IsField-table 4 2 refl

pub bits_4-IsField : IsField 4 4
unfolding table
bits_4-IsField = IsField-table 4 4 refl

pub bit_7-IsField : IsField 7 2
unfolding table
bit_7-IsField = IsField-table 7 2 refl

low_bit_table : check_below 256 (λ v. bit_and v 1 == v % 2) ≡ true
unfolding check_below
low_bit_table = refl

pub bit_and-low_bit : (v : ℕ) → v < 256 → bit_and v 1 ≡ v % 2
bit_and-low_bit v h = (==_iff _ _).0 (checked_table 256 _ v low_bit_table h)

low_two_bits_table : check_below 256 (λ v. bit_and v 3 == v % 4) ≡ true
unfolding check_below
low_two_bits_table = refl

pub bit_and-low_two_bits : (v : ℕ) → v < 256 → bit_and v 3 ≡ v % 4
bit_and-low_two_bits v h = (==_iff _ _).0 (checked_table 256 _ v low_two_bits_table h)
