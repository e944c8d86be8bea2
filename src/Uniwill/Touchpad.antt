-- ===== src/Uniwill/Touchpad.antt =====
-- src/uniwill_keyboard.h: the filter of the i8042 keyboard bytes, which recognises the key sequence
-- that the EC sends for the touchpad toggle. `auxdata` is the test of I8042_STR_AUXDATA.
pub mod Sequence
use tuxedo_drivers.Common.{
  ℕ, zero, suc, ◌+◌, Bool, true, false, M, ◌==◌, ◌||◌, if◌then◌else◌, List, [], ◌∷◌,
}

abbrev pub uniwill_touchp_toggle_seq : List ℕ
uniwill_touchp_toggle_seq = 0xe0 ∷ 0x5b ∷ 0x1d ∷ 0x76 ∷ 0xf6 ∷ 0x9d ∷ 0xe0 ∷ 0xdb ∷ []

-- The array's byte at a position, 0 beyond its end, where the code is shown not to read.
abbrev pub byte_at : List ℕ → ℕ → ℕ
byte_at [] pos = 0
byte_at (x ∷ xs) zero = x
byte_at (x ∷ xs) (suc pos) = byte_at xs pos

-- The static position, and how often the key event work was scheduled.
pub record Toggle : Type 0 where
  pub seq_pos : ℕ
  pub scheduled : ℕ

-- The result tells whether the byte is kept from the keyboard driver.
unfoldable pub uniwill_i8042_filter : ℕ → Bool → M Toggle Bool
uniwill_i8042_filter byte auxdata t =
    if auxdata
    then (false, t)
    else if byte == byte_at uniwill_touchp_toggle_seq t.seq_pos
    then (if byte == 0x76 || byte == 0xf6
        then (true, record t { seq_pos = suc t.seq_pos })
        else if suc t.seq_pos == 8
        then (false, record { seq_pos = 0; scheduled = suc t.scheduled })
        else (false, record t { seq_pos = suc t.seq_pos }))
    else (false, record t { seq_pos = 0 })
