-- ===== src/Uniwill/RomId.antt =====
-- src/uniwill_keyboard.h: the ROM id, which is put right where it differs. `un` is what a local byte
-- holds before it is written, `un_status` a status, and `start` the locals of a write with retries.
pub mod Corrected
use tuxedo_drivers.Common.{
  ℕ, ◌+◌, Bool, true, false, M, pure, ◌>>=◌, ◌>>◌, if◌then◌else◌, ◌==◌, ℤ, success, nonzero, Option,
  none, some, List, [], ◌∷◌,
}
use tuxedo_drivers.Uniwill.Interface.{Reply}
use tuxedo_drivers.Uniwill.Access.{
  Uniwill, uniwill_read_ec_ram_with_retry, uniwill_write_ec_ram_with_retry,
}

abbrev pub reg_romid_start : ℕ
reg_romid_start = 0x0770

abbrev pub reg_romid_special_1 : ℕ
reg_romid_special_1 = 0x077e

abbrev pub reg_romid_special_2 : ℕ
reg_romid_special_2 = 0x077f

abbrev pub uw_romid_ph4pxx : List ℕ
uw_romid_ph4pxx =
    0x0C ∷ 0x00 ∷ 0x01 ∷ 0xFF ∷ 0xFF ∷ 0xFF ∷ 0xFF ∷ 0xFF ∷ 0xFF ∷ 0xFF ∷ 0xFF ∷ 0xFF ∷ 0xFF ∷ 0xFF
    ∷ []

abbrev pub uw_romid_ph6pxx : List ℕ
uw_romid_ph6pxx =
    0x0C ∷ 0x01 ∷ 0x01 ∷ 0xFF ∷ 0xFF ∷ 0xFF ∷ 0xFF ∷ 0xFF ∷ 0xFF ∷ 0xFF ∷ 0xFF ∷ 0xFF ∷ 0xFF ∷ 0xFF
    ∷ []

module _ {S : Type 0} (un : ℕ) (un_status : ℤ) (start : Reply) where
  -- The first loop, from an address and the bytes that are left: a status, and whether a byte differs.
  unfoldable pub compare_from : ℕ → List ℕ → M (Uniwill S) (ℤ × Bool)
  compare_from address [] = pure (success, false)
  compare_from address (byte ∷ romid) = do
    r ← uniwill_read_ec_ram_with_retry un_status address un 3
    if nonzero r.status
        then pure (r.status, false)
        else if r.byte == byte
        then compare_from (address + 1) romid
        else pure (success, true)

  -- The second loop.
  unfoldable pub write_from : ℕ → List ℕ → M (Uniwill S) ℤ
  write_from address [] = pure success
  write_from address (byte ∷ romid) = do
    ret ← uniwill_write_ec_ram_with_retry start address byte 3
    if nonzero ret then pure ret else write_from (address + 1) romid

  unfoldable pub correct : List ℕ → M (Uniwill S) ℤ
  unfolding write_from
  correct romid = do
    ret ← uniwill_write_ec_ram_with_retry start reg_romid_special_1 0xA5 3
    if nonzero ret then pure ret else (do
      ret ← uniwill_write_ec_ram_with_retry start reg_romid_special_2 0x78 3
      if nonzero ret then pure ret else write_from reg_romid_start romid)

  -- `matched` is the ROM id of the first entry of the table that matches the device.
  unfoldable pub set_rom_id : Option (List ℕ) → M (Uniwill S) ℤ
  unfolding compare_from correct
  set_rom_id none = pure success
  set_rom_id (some romid) = do
    r ← compare_from reg_romid_start romid
    if nonzero r.0 then pure r.0 else if r.1 then correct romid else pure success
