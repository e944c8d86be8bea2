-- ===== src/Uniwill/Nvidia.antt =====
-- src/tuxedo_nb02_nvidia_power_ctrl/tuxedo_nb02_nvidia_power_ctrl.c: the configurable graphics power
-- (cTGP) and the dynamic boost (DB), two bits of one byte with a third that enables both, and three
-- offsets. `parsed` is what `kstrtou8` or `kstrtobool` returns, and its value.
pub mod Enable
use tuxedo_drivers.Common.{
  ℕ, Bool, true, false, M, pure, ◌>>=◌, ◌>>◌, if◌then◌else◌, leb, bit_and, bit_or, not8, test_bits,
  ℤ, pos, success, enodev, negative, List, [], ◌∷◌,
}
use tuxedo_drivers.Uniwill.Interface.{Reply}
use tuxedo_drivers.Uniwill.Access.{Uniwill, uniwill_read_ec_ram, uniwill_write_ec_ram}
use tuxedo_drivers.Uniwill.Switches.{Printed, number, failed}

abbrev pub bit_general_enable : ℕ
bit_general_enable = 0x01

abbrev pub bit_db_enable : ℕ
bit_db_enable = 0x02

abbrev pub bit_ctgp_enable : ℕ
bit_ctgp_enable = 0x04

-- The byte with one of the two bits set or cleared; the general bit goes with the last of them.
abbrev pub enabled : ℕ → ℕ → Bool → ℕ → ℕ
enabled bit other true old = bit_or (bit_or old bit_general_enable) bit
enabled bit other false old =
    if test_bits old other
    then bit_and old (not8 bit)
    else bit_and old (not8 (bit_or bit bit_general_enable))

-- `if (result < 0) return result; return count;`
abbrev pub count_or : ℤ → ℕ → ℤ
count_or result count = if negative result then result else pos count

abbrev pub to_bit : ℕ → ℕ → ℕ
to_bit bit byte = if test_bits byte bit then 1 else 0

module _ {S : Type 0} where
  abbrev pub show_byte : ℕ → (ℕ → ℕ) → M (Uniwill S) Printed
  show_byte address f = do
    r ← uniwill_read_ec_ram address 0
    pure (if negative r.status then failed r.status else number (f r.byte))

  abbrev pub store_byte : ℕ → Reply → ℕ → M (Uniwill S) ℤ
  store_byte address parsed count =
      if negative parsed.status
      then pure parsed.status
      else (do result ← uniwill_write_ec_ram address parsed.byte; pure (count_or result count))

  -- `enable` of the bit, by the rule for the other one.
  abbrev pub store_enable : ℕ → ℕ → ℤ × Bool → ℕ → M (Uniwill S) ℤ
  store_enable bit other parsed count = if negative parsed.0 then pure parsed.0 else (do
    r ← uniwill_read_ec_ram 0x0743 0
    if negative r.status then pure r.status else (do
      result ← uniwill_write_ec_ram 0x0743 (enabled bit other parsed.1 r.byte)
      pure (count_or result count)))

  unfoldable pub ctgp_offset_show : M (Uniwill S) Printed
  ctgp_offset_show = show_byte 0x0744 (λ b. b)

  unfoldable pub ctgp_offset_store : Reply → ℕ → M (Uniwill S) ℤ
  ctgp_offset_store = store_byte 0x0744

  unfoldable pub db_offset_show : M (Uniwill S) Printed
  db_offset_show = show_byte 0x0746 (λ b. b)

  unfoldable pub db_offset_store : Reply → ℕ → M (Uniwill S) ℤ
  db_offset_store = store_byte 0x0746

  unfoldable pub ctgp_enable_show : M (Uniwill S) Printed
  ctgp_enable_show = show_byte 0x0743 (to_bit bit_ctgp_enable)

  unfoldable pub ctgp_enable_store : ℤ × Bool → ℕ → M (Uniwill S) ℤ
  ctgp_enable_store = store_enable bit_ctgp_enable bit_db_enable

  unfoldable pub db_enable_show : M (Uniwill S) Printed
  db_enable_show = show_byte 0x0743 (to_bit bit_db_enable)

  unfoldable pub db_enable_store : ℤ × Bool → ℕ → M (Uniwill S) ℤ
  db_enable_store = store_enable bit_db_enable bit_ctgp_enable

  unfoldable pub tpp_offset_show : M (Uniwill S) Printed
  tpp_offset_show = show_byte 0x0745 (λ b. b)

  unfoldable pub tpp_offset_store : Reply → ℕ → M (Uniwill S) ℤ
  tpp_offset_store = store_byte 0x0745

  -- `result = m; if (result < 0) return result;`
  abbrev pub or_return : M (Uniwill S) ℤ → M (Uniwill S) ℤ → M (Uniwill S) ℤ
  or_return m k = do result ← m; if negative result then pure result else k

  unfoldable pub init_db_and_ctgp : M (Uniwill S) ℤ
  init_db_and_ctgp =
      or_return
        (uniwill_write_ec_ram 0x0743
          (bit_or (bit_or bit_general_enable bit_db_enable) bit_ctgp_enable))
        (or_return (uniwill_write_ec_ram 0x0744 0) (
          or_return (uniwill_write_ec_ram 0x0745 255)
            (or_return (uniwill_write_ec_ram 0x0746 25) (pure success))))

-- The search for a GPU of the 3000 series or higher, among the devices of the vendor.
unfoldable pub find_gpu : List ℕ → ℤ
find_gpu [] = enodev
find_gpu (device ∷ devices) =
    let rest = find_gpu devices in if leb 0x2200 device then success else rest
