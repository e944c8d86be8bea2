-- ===== src/Uniwill/Switches.antt =====
-- src/uniwill_keyboard.h: two switches of one bit each, the boot on AC power and the USB powershare,
-- with their sysfs attributes. `un` is what a local variable holds before it is written; `parsed` is
-- what `kstrtou8(buffer, 10, ..)` makes of the written text, `none` for its error.
pub mod Fields
use tuxedo_drivers.Common.{
  ℕ, Bool, true, false, M, pure, ◌>>=◌, if◌then◌else◌, ltb, ◌&&◌, bit_and, bit_or, not8, ◌<<<◌,
  ◌>>>◌, ℤ, success, eio, einval, pos, nonzero, Option, none, some, List, [], ◌∷◌,
}
use tuxedo_drivers.Uniwill.Interface.{Reply}
use tuxedo_drivers.Uniwill.Access.{Uniwill, uniwill_read_ec_ram, modify_ec_ram}
use tuxedo_drivers.Uniwill.Charging.{to_bool, on_success}
use tuxedo_drivers.Uniwill.Dmi.{Dmi, any_match}
use tuxedo_drivers.Uniwill.Dmi.DmiField.{board_name}

-- What a show function returns: a number that it prints, or an error.
pub data Printed : Type 0 where
  number : ℕ → Printed
  failed : ℤ → Printed

-- `*status`; the result is 0.
unfoldable pub is_auto_boot_and_powershare_supported : Dmi → ℤ × Bool
is_auto_boot_and_powershare_supported dmi = (
  success,
  any_match dmi board_name (
      "GXxMRXx" ∷ "GXxHRXx" ∷ "XxHP4NAx" ∷ "XxKK4NAx_XxSP4NAx" ∷ "XxAR4NAx" ∷ "GM6IXxB_MB1"
      ∷ "GM6IXxB_MB2" ∷ "GM7IXxN" ∷ "X6AR5xxY" ∷ "X6AR5xxY_mLED" ∷ "X6FR5xxY" ∷ "GMxHGxx"
      ∷ "GM5IXxA" ∷ "X5KK45xS_X5SP45xS" ∷ "X6KK45xU_X6SP45xU" ∷ "X5AR45xS" ∷ "X6AR55xU" ∷ "XxAF5xxx"
      ∷ "XxAF5xxx_mLED" ∷ []),
)

module _ {S : Type 0} where
  -- The frame of both setters: a bit of a byte is written, and remembered on success.
  abbrev pub set_bit : ℕ → ℕ → (ℕ → Uniwill S → Uniwill S) → ℕ → ℕ → M (Uniwill S) ℤ
  set_bit sh address remember un value = do
    result ←
        modify_ec_ram un address
          (λ previous. bit_or (bit_and previous (not8 (1 <<< sh))) (bit_and value 0x01 <<< sh))
    on_success (remember (bit_and value 0x01 <<< sh)) result

  abbrev pub get_bit : ℕ → ℕ → ℕ → M (Uniwill S) Reply
  get_bit sh address old = do
    r ← uniwill_read_ec_ram address old
    pure (
        if nonzero r.status
        then r
        else record { status = r.status; byte = bit_and (r.byte >>> sh) 0x01 })

  abbrev pub show_bit : (ℕ → M (Uniwill S) Reply) → ℕ → M (Uniwill S) Printed
  show_bit get un = do r ← get un; pure (if nonzero r.status then failed eio else number r.byte)

  abbrev pub store_bit : (ℕ → M (Uniwill S) ℤ) → Option ℕ → ℕ → M (Uniwill S) ℤ
  store_bit set none size = pure einval
  store_bit set (some value) size =
      if ltb 1 value
      then pure einval
      else (do result ← set value; pure (if nonzero result then eio else pos size))

  unfoldable pub uw_set_ac_auto_boot : ℕ → ℕ → M (Uniwill S) ℤ
  uw_set_ac_auto_boot =
      set_bit 3 0x0726 (λ shifted u. record u { ac_auto_boot_last_written = to_bool shifted })

  unfoldable pub uw_get_ac_auto_boot : ℕ → M (Uniwill S) Reply
  uw_get_ac_auto_boot = get_bit 3 0x0726

  unfoldable pub uw_ac_auto_boot_show : ℕ → M (Uniwill S) Printed
  uw_ac_auto_boot_show = show_bit uw_get_ac_auto_boot

  unfoldable pub uw_ac_auto_boot_store : ℕ → Option ℕ → ℕ → M (Uniwill S) ℤ
  uw_ac_auto_boot_store un = store_bit (uw_set_ac_auto_boot un)

  unfoldable pub uw_set_usb_powershare : ℕ → ℕ → M (Uniwill S) ℤ
  uw_set_usb_powershare =
      set_bit 4 0x0767 (λ shifted u. record u { usb_powershare_last_written = to_bool shifted })

  unfoldable pub uw_get_usb_powershare : ℕ → M (Uniwill S) Reply
  uw_get_usb_powershare = get_bit 4 0x0767

  unfoldable pub uw_usb_powershare_show : ℕ → M (Uniwill S) Printed
  uw_usb_powershare_show = show_bit uw_get_usb_powershare

  unfoldable pub uw_usb_powershare_store : ℕ → Option ℕ → ℕ → M (Uniwill S) ℤ
  uw_usb_powershare_store un = store_bit (uw_set_usb_powershare un)

  -- The frame of both starts: `loaded` is whether the attributes are there, which is the result.
  abbrev pub init_bit :
      Bool → (ℕ → M (Uniwill S) Reply) → (Bool → Uniwill S → Uniwill S) → ℕ → M (Uniwill S) Bool
  init_bit loaded get remember un u =
      if loaded then (let r = get un u in (true, remember (to_bool r.0.byte) r.1)) else (false, u)

  -- `created` is whether `sysfs_create_group` returns 0.
  unfoldable pub uw_ac_auto_boot_init : ℕ → Bool → M (Uniwill S) Bool
  uw_ac_auto_boot_init un created u =
      init_bit (u.feats.has_ac_auto_boot && created) uw_get_ac_auto_boot
        (λ b v. record v { ac_auto_boot_last_written = b }) un u

  unfoldable pub uw_usb_powershare_init : ℕ → Bool → M (Uniwill S) Bool
  uw_usb_powershare_init un created u =
      init_bit (u.feats.has_usb_powershare && created) uw_get_usb_powershare
        (λ b v. record v { usb_powershare_last_written = b }) un u
