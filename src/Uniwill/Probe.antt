-- ===== src/Uniwill/Probe.antt =====
-- src/uniwill_keyboard.h: the start and the removal of the driver.
use tuxedo_drivers.Common.{
  ℕ, zero, suc, ◌+◌, Bool, true, false, not, M, pure, ◌>>=◌, ◌>>◌, when, if◌then◌else◌, ◌==◌,
  bit_and, ◌>>>◌, ℤ, success, Option, none, List,
}
use tuxedo_drivers.Uniwill.Interface.{Reply}
use tuxedo_drivers.Uniwill.Dmi.{Dmi}
use tuxedo_drivers.Uniwill.Access.{Uniwill}
use tuxedo_drivers.Uniwill.Features.{uniwill_get_device_features}
use tuxedo_drivers.Uniwill.Charging.{uw_charging_priority_init, uw_charging_profile_init}
use tuxedo_drivers.Uniwill.Fan.{read, write}
use tuxedo_drivers.Uniwill.Leds.{Leds, ec}
use tuxedo_drivers.Uniwill.Leds.Init.{uniwill_leds_init, uniwill_leds_remove}
use tuxedo_drivers.Uniwill.Switches.{uw_ac_auto_boot_init, uw_usb_powershare_init}
use tuxedo_drivers.Uniwill.MiniLed.{uw_mini_led_local_dimming_init}
use tuxedo_drivers.Uniwill.Lightbar.{uw_lightbar_init}
use tuxedo_drivers.Uniwill.RomId.{set_rom_id}
use tuxedo_drivers.Uniwill.BiosOptions.{Efi, uw_show_hidden_bios_options}
use tuxedo_drivers.Uniwill.Power.{uniwill_write_kbd_bl_enable, uniwill_set_custom_profile_mode}
use tuxedo_drivers.Ite.{is_negative}

-- The state that the probe sets up: the driver with its backlight, EFI, the bit of the keyboard at the
-- start, how many LED class devices of the lightbar are registered, if it is loaded, and whether the
-- hook of the battery and the filter of the keyboard are installed.
pub record Bound (S E : Type 0) : Type 0 where
  pub leds : Leds S
  pub efi : E
  pub kbd_bl_enable_state_on_start : ℕ
  pub lightbar_loaded : Bool
  pub lightbar_leds : ℕ
  pub battery_hook_registered : Bool
  pub filter : Bool

-- What the kernel answers: the ROM id of the device, the registrations of the LEDs, whether the
-- attributes were created, whether EFI has its services and there is memory, and whether the filter
-- is installed.
pub record Answers : Type 0 where
  pub romid : Option (List ℕ)
  pub leds_registered : ℤ
  pub lightbar_registered : ℕ → ℤ
  pub prio_created : Bool
  pub profile_created : Bool
  pub boot_created : Bool
  pub powershare_created : Bool
  pub mini_led_created : Bool
  pub runtime_services : Bool
  pub allocated : Bool
  pub filter_installed : Bool

module _ {S E : Type 0} (efi : Efi E) (dmi : Dmi) (un : ℕ) (un_status : ℤ) (start : Reply) where
  abbrev pub by_ec : {A : Type 0} → M (Uniwill S) A → M (Bound S E) A
  by_ec m b = let r = ec m b.leds in (r.0, record b { leds = r.1 })

  abbrev pub by_leds : {A : Type 0} → M (Leds S) A → M (Bound S E) A
  by_leds m b = let r = m b.leds in (r.0, record b { leds = r.1 })

  abbrev pub by_efi : M E (Unit {0}) → M (Bound S E) (Unit {0})
  by_efi m b = (tt, record b { efi = (m b.efi).1 })

  -- `for (i = first; i < first + rounds; ++i)`: the default values of the profile.
  unfoldable pub copy_defaults : ℕ → ℕ → M (Uniwill S) (Unit {0})
  copy_defaults zero i = pure tt
  copy_defaults (suc rounds) i = do
    data_byte ← read (0x0786 + i) un
    write (0x0743 + i) data_byte
    copy_defaults rounds (i + 1)

  -- The accesses before the LEDs.
  unfoldable pub prepare_ec : Option (List ℕ) → M (Uniwill S) (Unit {0})
  unfolding copy_defaults
  prepare_ec romid = do
    set_rom_id un un_status start romid
    feats ← uniwill_get_device_features dmi un
    write 0x0751 0x00
    when feats.profile_v1 (copy_defaults 5 0)
    uniwill_set_custom_profile_mode un dmi true
    write 0x0741 0x01
    write 0x044f 0x00

  unfoldable pub uniwill_keyboard_probe : Answers → M (Bound S E) ℤ
  unfolding prepare_ec
  uniwill_keyboard_probe a = do
    by_ec (prepare_ec a.romid)
    data_byte ← by_ec (read 0x078c un)
    (λ b. (tt, record b { kbd_bl_enable_state_on_start = bit_and (data_byte >>> 1) 0x01 }))
    by_leds (uniwill_leds_init dmi a.leds_registered)
    by_ec (uniwill_write_kbd_bl_enable un 1)
    status ← by_ec (uw_lightbar_init un dmi a.lightbar_registered)
    (λ b. (tt, record b { lightbar_loaded = not (is_negative status.0); lightbar_leds = status.1 }))
    by_ec (uw_charging_priority_init un a.prio_created)
    by_ec (uw_charging_profile_init un a.profile_created)
    by_ec (uw_ac_auto_boot_init un a.boot_created)
    by_ec (uw_usb_powershare_init un a.powershare_created)
    by_ec (uw_mini_led_local_dimming_init a.mini_led_created)
    has_options ← (λ b. (b.leds.uw.feats.has_hidden_bios_options, b))
    by_efi (uw_show_hidden_bios_options efi has_options a.runtime_services a.allocated)
    (λ b. (tt, record b { battery_hook_registered = true; filter = a.filter_installed }))
    pure success

  -- The removal; the hook is there after a probe.
  unfoldable pub uniwill_keyboard_remove : M (Bound S E) (Unit {0})
  uniwill_keyboard_remove = do
    (λ b. (tt, record b { battery_hook_registered = false }))
    by_leds uniwill_leds_remove
    on_start ← (λ b. (b.kbd_bl_enable_state_on_start, b))
    when (not (on_start == 0xff)) (by_ec (uniwill_write_kbd_bl_enable un on_start))
    (λ b. (tt, if b.lightbar_loaded then record b { lightbar_leds = 0 } else b))
    by_ec (write 0x0741 0x00)
    (λ b. (tt, record b { filter = false }))
    by_ec (λ u. (tt, record u { restart_work = none }))
