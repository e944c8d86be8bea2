-- ===== src/Uniwill/Tests/Platform.antt =====
-- The theorems of the ROM id, the lightbar, the hidden BIOS options and the suspend at concrete states.
use tuxedo_drivers.Common.{
  ℕ, ◌≡◌, ◌≢◌, refl, arith, true, false, Ram, u8, test_bits, success, some, if◌then◌else◌, ◌==◌,
}
use tuxedo_drivers.Uniwill.Interface.{plain_ram, plain_ram-IsEcRam}
use tuxedo_drivers.Uniwill.Access.{Uniwill}
use tuxedo_drivers.Uniwill.Fan.{restart_direct_fan_control_work_handler}
use tuxedo_drivers.Uniwill.Fan.Suspend.{suspended_fans_restart}
use tuxedo_drivers.Uniwill.Power.{suspend_fans, resume_fans}
use tuxedo_drivers.Uniwill.RomId.{set_rom_id, uw_romid_ph6pxx}
use tuxedo_drivers.Uniwill.RomId.Corrected.{Corrected, AreBytes, rom_id_repaired}
use tuxedo_drivers.Uniwill.Lightbar.{led_green, led_animation, lightbar_set_blocking, lightbar_get}
use tuxedo_drivers.Uniwill.Lightbar.Colors.{green_register, lightbar_get-set}
use tuxedo_drivers.Uniwill.BiosOptions.{Efi, Variable, uw_show_hidden_bios_options}
use tuxedo_drivers.Uniwill.BiosOptions.Enabled.{IsEfi, Switched, options_enabled}
use tuxedo_drivers.Uniwill.Tests.{sample, Ready, start, features}

-- All bytes are 0x85, and the direct fan control runs with 30 and 40.
abbrev running : Uniwill Ram
running = record sample {
  ec = λ a. 0x85;
  feats = record features { has_universal_ec_fan_control = false };
  direct_fan_control_started = true;
  fan0_value = 30;
  fan1_value = 40;
}

running-Ready : Ready running
running-Ready = record { registered = refl; ec_ready = tt }

rom_id_repaired_example :
    let x = set_rom_id 0 success start (some uw_romid_ph6pxx) running in
    let y = set_rom_id 0 success start (some uw_romid_ph6pxx) x.1 in
    Corrected plain_ram
      (λ f. Unit {0})
      (λ f. f)
      plain_ram-IsEcRam
      0
      success
      start
      running
      uw_romid_ph6pxx
      x
    × (y.0 ≡ success)
    × (y.1.ec ≡ x.1.ec)
unfolding AreBytes
rom_id_repaired_example =
    rom_id_repaired plain_ram (λ f. Unit {0}) (λ f. f) plain_ram-IsEcRam 0 success start
      uw_romid_ph6pxx running running-Ready refl (ground arith)

lightbar_get-set_example :
    let x = lightbar_set_blocking 0 led_green 20 running in
    (x.0 ≡ success)
    × ((lightbar_get 0 led_green x.1).0 ≡ 20)
    × ((lightbar_get 0 led_animation x.1).0 ≡ 0)
    × ((j : ℕ) → j ≢ 0x074a → j ≢ 0x0748 → x.1.ec j ≡ 0x85)
lightbar_get-set_example =
    lightbar_get-set plain_ram (λ f. Unit {0}) (λ f. f) plain_ram-IsEcRam 0 led_green 0x074a 20
      running green_register running-Ready (omega arith)

suspended_fans_restart_example :
    let v = (resume_fans 0 start (suspend_fans 0 start running).1).1 in
    let x = (restart_direct_fan_control_work_handler 0 v).1 in
    (v.fan0_value ≡ 30)
    × (v.fan1_value ≡ 40)
    × (v.direct_fan_control_started ≡ true)
    × (v.restart_work ≡ some 0)
    × (test_bits (u8 (x.ec 0x0751)) 0x40 ≡ true)
    × (x.ec 0x1804 ≡ 30)
    × (x.ec 0x1809 ≡ 40)
    × (x.restart_work ≡ some 3000000)
suspended_fans_restart_example =
    suspended_fans_restart plain_ram (λ f. Unit {0}) (λ f. f) plain_ram-IsEcRam 0 start 0 running
      running-Ready refl refl

abbrev stored_variable : Efi Variable
stored_variable = record {
  get_size = λ v. (some v.size, v);
  get_variable = λ size v. (some v, v);
  set_variable = λ w v. (true, w);
}

stored_variable-IsEfi : IsEfi stored_variable (λ v. v)
stored_variable-IsEfi = record {
  sizes = λ s. refl;
  sizes_view = λ s. refl;
  gets = λ size s. refl;
  gets_view = λ size s. refl;
  sets_view = λ v s. refl;
}

-- Both options are supported and off.
abbrev options_off : Variable
options_off = record {
  attr = 7;
  size = 0x100;
  bytes = λ a. if a == 0x60 then 1 else if a == 0x6e then 1 else 0;
}

options_enabled_example :
    let x = (uw_show_hidden_bios_options stored_variable true true true options_off).1 in
    let y = (uw_show_hidden_bios_options stored_variable true true true x).1 in
    Switched options_off x
    × ((j : ℕ) → j ≢ 0x33 → j ≢ 0x6f → x.bytes j ≡ options_off.bytes j)
    × (y ≡ x)
options_enabled_example = options_enabled stored_variable (λ v. v) stored_variable-IsEfi options_off
