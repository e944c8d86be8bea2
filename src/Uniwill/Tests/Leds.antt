-- ===== src/Uniwill/Tests/Leds.antt =====
-- The theorems of the keyboard backlight and the NVIDIA power control at concrete states.
use tuxedo_drivers.Common.{◌≡◌, refl, arith, Ram, u8, pos, success, false, true, []}
use tuxedo_drivers.Uniwill.Interface.{plain_ram, plain_ram-IsEcRam}
use tuxedo_drivers.Uniwill.Access.{Uniwill}
use tuxedo_drivers.Uniwill.Tests.{sample, sample-Ready, Ready}
use tuxedo_drivers.Uniwill.Leds.{
  Leds, backlight_none, fixed_color, tf_convert_rgb_range, one_zone_rgb,
  uniwill_leds_set_brightness_mc, uniwill_leds_restore_state_extern,
}
use tuxedo_drivers.Uniwill.Leds.Restore.{Shows, reset, restore_rgb_brightness}
use tuxedo_drivers.Uniwill.Nvidia.{
  ctgp_enable_store, ctgp_enable_show, db_enable_store, db_enable_show,
}
use tuxedo_drivers.Uniwill.Nvidia.Enable.{is_coupled, enable_show-store}
use tuxedo_drivers.Uniwill.Switches.{number}

abbrev leds : Leds Ram
leds = record {
  uw = sample;
  backlight_type = backlight_none;
  barebone_id = 0;
  brightness_ec_controlled = false;
  leds_initialized = false;
  led_brightness = 0;
  max_brightness = 2;
  mcled_brightness = 0;
  red = 255;
  green = 0;
  blue = 100;
  notified = [];
  led_hw_changed = false;
  mcled_hw_changed = false;
}

abbrev white_leds : Leds Ram
white_leds = record leds { backlight_type = fixed_color }

abbrev rgb_leds : Leds Ram
rgb_leds = record leds { backlight_type = one_zone_rgb }

abbrev cleared : Ram
cleared = λ a. 0

restore_rgb_brightness_example :
    let law = plain_ram-IsEcRam in
    let set = (uniwill_leds_set_brightness_mc 4 rgb_leds).1 in
    Shows plain_ram (λ f. Unit {0}) (λ f. f) law 4 rgb_leds set.uw.ec
    × Shows plain_ram
        (λ f. Unit {0})
        (λ f. f)
        law
        4
        rgb_leds
        (uniwill_leds_restore_state_extern
          (reset plain_ram (λ f. Unit {0}) (λ f. f) law cleared set)).1.uw.ec
unfolding tf_convert_rgb_range
restore_rgb_brightness_example =
    restore_rgb_brightness plain_ram (λ f. Unit {0}) (λ f. f) plain_ram-IsEcRam 4 rgb_leds cleared
      sample-Ready refl (omega arith) (omega arith) tt

abbrev disabled : Uniwill Ram
disabled = record sample { ec = λ a. 0 }

abbrev disabled-Ready : Ready disabled
disabled-Ready = record { registered = refl; ec_ready = tt }

enable_show-store_example :
    let c = ctgp_enable_store (success, true) 2 disabled in
    let d = db_enable_store (success, true) 2 disabled in
    (c.0 ≡ pos 2)
    × ((ctgp_enable_show c.1).0 ≡ number 1)
    × ((db_enable_show c.1).0 ≡ (db_enable_show disabled).0)
    × (is_coupled (u8 (c.1.ec 0x0743)) ≡ true)
    × (d.0 ≡ pos 2)
    × ((db_enable_show d.1).0 ≡ number 1)
    × ((ctgp_enable_show d.1).0 ≡ (ctgp_enable_show disabled).0)
    × (is_coupled (u8 (d.1.ec 0x0743)) ≡ true)
enable_show-store_example =
    enable_show-store plain_ram (λ f. Unit {0}) (λ f. f) plain_ram-IsEcRam true 2 disabled
      disabled-Ready refl
