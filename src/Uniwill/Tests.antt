-- ===== src/Uniwill/Tests.antt =====
-- The theorems of the Uniwill drivers at concrete states: an EC RAM that is the registered table's
-- whole state, a mailbox that is its registers, and some runs of the drivers.
pub mod Settings
pub mod Keys
pub mod Fans
pub mod Leds
pub mod Platform
use tuxedo_drivers.Common.{
  ℕ, zero, suc, ◌+◌, ◌*◌, ◌%◌, ◌≡◌, ◌≢◌, ◌<◌, ◌≤◌, ◌⊎◌, ◌↔◌, refl, arith, some, none, pos, negsuc,
  false, true, Bool, not, ◌&&◌, einval, eio, enodev, success, update, Ram, u8, test_bits,
  u32_of_int, bit_and, ltb, if◌then◌else◌, insert_field, rest_of, ℤ, List, [], ◌∷◌,
}
use tuxedo_drivers.Uniwill.Interface.{
  Reply, UniwillInterface, IsEcRam, plain_ram, plain_ram-IsEcRam,
}
use tuxedo_drivers.Uniwill.Wmi.{
  Kernel, uw_ec_read_addr_direct, uw_ec_write_addr_direct, uniwill_wmi_interface, error_word,
}
use tuxedo_drivers.Uniwill.Wmi.Mailbox.{Mailbox, registers, registers-IsMailbox}
use tuxedo_drivers.Uniwill.Wmi.Results.{
  addressed, read_in_time, read_late, write_in_time, write_late,
}
use tuxedo_drivers.Uniwill.Wmi.EcRam.{IsIdle, direct-IsEcRam}
use tuxedo_drivers.Uniwill.Access.{
  Features, Uniwill, uniwill_read_ec_ram_with_retry, uniwill_write_ec_ram_with_retry,
  uniwill_read_ec_ram_u16,
}
use tuxedo_drivers.Uniwill.Access.Ready.{IsReady}
use tuxedo_drivers.Uniwill.Access.Retry.{
  ram-write_with_retry, read_u16_joins, unverified_write_succeeds, unregistered_retry,
}
use tuxedo_drivers.Uniwill.Charging.{
  uw_set_charging_profile, uw_get_charging_profile, uw_set_charging_priority,
  uw_get_charging_priority, uw_charging_profile_write_state, uw_charging_priority_write_state,
}
use tuxedo_drivers.Uniwill.Charging.Fields.{
  get-set_charging_profile, get-set_charging_priority, restore_charging_profile,
  restore_charging_priority,
}
use tuxedo_drivers.Uniwill.Charging.Attributes.{
  Shown, printed, uw_charging_profile_store, uw_charging_profile_show, uw_charging_prio_store,
  uw_charging_prio_show, charging_profile_show-store, charging_prio_show-store, find_value,
  charging_profile_options, charging_prio_options,
}
use tuxedo_drivers.Uniwill.Fan.{set_full_fan_mode, allowed_speed}
use tuxedo_drivers.Uniwill.Fan.Mode.{set_full_fan_mode_sets}
use tuxedo_drivers.Uniwill.Fan.Speed.{allowed_speed_range}
use tuxedo_drivers.Uniwill.Tdp.{
  Limits, uw_get_tdp, uw_set_tdp, uw_get_tdp_min, uw_get_tdp_max, uw_set_performance_profile_v1,
}
use tuxedo_drivers.Uniwill.Tdp.Tables.{uw_id_tdp, tdp_min_phxpxx, tdp_max_phxpxx}
use tuxedo_drivers.Uniwill.Tdp.Limits.{Bounded, tdp_limits_fit}
use tuxedo_drivers.Uniwill.Tdp.Profile.{Chosen, performance_profile_sets}
use tuxedo_drivers.Uniwill.Tdp.Set.{Within, get-set_tdp, uw_set_tdp_accepts_iff}

abbrev pub features : Features
features = record {
  model = 0x13;
  profile_v1 = true;
  profile_v1_two_profs = false;
  profile_v1_three_profs = true;
  profile_v1_three_profs_leds_only = false;
  custom_profile_mode_needed = true;
  has_charging_prio = true;
  has_charging_profile = true;
  has_universal_ec_fan_control = true;
  has_double_pl4 = true;
  has_ac_auto_boot = false;
  has_usb_powershare = false;
  has_mini_led_local_dimming = false;
  has_hidden_bios_options = false;
}

-- The RAM holds the low byte of each address.
abbrev pub sample : Uniwill Ram
sample = record {
  wmi = some plain_ram;
  ec = λ a. a % 256;
  feats = features;
  feats_loaded = true;
  charging_prio_loaded = true;
  charging_prio_last_written = false;
  charging_profile_loaded = true;
  charging_profile_last_written = 0;
  ac_auto_boot_last_written = false;
  usb_powershare_last_written = false;
  mini_led_last_written = false;
  fan0_value = 0;
  fan1_value = 0;
  fan0_suspend_save = 0;
  fan1_suspend_save = 0;
  fans_initialized = false;
  direct_fan_control_started = false;
  direct_fan_control_suspend = false;
  restart_work = none;
}

abbrev pub Ready : Uniwill Ram → Type 0
Ready u = IsReady plain_ram (λ f. Unit {0}) (λ f. f) plain_ram-IsEcRam u

pub sample-Ready : Ready sample
sample-Ready = record { registered = refl; ec_ready = tt }

abbrev pub start : Reply
start = record { status = success; byte = 0 }

-- A mailbox that takes `latency` delays for a request.
abbrev mailbox : ℕ → Mailbox
mailbox latency = record {
  ldat = 0;
  hdat = 0;
  flags = 0;
  cmdl = 0;
  cmdh = 0;
  pending = 0;
  latency = latency;
  ram = λ a. a % 256;
}

direct-IsEcRam_example : IsEcRam (uniwill_wmi_interface registers true) (λ d. IsIdle d) (λ d. d.ram)
direct-IsEcRam_example = direct-IsEcRam registers (λ d. d) registers-IsMailbox

ram-write_with_retry_example :
    ((uniwill_write_ec_ram_with_retry start 0x751 7 3 sample).0 ≡ success)
    × ((uniwill_write_ec_ram_with_retry start 0x751 7 3 sample).1.ec
        ≡ update (λ a. a % 256) 0x751 7)
    × Ready (uniwill_write_ec_ram_with_retry start 0x751 7 3 sample).1
ram-write_with_retry_example =
    ram-write_with_retry plain_ram (λ f. Unit {0}) (λ f. f) plain_ram-IsEcRam sample sample-Ready
      start 0x751 7 2 (omega arith) (omega arith)

-- An EC that drops every write.
abbrev stuck : UniwillInterface Ram
stuck = record {
  string_id = "stuck";
  read_ec_ram = λ a old f. (record { status = success; byte = 0 }, f);
  write_ec_ram = λ a d f. (success, f);
  wmi_evaluate = λ function arg f. (success, f);
}

abbrev stuck_sample : Uniwill Ram
stuck_sample = record sample { wmi = some stuck }

abbrev gone_sample : Uniwill Ram
gone_sample = record sample { wmi = none }
