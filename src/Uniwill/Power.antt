-- ===== src/Uniwill/Power.antt =====
-- src/uniwill_keyboard.h: the events of the firmware, suspend and resume. `un` is what a local byte
-- holds before it is written, `start` the locals of a write with retries.
use tuxedo_drivers.Common.{
  ℕ, Bool, true, false, M, pure, ◌>>=◌, ◌>>◌, when, if◌then◌else◌, ◌==◌, leb, ◌&&◌, ◌||◌, bit_and,
  bit_or, not8, ◌<<<◌, ℤ, success, List, ◌∷◌,
}
use tuxedo_drivers.Uniwill.Interface.{Reply}
use tuxedo_drivers.Uniwill.Dmi.{Dmi}
use tuxedo_drivers.Uniwill.Access.{Uniwill, Features}
use tuxedo_drivers.Uniwill.Features.{uniwill_get_device_features}
use tuxedo_drivers.Uniwill.Charging.{
  uw_charging_priority_write_state, uw_charging_profile_write_state,
}
use tuxedo_drivers.Uniwill.Fan.{read, write, assign, uw_set_fan, uw_set_fan_auto}
use tuxedo_drivers.Uniwill.Leds.{
  Leds, ec, uniwill_leds_restore_state_extern, uniwill_leds_notify_brightness_change_extern,
}
use tuxedo_drivers.Clevo.Events.{Input, left_meta, left_alt, f6, sync, keymap_event}

-- The driver with its backlight, and what the input device gets, the latest first.
pub record Platform (S : Type 0) : Type 0 where
  pub leds : Leds S
  pub input : List Input

-- UNIWILL_KEY_KBDILLUMTOGGLE and the five levels.
abbrev pub is_kbd_level : ℕ → Bool
is_kbd_level code = code == 0x0B9 || leb 0x03B code && leb code 0x03F

module _ {S : Type 0} (un : ℕ) where
  unfoldable pub uniwill_write_kbd_bl_enable : ℕ → M (Uniwill S) (Unit {0})
  uniwill_write_kbd_bl_enable enable = do
    backlight_data ← read 0x078c un
    write 0x078c (
        bit_or (bit_and backlight_data (not8 (1 <<< 1)))
          (if bit_and enable 0x01 == 0 then 1 <<< 1 else 0))

  -- The test of the features and the accesses.
  abbrev pub custom_profile : Bool → Features → M (Uniwill S) (Unit {0})
  custom_profile zero_bit_initially feats = when feats.custom_profile_mode_needed (do
    data_byte ← read 0x0727 un
    zeroed ← pure (if zero_bit_initially then bit_and data_byte (not8 (1 <<< 6)) else data_byte)
    when zero_bit_initially (write 0x0727 zeroed)
    write 0x0727 (bit_or zeroed (1 <<< 6)))

  unfoldable pub uniwill_set_custom_profile_mode : Dmi → Bool → M (Uniwill S) (Unit {0})
  uniwill_set_custom_profile_mode dmi zero_bit_initially =
      uniwill_get_device_features dmi un >>= custom_profile zero_bit_initially

  abbrev pub by_leds : {A : Type 0} → M (Leds S) A → M (Platform S) A
  by_leds m p = let r = m p.leds in (r.0, record p { leds = r.1 })

  abbrev pub report : List Input → M (Platform S) (Unit {0})
  report events p = (tt, record p { input = events })

  -- The combination of keys for the mode, the latest first.
  abbrev pub report_mode_key : M (Platform S) (Unit {0})
  report_mode_key p =
      report
        (sync ∷ left_meta 0 ∷ left_alt 0 ∷ f6 0 ∷ sync ∷ f6 1 ∷ left_alt 1 ∷ left_meta 1 ∷ p.input)
        p

  -- The default case.
  abbrev pub report_code : Bool → ℕ → M (Platform S) (Unit {0})
  report_code has_device code p =
      if has_device then report (keymap_event code ∷ p.input) p else (tt, p)

  -- `has_device` is whether there is an input device.
  unfoldable pub uniwill_event_callb : Dmi → Bool → ℕ → M (Platform S) (Unit {0})
  unfolding uniwill_set_custom_profile_mode
  uniwill_event_callb dmi has_device code =
      if code == 0x0B0
      then report_mode_key
      else if code == 0x0AB
      then (do
        by_leds (ec (uniwill_set_custom_profile_mode dmi false))
        by_leds uniwill_leds_restore_state_extern
        by_leds (ec (uw_charging_priority_write_state un))
        by_leds (ec (uw_charging_profile_write_state un)))
      else if is_kbd_level code
      then (do
        changed ← by_leds uniwill_leds_notify_brightness_change_extern
        if changed then pure tt else report_code has_device code)
      else report_code has_device code

  -- The direct fan control is left, and its values are kept for the resume.
  unfoldable pub suspend_fans : Reply → M (Uniwill S) (Unit {0})
  suspend_fans start u =
      if u.direct_fan_control_started
      then (do
        assign (λ v. record v {
          direct_fan_control_suspend = true;
          fan0_suspend_save = v.fan0_value;
          fan1_suspend_save = v.fan1_value;
        })
        uw_set_fan_auto start un
        pure tt)
          u
      else (tt, u)

  unfoldable pub uniwill_keyboard_suspend : Reply → M (Uniwill S) ℤ
  unfolding suspend_fans uniwill_write_kbd_bl_enable
  uniwill_keyboard_suspend start = do
    needed ← (λ u. (u.feats.custom_profile_mode_needed, u))
    when needed (do data_byte ← read 0x0727 un; write 0x0727 (bit_and data_byte (not8 (1 <<< 6))))
    uniwill_write_kbd_bl_enable 0
    suspend_fans start
    pure success

  -- The values that were kept are set again.
  unfoldable pub resume_fans : Reply → M (Uniwill S) (Unit {0})
  resume_fans start u =
      if u.direct_fan_control_suspend
      then (do
        assign (λ v. record v { direct_fan_control_suspend = false })
        (λ v. uw_set_fan start un 0 v.fan0_suspend_save v)
        (λ v. uw_set_fan start un 1 v.fan1_suspend_save v)
        pure tt)
          u
      else (tt, u)

  unfoldable pub uniwill_keyboard_resume : Reply → M (Leds S) ℤ
  unfolding resume_fans uniwill_write_kbd_bl_enable
  uniwill_keyboard_resume start = do
    ec (resume_fans start)
    needed ← (λ l. (l.uw.feats.custom_profile_mode_needed, l))
    when needed (ec (do data_byte ← read 0x0727 un; write 0x0727 (bit_or data_byte (1 <<< 6))))
    uniwill_leds_restore_state_extern
    ec (uniwill_write_kbd_bl_enable 1)
    ec (uw_charging_priority_write_state un)
    ec (uw_charging_profile_write_state un)
    pure success
