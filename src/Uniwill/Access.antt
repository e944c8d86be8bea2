-- ===== src/Uniwill/Access.antt =====
-- src/uniwill_keyboard.h: the state of the driver and its access to the EC's RAM through the table
-- that is registered. `msleep` and the log have no counterpart.
pub mod Ready
pub mod Retry
use tuxedo_drivers.Common.{
  ℕ, zero, suc, ◌+◌, ◌*◌, ◌^◌, Bool, true, false, M, pure, ◌>>=◌, ◌>>◌, if◌then◌else◌, ◌==◌, not,
  ◌||◌, bit_or, ℤ, success, eio, einval, nonzero, Option, none, some,
}
use text.Mathlib.Text.{◌==◌ as str_eq}
use tuxedo_drivers.Uniwill.Interface.{Reply, UniwillInterface}

-- `struct uniwill_device_features_t`
pub record Features : Type 0 where
  pub model : ℕ
  pub profile_v1 : Bool
  pub profile_v1_two_profs : Bool
  pub profile_v1_three_profs : Bool
  pub profile_v1_three_profs_leds_only : Bool
  pub custom_profile_mode_needed : Bool
  pub has_charging_prio : Bool
  pub has_charging_profile : Bool
  pub has_universal_ec_fan_control : Bool
  pub has_double_pl4 : Bool
  pub has_ac_auto_boot : Bool
  pub has_usb_powershare : Bool
  pub has_mini_led_local_dimming : Bool
  pub has_hidden_bios_options : Bool

-- The static variables of the driver, with the EC behind the table as `ec`. `restart_work` is the
-- delayed work that restarts the direct fan control: its delay in ms, if it is scheduled.
pub record Uniwill (S : Type 0) : Type 0 where
  pub wmi : Option (UniwillInterface S)
  pub ec : S
  pub feats : Features
  pub feats_loaded : Bool
  pub charging_prio_loaded : Bool
  pub charging_prio_last_written : Bool
  pub charging_profile_loaded : Bool
  pub charging_profile_last_written : ℕ
  pub ac_auto_boot_last_written : Bool
  pub usb_powershare_last_written : Bool
  pub mini_led_last_written : Bool
  pub fan0_value : ℕ
  pub fan1_value : ℕ
  pub fan0_suspend_save : ℕ
  pub fan1_suspend_save : ℕ
  pub fans_initialized : Bool
  pub direct_fan_control_started : Bool
  pub direct_fan_control_suspend : Bool
  pub restart_work : Option ℕ

module _ {S : Type 0} where
  -- The two accesses by the table that is registered.
  abbrev pub read_by : Option (UniwillInterface S) → ℕ → ℕ → M (Uniwill S) Reply
  read_by (some i) address old u =
      let r = i.read_ec_ram address old u.ec in (r.0, record u { ec = r.1 })
  read_by none address old u = (record { status = eio; byte = old }, u)

  abbrev pub write_by : Option (UniwillInterface S) → ℕ → ℕ → M (Uniwill S) ℤ
  write_by (some i) address byte u =
      let r = i.write_ec_ram address byte u.ec in (r.0, record u { ec = r.1 })
  write_by none address byte u = (eio, u)

  unfoldable pub uniwill_read_ec_ram : ℕ → ℕ → M (Uniwill S) Reply
  uniwill_read_ec_ram address old u = read_by u.wmi address old u

  unfoldable pub uniwill_write_ec_ram : ℕ → ℕ → M (Uniwill S) ℤ
  uniwill_write_ec_ram address byte u = write_by u.wmi address byte u

  unfoldable pub uniwill_wmi_evaluate : ℕ → ℕ → M (Uniwill S) ℤ
  uniwill_wmi_evaluate function arg u = elim u.wmi [
    | some i ↦ let r = i.wmi_evaluate function arg u.ec in (r.0, record u { ec = r.1 })
    | none ↦ (eio, u)
  ]

  -- The loop from a status and a byte, with the retries that are left.
  read_retry : ℕ → ℕ → Reply → M (Uniwill S) Reply
  read_retry zero address r u = (r, u)
  read_retry (suc retries) address r u =
      let next = uniwill_read_ec_ram address r.byte u in
      elim (nonzero next.0.status) [
        | true ↦ read_retry retries address next.0 next.1
        | false ↦ next
      ]

  -- `uninitialised` is what `status` holds before the loop.
  unfoldable pub uniwill_read_ec_ram_with_retry : ℤ → ℕ → ℕ → ℕ → M (Uniwill S) Reply
  unfolding read_retry
  uniwill_read_ec_ram_with_retry uninitialised address old retries =
      read_retry retries address (record { status = uninitialised; byte = old })

  -- The loop from a status and a control byte, with the retries that are left.
  unfoldable pub write_retry : ℕ → ℕ → ℕ → Reply → M (Uniwill S) ℤ
  write_retry zero address byte control u = (control.status, u)
  write_retry (suc retries) address byte control u =
      let wrote = uniwill_write_ec_ram address byte u in
      let failed = write_retry retries address byte (record control { status = wrote.0 }) wrote.1 in
      let check = uniwill_read_ec_ram address control.byte wrote.1 in
      let differs = write_retry retries address byte check.0 check.1 in
      elim (nonzero wrote.0) [
        | true ↦ failed
        | false ↦ elim (nonzero check.0.status || not (byte == check.0.byte)) [
          | true ↦ differs
          | false ↦ (check.0.status, check.1)
        ]
      ]

  unfoldable pub uniwill_write_ec_ram_with_retry : Reply → ℕ → ℕ → ℕ → M (Uniwill S) ℤ
  unfolding write_retry
  uniwill_write_ec_ram_with_retry uninitialised address byte retries =
      write_retry retries address byte uninitialised

  -- The word is `none` where `*data` is not written.
  unfoldable pub uniwill_read_ec_ram_u16 : ℕ → ℕ → ℕ → M (Uniwill S) (ℤ × Option ℕ)
  uniwill_read_ec_ram_u16 uninitialised hibyte_address lobyte_address = do
    hi ← uniwill_read_ec_ram hibyte_address uninitialised
    if nonzero hi.status then pure (hi.status, none) else (do
      lo ← uniwill_read_ec_ram lobyte_address uninitialised
      if nonzero lo.status
          then pure (lo.status, none)
          else pure (lo.status, some (bit_or (hi.byte * 2 ^ 8) lo.byte)))

  -- A byte is read, and written with other bits; an error of the read ends it. This is the frame
  -- of the setters of charging priority and profile, auto boot, powershare and fn lock.
  unfoldable pub modify_ec_ram : ℕ → ℕ → (ℕ → ℕ) → M (Uniwill S) ℤ
  modify_ec_ram uninitialised address change = do
    r ← uniwill_read_ec_ram address uninitialised
    if nonzero r.status then pure r.status else uniwill_write_ec_ram address (change r.byte)

  unfoldable pub uniwill_add_interface : UniwillInterface S → M (Uniwill S) ℤ
  uniwill_add_interface interface u =
      if str_eq interface.string_id "uniwill_wmi"
      then (success, record u { wmi = some interface })
      else (einval, u)

  unfoldable pub uniwill_remove_interface : UniwillInterface S → M (Uniwill S) ℤ
  uniwill_remove_interface interface u =
      if str_eq interface.string_id "uniwill_wmi"
      then (success, record u { wmi = none })
      else (einval, u)
