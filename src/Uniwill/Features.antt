-- ===== src/Uniwill/Features.antt =====
-- src/uniwill_keyboard.h: what the driver finds out about the device. `un` is what a local byte holds
-- before it is written.
pub mod Model
use Prim.Native.String.{String}
use tuxedo_drivers.Common.{
  negsuc, ℕ, Bool, true, false, not, M, pure, ◌>>=◌, if◌then◌else◌, ◌==◌, ◌&&◌, ◌||◌, bit_and,
  test_bits, ◌<<<◌, ◌>>>◌, ℤ, pos, success, enodev, nonzero, negative, Option, none, some, [], ◌∷◌,
}
use tuxedo_drivers.Uniwill.Dmi.{Dmi, any_match}
use tuxedo_drivers.Uniwill.Dmi.DmiField.{board_name, product_sku}
use tuxedo_drivers.Uniwill.Access.{Uniwill, Features, uniwill_read_ec_ram}
use tuxedo_drivers.Uniwill.Charging.{uw_has_charging_priority, uw_has_charging_profile}
use tuxedo_drivers.Uniwill.Switches.{is_auto_boot_and_powershare_supported}
use tuxedo_drivers.Uniwill.Tdp.Tables.{uw_model_ph4trx}

unfoldable pub uw_has_ac_auto_boot : Dmi → ℤ × Bool
uw_has_ac_auto_boot dmi = is_auto_boot_and_powershare_supported dmi

unfoldable pub uw_has_usb_powershare : Dmi → ℤ × Bool
uw_has_usb_powershare dmi = is_auto_boot_and_powershare_supported dmi

unfoldable pub uw_has_hidden_bios_options : Dmi → ℤ × Bool
uw_has_hidden_bios_options dmi =
    (success, any_match dmi board_name ("X6AR5xxY" ∷ "X6AR5xxY_mLED" ∷ "X6AR55xU" ∷ []))

unfoldable pub two_profs : Dmi → Bool
two_profs dmi = any_match dmi board_name ("PF5PU1G" ∷ "PULSE1401" ∷ "PULSE1501" ∷ [])

unfoldable pub three_profs : Dmi → Bool
three_profs dmi = any_match dmi board_name (
    "POLARIS1501A1650TI" ∷ "POLARIS1501A2060" ∷ "POLARIS1501I1650TI" ∷ "POLARIS1501I2060"
    ∷ "POLARIS1701A1650TI" ∷ "POLARIS1701A2060" ∷ "POLARIS1701I1650TI" ∷ "POLARIS1701I2060"
    ∷ "GXxMRXx" ∷ "GXxHRXx" ∷ "XxHP4NAx" ∷ "XxKK4NAx_XxSP4NAx" ∷ "XxAR4NAx" ∷ [])

unfoldable pub three_profs_leds_only : Dmi → Bool
three_profs_leds_only dmi = any_match dmi product_sku (
    "POLARIS1XA02" ∷ "POLARIS1XI02" ∷ "POLARIS1XA03" ∷ "POLARIS1XI03" ∷ "STELLARIS1XI03"
    ∷ "STELLARIS1XA03" ∷ "STELLARIS1XI04" ∷ "STEPOL1XA04" ∷ [])

unfoldable pub custom_profile_mode_needed_on : Dmi → Bool
custom_profile_mode_needed_on dmi =
    any_match dmi product_sku (
      "STELLARIS16I06" ∷ "STELLARIS17I06" ∷ "STELLARIS16I07" ∷ "STELLARIS16A07" ∷ "STELLSL15I06"
      ∷ "STELLSL15A06" ∷ [])
    || any_match dmi board_name (
        "GXxMRXx" ∷ "GXxHRXx" ∷ "XxHP4NAx" ∷ "XxKK4NAx_XxSP4NAx" ∷ "X5KK45xS_X5SP45xS"
        ∷ "X6KK45xU_X6SP45xU" ∷ "X6AR55xU" ∷ "X5AR45xS" ∷ "XxAF5xxx" ∷ "XxAF5xxx_mLED" ∷ [])

-- The devices on which the universal fan control is not used.
unfoldable pub fan_control_exception : ℕ → Dmi → Bool
fan_control_exception model dmi =
    model == uw_model_ph4trx
    || any_match dmi board_name ("GXxMRXx" ∷ "XxAR4NAx" ∷ "X6FR5xxY" ∷ "X5AR45xS" ∷ [])

-- `*status`, where it is written.
-- `result == 1`
abbrev pub is_one : ℤ → Bool
is_one (pos n) = n == 1
is_one (negsuc n) = false

abbrev pub flag_or : Bool → Option Bool → Bool
flag_or old none = old
flag_or old (some flag) = flag

module _ {S : Type 0} where
  unfoldable pub uw_has_mini_led_local_dimming : ℕ → M (Uniwill S) (ℤ × Option Bool)
  uw_has_mini_led_local_dimming un = do
    r ← uniwill_read_ec_ram 0x0d4f un
    pure (
        if nonzero r.status
        then (r.status, none)
        else (success, some (not (r.byte == 0xff) && test_bits r.byte 0x01)))

  unfoldable pub has_double_pl4_bit : ℕ → M (Uniwill S) (ℤ × Option Bool)
  has_double_pl4_bit un = do
    r ← uniwill_read_ec_ram 0x0727 un
    pure (
        if nonzero r.status then (r.status, none) else (success, some (test_bits r.byte (1 <<< 7))))

  unfoldable pub has_universal_ec_fan_control_bit : Dmi → ℕ → M (Uniwill S) ℤ
  has_universal_ec_fan_control_bit dmi un u =
      if fan_control_exception u.feats.model dmi
      then (success, u)
      else (let r = uniwill_read_ec_ram 0x078e un u in
          if negative r.0.status
          then (r.0.status, r.1)
          else (pos (bit_and (r.0.byte >>> 6) 1), r.1))

  abbrev pub set_feats : (Features → Features) → Bool → Uniwill S → Uniwill S
  set_feats f loaded u = record u { feats = f u.feats; feats_loaded = u.feats_loaded && loaded }

  -- A feature from the outcome of its test; `feats_loaded` is the local variable until the end.
  abbrev pub from_test :
      ℤ × Option Bool → (Bool → Features → Features) → (Features → Bool) → Uniwill S → Uniwill S
  from_test r set get u = set_feats (λ f. set (flag_or (get f) r.1) f) (not (nonzero r.0)) u

  abbrev pub test_then :
      M (Uniwill S) (ℤ × Option Bool)
      → (Bool → Features → Features)
      → (Features → Bool)
      → Uniwill S
      → Uniwill S
  test_then test set get u = let r = test u in from_test r.0 set get r.1

  -- The model, then the flags by DMI.
  unfoldable pub load_model : Dmi → Uniwill S → Uniwill S
  load_model dmi u =
      let r = uniwill_read_ec_ram 0x0740 u.feats.model u in
      let failed = nonzero r.0.status in
      record (r.1) {
        feats_loaded = not failed;
        feats = record (r.1.feats) {
          model = if failed then 0 else r.0.byte;
          profile_v1_two_profs = two_profs dmi;
          profile_v1_three_profs = three_profs dmi;
          profile_v1_three_profs_leds_only = three_profs_leds_only dmi;
          custom_profile_mode_needed = custom_profile_mode_needed_on dmi;
        };
      }

  -- The tests of the EC's RAM, in their order.
  unfoldable pub load_tests : Dmi → ℕ → Uniwill S → Uniwill S
  load_tests dmi un u0 =
      let u1 =
        test_then (has_double_pl4_bit un) (λ b f. record f { has_double_pl4 = b })
          (λ f. f.has_double_pl4) u0 in
      let u2 =
        set_feats
          (λ f. record f { profile_v1 = f.profile_v1_two_profs || f.profile_v1_three_profs }) true
          u1 in
      let u3 =
        test_then (uw_has_charging_priority dmi un) (λ b f. record f { has_charging_prio = b })
          (λ f. f.has_charging_prio) u2 in
      let u4 =
        test_then (uw_has_charging_profile dmi un) (λ b f. record f { has_charging_profile = b })
          (λ f. f.has_charging_profile) u3 in
      let u5 =
        from_test ((uw_has_ac_auto_boot dmi).0, some (uw_has_ac_auto_boot dmi).1)
          (λ b f. record f { has_ac_auto_boot = b }) (λ f. f.has_ac_auto_boot) u4 in
      let u6 =
        from_test ((uw_has_usb_powershare dmi).0, some (uw_has_usb_powershare dmi).1)
          (λ b f. record f { has_usb_powershare = b }) (λ f. f.has_usb_powershare) u5 in
      let u7 =
        test_then (uw_has_mini_led_local_dimming un)
          (λ b f. record f { has_mini_led_local_dimming = b }) (λ f. f.has_mini_led_local_dimming)
          u6 in
      from_test ((uw_has_hidden_bios_options dmi).0, some (uw_has_hidden_bios_options dmi).1)
        (λ b f. record f { has_hidden_bios_options = b }) (λ f. f.has_hidden_bios_options) u7

  unfoldable pub load_fan_control : Dmi → ℕ → Uniwill S → Uniwill S
  load_fan_control dmi un u =
      let r = has_universal_ec_fan_control_bit dmi un u in
      if negative r.0
      then set_feats (λ f. f) false r.1
      else set_feats (λ f. record f { has_universal_ec_fan_control = is_one r.0 }) true r.1

  unfoldable pub uniwill_get_device_features : Dmi → ℕ → M (Uniwill S) Features
  unfolding load_model load_tests load_fan_control
  uniwill_get_device_features dmi un u =
      let loaded = load_fan_control dmi un (load_tests dmi un (load_model dmi u)) in
      if u.feats_loaded then (u.feats, u) else (loaded.feats, loaded)

  unfoldable pub uniwill_get_active_interface_id : Uniwill S → ℤ × Option String
  uniwill_get_active_interface_id u = elim u.wmi [
    | none ↦ (enodev, none)
    | some i ↦ (success, some i.string_id)
  ]
