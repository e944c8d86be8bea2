-- ===== src/Uniwill/Charging.antt =====
-- src/uniwill_keyboard.h: charging priority and charging profile. `un` is what a local variable
-- holds before it is written; the texts that are compared are those that the kernel's `strstrip`
-- leaves of the buffer.
pub mod Fields
pub mod Attributes
use Prim.Native.String.{String}
use text.Mathlib.Text.{◌==◌ as str_eq}
use tuxedo_drivers.Common.{
  ℕ, Bool, true, false, not, M, pure, ◌>>=◌, ◌>>◌, when, if◌then◌else◌, ◌==◌, bit_and, bit_or, not8,
  test_bits, ◌<<<◌, ◌>>>◌, ℤ, success, eio, einval, pos, nonzero, Option, none, some, List, [], ◌∷◌,
  ◌||◌,
}
use tuxedo_drivers.Uniwill.Interface.{Reply}
use tuxedo_drivers.Uniwill.Access.{Uniwill, uniwill_read_ec_ram, modify_ec_ram}
use tuxedo_drivers.Uniwill.Dmi.{Dmi, DmiField, board_name, product_name, any_match}

-- A number stored in a `bool`, and a `bool` passed as a `u8`.
abbrev pub to_bool : ℕ → Bool
to_bool n = not (n == 0)

abbrev pub of_bool : Bool → ℕ
of_bool b = if b then 1 else 0

module _ {S : Type 0} where
  -- `if (result == 0) remember; return result;`
  abbrev pub on_success : (Uniwill S → Uniwill S) → ℤ → M (Uniwill S) ℤ
  on_success remember result u = (result, if nonzero result then u else remember u)

  unfoldable pub uw_set_charging_priority : ℕ → ℕ → M (Uniwill S) ℤ
  uw_set_charging_priority un charging_priority = do
    let shifted = bit_and charging_priority 0x01 <<< 7
    result ←
        modify_ec_ram un 0x07cc (λ previous. bit_or (bit_and previous (not8 (1 <<< 7))) shifted)
    on_success (λ u. record u { charging_prio_last_written = to_bool shifted }) result

  unfoldable pub uw_get_charging_priority : ℕ → M (Uniwill S) Reply
  uw_get_charging_priority old = do
    r ← uniwill_read_ec_ram 0x07cc old
    pure (record { status = r.status; byte = bit_and (r.byte >>> 7) 0x01 })

  unfoldable pub uw_charging_priority_write_state : ℕ → M (Uniwill S) (Unit {0})
  uw_charging_priority_write_state un u =
      if u.charging_prio_loaded
      then (tt, (uw_set_charging_priority un (of_bool u.charging_prio_last_written) u).1)
      else (tt, u)

  -- `created`: `sysfs_create_group` returned 0.
  unfoldable pub uw_charging_priority_init : ℕ → Bool → M (Uniwill S) (Unit {0})
  uw_charging_priority_init un created u =
      let v =
        if u.feats.has_charging_prio then record u { charging_prio_loaded = created } else u in
      let r = uw_get_charging_priority un v in
      if v.charging_prio_loaded
      then (tt, record (r.1) { charging_prio_last_written = to_bool r.0.byte })
      else (tt, v)

  unfoldable pub uw_set_charging_profile : ℕ → ℕ → M (Uniwill S) ℤ
  uw_set_charging_profile un charging_profile = do
    let profile = bit_and charging_profile 0x03
    result ←
        modify_ec_ram un 0x07a6
          (λ previous. bit_or (bit_and previous (not8 (0x03 <<< 4))) (profile <<< 4))
    on_success (λ u. record u { charging_profile_last_written = profile }) result

  unfoldable pub uw_get_charging_profile : ℕ → M (Uniwill S) Reply
  uw_get_charging_profile old = do
    r ← uniwill_read_ec_ram 0x07a6 old
    pure (
        if nonzero r.status
        then r
        else record { status = r.status; byte = bit_and (r.byte >>> 4) 0x03 })

  unfoldable pub uw_charging_profile_write_state : ℕ → M (Uniwill S) (Unit {0})
  uw_charging_profile_write_state un u =
      if u.charging_profile_loaded
      then (tt, (uw_set_charging_profile un u.charging_profile_last_written u).1)
      else (tt, u)

  unfoldable pub uw_charging_profile_init : ℕ → Bool → M (Uniwill S) (Unit {0})
  uw_charging_profile_init un created u =
      let v =
        if u.feats.has_charging_profile
        then record u { charging_profile_loaded = created }
        else u in
      let r = uw_get_charging_profile un v in
      if v.charging_profile_loaded
      then (tt, record (r.1) { charging_profile_last_written = r.0.byte })
      else (tt, v)

  -- A status, and `*status` where it is written.
  unfoldable pub uw_has_charging_priority : Dmi → ℕ → M (Uniwill S) (ℤ × Option Bool)
  uw_has_charging_priority dmi un =
      let before_feature_drop = any_match dmi board_name (
        "PH4PRX1_PH6PRX1" ∷ "PH6PG01_PH6PG71" ∷ "PH4PG31" ∷ "PHxARX1_PHxAQF1"
        ∷ "PH6AG01_PH6AQ71_PH6AQI1" ∷ "PHxTxX1" ∷ "GMxXGxx" ∷ "GMxNGxx" ∷ "GMxTGxx" ∷ "GMxZGxx"
        ∷ "GMxMGxx" ∷ "POLARIS1501I1650TI" ∷ "POLARIS1501A1650TI" ∷ "POLARIS1701A1650TI"
        ∷ "POLARIS1701I1650TI" ∷ "POLARIS1501I2060" ∷ "POLARIS1501A2060" ∷ "POLARIS1701I2060"
        ∷ "POLARIS1701A2060" ∷ "PF5LUXG" ∷ "PULSE1401" ∷ "PULSE1501" ∷ []) in
      if not before_feature_drop then pure (success, some false) else (do
        r ← uniwill_read_ec_ram 0x0742 un
        if nonzero r.status
            then pure (eio, none)
            else pure (success, some (test_bits r.byte (1 <<< 5))))

  unfoldable pub uw_has_charging_profile : Dmi → ℕ → M (Uniwill S) (ℤ × Option Bool)
  uw_has_charging_profile dmi un =
      let not_supported =
        any_match dmi board_name ("PF5PU1G" ∷ "LAPQC71A" ∷ "LAPQC71B" ∷ [])
        || dmi product_name "A60 MUV" in
      if not_supported then pure (success, some false) else (do
        r ← uniwill_read_ec_ram 0x078e un
        if nonzero r.status
            then pure (eio, none)
            else pure (success, some (test_bits r.byte (1 <<< 3))))
