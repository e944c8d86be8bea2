-- ===== src/Uniwill/Leds/Init.antt =====
-- src/uniwill_leds.h: the start of the keyboard backlight, and the invariant that it establishes. `dmi`
-- is the substring test of `dmi_check_system`, `registered` what the LED class returns.
use Prim.Native.String.{String}
use tuxedo_drivers.Common.{
  ◌⊎◌, ◌∙◌, sym, ℕ, zero, suc, ◌≡◌, refl, arith, ap, Bool, true, false, not, M, pure, ◌>>=◌, ◌>>◌,
  if◌then◌else◌, ◌==◌, ◌&&◌, ◌||◌, bit_or, test_bits, ℤ, success, nonzero, List, [], ◌∷◌,
}
use tuxedo_drivers.Uniwill.Dmi.{DmiField, Dmi}
use tuxedo_drivers.Uniwill.Dmi.DmiField.{board_name, product_sku, sys_vendor}
use tuxedo_drivers.Uniwill.Access.{uniwill_read_ec_ram, uniwill_write_ec_ram}
use tuxedo_drivers.Uniwill.Leds.{
  BacklightType, backlight_none, fixed_color, fixed_color_5_levels, one_zone_rgb, per_key_rgb, Leds,
  ec,
}

-- A table of the entries TUXEDO and one more string.
unfoldable pub dmi_check_system : Dmi → DmiField → List String → Bool
dmi_check_system dmi field [] = false
dmi_check_system dmi field (name ∷ names) =
    (dmi sys_vendor "TUXEDO" && dmi field name) || dmi_check_system dmi field names

unfoldable pub force_no_ec_led_control : Dmi → Bool
force_no_ec_led_control dmi =
    dmi_check_system dmi product_sku ("STELLARIS1XA05" ∷ "STELLSL15I06" ∷ [])

unfoldable pub kbl_type_fixed_color_5_levels : Dmi → Bool
kbl_type_fixed_color_5_levels dmi =
    dmi_check_system dmi board_name
      ("GXxHRXx" ∷ "GXxMRXx" ∷ "XxHP4NAx" ∷ "XxKK4NAx_XxSP4NAx" ∷ "XxAR4NAx" ∷ [])

-- UW_EC_REG_BAREBONE_ID_VALUE_*
unfoldable pub is_fixed_color_id : ℕ → Bool
is_fixed_color_id id =
    id == 0x09
    || id == 0x0e
    || id == 0x12
    || id == 0x13
    || id == 0x14
    || id == 0x15
    || id == 0x16
    || id == 0x17
    || id == 0x18

module _ {S : Type 0} where
  -- The rounds that are left, from the status of the last one.
  unfoldable pub read_barebone_id : ℕ → ℤ → M (Leds S) ℤ
  read_barebone_id zero status l = (status, l)
  read_barebone_id (suc rounds) status l =
      let r = ec (uniwill_read_ec_ram 0x0740 l.barebone_id) l in
      let k = record (r.1) { barebone_id = r.0.byte } in
      let rest = read_barebone_id rounds r.0.status k in
      if not (nonzero r.0.status) && not (r.0.byte == 0) then (r.0.status, k) else rest

  -- The bit that lets the driver control the backlight of some devices.
  enable_control : M (Leds S) (Unit {0})
  enable_control l =
      let r = ec (uniwill_read_ec_ram 0x0766 0) l in
      (tt, (ec (uniwill_write_ec_ram 0x0766 (bit_or r.0.byte 0x20)) r.1).1)

  abbrev controlled : BacklightType → Leds S → Leds S
  controlled type l = record l { backlight_type = type; brightness_ec_controlled = true }

  -- The type of the backlight.
  unfoldable pub choose_type : Dmi → M (Leds S) ℤ
  choose_type dmi l =
      let r = ec (uniwill_read_ec_ram 0x0766 0) l in
      if force_no_ec_led_control dmi
      then (success, l)
      else if is_fixed_color_id l.barebone_id
      then (success, controlled fixed_color l)
      else if kbl_type_fixed_color_5_levels dmi
      then (success, controlled fixed_color_5_levels l)
      else if nonzero r.0.status
      then (r.0.status, r.1)
      else if test_bits r.0.byte 0x04
      then (success, controlled one_zone_rgb r.1)
      else (success, r.1)

  -- The registration with the LED class, by the type.
  unfoldable pub register_leds : ℤ → M (Leds S) ℤ
  register_leds registered l =
      let flag = λ (old : Bool). if l.brightness_ec_controlled then true else old in
      let white = record l { led_hw_changed = flag l.led_hw_changed } in
      elim l.backlight_type [
        | fixed_color ↦ (registered, white)
        | fixed_color_5_levels ↦ (registered, record white { max_brightness = 4 })
        | one_zone_rgb ↦ (registered, record l { mcled_hw_changed = flag l.mcled_hw_changed })
        | backlight_none ↦ (success, l)
        | per_key_rgb ↦ (success, l)
      ]

  unfoldable pub uniwill_leds_init : Dmi → ℤ → M (Leds S) ℤ
  unfolding enable_control
  uniwill_leds_init dmi registered = do
    result ← read_barebone_id 3 success
    id ← (λ l. (l.barebone_id, l))
    if nonzero result || id == 0 then pure result else (do
      enable_control
      chosen ← choose_type dmi
      if nonzero chosen then pure chosen else (do
        r ← register_leds registered
        if nonzero r then pure r else (λ l. (success, record l { leds_initialized = true }))))

  unfoldable pub uniwill_leds_remove : M (Leds S) ℤ
  uniwill_leds_remove l =
      (success, if l.leds_initialized then record l { leds_initialized = false } else l)

abbrev pub has_control : BacklightType → Bool
has_control fixed_color = true
has_control fixed_color_5_levels = true
has_control one_zone_rgb = true
has_control backlight_none = false
has_control per_key_rgb = false

module _ {S : Type 0} where
  -- The EC controls the brightness exactly for the types that have it, and the start is not over.
  pub record IsStarting (l : Leds S) : Type 0 where
    pub fits : l.brightness_ec_controlled ≡ has_control l.backlight_type
    pub not_over : l.leds_initialized ≡ false

  either :
      {A : Type 0} (b : Bool) (x y : A × Leds S)
      → IsStarting x.1
      → IsStarting y.1
      → IsStarting (if b then x else y).1
  either true x y h k = h
  either false x y h k = k

  keep :
      (l k : Leds S)
      → IsStarting l
      → k.brightness_ec_controlled ≡ l.brightness_ec_controlled
      → k.backlight_type ≡ l.backlight_type
      → k.leds_initialized ≡ l.leds_initialized
      → IsStarting k
  keep l k h a b c = record {
    fits = a ∙ (h.fits ∙ sym (ap has_control b));
    not_over = c ∙ h.not_over;
  }

  read-IsStarting :
      (rounds : ℕ) (status : ℤ) (l : Leds S)
      → IsStarting l
      → IsStarting (read_barebone_id rounds status l).1
  unfolding read_barebone_id
  read-IsStarting zero status l h = h
  read-IsStarting (suc rounds) status l h =
      let r = ec (uniwill_read_ec_ram 0x0740 l.barebone_id) l in
      let k = record (r.1) { barebone_id = r.0.byte } in
      let h' = keep l k h refl refl refl in
      either _ (r.0.status, k) (read_barebone_id rounds r.0.status k) h'
        (read-IsStarting rounds r.0.status k h')

  choose-IsStarting : (dmi : Dmi) (l : Leds S) → IsStarting l → IsStarting (choose_type dmi l).1
  unfolding choose_type
  choose-IsStarting dmi l h = ground arith

  register-IsStarting :
      (registered : ℤ) (l : Leds S) → IsStarting l → IsStarting (register_leds registered l).1
  unfolding register_leds
  register-IsStarting registered l h = ground arith

  -- From a state in which the EC is taken to control the brightness exactly if the backlight has a
  -- type that allows it, and the LEDs are not initialized, the start leaves this so for every
  -- device, EC and outcome of the registration, and it has initialized the LEDs only if it
  -- reports 0.
  pub leds_init_consistent :
      (dmi : Dmi) (registered : ℤ) (l : Leds S)
      → IsStarting l
      → let x = uniwill_leds_init dmi registered l in
        (x.1.brightness_ec_controlled ≡ has_control x.1.backlight_type)
        × ((x.0 ≡ success) ⊎ (x.1.leds_initialized ≡ false))
  unfolding uniwill_leds_init enable_control
  leds_init_consistent dmi registered l h =
      let a = read_barebone_id 3 success l in
      let ha = read-IsStarting 3 success l h in
      let b = (enable_control a.1).1 in
      let hb = keep a.1 b ha refl refl refl in
      let hc = choose-IsStarting dmi b hb in
      let hr = register-IsStarting registered (choose_type dmi b).1 hc in
      ground (arith, ha.fits, ha.not_over, hc.fits, hc.not_over, hr.fits, hr.not_over)
