-- ===== src/Clevo/Leds.antt =====
-- src/clevo_leds.h: the keyboard backlight of Clevo devices. The LED class devices are part of the
-- record `ClevoLeds`.
pub mod Colors
pub mod Init
use Prim.Native.String.{String}
use tuxedo_drivers.Common.{
  ℕ, zero, suc, ◌+◌, ◌*◌, ◌/◌, ◌%◌, ◌^◌, Bool, true, false, not, M, pure, ◌>>=◌, ◌>>◌, when,
  if◌then◌else◌, ◌==◌, ◌&&◌, ◌||◌, bit_and, bit_or, test_bits, u8, ◌<<<◌, ◌>>>◌, ℤ, success, einval,
  nonzero, Option, none, some, List, [], ◌∷◌,
}
use tuxedo_drivers.Uniwill.Dmi.{DmiField, Dmi}
use tuxedo_drivers.Uniwill.Dmi.DmiField.{board_name}
use tuxedo_drivers.Clevo.{
  Clevo, Object, integer, buffer, other_object, clevo_evaluate_method, clevo_evaluate_method2,
}

-- `enum clevo_kb_backlight_types`
abbrev pub type_none : ℕ
type_none = 0x00

abbrev pub type_fixed_color : ℕ
type_fixed_color = 0x01

abbrev pub type_3_zone_rgb : ℕ
type_3_zone_rgb = 0x02

abbrev pub type_1_zone_rgb : ℕ
type_1_zone_rgb = 0x06

-- A coloured LED class device: its channel, its brightness and the three intensities.
pub record Zone : Type 0 where
  pub channel : ℕ
  pub brightness : ℕ
  pub red : ℕ
  pub green : ℕ
  pub blue : ℕ

-- Whether each LED class device is registered: the white one, and those of the three zones.
pub record Registered : Type 0 where
  pub white : Bool
  pub rgb_0 : Bool
  pub rgb_1 : Bool
  pub rgb_2 : Bool

abbrev pub nothing : Registered
nothing = record { white = false; rgb_0 = false; rgb_1 = false; rgb_2 = false }

-- The variables. `notified` has the brightness values that were reported, the latest first.
pub record ClevoLeds (S : Type 0) : Type 0 where
  pub clevo : Clevo S
  pub backlight_type : ℕ
  pub leds_initialized : Bool
  pub led_brightness : ℕ
  pub max_brightness : ℕ
  pub zone_0 : Zone
  pub zone_1 : Zone
  pub zone_2 : Zone
  pub notified : List ℕ
  pub registered : Registered

abbrev pub scaled : ℕ → ℕ → ℕ → ℕ
scaled type factor value = if type == type_1_zone_rgb then factor * value / 255 else value

-- Color scaling quirk list
unfoldable pub color_scaling : ℕ → ℕ × ℕ × ℕ → ℕ × ℕ × ℕ
color_scaling type (red, green, blue) = (scaled type 180 red, green, scaled type 200 blue)

-- The word of a colour, from red, green and blue to blue, red and green.
unfoldable pub color_set : ℕ → ℕ
color_set color =
    bit_or (bit_or (bit_and color 0x0000ff <<< 16) (bit_and color 0xff0000 >>> 8))
      (bit_and color 0x00ff00 >>> 8)

-- The colour of a zone, scaled, as one word.
abbrev pub color_of : ℕ → Zone → ℕ
color_of type z =
    let c = color_scaling type (u8 z.red, u8 z.green, u8 z.blue) in (c.0 <<< 16) + (c.1 <<< 8) + c.2

abbrev pub colored : ℕ → Zone → Zone
colored color z = record z {
  red = bit_and (color >>> 16) 0xff;
  green = bit_and (color >>> 8) 0xff;
  blue = bit_and color 0xff;
}

-- What is registered for each type of backlight is given up.
abbrev pub unregister : ℕ → Registered → Registered
unregister type g =
    if type == type_fixed_color
    then record g { white = false }
    else if type == type_1_zone_rgb
    then record g { rgb_0 = false }
    else if type == type_3_zone_rgb
    then record g { rgb_0 = false; rgb_1 = false; rgb_2 = false }
    else g

module _ {S : Type 0} where
  -- A method call whose result is not wanted.
  abbrev pub send : ℕ → ℕ → M (Clevo S) ℤ
  send cmd arg = do r ← clevo_evaluate_method cmd arg; pure r.0

  unfoldable pub clevo_evaluate_set_white_brightness : ℕ → M (Clevo S) ℤ
  clevo_evaluate_set_white_brightness brightness = send 0x27 brightness

  unfoldable pub clevo_evaluate_set_rgb_brightness : ℕ → M (Clevo S) ℤ
  clevo_evaluate_set_rgb_brightness brightness = send 0x67 (bit_or 0xf4000000 brightness)

  unfoldable pub clevo_evaluate_set_rgb_color : ℕ → ℕ → M (Clevo S) ℤ
  unfolding color_set
  clevo_evaluate_set_rgb_color zone color = send 0x67 (bit_or zone (color_set color))

  unfoldable pub clevo_evaluate_set_keyboard_status : ℕ → M (Clevo S) ℤ
  clevo_evaluate_set_keyboard_status state =
      send 0x67 (bit_or 0xe0000000 (if state == 0 then 0x003001 else 0x07f001))

  abbrev pub by_clevo : {A : Type 0} → M (Clevo S) A → M (ClevoLeds S) A
  by_clevo m l = let r = m l.clevo in (r.0, record l { clevo = r.1 })

  abbrev pub assign : (ClevoLeds S → ClevoLeds S) → M (ClevoLeds S) (Unit {0})
  assign f l = (tt, f l)

  unfoldable pub clevo_leds_set_brightness : ℕ → M (ClevoLeds S) (Unit {0})
  clevo_leds_set_brightness brightness = do
    ret ← by_clevo (clevo_evaluate_set_white_brightness (u8 brightness))
    when (not (nonzero ret)) (assign (λ l. record l { led_brightness = brightness }))

  abbrev pub all_brightness : ℕ → ClevoLeds S → ClevoLeds S
  all_brightness b l = record l {
    zone_0 = record (l.zone_0) { brightness = b };
    zone_1 = record (l.zone_1) { brightness = b };
    zone_2 = record (l.zone_2) { brightness = b };
  }

  -- `zone` is the device that is set.
  unfoldable pub clevo_leds_set_brightness_mc :
      (ClevoLeds S → Zone) → ℕ → M (ClevoLeds S) (Unit {0})
  unfolding color_scaling
  clevo_leds_set_brightness_mc zone brightness = do
    ret ← by_clevo (clevo_evaluate_set_rgb_brightness (u8 brightness))
    if nonzero ret then pure tt else (do
      assign (all_brightness brightness)
      z ← (λ l. (zone l, l))
      type ← (λ l. (l.backlight_type, l))
      by_clevo (clevo_evaluate_set_rgb_color z.channel (color_of type z))
      pure tt)

  -- The brightness of a device, set again.
  abbrev pub again : (ClevoLeds S → Zone) → M (ClevoLeds S) (Unit {0})
  again zone l = clevo_leds_set_brightness_mc zone (zone l).brightness l

  unfoldable pub clevo_leds_restore_state_extern : M (ClevoLeds S) (Unit {0})
  clevo_leds_restore_state_extern l =
      if l.backlight_type == type_fixed_color
      then clevo_leds_set_brightness l.led_brightness l
      else if l.backlight_type == type_1_zone_rgb
      then again (λ l. l.zone_0) l
      else if l.backlight_type == type_3_zone_rgb
      then (again (λ l. l.zone_0) >> again (λ l. l.zone_1) >> again (λ l. l.zone_2)) l
      else (tt, l)

  unfoldable pub clevo_leds_set_brightness_extern : ℕ → M (ClevoLeds S) (Unit {0})
  clevo_leds_set_brightness_extern b l =
      if l.backlight_type == type_fixed_color
      then clevo_leds_set_brightness b l
      else if l.backlight_type == type_1_zone_rgb
      then clevo_leds_set_brightness_mc (λ l. l.zone_0) b l
      else if l.backlight_type == type_3_zone_rgb
      then (clevo_leds_set_brightness_mc (λ l. l.zone_0) b
            >> clevo_leds_set_brightness_mc (λ l. l.zone_1) b
            >> clevo_leds_set_brightness_mc (λ l. l.zone_2) b)
          l
      else (tt, l)

  unfoldable pub clevo_leds_set_color_extern : ℕ → M (ClevoLeds S) (Unit {0})
  clevo_leds_set_color_extern color l =
      let zone_0_set = assign (λ l. record l { zone_0 = colored color l.zone_0 }) in
      let zone_1_set = assign (λ l. record l { zone_1 = colored color l.zone_1 }) in
      let zone_2_set = assign (λ l. record l { zone_2 = colored color l.zone_2 }) in
      if l.backlight_type == type_1_zone_rgb
      then (zone_0_set >> again (λ l. l.zone_0)) l
      else if l.backlight_type == type_3_zone_rgb
      then (zone_0_set
            >> again (λ l. l.zone_0)
            >> zone_1_set
            >> again (λ l. l.zone_1)
            >> zone_2_set
            >> again (λ l. l.zone_2))
          l
      else (tt, l)

  -- `result` is `un` if the call fails.
  unfoldable pub clevo_leds_notify_brightness_change_extern : ℕ → M (ClevoLeds S) (Unit {0})
  clevo_leds_notify_brightness_change_extern un l =
      let r = by_clevo (clevo_evaluate_method 0x3d 0) l in
      let result : ℕ = elim r.0.1 [ none ↦ un | some value ↦ value ] in
      if l.backlight_type == type_fixed_color
      then (tt, record (r.1) { led_brightness = result; notified = result ∷ l.notified })
      else (tt, l)

  abbrev pub has_colors : ClevoLeds S → Bool
  has_colors l = l.backlight_type == type_1_zone_rgb || l.backlight_type == type_3_zone_rgb

  unfoldable pub clevo_leds_suspend : M (ClevoLeds S) ℤ
  clevo_leds_suspend l =
      (success, if has_colors l then (by_clevo (clevo_evaluate_set_keyboard_status 0) l).1 else l)

  unfoldable pub clevo_leds_resume : M (ClevoLeds S) ℤ
  clevo_leds_resume l =
      (success, if has_colors l then (by_clevo (clevo_evaluate_set_keyboard_status 1) l).1 else l)

  unfoldable pub clevo_leds_remove : M (ClevoLeds S) ℤ
  clevo_leds_remove l =
      let g =
        if l.leds_initialized then unregister l.backlight_type l.registered else l.registered in
      (success, record l { leds_initialized = false; registered = g })
