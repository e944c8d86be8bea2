-- ===== src/Uniwill/Leds.antt =====
-- src/uniwill_leds.h: the keyboard backlight. The driver's variables and the LED class devices are the
-- record `Leds` over the state of the EC access. `led_classdev_register` and the DMI lookup are
-- arguments.
pub mod Registers
pub mod Restore
pub mod Init
use Prim.Native.String.{String}
use tuxedo_drivers.Common.{
  ℕ, zero, suc, ◌+◌, ◌*◌, ◌/◌, ◌%◌, Bool, true, false, not, M, pure, ◌>>=◌, ◌>>◌, when,
  if◌then◌else◌, ◌==◌, ◌&&◌, ◌||◌, bit_and, bit_or, test_bits, u8, ◌<<<◌, ◌>>>◌, ℤ, success,
  nonzero, List, [], ◌∷◌,
}
use tuxedo_drivers.Uniwill.Dmi.{DmiField, Dmi}
use tuxedo_drivers.Uniwill.Dmi.DmiField.{board_name, product_sku, sys_vendor}
use tuxedo_drivers.Uniwill.Access.{Uniwill, uniwill_read_ec_ram, uniwill_write_ec_ram}

-- `uniwill_kb_backlight_type_t`
pub data BacklightType : Type 0 where
  backlight_none fixed_color fixed_color_5_levels one_zone_rgb per_key_rgb : BacklightType

-- The variables, with the two LED class devices: `led_brightness` and `max_brightness` of the white one,
-- `mcled_brightness` and the three intensities of the coloured one. `notified` holds the brightness
-- values that were reported as changed by the hardware, the latest first.
pub record Leds (S : Type 0) : Type 0 where
  pub uw : Uniwill S
  pub backlight_type : BacklightType
  pub barebone_id : ℕ
  pub brightness_ec_controlled : Bool
  pub leds_initialized : Bool
  pub led_brightness : ℕ
  pub max_brightness : ℕ
  pub mcled_brightness : ℕ
  pub red : ℕ
  pub green : ℕ
  pub blue : ℕ
  pub notified : List ℕ
  -- the flag LED_BRIGHT_HW_CHANGED of the two devices
  pub led_hw_changed : Bool
  pub mcled_hw_changed : Bool

-- Converts the range 0-255 to the range 0-50
unfoldable pub tf_convert_rgb_range : ℕ → ℕ
tf_convert_rgb_range input = input * 200 / (255 * 4)

-- The byte with the brightness in its upper three bits and the "apply bit".
abbrev pub brightness_byte : ℕ → ℕ → ℕ
brightness_byte brightness old = bit_or (u8 (bit_or (bit_and old 0x0f) (brightness <<< 5))) 0x10

module _ {S : Type 0} where
  unfoldable pub uniwill_write_kbd_bl_brightness : ℕ → M (Uniwill S) ℤ
  uniwill_write_kbd_bl_brightness brightness = do
    r ← uniwill_read_ec_ram 0x078c 0
    if nonzero r.status
        then pure r.status
        else uniwill_write_ec_ram 0x078c (brightness_byte brightness r.byte)

  -- The results of the first two accesses only go into the log.
  unfoldable pub uniwill_write_kbd_bl_brightness_white_workaround : ℕ → M (Uniwill S) ℤ
  uniwill_write_kbd_bl_brightness_white_workaround brightness = do
    r ← uniwill_read_ec_ram 0x1808 0
    when (r.byte == 0 && not (brightness == 0)) (λ u. (tt, (uniwill_write_ec_ram 0x1808 0x01 u).1))
    uniwill_write_kbd_bl_brightness brightness

  -- `result = m; if (result) return result;`
  abbrev pub and_then : M (Uniwill S) ℤ → M (Uniwill S) ℤ → M (Uniwill S) ℤ
  and_then m k = do result ← m; if nonzero result then pure result else k

  unfoldable pub uniwill_write_kbd_bl_color : ℕ → ℕ → ℕ → M (Uniwill S) ℤ
  uniwill_write_kbd_bl_color red green blue =
      and_then (uniwill_write_ec_ram 0x0769 (tf_convert_rgb_range red)) (
        and_then (uniwill_write_ec_ram 0x076a (tf_convert_rgb_range green)) (
          and_then (uniwill_write_ec_ram 0x076b (tf_convert_rgb_range blue)) (do
            r ← uniwill_read_ec_ram 0x0767 0
            if nonzero r.status
                then pure r.status
                else uniwill_write_ec_ram 0x0767 (bit_or r.byte 0x20))))

  -- An access to the EC in the state of the LEDs.
  abbrev pub ec : {A : Type 0} → M (Uniwill S) A → M (Leds S) A
  ec m l = let r = m l.uw in (r.0, record l { uw = r.1 })

  abbrev pub assign : (Leds S → Leds S) → M (Leds S) (Unit {0})
  assign f l = (tt, f l)

  unfoldable pub uniwill_leds_set_brightness : ℕ → M (Leds S) (Unit {0})
  uniwill_leds_set_brightness brightness = do
    result ← ec (uniwill_write_kbd_bl_brightness_white_workaround (u8 brightness))
    when (not (nonzero result)) (assign (λ l. record l { led_brightness = brightness }))

  abbrev pub is_black : Leds S → Bool
  is_black l = l.red == 0 && l.green == 0 && l.blue == 0

  unfoldable pub uniwill_leds_set_brightness_mc : ℕ → M (Leds S) (Unit {0})
  uniwill_leds_set_brightness_mc brightness l =
      let write =
        if is_black l
        then uniwill_write_kbd_bl_brightness 0
        else and_then (uniwill_write_kbd_bl_color (u8 l.red) (u8 l.green) (u8 l.blue))
            (uniwill_write_kbd_bl_brightness (u8 brightness)) in
      (do
        result ← ec write
        when (not (nonzero result)) (assign (λ k. record k { mcled_brightness = brightness })))
        l

  unfoldable pub uniwill_leds_restore_state_extern : M (Leds S) (Unit {0})
  uniwill_leds_restore_state_extern l =
      let white =
        (ec (uniwill_write_kbd_bl_brightness_white_workaround (u8 l.led_brightness)) l).1 in
      let colored =
        (ec
          (uniwill_write_kbd_bl_color (u8 l.red) (u8 l.green) (u8 l.blue)
            >> uniwill_write_kbd_bl_brightness (u8 l.mcled_brightness))
          l).1 in
      elim l.backlight_type [
        | fixed_color ↦ (tt, white)
        | fixed_color_5_levels ↦ (tt, white)
        | one_zone_rgb ↦ (tt, colored)
        | backlight_none ↦ (tt, l)
        | per_key_rgb ↦ (tt, l)
      ]

  -- A changed brightness of the white LED, and of the coloured one, is stored and reported.
  notify_white : ℕ → Leds S → Leds S
  notify_white brightness l = record l {
    led_brightness = brightness;
    notified = brightness ∷ l.notified;
  }

  notify_rgb : ℕ → Leds S → Leds S
  notify_rgb brightness l = record l {
    mcled_brightness = brightness;
    notified = brightness ∷ l.notified;
  }

  -- Where the EC shows the brightness that is stored, it did not react, and the next one is set.
  rgb_changed : ℕ → M (Leds S) (Unit {0})
  unfolding notify_rgb
  rgb_changed brightness l =
      let next = (brightness + 1) % 5 in
      let wrote = ec (uniwill_write_kbd_bl_brightness next) l in
      if l.mcled_brightness == brightness
      then (if nonzero wrote.0 then (tt, wrote.1) else (tt, notify_rgb next wrote.1))
      else (tt, notify_rgb brightness l)

  unfoldable pub uniwill_leds_notify_brightness_change_extern : M (Leds S) Bool
  unfolding notify_white rgb_changed
  uniwill_leds_notify_brightness_change_extern l =
      let r = ec (uniwill_read_ec_ram 0x078c 0) l in
      let brightness = bit_and (r.0.byte >>> 5) 0x07 in
      if l.leds_initialized && l.brightness_ec_controlled
      then elim l.backlight_type [
        | fixed_color ↦ (true, notify_white brightness r.1)
        | fixed_color_5_levels ↦ (true, notify_white brightness r.1)
        | one_zone_rgb ↦ (true, (rgb_changed brightness r.1).1)
        | backlight_none ↦ (false, r.1)
        | per_key_rgb ↦ (false, r.1)
      ]
      else (false, l)
