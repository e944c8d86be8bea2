-- ===== src/Uniwill/Lightbar.antt =====
-- src/uniwill_keyboard.h: the lightbar, whose three colours and animation are LED class devices. `un`
-- is what a local byte holds before it is written.
pub mod Colors
use tuxedo_drivers.Common.{
  ℕ, zero, suc, ◌+◌, Bool, true, false, not, M, pure, ◌>>=◌, ◌>>◌, when, if◌then◌else◌, ◌==◌, leb,
  ltb, bit_and, bit_or, not8, test_bits, u8, ℤ, success, enodev, ◌||◌, List, [], ◌∷◌,
}
use tuxedo_drivers.Uniwill.Dmi.{Dmi, any_match}
use tuxedo_drivers.Uniwill.Dmi.DmiField.{board_name, product_name, product_sku}
use tuxedo_drivers.Uniwill.Access.{Uniwill}
use tuxedo_drivers.Uniwill.Fan.{read, write}
use tuxedo_drivers.Ite.{is_negative}

abbrev pub max_brightness : ℕ
max_brightness = 0x24

-- The LED class devices, by their names.
pub data Led : Type 0 where
  led_red led_green led_blue led_animation : Led

unfoldable pub uw_lightbar_supported : Dmi → Bool
uw_lightbar_supported dmi =
    any_match dmi board_name ("LAPQC71A" ∷ "LAPQC71B" ∷ "TRINITY1501I" ∷ "TRINITY1701I" ∷ [])
    || dmi product_name "A60 MUV"
    || any_match dmi product_sku
        ("STELLARIS1XI03" ∷ "STELLARIS1XA03" ∷ "STELLARIS1XI04" ∷ "STEPOL1XA04" ∷ [])

-- The loop of the registrations, from how many are left, the next one's number and how many are
-- registered; `answers` are the kernel's. A failure unregisters those before it.
unfoldable pub register : (ℕ → ℤ) → ℕ → ℕ → ℤ × ℕ
register answers zero i = (success, i)
register answers (suc rounds) i =
    let rest = register answers rounds (i + 1) in
    if is_negative (answers i) then (answers i, 0) else rest

module _ {S : Type 0} (un : ℕ) where
  unfoldable pub uniwill_write_lightbar_rgb : ℕ → ℕ → ℕ → M (Uniwill S) (Unit {0})
  uniwill_write_lightbar_rgb red green blue = do
    when (leb red max_brightness) (write 0x0749 red)
    when (leb green max_brightness) (write 0x074a green)
    when (leb blue max_brightness) (write 0x074b blue)

  -- Red, green and blue.
  unfoldable pub uniwill_read_lightbar_rgb : M (Uniwill S) (ℕ × ℕ × ℕ)
  uniwill_read_lightbar_rgb = do
    red ← read 0x0749 un
    green ← read 0x074a un
    blue ← read 0x074b un
    pure (red, green, blue)

  unfoldable pub uniwill_write_lightbar_animation : Bool → M (Uniwill S) (Unit {0})
  uniwill_write_lightbar_animation animation_status = do
    value ← read 0x0748 un
    write 0x0748 (if animation_status then bit_or value 0x80 else bit_and value (not8 0x80))

  unfoldable pub uniwill_read_lightbar_animation : M (Uniwill S) Bool
  uniwill_read_lightbar_animation = do
    lightbar_animation_data ← read 0x0748 un
    pure (test_bits lightbar_animation_data 0x80)

  -- A colour that is not that of the device is 0xff, which is not written.
  unfoldable pub lightbar_set_blocking : Led → ℕ → M (Uniwill S) ℤ
  unfolding uniwill_write_lightbar_rgb uniwill_write_lightbar_animation
  lightbar_set_blocking led_red brightness =
      uniwill_write_lightbar_rgb (u8 brightness) 0xff 0xff
      >> uniwill_write_lightbar_animation false
      >> pure success
  lightbar_set_blocking led_green brightness =
      uniwill_write_lightbar_rgb 0xff (u8 brightness) 0xff
      >> uniwill_write_lightbar_animation false
      >> pure success
  lightbar_set_blocking led_blue brightness =
      uniwill_write_lightbar_rgb 0xff 0xff (u8 brightness)
      >> uniwill_write_lightbar_animation false
      >> pure success
  lightbar_set_blocking led_animation brightness =
      uniwill_write_lightbar_animation (brightness == 1) >> pure success

  unfoldable pub lightbar_get : Led → M (Uniwill S) ℕ
  unfolding uniwill_read_lightbar_rgb uniwill_read_lightbar_animation
  lightbar_get led_red = do c ← uniwill_read_lightbar_rgb; pure c.0
  lightbar_get led_green = do c ← uniwill_read_lightbar_rgb; pure c.1
  lightbar_get led_blue = do c ← uniwill_read_lightbar_rgb; pure c.2
  lightbar_get led_animation = do on ← uniwill_read_lightbar_animation; pure (if on then 1 else 0)

  -- The status, and how many of the devices are registered.
  unfoldable pub uw_lightbar_init : Dmi → (ℕ → ℤ) → M (Uniwill S) (ℤ × ℕ)
  unfolding register
  uw_lightbar_init dmi answers =
      if not (uw_lightbar_supported dmi)
      then pure (enodev, 0)
      else (let r = register answers 4 0 in
          if is_negative r.0 then pure r else (do
            uniwill_write_lightbar_animation false
            uniwill_write_lightbar_rgb 0 0 0
            pure (success, r.1)))
