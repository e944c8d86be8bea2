-- ===== src/Nb04/Keyboard.antt =====
-- src/tuxedo_nb04/tuxedo_nb04_keyboard.c and src/tuxedo_nb04/tuxedo_nb04_kbd_backlight.c: the key
-- events and the keyboard backlight.
use tuxedo_drivers.Common.{
  ℕ, Bool, true, not, M, if◌then◌else◌, u8, ℤ, pos, success, enodev, enomem, nonzero, List, [], ◌∷◌,
}
use tuxedo_drivers.Clevo.{Object, integer, buffer, other_object}
use tuxedo_drivers.Clevo.Events.{Input, keymap_event}
use tuxedo_drivers.Ite.{Color}
use tuxedo_drivers.Nb04.Wmi.{
  Evaluate, WmiDev, KeyboardStatus, wmi_update_device_status_keyboard, wmi_set_whole_keyboard,
}

-- The object of a notification; a null pointer is `other_object`. The latest input stands first.
unfoldable pub tuxedo_nb04_keyboard_notify : Object → List Input → List Input
tuxedo_nb04_keyboard_notify (integer value) input = input
tuxedo_nb04_keyboard_notify other_object input = input
tuxedo_nb04_keyboard_notify (buffer []) input = input
tuxedo_nb04_keyboard_notify (buffer (a ∷ [])) input = input
tuxedo_nb04_keyboard_notify (buffer (function_number ∷ event_code ∷ more)) input =
    keymap_event event_code ∷ input

-- The status of the input device's start: `allocated` is whether there is memory, and the two
-- numbers are those of the keymap's setup and of the registration.
unfoldable pub input_device_init : Bool → ℤ → ℤ → ℤ
input_device_init allocated setup registered =
    if not allocated then enomem else if nonzero setup then setup else registered

unfoldable pub tuxedo_nb04_keyboard_probe : Bool → Bool → Bool → ℤ → ℤ
tuxedo_nb04_keyboard_probe compatible guid allocated started =
    if not compatible
    then enodev
    else if not guid
    then enodev
    else if not allocated
    then enomem
    else started

-- The LED class device with its colour, and what was read of the keyboard.
pub record Backlight (S : Type 0) : Type 0 where
  pub color : Color
  pub device_status : KeyboardStatus
  pub registered : Bool
  pub wmi : WmiDev S

module _ {S : Type 0} (evaluate : Evaluate S) where
  -- The LED core has set the colour. `un` is what the output holds before it is written.
  unfoldable pub leds_set_brightness_mc_keyboard : ℕ → ℕ → M (Backlight S) (Unit {0})
  leds_set_brightness_mc_keyboard un brightness b =
      let r =
        wmi_set_whole_keyboard evaluate un (u8 b.color.red) (u8 b.color.green) (u8 b.color.blue)
          (pos brightness) b.wmi in
      (tt, record b { wmi = r.1 })

  -- `answer` is what the kernel answers to the registration.
  unfoldable pub init_leds : ℤ → M (Backlight S) ℤ
  init_leds answer b =
      let white = record b { color = record { red = 0xff; green = 0xff; blue = 0xff } } in
      if nonzero answer then (answer, white) else (success, record white { registered = true })

  unfoldable pub tuxedo_nb04_kbd_backlight_probe : Bool → ℤ → M (Backlight S) ℤ
  unfolding init_leds
  tuxedo_nb04_kbd_backlight_probe allocated answer b =
      if not allocated
      then (enomem, b)
      else (let r = wmi_update_device_status_keyboard evaluate b.device_status b.wmi in
          let known = record b { device_status = r.0.1; wmi = r.1 } in
          if nonzero r.0.0 then (r.0.0, known) else init_leds answer known)
