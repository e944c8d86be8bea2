-- ===== src/Clevo/Events.antt =====
-- src/clevo_keyboard.h: the events of the firmware, the colours that a key goes through and the
-- mode of the backlight. `un` and `result` are what local variables hold before a call writes them;
-- a text is what
-- `kstrtouint` makes of it, a status and a number.
pub mod Cycle
pub mod Sent
use tuxedo_drivers.Common.{
  ℕ, zero, suc, ◌+◌, ◌%◌, Bool, true, false, M, pure, ◌>>=◌, ◌>>◌, when, if◌then◌else◌, ◌==◌, ltb,
  leb, u8, ℤ, success, pos, nonzero, Option, none, some, List, [], ◌∷◌,
}
use tuxedo_drivers.Uniwill.Switches.{Printed, number}
use tuxedo_drivers.Uniwill.Touchpad.{byte_at}
use tuxedo_drivers.Clevo.{Clevo, clevo_evaluate_method}
use tuxedo_drivers.Clevo.Leds.{
  ClevoLeds, type_fixed_color, type_3_zone_rgb, clevo_leds_set_color_extern,
  clevo_leds_notify_brightness_change_extern,
}
use tuxedo_drivers.Clevo.FnLock.{FnState, toggle_fn_lock}

abbrev pub event_cycle_mode : ℕ
event_cycle_mode = 0x83

abbrev pub event_cycle_brightness : ℕ
event_cycle_brightness = 0x8a

abbrev pub event_gauge_key : ℕ
event_gauge_key = 0x59

abbrev pub event_fn_lock_toggle : ℕ
event_fn_lock_toggle = 0x25

abbrev pub color_codes : List ℕ
color_codes =
    0x000000 ∷ 0xff0000 ∷ 0x00ff00 ∷ 0x0000ff ∷ 0xffff00 ∷ 0xff00ff ∷ 0x00ffff ∷ 0xffffff ∷ []

abbrev pub kbd_backlight_modes : List ℕ
kbd_backlight_modes =
    0x00000000 ∷ 0x1002a000 ∷ 0x33010000 ∷ 0x80000000 ∷ 0xa0000000 ∷ 0x70000000 ∷ 0x90000000
    ∷ 0xb0000000 ∷ []

-- What the input devices get: a key with its value, a synchronization, or an event that is looked up
-- in the keymap.
pub data Input : Type 0 where
  left_meta left_alt f6 : ℕ → Input
  sync : Input
  keymap_event : ℕ → Input

-- `kbd_led_state` and the backlight; `input` has the latest first.
pub record Keys (S : Type 0) : Type 0 where
  pub leds : ClevoLeds S
  pub has_mode : Bool
  pub mode : ℕ
  pub whole_kbd_color : ℕ
  pub input : List Input

abbrev pub next_color : ℕ → ℕ
next_color color = if leb 8 (color + 1) then 1 else color + 1

module _ {S : Type 0} where
  abbrev pub by_leds : {A : Type 0} → M (ClevoLeds S) A → M (Keys S) A
  by_leds m k = let r = m k.leds in (r.0, record k { leds = r.1 })

  abbrev pub report : Input → M (Keys S) (Unit {0})
  report i k = (tt, record k { input = i ∷ k.input })

  unfoldable pub set_next_color_whole_kb : M (Keys S) (Unit {0})
  set_next_color_whole_kb k =
      let new_color_id = next_color k.whole_kbd_color in
      let r = by_leds (clevo_leds_set_color_extern (byte_at color_codes new_color_id)) k in
      (tt, record (r.1) { whole_kbd_color = u8 new_color_id })

  unfoldable pub set_kbd_backlight_mode : ℕ → M (Keys S) (Unit {0})
  set_kbd_backlight_mode mode k =
      let r = clevo_evaluate_method 0x67 (byte_at kbd_backlight_modes mode) k.leds.clevo in
      let l = record k { leds = record (k.leds) { clevo = r.1 } } in
      (tt, if nonzero r.0.0 then l else record l { mode = mode })

  unfoldable pub list_kbd_backlight_modes_fs : Keys S → Printed
  list_kbd_backlight_modes_fs k = number k.mode

  -- The number is cut to a byte by `clamp_t(u8, ..)`.
  unfoldable pub set_kbd_backlight_mode_fs : ℤ × ℕ → ℕ → M (Keys S) ℤ
  unfolding set_kbd_backlight_mode
  set_kbd_backlight_mode_fs (err, mode) size =
      if nonzero err
      then pure err
      else (do set_kbd_backlight_mode (if ltb 7 (u8 mode) then 7 else u8 mode); pure (pos size))

  unfoldable pub clevo_send_cc_combo : M (Keys S) (Unit {0})
  clevo_send_cc_combo = do
    report (left_meta 1)
    report (left_alt 1)
    report (f6 1)
    report sync
    report (f6 0)
    report (left_alt 0)
    report (left_meta 0)
    report sync

  -- The switch over the event.
  unfoldable pub handle_event : FnState → ℕ → ℕ → M (Keys S) (Unit {0})
  unfolding set_next_color_whole_kb clevo_send_cc_combo
  handle_event un result event k =
      if event == event_gauge_key
      then clevo_send_cc_combo k
      else if event == event_cycle_mode
      then (if k.leds.backlight_type == type_fixed_color
          then clevo_send_cc_combo k
          else set_next_color_whole_kb k)
      else if event == event_cycle_brightness
      then by_leds (clevo_leds_notify_brightness_change_extern result) k
      else if event == event_fn_lock_toggle
      then by_leds (λ l. let r = toggle_fn_lock un l.clevo in (r.0, record l { clevo = r.1 })) k
      else (tt, k)

  -- `has_device` is whether the driver and its input device are there.
  unfoldable pub clevo_keyboard_event_callb : FnState → ℕ → Bool → ℕ → M (Keys S) (Unit {0})
  unfolding handle_event
  clevo_keyboard_event_callb un result has_device event = do
    handle_event un result event
    when has_device (report (keymap_event event))

  -- `created` is the status of `device_create_file`.
  unfoldable pub clevo_keyboard_init_device_interface : ℤ → M (Keys S) (Unit {0})
  clevo_keyboard_init_device_interface created k = (
    tt,
    if k.leds.backlight_type == type_3_zone_rgb
        then (if nonzero created then k else record k { has_mode = true })
        else k,
  )
