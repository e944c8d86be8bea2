-- ===== src/Nb05/Keyboard.antt =====
-- src/tuxedo_nb05/tuxedo_nb05_keyboard.c: the events of the firmware, which reach the input device,
-- the keyboard backlight and the power profile.
pub mod Modes
use tuxedo_drivers.Common.{
  ℕ, ◌*◌, ◌≡◌, Bool, true, false, not, M, pure, ◌>>=◌, ◌>>◌, when, if◌then◌else◌, ◌==◌, ◌||◌, u8,
  bit_or, ◌<<<◌, ℤ, success, enodev, enomem, nonzero, List, [], ◌∷◌,
}
use tuxedo_drivers.Clevo.{Object, integer, buffer, other_object}
use tuxedo_drivers.Clevo.Events.{Input, left_meta, left_alt, f6, sync, keymap_event}
use tuxedo_drivers.Nb05.Backlight.{KbdBacklight, nb05_leds_notify_brightness_change_extern}
use tuxedo_drivers.Nb05.Profiles.{Profiles, rewrite_last_profile}

-- The three drivers' states, and what the input device gets, the latest first.
pub record Keyboard (S : Type 0) : Type 0 where
  pub profiles : Profiles S
  pub backlight : KbdBacklight
  pub input : List Input

abbrev pub event_status_combo : ℕ → ℕ → ℕ
event_status_combo event status = bit_or event (status <<< 8)

abbrev pub is_mode_event : ℕ → Bool
is_mode_event event = event == 0x11 || event == 0x12 || event == 0x13

module _ {S : Type 0} where
  abbrev pub report : Input → Keyboard S → Keyboard S
  report i k = record k { input = i ∷ k.input }

  unfoldable pub report_gauge_key_combo : Keyboard S → Keyboard S
  report_gauge_key_combo k = record k {
    input =
        sync ∷ left_meta 0 ∷ left_alt 0 ∷ f6 0 ∷ sync ∷ f6 1 ∷ left_alt 1 ∷ left_meta 1 ∷ k.input;
  }

  abbrev pub notify_brightness : ℕ → Keyboard S → Keyboard S
  notify_brightness step k = record k {
    backlight = nb05_leds_notify_brightness_change_extern step k.backlight;
  }

  -- The switch over the event's code.
  unfoldable pub handle_event : ℕ → ℕ → Keyboard S → Keyboard S
  unfolding report_gauge_key_combo
  handle_event event_code device_status k =
      if is_mode_event event_code
      then (if k.profiles.profile_changed_by_driver_flag
          then k
          else (let r = report_gauge_key_combo k in
              record r { profiles = rewrite_last_profile r.profiles }))
      else if event_code == 0x07
      then notify_brightness 2 k
      else if event_code == 0x08
      then notify_brightness 1 k
      else if event_code == 0x09
      then notify_brightness 0 k
      else if event_code == 0x03
      then notify_brightness (u8 device_status) k
      else k

  -- The object of a notification; a null pointer is `other_object`.
  unfoldable pub tuxedo_nb05_keyboard_notify : Object → Keyboard S → Keyboard S
  unfolding handle_event
  tuxedo_nb05_keyboard_notify (integer value) k = k
  tuxedo_nb05_keyboard_notify other_object k = k
  tuxedo_nb05_keyboard_notify (buffer []) k = k
  tuxedo_nb05_keyboard_notify (buffer (a ∷ [])) k = k
  tuxedo_nb05_keyboard_notify (buffer (a ∷ b ∷ [])) k = k
  tuxedo_nb05_keyboard_notify (buffer (a ∷ b ∷ c ∷ [])) k = k
  tuxedo_nb05_keyboard_notify (buffer (function_number ∷ event_code ∷ low ∷ high ∷ more)) k =
      let device_status = bit_or low (high <<< 8) in
      report (keymap_event (event_status_combo event_code device_status))
        (report (keymap_event event_code) (handle_event event_code device_status k))

-- The status of the input device's start: `allocated` is whether there is memory, and the two
-- numbers are those of the keymap's setup and of the registration.
unfoldable pub input_device_init : Bool → ℤ → ℤ → ℤ
input_device_init allocated setup registered =
    if not allocated then enomem else if nonzero setup then setup else registered

unfoldable pub tuxedo_nb05_keyboard_probe : Bool → Bool → Bool → ℤ → ℤ
tuxedo_nb05_keyboard_probe compatible guid allocated started =
    if not compatible
    then enodev
    else if not guid
    then enodev
    else if not allocated
    then enomem
    else started
