-- ===== src/Nb05/Tests/Profile.antt =====
-- The theorems of the power profile at a firmware that is nothing but its profile.
use Prim.Native.String.{String}
use text.Mathlib.Text.{◌==◌ as str_eq}
use tuxedo_drivers.Common.{ℕ, ◌≡◌, refl, Bool, true, false, if◌then◌else◌, ◌==◌, some, [], ◌∷◌}
use tuxedo_drivers.Clevo.{buffer, integer}
use tuxedo_drivers.Nb05.Profiles.{Evaluate, Profiles, nb05_rewrite_profile_work_handler}
use tuxedo_drivers.Nb05.Profiles.Settle.{
  IsProfileFirmware, expire, run_work, Chosen, rewrite_settles, profile_show-store,
}
use tuxedo_drivers.Nb05.Keyboard.{Keyboard, tuxedo_nb05_keyboard_notify}
use tuxedo_drivers.Nb05.Keyboard.Modes.{mode_event_restores}

abbrev firmware_call : Evaluate ℕ
firmware_call method value s =
    if method == 1 then (some (some (integer 0)), value) else (some (some (integer s)), s)

firmware_call-IsProfileFirmware : IsProfileFirmware firmware_call (λ s. s)
firmware_call-IsProfileFirmware = record {
  sets = λ n s. refl;
  sets_current = λ n s. refl;
  gets = λ un s. refl;
  gets_current = λ un s. refl;
}

-- Low power was chosen, and the firmware has the profile of high performance.
abbrev changed : Profiles ℕ
changed = record {
  wmi_dev = true;
  last_chosen_profile = 2;
  profile_changed_by_driver_flag = false;
  timer = true;
  work = false;
  firmware = 1;
}

abbrev keyboard : Keyboard ℕ
keyboard = record {
  profiles = changed;
  backlight = record { registered = true; brightness = 1; notified = [] };
  input = [];
}

-- The comparison of a text with a descriptor.
abbrev is_text : String → String → Bool
is_text written descriptor = str_eq descriptor written

rewrite_settles_example :
    let once = run_work firmware_call 0 (expire changed) in
    let x = run_work firmware_call 0 (expire once) in
    ((expire changed).work ≡ true)
    × (once.firmware ≡ 2)
    × (x.firmware ≡ 2)
    × (x.last_chosen_profile ≡ 2)
    × (x.timer ≡ false)
    × (x.work ≡ false)
    × (x.profile_changed_by_driver_flag ≡ false)
rewrite_settles_example =
    rewrite_settles firmware_call (λ s. s) firmware_call-IsProfileFirmware 0 changed refl refl

profile_show-store_example :
    let is_set = Chosen firmware_call (λ s. s) in
    is_set (is_text "low-power") "low-power" 2 0 9 changed
    × is_set (is_text "balanced") "balanced" 0 0 9 changed
    × is_set (is_text "performance") "performance" 1 0 9 changed
profile_show-store_example =
    profile_show-store firmware_call (λ s. s) firmware_call-IsProfileFirmware 0 9 is_text changed
      refl (λ written descriptor. refl)

mode_event_restores_example :
    let x = tuxedo_nb05_keyboard_notify (buffer (0 ∷ 0x13 ∷ 0 ∷ 0 ∷ [])) keyboard in
    (x.profiles.work ≡ true)
    × ((nb05_rewrite_profile_work_handler firmware_call 0 x.profiles).firmware ≡ 2)
mode_event_restores_example =
    mode_event_restores firmware_call (λ s. s) firmware_call-IsProfileFirmware 0 0 0x13 0 0 []
      keyboard refl refl refl
