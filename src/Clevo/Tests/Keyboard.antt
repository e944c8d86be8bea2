-- ===== src/Clevo/Tests/Keyboard.antt =====
-- The theorems of the keyboard's backlight and fn lock at concrete states.
use tuxedo_drivers.Common.{
  ℕ, ◌+◌, ◌*◌, ◌/◌, ◌%◌, ◌^◌, ◌-◌, ◌<◌, ◌≡◌, ◌⊎◌, nonzero, refl, ap, ◌∙◌, arith, Bool, true, false,
  if◌then◌else◌, ◌==◌, M, Option, ℤ, success, none, some, List, [], ◌∷◌, update,
}
use tuxedo_drivers.Clevo.{Object, integer, buffer, ClevoInterface, Clevo, acpi_strid}
use tuxedo_drivers.Clevo.Leds.{
  nothing, Zone, ClevoLeds, clevo_leds_set_brightness_mc, clevo_leds_remove,
}
use tuxedo_drivers.Clevo.Leds.Colors.{Keyboard, IsKeyboard, at, brightness_mc_sets}
use tuxedo_drivers.Clevo.Leds.Init.{Answers, clevo_leds_init}
use tuxedo_drivers.Clevo.Leds.Init.Registration.{all_of, init_registers}
use tuxedo_drivers.Clevo.Access.{Platform}
use tuxedo_drivers.Clevo.FnLock.{FnState}
use tuxedo_drivers.Clevo.FnLock.Lock.{IsFnLock}

-- What 0x67 makes of its argument.
abbrev pub keyboard_set : ℕ → Keyboard → Keyboard
keyboard_set arg k =
    if arg / 2 ^ 24 == 0xf4
    then record k { level = arg % 2 ^ 24 }
    else record k { colors = update (k.colors) (arg / 2 ^ 24 - 0xf0) (arg % 2 ^ 24) }

abbrev pub keyboard_call : ℕ → ℕ → Keyboard → (ℤ × Object) × Keyboard
keyboard_call cmd arg k = ((success, integer 0), if cmd == 0x67 then keyboard_set arg k else k)

abbrev pub keyboard : ClevoInterface Keyboard
keyboard = record {
  address = 4;
  string_id = acpi_strid;
  method_call = keyboard_call;
  method_call_pkgbuf = λ cmd arg k. (success, k);
}

level_set :
    (b : ℕ) (k : Keyboard) → b < 256 → keyboard_set (b + 0xf4 * 16777216) k ≡ record k { level = b }
level_set b k p =
    let x = b + 0xf4 * 16777216 in
    let code : x / 2 ^ 24 ≡ 0xf4 = omega arith in
    let low : x % 2 ^ 24 ≡ b = omega arith in
    ap
      (λ n.
        if n == 0xf4
        then record k { level = x % 2 ^ 24 }
        else record k { colors = update (k.colors) (n - 0xf0) (x % 2 ^ 24) })
      code
    ∙ λ i. record k { level = low i }

colors_set :
    (zone word : ℕ) (k : Keyboard)
    → zone < 3
    → word < 16777216
    → keyboard_set (word + (0xf0 + zone) * 16777216) k
      ≡ record k { colors = update (k.colors) zone word }
colors_set zone word k z p =
    let x = word + (0xf0 + zone) * 16777216 in
    let other : (x / 2 ^ 24 == 0xf4) ≡ false = ground arith in
    let code : x / 2 ^ 24 - 0xf0 ≡ zone = omega arith in
    let low : x % 2 ^ 24 ≡ word = omega arith in
    ap
      (λ t.
        if t
        then record k { level = x % 2 ^ 24 }
        else record k { colors = update (k.colors) (x / 2 ^ 24 - 0xf0) (x % 2 ^ 24) })
      other
    ∙ λ i. record k { colors = update (k.colors) (code i) (low i) }

pub keyboard-IsKeyboard : IsKeyboard keyboard (λ k. k)
keyboard-IsKeyboard = record {
  answers = λ arg k. (0, refl);
  sets_level = λ b k p. level_set b k p;
  sets_color = λ zone word k z p. colors_set zone word k z p;
}

abbrev pub device_of : ℕ → Zone
device_of channel = record { channel = channel; brightness = 0; red = 255; green = 128; blue = 64 }

abbrev pub leds : ClevoLeds Keyboard
leds = record {
  clevo = record {
    wmi = none;
    acpi = some keyboard;
    active = some keyboard;
    firmware = record { level = 0; colors = λ zone. 0 };
    calls = [];
  };
  backlight_type = 2;
  leds_initialized = true;
  led_brightness = 0;
  max_brightness = 255;
  zone_0 = device_of 0xf0000000;
  zone_1 = device_of 0xf1000000;
  zone_2 = device_of 0xf2000000;
  notified = [];
  registered = nothing;
}

brightness_mc_sets_example :
    let x =
      (clevo_leds_set_brightness_mc (at keyboard (λ k. k) keyboard-IsKeyboard 1) 100 leds).1 in
    (x.clevo.firmware
      ≡ record { level = 100; colors = update (λ zone. 0) 1 (64 * 65536 + 255 * 256 + 128) })
    × (x.zone_0.brightness ≡ 100)
    × (x.zone_1.brightness ≡ 100)
    × (x.zone_2.brightness ≡ 100)
brightness_mc_sets_example =
    brightness_mc_sets keyboard (λ k. k) keyboard-IsKeyboard 1 100 leds refl (omega arith)
      (omega arith) refl

-- A keyboard with one zone.
abbrev one_zone_call : ℕ → ℕ → Keyboard → (ℤ × Object) × Keyboard
one_zone_call cmd arg k = (
  (
    success,
    if cmd == 0x0d
        then buffer (0 ∷ 0 ∷ 0 ∷ 0 ∷ 0 ∷ 0 ∷ 0 ∷ 0 ∷ 0 ∷ 0 ∷ 0 ∷ 0 ∷ 0 ∷ 0 ∷ 0 ∷ 6 ∷ [])
        else integer 0,
  ),
  k,
)

abbrev one_zone : ClevoInterface Keyboard
one_zone = record keyboard { method_call = one_zone_call }

abbrev unset : ClevoLeds Keyboard
unset = record leds {
  clevo = record (leds.clevo) { acpi = some one_zone; active = some one_zone };
  backlight_type = 0;
  leds_initialized = false;
}

abbrev accepted : Answers
accepted = record { to_white = success; to_rgb_0 = success; to_rgb_1 = success; to_rgb_2 = success }

init_registers_example :
    let x = clevo_leds_init (λ bytes. 0) success (λ name. false) accepted unset in
    ((x.0 ≡ success) × (x.1.leds_initialized ≡ true) × (x.1.registered ≡ all_of x.1.backlight_type)
      ⊎ (nonzero x.0 ≡ true) × (x.1.registered ≡ nothing))
    × ((clevo_leds_remove x.1).1.registered ≡ nothing)
init_registers_example = init_registers (λ bytes. 0) success (λ name. false) accepted unset refl

abbrev lock_call : ℕ → ℕ → Bool → (ℤ × Object) × Bool
lock_call cmd arg locked = ((success, buffer ((if locked then 1 else 2) ∷ 7 ∷ 9 ∷ [])), locked)

abbrev lock_pkgbuf : ℕ → List ℕ → Bool → ℤ × Bool
lock_pkgbuf cmd (command ∷ lock ∷ more) locked = (success, lock == 1)
lock_pkgbuf cmd (command ∷ []) locked = (success, locked)
lock_pkgbuf cmd [] locked = (success, locked)

abbrev lock_interface : ClevoInterface Bool
lock_interface = record {
  address = 5;
  string_id = acpi_strid;
  method_call = lock_call;
  method_call_pkgbuf = lock_pkgbuf;
}

lock_sets : (on : Bool) → ((if on then 0x01 else 0x02) == 1) ≡ on
lock_sets true = refl
lock_sets false = refl

lock-IsFnLock : IsFnLock lock_interface (λ s. s)
lock-IsFnLock = record {
  first = λ s. 7;
  second = λ s. 9;
  more = λ s. [];
  gets = λ s. refl;
  gets_locked = λ s. refl;
  sets = λ on s t. refl;
  sets_locked = λ on s t. lock_sets on;
}

abbrev unlocked : Clevo Bool
unlocked = record {
  wmi = none;
  acpi = some lock_interface;
  active = some lock_interface;
  firmware = false;
  calls = [];
}

abbrev pub unread : FnState
unread = record { on = 0; kbstatus1 = 0; kbstatus2 = 0 }

-- A firmware that answers each command with its argument.
abbrev echo_dsm : ℕ → Object → M ℕ (Option Object)
echo_dsm cmd object s = (some object, s + 1)

abbrev unprobed : Clevo (Platform ℕ)
unprobed = record {
  wmi = none;
  acpi = none;
  active = none;
  firmware = record { driver_data = false; below = 0 };
  calls = [];
}
