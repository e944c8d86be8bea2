-- ===== src/Clevo/Tests.antt =====
-- The theorems of the Clevo driver at concrete states: two kinds of firmware that keep thresholds.
pub mod Keyboard
pub mod Events
use text.Mathlib.Text.{◌==◌ as str_eq}
use tuxedo_drivers.Common.{
  ℕ, ◌+◌, ◌*◌, ◌/◌, ◌%◌, ◌^◌, ◌<◌, ◌≡◌, refl, ap, ◌∙◌, arith, if◌then◌else◌, ◌==◌, ℤ, pos, success,
  enodev, none, some, List, [], ◌∷◌,
}
use tuxedo_drivers.Uniwill.Switches.{number}
use tuxedo_drivers.Clevo.{
  Object, integer, buffer, ClevoInterface, Clevo, wmi_strid, acpi_strid,
  clevo_keyboard_add_interface, clevo_keyboard_remove_interface, clevo_evaluate_method2,
}
use tuxedo_drivers.Clevo.Interfaces.{
  Reachable, Consistent, added_wmi, added_acpi, here, next, always-Consistent, removal_deactivates,
}
use tuxedo_drivers.Clevo.Flexicharger.{
  Thresholds, start_values, end_values, array_find_closest_u8, charge_control_start_threshold_store,
  charge_control_start_threshold_show, charge_control_end_threshold_store,
  charge_control_end_threshold_show, charge_type_store, charge_type_show,
}
use tuxedo_drivers.Clevo.Flexicharger.Words.{word_of}
use tuxedo_drivers.Clevo.Flexicharger.Closest.{Closest, found-Closest}
use tuxedo_drivers.Clevo.Flexicharger.Firmware.{IsLegacy, IsCharging, IsFlexicharger}
use tuxedo_drivers.Clevo.Flexicharger.Legacy.{legacy-IsFlexicharger}
use tuxedo_drivers.Clevo.Flexicharger.Attributes.{thresholds_show-store, charge_type_show-store}

-- What 0x76 makes of its argument.
abbrev set_by : ℕ → Thresholds → Thresholds
set_by arg t =
    if arg / 2 ^ 24 == 6
    then record t { start_ = arg % 256; end_ = arg / 256 % 256 }
    else if arg / 2 ^ 24 == 5
    then record t { status = arg % 2 }
    else t

abbrev legacy_call : ℕ → ℕ → Thresholds → (ℤ × Object) × Thresholds
legacy_call cmd arg t =
    if cmd == 0x77
    then ((success, integer (word_of t)), t)
    else if cmd == 0x76
    then ((success, integer 0x76), set_by arg t)
    else ((success, integer 0), t)

abbrev pub legacy : ClevoInterface Thresholds
legacy = record {
  address = 1;
  string_id = acpi_strid;
  method_call = legacy_call;
  method_call_pkgbuf = λ cmd arg t. (success, t);
}

sets_lem :
    (a b : ℕ) (t : Thresholds)
    → a < 256
    → b < 256
    → set_by (0x06000000 + b * 256 + a) t ≡ record t { start_ = a; end_ = b }
sets_lem a b t p q =
    let x = 0x06000000 + b * 256 + a in
    let sub : x / 2 ^ 24 ≡ 6 = omega arith in
    let low : x % 256 ≡ a = omega arith in
    let high : x / 256 % 256 ≡ b = omega arith in
    ap
      (λ n.
        if n == 6
        then record t { start_ = x % 256; end_ = x / 256 % 256 }
        else if n == 5
        then record t { status = x % 2 }
        else t)
      sub
    ∙ λ i. record t { start_ = low i; end_ = high i }

switches_lem :
    (v : ℕ) (t : Thresholds) → v < 2 → set_by (0x05000000 + v) t ≡ record t { status = v }
switches_lem v t p =
    let x = 0x05000000 + v in
    let sub : x / 2 ^ 24 ≡ 5 = omega arith in
    let low : x % 2 ≡ v = omega arith in
    ap
      (λ n.
        if n == 6
        then record t { start_ = x % 256; end_ = x / 256 % 256 }
        else if n == 5
        then record t { status = x % 2 }
        else t)
      sub
    ∙ λ i. record t { status = low i }

legacy-IsLegacy : IsLegacy legacy (λ t. t)
legacy-IsLegacy = record {
  reads = λ s. refl;
  reads_view = λ s. refl;
  sets = λ a b s p q. refl;
  sets_view = λ a b s p q. sets_lem a b s p q;
  switches = λ v s p. refl;
  switches_view = λ v s p. switches_lem v s p;
  no_cc4 = λ s. (0, refl);
  no_cc4_view = λ s. refl;
}

abbrev cc4_call : ℕ → ℕ → Thresholds → (ℤ × Object) × Thresholds
cc4_call cmd arg t = ((success, buffer (t.status ∷ t.start_ ∷ t.end_ ∷ [])), t)

abbrev cc4_pkgbuf : ℕ → List ℕ → Thresholds → ℤ × Thresholds
cc4_pkgbuf cmd (command ∷ on ∷ from ∷ to ∷ more) t =
    (success, record { start_ = from; end_ = to; status = on })
cc4_pkgbuf cmd (command ∷ on ∷ from ∷ []) t = (success, t)
cc4_pkgbuf cmd (command ∷ on ∷ []) t = (success, t)
cc4_pkgbuf cmd (command ∷ []) t = (success, t)
cc4_pkgbuf cmd [] t = (success, t)

abbrev cc4 : ClevoInterface Thresholds
cc4 = record {
  address = 2;
  string_id = acpi_strid;
  method_call = cc4_call;
  method_call_pkgbuf = cc4_pkgbuf;
}

abbrev sixty : Thresholds
sixty = record { start_ = 60; end_ = 90; status = 0 }

abbrev pub wmi_interface : ClevoInterface Thresholds
wmi_interface = record legacy { address = 3; string_id = wmi_strid }

abbrev pub empty : Clevo Thresholds
empty = record { wmi = none; acpi = none; active = none; firmware = sixty; calls = [] }

abbrev pub with_legacy : Clevo Thresholds
with_legacy = record empty { acpi = some legacy; active = some legacy }

with_legacy-IsCharging : IsCharging legacy (λ t. t) with_legacy
with_legacy-IsCharging = record {
  is_active = refl;
  fits = record { start_small = omega arith; end_small = omega arith; status_small = omega arith };
  is_set = omega arith;
}

legacy-IsFlexicharger_example : IsFlexicharger legacy (λ t. t)
legacy-IsFlexicharger_example = legacy-IsFlexicharger legacy (λ t. t) legacy-IsLegacy

found-Closest_example :
    (c : ℕ) × (array_find_closest_u8 75 (60 ∷ 70 ∷ 80 ∷ []) ≡ pos c)
    × Closest 75 (60 ∷ 70 ∷ 80 ∷ []) c
found-Closest_example = found-Closest 75 60 (70 ∷ 80 ∷ [])

thresholds_show-store_example :
    let x = charge_control_start_threshold_store 0 (success, 57) 3 with_legacy in
    let y = charge_control_end_threshold_store 0 (success, 57) 3 with_legacy in
    (x.0 ≡ pos 3)
    × ((n : ℕ) × Closest 57 start_values n
        × (x.1.firmware ≡ record sixty { start_ = n })
        × ((charge_control_start_threshold_show 0 x.1).0 ≡ number n))
    × (y.0 ≡ pos 3)
    × ((n : ℕ) × Closest 57 end_values n
        × (y.1.firmware ≡ record sixty { end_ = n })
        × ((charge_control_end_threshold_show 0 y.1).0 ≡ number n))
thresholds_show-store_example =
    thresholds_show-store legacy (λ t. t) (legacy-IsFlexicharger legacy (λ t. t) legacy-IsLegacy) 0
      3 with_legacy with_legacy-IsCharging 57 (omega arith) (omega arith)

abbrev both : Clevo Thresholds
both = (clevo_keyboard_add_interface legacy (clevo_keyboard_add_interface wmi_interface empty).1).1

both_reached : Reachable wmi_interface legacy empty both
both_reached =
    next _ _ (next _ _ here (added_wmi empty))
      (added_acpi (clevo_keyboard_add_interface wmi_interface empty).1)

always-Consistent_example : Consistent wmi_interface legacy both
always-Consistent_example =
    always-Consistent wmi_interface legacy refl refl (omega arith) empty both refl refl both_reached
