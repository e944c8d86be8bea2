-- ===== src/Clevo/Events/Cycle.antt =====
-- The index of the colour that the key goes through, and the mode attribute.
use tuxedo_drivers.Common.{
  ℕ, zero, suc, ◌+◌, ◌-◌, ◌%◌, ◌<◌, ◌≤◌, ◌≡◌, refl, ap, ◌∙◌, arith, Bool, true, false, M, when,
  if◌then◌else◌, ◌==◌, ltb, u8, ℤ, success, pos, nonzero, Option, some,
}
use tuxedo_drivers.Uniwill.Switches.{number}
use tuxedo_drivers.Uniwill.Touchpad.{byte_at}
use tuxedo_drivers.Clevo.{integer, ClevoInterface, Clevo}
use tuxedo_drivers.Clevo.Flexicharger.Firmware.{integer_lem}
use tuxedo_drivers.Clevo.Leds.{
  Zone, ClevoLeds, type_fixed_color, clevo_leds_set_brightness_mc, clevo_leds_set_color_extern,
  colored, again,
}
use tuxedo_drivers.Clevo.FnLock.{FnState}
use tuxedo_drivers.Clevo.Events.{
  Keys, Input, report, keymap_event, next_color, color_codes, kbd_backlight_modes, handle_event,
  clevo_send_cc_combo, event_cycle_mode, set_next_color_whole_kb, set_kbd_backlight_mode,
  set_kbd_backlight_mode_fs, list_kbd_backlight_modes_fs, clevo_keyboard_event_callb,
}

module _ {S : Type 0} where
  mc-type :
      (zone : ClevoLeds S → Zone) (b : ℕ) (l : ClevoLeds S)
      → (clevo_leds_set_brightness_mc zone b l).1.backlight_type ≡ l.backlight_type
  unfolding clevo_leds_set_brightness_mc
  mc-type zone b l = ground arith

  set_color_extern-type :
      (color : ℕ) (l : ClevoLeds S)
      → (clevo_leds_set_color_extern color l).1.backlight_type ≡ l.backlight_type
  unfolding clevo_leds_set_color_extern
  set_color_extern-type color l =
      let l0 = record l { zone_0 = colored color l.zone_0 } in
      let k0 = (again (λ l. l.zone_0) l0).1 in
      let l1 = record k0 { zone_1 = colored color k0.zone_1 } in
      let k1 = (again (λ l. l.zone_1) l1).1 in
      let l2 = record k1 { zone_2 = colored color k1.zone_2 } in
      let same0 : k0.backlight_type ≡ l.backlight_type =
        mc-type (λ l. l.zone_0) l0.zone_0.brightness l0 in
      let same1 : k1.backlight_type ≡ l.backlight_type =
        mc-type (λ l. l.zone_1) l1.zone_1.brightness l1 ∙ same0 in
      let same2 : (again (λ l. l.zone_2) l2).1.backlight_type ≡ l.backlight_type =
        mc-type (λ l. l.zone_2) l2.zone_2.brightness l2 ∙ same1 in
      ground (arith, same0, same1, same2)

  -- The state after the key was pressed a number of times.
  unfoldable pub presses : FnState → ℕ → Bool → ℕ → Keys S → Keys S
  presses un result has_device zero k = k
  presses un result has_device (suc n) k =
      (clevo_keyboard_event_callb un result has_device event_cycle_mode
        (presses un result has_device n k)).1

  reported_lem :
      (t : Bool) (m n : M (Keys S) (Unit {0})) (k : Keys S)
      → t ≡ false
      → ((if t then m k else n k).1.whole_kbd_color ≡ (n k).1.whole_kbd_color)
        × ((if t then m k else n k).1.leds.backlight_type ≡ (n k).1.leds.backlight_type)
  reported_lem true m n k h = absurd (ground (arith, h))
  reported_lem false m n k h = (refl, refl)

  when-report :
      (t : Bool) (input : Input) (k : Keys S)
      → ((when t (report input) k).1.whole_kbd_color ≡ k.whole_kbd_color)
        × ((when t (report input) k).1.leds ≡ k.leds)
  when-report true input k = (refl, refl)
  when-report false input k = (refl, refl)

  -- One press on a keyboard whose backlight is not of one fixed colour.
  pressed_lem :
      (un : FnState) (result : ℕ) (has_device : Bool) (k : Keys S)
      → (k.leds.backlight_type == type_fixed_color) ≡ false
      → let x = (clevo_keyboard_event_callb un result has_device event_cycle_mode k).1 in
        (x.whole_kbd_color ≡ u8 (next_color k.whole_kbd_color))
        × (x.leds.backlight_type ≡ k.leds.backlight_type)
  unfolding clevo_keyboard_event_callb handle_event set_next_color_whole_kb
  pressed_lem un result has_device k h =
      let r =
        reported_lem (k.leds.backlight_type == type_fixed_color) clevo_send_cc_combo
          set_next_color_whole_kb k h in
      let same =
        set_color_extern-type (byte_at color_codes (next_color k.whole_kbd_color)) k.leds in
      let w =
        when-report has_device (keymap_event event_cycle_mode)
          (handle_event un result event_cycle_mode k).1 in
      (w.0 ∙ r.0, ap (λ (l : ClevoLeds S). l.backlight_type) w.1 ∙ (r.1 ∙ same))

  presses-type :
      (un : FnState) (result : ℕ) (has_device : Bool) (n : ℕ) (k : Keys S)
      → (k.leds.backlight_type == type_fixed_color) ≡ false
      → (presses un result has_device n k).leds.backlight_type ≡ k.leds.backlight_type
  unfolding presses
  presses-type un result has_device zero k h = refl
  presses-type un result has_device (suc n) k h =
      let same = presses-type un result has_device n k h in
      (pressed_lem un result has_device (presses un result has_device n k)
        (ap (λ t. t == type_fixed_color) same ∙ h)).1
      ∙ same

  -- On a keyboard whose backlight is not of one fixed colour and has one of the seven colours, any
  -- number of presses of the key moves the index of the colour on by that many, after the seventh to
  -- the first.
  pub presses_index :
      (un : FnState) (result : ℕ) (has_device : Bool) (n : ℕ) (k : Keys S)
      → (k.leds.backlight_type == type_fixed_color) ≡ false
      → 1 ≤ k.whole_kbd_color
      → k.whole_kbd_color < 8
      → (presses un result has_device n k).whole_kbd_color ≡ (k.whole_kbd_color - 1 + n) % 7 + 1
  unfolding presses
  presses_index un result has_device zero k h low high = omega arith
  presses_index un result has_device (suc n) k h low high =
      let p = presses un result has_device n k in
      let c = k.whole_kbd_color - 1 + n in
      let step : u8 (next_color (c % 7 + 1)) ≡ (k.whole_kbd_color - 1 + suc n) % 7 + 1 =
        ground arith in
      (pressed_lem un result has_device p
        (ap (λ t. t == type_fixed_color) (presses-type un result has_device n k h) ∙ h)).0
      ∙ (ap (λ c. u8 (next_color c)) (presses_index un result has_device n k h low high) ∙ step)

module _ {S : Type 0} (i : ClevoInterface S)
    (answers : (arg : ℕ) (s : S)
      → (n : ℕ) × ((i.method_call 0x67 arg s).0 ≡ (success, integer n))) where
  -- Over a firmware that accepts the command, a number that is written to the mode attribute is
  -- accepted, and the attribute shows its lowest byte, but 7 where that is above 7.
  pub mode_show-store :
      (n size : ℕ) (k : Keys S)
      → k.leds.clevo.active ≡ some i
      → let x = set_kbd_backlight_mode_fs (success, n) size k in
        (x.0 ≡ pos size)
        × (list_kbd_backlight_modes_fs x.1 ≡ number (if ltb 7 (n % 256) then 7 else n % 256))
  unfolding set_kbd_backlight_mode_fs set_kbd_backlight_mode list_kbd_backlight_modes_fs
  mode_show-store n size k h =
      let mode = if ltb 7 (n % 256) then 7 else n % 256 in
      let arg = byte_at kbd_backlight_modes mode in
      let a = answers arg k.leds.clevo.firmware in
      let sent = integer_lem i 0x67 arg k.leds.clevo a.0 h a.1 in
      (
        refl,
        ap
            (λ (r : (ℤ × Option ℕ) × Clevo S).
              let l = record k { leds = record (k.leds) { clevo = r.1 } } in
              number (if nonzero r.0.0 then l else record l { mode = mode }).mode)
            sent,
      )
