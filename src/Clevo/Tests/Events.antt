-- ===== src/Clevo/Tests/Events.antt =====
-- The theorems of the key events at concrete states.
use tuxedo_drivers.Common.{◌≡◌, refl, arith, true, []}
use tuxedo_drivers.Clevo.Events.{Keys}
use tuxedo_drivers.Clevo.Events.Cycle.{presses}
use tuxedo_drivers.Clevo.Events.Sent.{IsThreeZones, presses_cycle}
use tuxedo_drivers.Clevo.Leds.Colors.{Keyboard}
use tuxedo_drivers.Clevo.Tests.Keyboard.{keyboard, keyboard-IsKeyboard, leds, unread}

abbrev keys : Keys Keyboard
keys = record { leds = leds; has_mode = true; mode = 0; whole_kbd_color = 7; input = [] }

leds-IsThreeZones : IsThreeZones keyboard (λ k. k) keyboard-IsKeyboard leds
leds-IsThreeZones = record {
  is_active = refl;
  is_type = refl;
  channel_0 = refl;
  channel_1 = refl;
  channel_2 = refl;
  small_0 = omega arith;
  small_1 = omega arith;
  small_2 = omega arith;
}

presses_cycle_example :
    let x = presses unread 0 true 9 keys in
    (x.whole_kbd_color ≡ 2)
    × (x.leds.clevo.firmware.colors 0 ≡ 0x0000ff)
    × (x.leds.clevo.firmware.colors 1 ≡ 0x0000ff)
    × (x.leds.clevo.firmware.colors 2 ≡ 0x0000ff)
presses_cycle_example =
    presses_cycle keyboard (λ k. k) keyboard-IsKeyboard unread 0 true 8 keys leds-IsThreeZones
      (omega arith) (omega arith)
