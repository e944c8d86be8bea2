-- ===== src/Clevo/Events/Sent.antt =====
-- The colours that a keyboard with three zones gets from the key.
use tuxedo_drivers.Common.{
  ℕ, zero, suc, ◌+◌, ◌-◌, ◌*◌, ◌%◌, ◌<◌, ◌≤◌, ◌≡◌, refl, ap, ◌∙◌, sym, subst, arith, Bool, true,
  false, M, when, ==_iff, check_below, checked_table, if◌then◌else◌, ◌==◌, bit_and, ◌>>>◌, List, [],
  ◌∷◌, some, update,
}
use tuxedo_drivers.Uniwill.Touchpad.{byte_at}
use tuxedo_drivers.Clevo.{ClevoInterface}
use tuxedo_drivers.Clevo.Leds.{
  Zone, ClevoLeds, type_fixed_color, clevo_leds_set_brightness_mc, clevo_leds_set_color_extern,
  colored, again,
}
use tuxedo_drivers.Clevo.Leds.Colors.{Keyboard, IsKeyboard, brg, word_of, bright, mc_lem, at}
use tuxedo_drivers.Clevo.FnLock.{FnState}
use tuxedo_drivers.Clevo.Events.{
  Keys, Input, report, keymap_event, next_color, color_codes, handle_event, clevo_send_cc_combo,
  event_cycle_mode, set_next_color_whole_kb, clevo_keyboard_event_callb,
}
use tuxedo_drivers.Clevo.Events.Cycle.{presses, presses_index}

-- The words of red, green, blue, yellow, magenta, cyan and white, blue in the highest byte, then red
-- and green.
abbrev pub palette : List ℕ
palette = 0x00ff00 ∷ 0x0000ff ∷ 0xff0000 ∷ 0x00ffff ∷ 0xffff00 ∷ 0xff00ff ∷ 0xffffff ∷ []

-- The word for a colour of the table.
abbrev word : ℕ → ℕ
word color =
    brg (bit_and (color >>> 16) 0xff % 256) (bit_and (color >>> 8) 0xff % 256)
      (bit_and color 0xff % 256)

abbrev agrees : ℕ → Bool
agrees j = word (byte_at color_codes (next_color (j + 1))) == byte_at palette ((j + 1) % 7)

agrees_all : check_below 7 agrees ≡ true
unfolding check_below
agrees_all = refl

word_lem :
    (j : ℕ)
    → j < 7
    → word (byte_at color_codes (next_color (j + 1))) ≡ byte_at palette ((j + 1) % 7)
word_lem j h =
    (==_iff (word (byte_at color_codes (next_color (j + 1)))) (byte_at palette ((j + 1) % 7))).0
      (checked_table 7 agrees j agrees_all h)

module _ {S : Type 0} (i : ClevoInterface S) (view : S → Keyboard) (law : IsKeyboard i view) where
  -- A keyboard with three zones.
  pub record IsThreeZones (l : ClevoLeds S) : Type 0 where
    pub is_active : l.clevo.active ≡ some i
    pub is_type : l.backlight_type ≡ 2
    pub channel_0 : l.zone_0.channel ≡ 0xf0000000
    pub channel_1 : l.zone_1.channel ≡ 0xf1000000
    pub channel_2 : l.zone_2.channel ≡ 0xf2000000
    pub small_0 : l.zone_0.brightness < 256
    pub small_1 : l.zone_1.brightness < 256
    pub small_2 : l.zone_2.brightness < 256

  abbrev recolor : ℕ → ℕ → ClevoLeds S → ClevoLeds S
  recolor zero c l = record l { zone_0 = colored c l.zone_0 }
  recolor (suc zero) c l = record l { zone_1 = colored c l.zone_1 }
  recolor (suc (suc zone)) c l = record l { zone_2 = colored c l.zone_2 }

  -- One zone is coloured and sent.
  abbrev step : ℕ → ℕ → ClevoLeds S → ClevoLeds S
  step zone c l = (again (at i view law zone) (recolor zone c l)).1

  -- What a step leaves.
  Stepped : ℕ → ℕ → ClevoLeds S → ClevoLeds S → Type 0
  Stepped zone c l x =
      IsThreeZones x
      × ((view x.clevo.firmware).colors ≡ update ((view l.clevo.firmware).colors) zone (word c))

  sent_lem :
      (zone c b : ℕ) (device : ClevoLeds S → Zone) (z : Zone) (l : ClevoLeds S)
      → IsThreeZones l
      → zone < 3
      → b < 256
      → device (bright i view law b l) ≡ z
      → z.channel ≡ (0xf0 + zone) * 16777216
      → word_of i view law 2 z ≡ word c
      → Stepped zone c l (clevo_leds_set_brightness_mc device b l).1
  unfolding Stepped
  sent_lem zone c b device z l three low small is_z channel is_word =
      let k = bright i view law b l in
      let w = word_of i view law l.backlight_type z in
      let same : w ≡ word c = ap (λ t. word_of i view law t z) three.is_type ∙ is_word in
      let bound : w < 16777216 = ground (arith, same) in
      subst (λ (x : Unit {0} × ClevoLeds S). Stepped zone c l x.1)
        (sym (mc_lem i view law zone device z b l three.is_active low small is_z channel))
        (
          record {
            is_active = three.is_active;
            is_type = three.is_type;
            channel_0 = three.channel_0;
            channel_1 = three.channel_1;
            channel_2 = three.channel_2;
            small_0 = small;
            small_1 = small;
            small_2 = small;
          },
          ap (λ (s : Keyboard). s.colors) (law.sets_color zone w k.clevo.firmware low bound)
              ∙ (ap (λ (s : Keyboard). update (s.colors) zone w)
                    (law.sets_level b l.clevo.firmware small)
                  ∙ ap (λ n. update ((view l.clevo.firmware).colors) zone n) same),
        )

  recolored : (zone c : ℕ) (l : ClevoLeds S) → IsThreeZones l → IsThreeZones (recolor zone c l)
  recolored zero c l t = record {
    is_active = t.is_active;
    is_type = t.is_type;
    channel_0 = t.channel_0;
    channel_1 = t.channel_1;
    channel_2 = t.channel_2;
    small_0 = t.small_0;
    small_1 = t.small_1;
    small_2 = t.small_2;
  }
  recolored (suc zero) c l t = record {
    is_active = t.is_active;
    is_type = t.is_type;
    channel_0 = t.channel_0;
    channel_1 = t.channel_1;
    channel_2 = t.channel_2;
    small_0 = t.small_0;
    small_1 = t.small_1;
    small_2 = t.small_2;
  }
  recolored (suc (suc zone)) c l t = record {
    is_active = t.is_active;
    is_type = t.is_type;
    channel_0 = t.channel_0;
    channel_1 = t.channel_1;
    channel_2 = t.channel_2;
    small_0 = t.small_0;
    small_1 = t.small_1;
    small_2 = t.small_2;
  }

  step_lem :
      (zone c : ℕ) (l : ClevoLeds S) → IsThreeZones l → zone < 3 → Stepped zone c l (step zone c l)
  unfolding Stepped
  step_lem zero c l t h =
      sent_lem 0 c l.zone_0.brightness (at i view law 0) (colored c l.zone_0) (recolor 0 c l)
        (recolored 0 c l t) h t.small_0 refl t.channel_0 refl
  step_lem (suc zero) c l t h =
      sent_lem 1 c l.zone_1.brightness (at i view law 1) (colored c l.zone_1) (recolor 1 c l)
        (recolored 1 c l t) h t.small_1 refl t.channel_1 refl
  step_lem (suc (suc zero)) c l t h =
      sent_lem 2 c l.zone_2.brightness (at i view law 2) (colored c l.zone_2) (recolor 2 c l)
        (recolored 2 c l t) h t.small_2 refl t.channel_2 refl
  step_lem (suc (suc (suc zone))) c l t h = absurd (omega arith)

  -- Every zone has the colour.
  Coloured : ℕ → ClevoLeds S → Type 0
  Coloured c x =
      IsThreeZones x
      × ((view x.clevo.firmware).colors 0 ≡ word c)
      × ((view x.clevo.firmware).colors 1 ≡ word c)
      × ((view x.clevo.firmware).colors 2 ≡ word c)

  set_color_lem :
      (c : ℕ) (l : ClevoLeds S) → IsThreeZones l → Coloured c (clevo_leds_set_color_extern c l).1
  unfolding Coloured clevo_leds_set_color_extern Stepped
  set_color_lem c l t =
      let l1 = step 0 c l in
      let l2 = step 1 c l1 in
      let l3 = step 2 c l2 in
      let s0 = step_lem 0 c l t (omega arith) in
      let s1 = step_lem 1 c l1 s0.0 (omega arith) in
      let s2 = step_lem 2 c l2 s1.0 (omega arith) in
      let f = (view l.clevo.firmware).colors in
      let w = word c in
      let all : (view l3.clevo.firmware).colors ≡ update (update (update f 0 w) 1 w) 2 w =
        s2.1 ∙ ap (λ f. update f 2 w) (s1.1 ∙ ap (λ f. update f 1 w) s0.1) in
      let one = record l { zone_0 = colored c l.zone_0 } in
      subst (λ (x : Unit {0} × ClevoLeds S). Coloured c x.1)
        (sym (
          ap
            (λ (type : ℕ).
              let r : Unit {0} × ClevoLeds S =
                if type == 6
                then again (λ l. l.zone_0) one
                else if type == 2
                then (tt, l3)
                else (tt, l) in
              r)
            t.is_type))
        (s2.0, ap (λ f. f 0) all, ap (λ f. f 1) all, ap (λ f. f 2) all)

  reported_leds :
      (t : Bool) (m n : M (Keys S) (Unit {0})) (k : Keys S)
      → t ≡ false
      → (if t then m k else n k).1.leds ≡ (n k).1.leds
  reported_leds true m n k h = absurd (ground (arith, h))
  reported_leds false m n k h = refl

  when-report_leds :
      (t : Bool) (input : Input) (k : Keys S) → (when t (report input) k).1.leds ≡ k.leds
  when-report_leds true input k = refl
  when-report_leds false input k = refl

  pressed_lem :
      (un : FnState) (result : ℕ) (has_device : Bool) (k : Keys S)
      → IsThreeZones k.leds
      → Coloured
          (byte_at color_codes (next_color k.whole_kbd_color))
          (clevo_keyboard_event_callb un result has_device event_cycle_mode k).1.leds
  unfolding clevo_keyboard_event_callb handle_event set_next_color_whole_kb
  pressed_lem un result has_device k t =
      let c = byte_at color_codes (next_color k.whole_kbd_color) in
      subst (Coloured c)
        (sym (
          when-report_leds has_device (keymap_event event_cycle_mode)
            (handle_event un result event_cycle_mode k).1
          ∙ reported_leds (k.leds.backlight_type == type_fixed_color) clevo_send_cc_combo
              set_next_color_whole_kb k (ap (λ t. t == type_fixed_color) t.is_type)))
        (set_color_lem c k.leds t)

  presses-IsThreeZones :
      (un : FnState) (result : ℕ) (has_device : Bool) (n : ℕ) (k : Keys S)
      → IsThreeZones k.leds
      → IsThreeZones (presses un result has_device n k).leds
  unfolding presses Coloured
  presses-IsThreeZones un result has_device zero k t = t
  presses-IsThreeZones un result has_device (suc n) k t =
      (pressed_lem un result has_device (presses un result has_device n k)
        (presses-IsThreeZones un result has_device n k t)).0

  -- Over the firmware of a keyboard with three zones that has one of the seven colours, after any
  -- number of presses of the key, but none, every zone shows the colour that is so many after it in
  -- the order of red, green, blue, yellow, magenta, cyan and white, with red again after white, and
  -- the index is that of the colour.
  pub presses_cycle :
      (un : FnState) (result : ℕ) (has_device : Bool) (n : ℕ) (k : Keys S)
      → IsThreeZones k.leds
      → 1 ≤ k.whole_kbd_color
      → k.whole_kbd_color < 8
      → let x = presses un result has_device (suc n) k in
        let f = (view x.leds.clevo.firmware).colors in
        let j = (k.whole_kbd_color + n) % 7 in
        (x.whole_kbd_color ≡ j + 1)
        × (f 0 ≡ byte_at palette j)
        × (f 1 ≡ byte_at palette j)
        × (f 2 ≡ byte_at palette j)
  unfolding presses Coloured
  presses_cycle un result has_device n k t low high =
      let p = presses un result has_device n k in
      let c = k.whole_kbd_color - 1 + n in
      let not_fixed = ap (λ t. t == type_fixed_color) t.is_type in
      let index = presses_index un result has_device n k not_fixed low high in
      let here =
        pressed_lem un result has_device p (presses-IsThreeZones un result has_device n k t) in
      let next : (c % 7 + 1) % 7 ≡ (k.whole_kbd_color + n) % 7 = omega arith in
      let w : word (byte_at color_codes (next_color p.whole_kbd_color))
          ≡ byte_at palette ((k.whole_kbd_color + n) % 7) =
        ap (λ m. word (byte_at color_codes (next_color m))) index
        ∙ (word_lem (c % 7) (omega arith) ∙ ap (byte_at palette) next) in
      (
        presses_index un result has_device (suc n) k not_fixed low high ∙ omega arith,
        here.1 ∙ w,
        here.2 ∙ w,
        here.3 ∙ w,
      )
