-- ===== src/Clevo/Leds/Colors.antt =====
-- The words of colours and brightness that the keyboard's firmware gets.
use tuxedo_drivers.Common.{
  ℕ, zero, suc, ◌>>◌, ◌+◌, ◌*◌, ◌/◌, ◌%◌, ◌^◌, ◌≤◌, ◌<◌, ◌≡◌, refl, ap, ◌∙◌, sym, subst, arith,
  if◌then◌else◌, ◌==◌, u8, bit_and, bit_or, ◌<<<◌, bit_and-byte, bit_and-shifted, bit_or-byte,
  bit_or-word, bit_or-three, bit_or_comm, ℤ, success, nonzero, Option, some, M, pure, ◌>>=◌, Ram,
  update,
}
use tuxedo_drivers.Clevo.{integer, ClevoInterface, Clevo, clevo_evaluate_method}
use tuxedo_drivers.Clevo.Flexicharger.Firmware.{after, integer_lem}
use tuxedo_drivers.Clevo.Leds.{
  Zone, ClevoLeds, color_set, color_of, color_scaling, all_brightness,
  clevo_evaluate_set_rgb_brightness, clevo_evaluate_set_rgb_color, clevo_leds_set_brightness_mc,
  assign, by_clevo,
}

-- Blue, red and green from the highest byte on.
abbrev pub brg : ℕ → ℕ → ℕ → ℕ
brg red green blue = blue * 65536 + red * 256 + green

color_set_lem :
    (red green blue : ℕ)
    → red < 256
    → green < 256
    → blue < 256
    → color_set ((red <<< 16) + (green <<< 8) + blue) ≡ brg red green blue
unfolding color_set
color_set_lem red green blue r g b =
    let c = red * 65536 + green * 256 + blue in
    let low : bit_and c 255 ≡ blue = bit_and-byte c ∙ omega arith in
    let mid : bit_and c 65280 / 256 ≡ green =
      ap (λ x. x / 256) (bit_and-shifted c 255 ∙ ap (λ x. x * 256) (bit_and-byte (c / 256)))
      ∙ omega arith in
    let high : bit_and c 16711680 / 256 ≡ red * 256 =
      ap (λ x. x / 256)
        (bit_and-shifted c 65280
          ∙ ap (λ x. x * 256)
              (bit_and-shifted (c / 256) 255 ∙ ap (λ x. x * 256) (bit_and-byte (c / 256 / 256))))
      ∙ omega arith in
    (λ i. bit_or (bit_or (low i * 65536) (high i)) (mid i))
    ∙ (ap (λ x. bit_or x green)
          (bit_or_comm (blue * 65536) (red * 256) ∙ bit_or-word (red * 256) blue (omega arith))
        ∙ (bit_or_comm (red * 256 + blue * 65536) green
            ∙ (ap (λ x. bit_or green x) (omega arith)
                ∙ (bit_or-byte green (red + blue * 256) g ∙ omega arith))))

-- What the keyboard has: a brightness for all, and a colour for each zone.
pub record Keyboard : Type 0 where
  pub level : ℕ
  pub colors : Ram

-- What is relied on of the firmware: 0x67 takes a brightness under the code 0xf4, and a colour under
-- 0xf0 and the zone.
pub record IsKeyboard {S : Type 0} (i : ClevoInterface S) (view : S → Keyboard) : Type 0 where
  pub answers : (arg : ℕ) (s : S) → (n : ℕ) × ((i.method_call 0x67 arg s).0 ≡ (success, integer n))
  pub sets_level :
      (b : ℕ) (s : S)
      → b < 256
      → view (i.method_call 0x67 (b + 0xf4 * 16777216) s).1 ≡ record (view s) { level = b }
  pub sets_color :
      (zone word : ℕ) (s : S)
      → zone < 3
      → word < 16777216
      → view (i.method_call 0x67 (word + (0xf0 + zone) * 16777216) s).1
        ≡ record (view s) { colors = update ((view s).colors) zone word }

module _ {S : Type 0} (i : ClevoInterface S) (view : S → Keyboard) (law : IsKeyboard i view) where
  -- A call of 0x67 succeeds.
  sent :
      (arg : ℕ) (c : Clevo S)
      → c.active ≡ some i
      → (n : ℕ) × (clevo_evaluate_method 0x67 arg c ≡ ((success, some n), after i 0x67 arg c))
  sent arg c h =
      let a = law.answers arg c.firmware in (a.0 % 2 ^ 32, integer_lem i 0x67 arg c a.0 h a.1)

  level_lem :
      (b : ℕ) (c : Clevo S)
      → c.active ≡ some i
      → b < 256
      → clevo_evaluate_set_rgb_brightness b c ≡ (success, after i 0x67 (b + 0xf4 * 16777216) c)
  unfolding clevo_evaluate_set_rgb_brightness
  level_lem b c h small =
      let arg = b + 0xf4 * 16777216 in
      let word : bit_or 0xf4000000 b ≡ arg =
        bit_or_comm 0xf4000000 b ∙ bit_or-three b 0xf4 (omega arith) in
      ap (λ w. ((clevo_evaluate_method 0x67 w c).0.0, (clevo_evaluate_method 0x67 w c).1)) word
      ∙ ap (λ (r : (ℤ × Option ℕ) × Clevo S). (r.0.0, r.1)) (sent arg c h).1

  color_lem :
      (zone red green blue : ℕ) (c : Clevo S)
      → c.active ≡ some i
      → zone < 3
      → red < 256
      → green < 256
      → blue < 256
      → clevo_evaluate_set_rgb_color
          ((0xf0 + zone) * 16777216)
          ((red <<< 16) + (green <<< 8) + blue)
          c
        ≡ (success, after i 0x67 (brg red green blue + (0xf0 + zone) * 16777216) c)
  unfolding clevo_evaluate_set_rgb_color
  color_lem zone red green blue c h z r g b =
      let high = (0xf0 + zone) * 16777216 in
      let arg = brg red green blue + high in
      let word : bit_or high (color_set ((red <<< 16) + (green <<< 8) + blue)) ≡ arg =
        ap (λ x. bit_or high x) (color_set_lem red green blue r g b)
        ∙ (bit_or_comm high (brg red green blue)
            ∙ bit_or-three (brg red green blue) (0xf0 + zone) (omega arith)) in
      ap (λ w. ((clevo_evaluate_method 0x67 w c).0.0, (clevo_evaluate_method 0x67 w c).1)) word
      ∙ ap (λ (r : (ℤ × Option ℕ) × Clevo S). (r.0.0, r.1)) (sent arg c h).1

  -- The intensities that are sent for a device.
  abbrev pub intensity : ℕ → ℕ → ℕ → ℕ
  intensity type factor value = if type == 6 then factor * (value % 256) / 255 else value % 256

  intensity_small : (type factor value : ℕ) → factor ≤ 255 → intensity type factor value < 256
  intensity_small type factor value h =
      let v = value % 256 in let bound : factor * v ≤ 255 * v = grind arith in ground (arith, bound)

  -- The devices after the first call.
  abbrev pub bright : ℕ → ClevoLeds S → ClevoLeds S
  bright b l = all_brightness b (record l { clevo = after i 0x67 (b + 0xf4 * 16777216) l.clevo })

  -- The colour of a device with the zone's channel.
  abbrev pub word_of : ℕ → Zone → ℕ
  word_of type z = brg (intensity type 180 z.red) (z.green % 256) (intensity type 200 z.blue)

  pub mc_lem :
      (zone : ℕ) (device : ClevoLeds S → Zone) (z : Zone) (b : ℕ) (l : ClevoLeds S)
      → l.clevo.active ≡ some i
      → zone < 3
      → b < 256
      → device (bright b l) ≡ z
      → z.channel ≡ (0xf0 + zone) * 16777216
      → clevo_leds_set_brightness_mc device b l ≡ (
        tt,
        record (bright b l) {
          clevo =
              after i 0x67
                (word_of l.backlight_type z + (0xf0 + zone) * 16777216)
                (bright b l).clevo;
        },
      )
  unfolding clevo_leds_set_brightness_mc color_scaling
  mc_lem zone device z b l h low small e channel =
      let k = bright b l in
      let type = l.backlight_type in
      let whole : u8 b ≡ b = omega arith in
      let first : clevo_evaluate_set_rgb_brightness (u8 b) l.clevo ≡ (success, k.clevo) =
        ap (λ n. clevo_evaluate_set_rgb_brightness n l.clevo) whole ∙ level_lem b l.clevo h small in
      let second =
        color_lem zone (intensity type 180 z.red) (z.green % 256) (intensity type 200 z.blue)
          k.clevo h low (intensity_small type 180 z.red (omega arith)) (omega arith)
          (intensity_small type 200 z.blue (omega arith)) in
      let finish : ℤ × Clevo S → Unit {0} × ClevoLeds S = λ r. (tt, record k { clevo = r.1 }) in
      let rest : M (ClevoLeds S) (Unit {0}) = (do
        assign (all_brightness b)
        z ← (λ l. (device l, l))
        type ← (λ l. (l.backlight_type, l))
        by_clevo (clevo_evaluate_set_rgb_color z.channel (color_of type z))
        pure tt) in
      ap (λ (r : ℤ × Clevo S). (if nonzero r.0 then pure tt else rest) (record l { clevo = r.1 }))
        first
      ∙ (ap
            (λ (z : Zone).
              finish (clevo_evaluate_set_rgb_color z.channel (color_of type z) k.clevo))
            e
          ∙ (ap (λ n. finish (clevo_evaluate_set_rgb_color n (color_of type z) k.clevo)) channel
              ∙ ap finish second))

  -- The device of a zone.
  abbrev pub at : ℕ → ClevoLeds S → Zone
  at zero l = l.zone_0
  at (suc zero) l = l.zone_1
  at (suc (suc zone)) l = l.zone_2

  -- What the keyboard shows after a set of one device.
  Shows : ℕ → Zone → ℕ → ClevoLeds S → ClevoLeds S → Type 0
  Shows zone z b l x =
      (view x.clevo.firmware ≡ record {
        level = b;
        colors = update ((view l.clevo.firmware).colors) zone (word_of l.backlight_type z);
      })
      × (x.zone_0.brightness ≡ b)
      × (x.zone_1.brightness ≡ b)
      × (x.zone_2.brightness ≡ b)

  mc-Shows :
      (zone : ℕ) (device : ClevoLeds S → Zone) (z : Zone) (b : ℕ) (l : ClevoLeds S)
      → l.clevo.active ≡ some i
      → zone < 3
      → b < 256
      → device (bright b l) ≡ z
      → z.channel ≡ (0xf0 + zone) * 16777216
      → Shows zone z b l (clevo_leds_set_brightness_mc device b l).1
  unfolding Shows
  mc-Shows zone device z b l h low small e channel =
      let k = bright b l in
      let w = word_of l.backlight_type z in
      let ir = intensity_small l.backlight_type 180 z.red (omega arith) in
      let ib = intensity_small l.backlight_type 200 z.blue (omega arith) in
      subst (λ (x : Unit {0} × ClevoLeds S). Shows zone z b l x.1)
        (sym (mc_lem zone device z b l h low small e channel))
        (
          law.sets_color zone w k.clevo.firmware low (omega arith)
              ∙ ap (λ (s : Keyboard). record s { colors = update (s.colors) zone w })
                  (law.sets_level b l.clevo.firmware small),
          refl,
          refl,
          refl,
        )

  -- Over the firmware of a coloured keyboard, a brightness below 256 that is set for one of the
  -- three devices is that of the keyboard and of all three devices afterwards, and the colour of
  -- that device's zone is its intensities in the order of blue, red and green, red and blue scaled
  -- down by 180 and 200 of 255 on a keyboard with one zone. The other zones keep their colours.
  pub brightness_mc_sets :
      (zone b : ℕ) (l : ClevoLeds S)
      → l.clevo.active ≡ some i
      → zone < 3
      → b < 256
      → (at zone l).channel ≡ (0xf0 + zone) * 16777216
      → let x = (clevo_leds_set_brightness_mc (at zone) b l).1 in
        let z = at zone l in
        (view x.clevo.firmware ≡ record {
          level = b;
          colors = update ((view l.clevo.firmware).colors) zone (
              brg
                (intensity l.backlight_type 180 z.red)
                (z.green % 256)
                (intensity l.backlight_type 200 z.blue));
        })
        × (x.zone_0.brightness ≡ b)
        × (x.zone_1.brightness ≡ b)
        × (x.zone_2.brightness ≡ b)
  unfolding Shows
  brightness_mc_sets zero b l h low small channel =
      mc-Shows 0 (at 0) (record (l.zone_0) { brightness = b }) b l h low small refl channel
  brightness_mc_sets (suc zero) b l h low small channel =
      mc-Shows 1 (at 1) (record (l.zone_1) { brightness = b }) b l h low small refl channel
  brightness_mc_sets (suc (suc zero)) b l h low small channel =
      mc-Shows 2 (at 2) (record (l.zone_2) { brightness = b }) b l h low small refl channel
  brightness_mc_sets (suc (suc (suc zone))) b l h low small channel = absurd (omega arith)
