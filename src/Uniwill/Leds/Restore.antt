-- ===== src/Uniwill/Leds/Restore.antt =====
-- Setting the keyboard backlight, and what the restore on resume makes of it after a reset of the EC.
use tuxedo_drivers.Common.{
  ℕ, ◌+◌, ◌<◌, ◌≡◌, refl, ap, ◌∙◌, subst, sym, arith, false, u8, Ram, success,
}
use tuxedo_drivers.Uniwill.Interface.{UniwillInterface, IsEcRam}
use tuxedo_drivers.Uniwill.Access.{Uniwill}
use tuxedo_drivers.Uniwill.Access.Ready.{IsReady}
use tuxedo_drivers.Uniwill.Leds.{
  fixed_color, one_zone_rgb, Leds, is_black, tf_convert_rgb_range, uniwill_write_kbd_bl_brightness,
  uniwill_write_kbd_bl_brightness_white_workaround, uniwill_write_kbd_bl_color,
  uniwill_leds_set_brightness, uniwill_leds_set_brightness_mc, uniwill_leds_restore_state_extern,
}
use tuxedo_drivers.Uniwill.Leds.Registers.{
  shown, Lit, brightness-Lit, workaround-Lit, Coloured, color-Coloured,
}

module _ {S : Type 0} (i : UniwillInterface S) (ready : S → Type 0) (ram : S → Ram)
    (law : IsEcRam i ready ram) where
  -- The state after a reset of the EC.
  abbrev pub reset : S → Leds S → Leds S
  reset e l = record l { uw = record (l.uw) { ec = e } }

  set_white :
      (b : ℕ) (l : Leds S)
      → IsReady i ready ram law l.uw
      → b < 8
      → (uniwill_leds_set_brightness b l).1 ≡ record l {
        uw = (uniwill_write_kbd_bl_brightness_white_workaround b l.uw).1;
        led_brightness = b;
      }
  unfolding uniwill_leds_set_brightness Lit
  set_white b l r small =
      let small' : u8 b ≡ b = omega arith in
      let lit = workaround-Lit i ready ram law b l.uw r small in ground (arith, small', lit.0)

  restore_white :
      (k : Leds S)
      → k.backlight_type ≡ fixed_color
      → (uniwill_leds_restore_state_extern k).1 ≡ record k {
        uw = (uniwill_write_kbd_bl_brightness_white_workaround (u8 k.led_brightness) k.uw).1;
      }
  unfolding uniwill_leds_restore_state_extern
  restore_white k h = ground (arith, h)

  -- Over an EC RAM, a white backlight that is set to a brightness below 8 shows it in the status
  -- register, and shows it again when the state is restored after a reset of the EC.
  pub restore_white_brightness :
      (b : ℕ) (l : Leds S) (e : S)
      → IsReady i ready ram law l.uw
      → l.backlight_type ≡ fixed_color
      → b < 8
      → ready e
      → let set = (uniwill_leds_set_brightness b l).1 in
        (shown (ram set.uw.ec) ≡ b)
        × (shown (ram (uniwill_leds_restore_state_extern (reset e set)).1.uw.ec) ≡ b)
  unfolding Lit
  restore_white_brightness b l e r fixed small ok =
      let lit = workaround-Lit i ready ram law b l.uw r small in
      let set = (uniwill_leds_set_brightness b l).1 in
      let eq = set_white b l r small in
      let again = record ((uniwill_write_kbd_bl_brightness_white_workaround b l.uw).1) { ec = e } in
      let ready' : IsReady i ready ram law again = record {
        registered = lit.3.registered;
        ec_ready = ok;
      } in
      let lit' = workaround-Lit i ready ram law b again ready' small in
      let small' : u8 b ≡ b = omega arith in
      (
        ap (λ k. shown (ram k.uw.ec)) eq ∙ lit.1,
        ap (λ k. shown (ram (uniwill_leds_restore_state_extern (reset e k)).1.uw.ec)) eq
            ∙ (ap (λ k. shown (ram k.uw.ec))
                  (restore_white (record l { uw = again; led_brightness = b }) fixed)
                ∙ (ap
                      (λ n.
                        shown (ram (uniwill_write_kbd_bl_brightness_white_workaround n again).1.ec))
                      small'
                    ∙ lit'.1)),
      )

  -- The colours and the brightness are written one after the other.
  write_both :
      (red green blue b : ℕ) (u : Uniwill S)
      → IsReady i ready ram law u
      → b < 8
      → let c = uniwill_write_kbd_bl_color red green blue u in
        let x = uniwill_write_kbd_bl_brightness b c.1 in
        (c.0 ≡ success)
        × Lit i ready ram law b (ram x.1.ec) x
        × Coloured i ready ram law red green blue x
  unfolding Lit Coloured
  write_both red green blue b u r small =
      let c = color-Coloured i ready ram law red green blue u r in
      let x =
        brightness-Lit i ready ram law b (uniwill_write_kbd_bl_color red green blue u).1 c.4
          small in
      (c.0, (x.0, x.1, (refl, refl, refl), x.3), (x.0, x.2.0 ∙ c.1, x.2.1 ∙ c.2, x.2.2 ∙ c.3, x.3))

  set_rgb :
      (b : ℕ) (l : Leds S)
      → IsReady i ready ram law l.uw
      → b < 8
      → is_black l ≡ false
      → (uniwill_leds_set_brightness_mc b l).1 ≡ record l {
        uw =
            (uniwill_write_kbd_bl_brightness b
              (uniwill_write_kbd_bl_color (u8 l.red) (u8 l.green) (u8 l.blue) l.uw).1).1;
        mcled_brightness = b;
      }
  unfolding uniwill_leds_set_brightness_mc Lit
  set_rgb b l r small color =
      let small' : u8 b ≡ b = omega arith in
      let c = write_both (u8 l.red) (u8 l.green) (u8 l.blue) b l.uw r small in
      ground (arith, small', c.0, c.1.0, color)

  black_lem :
      (l : Leds S)
      → 0
        < tf_convert_rgb_range (u8 l.red)
          + tf_convert_rgb_range (u8 l.green)
          + tf_convert_rgb_range (u8 l.blue)
      → is_black l ≡ false
  unfolding tf_convert_rgb_range
  black_lem l h = ground (arith, h)

  restore_rgb :
      (k : Leds S)
      → k.backlight_type ≡ one_zone_rgb
      → (uniwill_leds_restore_state_extern k).1 ≡ record k {
        uw =
            (uniwill_write_kbd_bl_brightness
              (u8 k.mcled_brightness)
              (uniwill_write_kbd_bl_color (u8 k.red) (u8 k.green) (u8 k.blue) k.uw).1).1;
      }
  unfolding uniwill_leds_restore_state_extern
  restore_rgb k h = ground (arith, h)

  -- The brightness `b` and the intensities of `l` in the registers.
  pub Shows : ℕ → Leds S → Ram → Type 0
  Shows b l f =
      (shown f ≡ b)
      × (f 0x0769 ≡ tf_convert_rgb_range (u8 l.red))
      × (f 0x076a ≡ tf_convert_rgb_range (u8 l.green))
      × (f 0x076b ≡ tf_convert_rgb_range (u8 l.blue))

  -- Whatever the EC access did before, its table is still there, and the EC is ready again.
  restored :
      (b : ℕ) (l : Leds S) (w : Uniwill S) (e : S)
      → IsReady i ready ram law w
      → l.backlight_type ≡ one_zone_rgb
      → b < 8
      → ready e
      → Shows b l (
          ram
            (uniwill_leds_restore_state_extern
              (reset e (record l { uw = w; mcled_brightness = b }))).1.uw.ec)
  unfolding Shows Lit Coloured
  restored b l w e r rgb small ok =
      let again = record w { ec = e } in
      let ready' : IsReady i ready ram law again = record {
        registered = r.registered;
        ec_ready = ok;
      } in
      let k = record l { uw = again; mcled_brightness = b } in
      let c = write_both (u8 l.red) (u8 l.green) (u8 l.blue) b again ready' small in
      let small' : u8 b ≡ b = omega arith in
      let eq =
        restore_rgb k rgb
        ∙ ap
            (λ n. record k {
              uw =
                  (uniwill_write_kbd_bl_brightness n
                    (uniwill_write_kbd_bl_color (u8 l.red) (u8 l.green) (u8 l.blue) again).1).1;
            })
            small' in
      let f = ap (λ (k : Leds S). ram k.uw.ec) eq in
      (
        ap shown f ∙ c.1.1,
        ap (λ g. g 0x0769) f ∙ c.2.1,
        ap (λ g. g 0x076a) f ∙ c.2.2,
        ap (λ g. g 0x076b) f ∙ c.2.3,
      )

  -- Over an EC RAM, a coloured backlight with an intensity that is not converted to 0 and that is set
  -- to a brightness below 8 shows the brightness in the status register and the converted intensities
  -- in those of the colours, and shows them again when the state is restored after a reset of the EC.
  pub restore_rgb_brightness :
      (b : ℕ) (l : Leds S) (e : S)
      → IsReady i ready ram law l.uw
      → l.backlight_type ≡ one_zone_rgb
      → b < 8
      → 0
        < tf_convert_rgb_range (u8 l.red)
          + tf_convert_rgb_range (u8 l.green)
          + tf_convert_rgb_range (u8 l.blue)
      → ready e
      → let set = (uniwill_leds_set_brightness_mc b l).1 in
        Shows b l (ram set.uw.ec)
        × Shows b l (ram (uniwill_leds_restore_state_extern (reset e set)).1.uw.ec)
  unfolding Lit Coloured Shows
  restore_rgb_brightness b l e r rgb small colour ok =
      let c = write_both (u8 l.red) (u8 l.green) (u8 l.blue) b l.uw r small in
      let eq = set_rgb b l r small (black_lem l colour) in
      let after = λ (k : Leds S).
        Shows b l (ram k.uw.ec)
        × Shows b l (ram (uniwill_leds_restore_state_extern (reset e k)).1.uw.ec) in
      subst after (sym eq) (
        (c.1.1, c.2.1, c.2.2, c.2.3),
        restored b l
            (uniwill_write_kbd_bl_brightness b
              (uniwill_write_kbd_bl_color (u8 l.red) (u8 l.green) (u8 l.blue) l.uw).1).1
            e c.1.3 rgb small ok,
      )
