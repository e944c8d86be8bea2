-- ===== src/Uniwill/Leds/Registers.antt =====
-- The writes of brightness and colour over an EC RAM.
use tuxedo_drivers.Common.{
  when, not, ◌&&◌, ℕ, ◌<◌, ◌≡◌, refl, ap, ◌∙◌, subst, sym, arith, Bool, true, false, ◌==◌, bit_and,
  bit_or, u8, ◌>>>◌, Ram, update, ℤ, success, check_below, checked_table,
}
use tuxedo_drivers.Uniwill.Interface.{UniwillInterface, IsEcRam}
use tuxedo_drivers.Uniwill.Access.{Uniwill, uniwill_write_ec_ram}
use tuxedo_drivers.Uniwill.Access.Ready.{
  IsReady, read-IsReady, write-IsReady, after_read, after_write,
}
use tuxedo_drivers.Uniwill.Leds.{
  brightness_byte, tf_convert_rgb_range, uniwill_write_kbd_bl_brightness,
  uniwill_write_kbd_bl_brightness_white_workaround, uniwill_write_kbd_bl_color,
}

-- The brightness that the status register shows.
abbrev pub shown : Ram → ℕ
shown f = bit_and (u8 (f 0x078c) >>> 5) 0x07

-- The same three colour bytes.
abbrev pub Colours : Ram → Ram → Type 0
Colours f g = (g 0x0769 ≡ f 0x0769) × (g 0x076a ≡ f 0x076a) × (g 0x076b ≡ f 0x076b)

brightness_table :
    check_below 256 (λ d. check_below 8 (λ b. bit_and (u8 (brightness_byte b d) >>> 5) 0x07 == b))
    ≡ true
unfolding check_below
brightness_table = refl

brightness_bits : (d b : ℕ) → d < 256 → b < 8 → bit_and (u8 (brightness_byte b d) >>> 5) 0x07 ≡ b
brightness_bits d b h l =
    let t =
      checked_table 8 (λ b. bit_and (u8 (brightness_byte b d) >>> 5) 0x07 == b) b
        (checked_table 256 _ d brightness_table h) l in
    ground (arith, t)

module _ {S : Type 0} (i : UniwillInterface S) (ready : S → Type 0) (ram : S → Ram)
    (law : IsEcRam i ready ram) where
  -- Success, the brightness `b` in the status register, and the colours of `f`.
  unfoldable pub Lit : ℕ → Ram → ℤ × Uniwill S → Type 0
  Lit b f x =
      (x.0 ≡ success)
      × (shown (ram x.1.ec) ≡ b)
      × Colours f (ram x.1.ec)
      × IsReady i ready ram law x.1

  pub brightness-Lit :
      (b : ℕ) (u : Uniwill S)
      → IsReady i ready ram law u
      → b < 8
      → Lit b (ram u.ec) (uniwill_write_kbd_bl_brightness b u)
  unfolding Lit uniwill_write_kbd_bl_brightness
  brightness-Lit b u r small =
      let d = u8 (ram u.ec 0x078c) in
      let x = read-IsReady i ready ram law 0x078c 0 u r (omega arith) in
      let v = after_read i ready ram law 0x078c 0 u in
      let w = write-IsReady i ready ram law 0x078c (brightness_byte b d) v x.2 (omega arith) in
      let z = after_write i ready ram law 0x078c (brightness_byte b d) v in
      let e : uniwill_write_kbd_bl_brightness b u ≡ (success, z) = ground (arith, x.0, w.0) in
      let at =
        λ (a : ℕ). ap (λ f. f a) (w.1 ∙ ap (λ f. update f 0x078c (brightness_byte b d)) x.1) in
      subst (Lit b (ram u.ec)) (sym e) (
        refl,
        ap (λ n. bit_and (u8 n >>> 5) 0x07) (at 0x078c) ∙ brightness_bits d b (omega arith) small,
        (at 0x0769, at 0x076a, at 0x076b),
        w.2,
      )

  -- The immediate brightness of the workaround.
  immediate :
      (t : Bool) (u : Uniwill S)
      → IsReady i ready ram law u
      → let v = (when t (λ u. (tt, (uniwill_write_ec_ram 0x1808 0x01 u).1)) u).1 in
        Colours (ram u.ec) (ram v.ec) × IsReady i ready ram law v
  immediate true u r =
      let w = write-IsReady i ready ram law 0x1808 0x01 u r (omega arith) in
      let at = λ (a : ℕ). ap (λ f. f a) w.1 in
      subst (λ x. Colours (ram u.ec) (ram x.1.ec) × IsReady i ready ram law x.1) (sym w.0)
        ((at 0x0769, at 0x076a, at 0x076b), w.2)
  immediate false u r = ((refl, refl, refl), r)

  pub workaround-Lit :
      (b : ℕ) (u : Uniwill S)
      → IsReady i ready ram law u
      → b < 8
      → Lit b (ram u.ec) (uniwill_write_kbd_bl_brightness_white_workaround b u)
  unfolding Lit uniwill_write_kbd_bl_brightness_white_workaround
  workaround-Lit b u r small =
      let x = read-IsReady i ready ram law 0x1808 0 u r (omega arith) in
      let v = after_read i ready ram law 0x1808 0 u in
      let t = u8 (ram u.ec 0x1808) == 0 && not (b == 0) in
      let m = immediate t v x.2 in
      let w = (when t (λ u. (tt, (uniwill_write_ec_ram 0x1808 0x01 u).1)) v).1 in
      let l = brightness-Lit b w m.1 small in
      let same = λ (a : ℕ). ap (λ f. f a) x.1 in
      let e : uniwill_write_kbd_bl_brightness_white_workaround b u
          ≡ uniwill_write_kbd_bl_brightness b w =
        ap
          (λ y. uniwill_write_kbd_bl_brightness b (
            (when (y.0.byte == 0 && not (b == 0))
              (λ u. (tt, (uniwill_write_ec_ram 0x1808 0x01 u).1)) y.1).1))
          x.0 in
      subst (Lit b (ram u.ec)) (sym e) (
        l.0,
        l.1,
        (
          l.2.0 ∙ (m.0.0 ∙ same 0x0769),
          l.2.1 ∙ (m.0.1 ∙ same 0x076a),
          l.2.2 ∙ (m.0.2 ∙ same 0x076b),
        ),
        l.3,
      )

  -- Success, and the three converted colours.
  unfoldable pub Coloured : ℕ → ℕ → ℕ → ℤ × Uniwill S → Type 0
  Coloured red green blue x =
      (x.0 ≡ success)
      × (ram x.1.ec 0x0769 ≡ tf_convert_rgb_range red)
      × (ram x.1.ec 0x076a ≡ tf_convert_rgb_range green)
      × (ram x.1.ec 0x076b ≡ tf_convert_rgb_range blue)
      × IsReady i ready ram law x.1

  pub color-Coloured :
      (red green blue : ℕ) (u : Uniwill S)
      → IsReady i ready ram law u
      → Coloured red green blue (uniwill_write_kbd_bl_color red green blue u)
  unfolding Coloured uniwill_write_kbd_bl_color
  color-Coloured red green blue u r =
      let a = write-IsReady i ready ram law 0x0769 (tf_convert_rgb_range red) u r (omega arith) in
      let ua = after_write i ready ram law 0x0769 (tf_convert_rgb_range red) u in
      let b =
        write-IsReady i ready ram law 0x076a (tf_convert_rgb_range green) ua a.2 (omega arith) in
      let ub = after_write i ready ram law 0x076a (tf_convert_rgb_range green) ua in
      let c =
        write-IsReady i ready ram law 0x076b (tf_convert_rgb_range blue) ub b.2 (omega arith) in
      let uc = after_write i ready ram law 0x076b (tf_convert_rgb_range blue) ub in
      let x = read-IsReady i ready ram law 0x0767 0 uc c.2 (omega arith) in
      let ux = after_read i ready ram law 0x0767 0 uc in
      let d = bit_or (u8 (ram uc.ec 0x0767)) 0x20 in
      let w = write-IsReady i ready ram law 0x0767 d ux x.2 (omega arith) in
      let z = after_write i ready ram law 0x0767 d ux in
      let e : uniwill_write_kbd_bl_color red green blue u ≡ (success, z) =
        ground (arith, a.0, b.0, c.0, x.0, w.0) in
      let same = λ (n : ℕ). ap (λ f. f n) (w.1 ∙ ap (λ f. update f 0x0767 d) x.1) in
      subst (Coloured red green blue) (sym e) (
        refl,
        same 0x0769 ∙ (ap (λ f. f 0x0769) c.1 ∙ (ap (λ f. f 0x0769) b.1 ∙ ap (λ f. f 0x0769) a.1)),
        same 0x076a ∙ (ap (λ f. f 0x076a) c.1 ∙ ap (λ f. f 0x076a) b.1),
        same 0x076b ∙ ap (λ f. f 0x076b) c.1,
        w.2,
      )
