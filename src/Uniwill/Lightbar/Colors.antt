-- ===== src/Uniwill/Lightbar/Colors.antt =====
-- The colours that are set and shown.
use tuxedo_drivers.Common.{
  ℕ, ◌≤◌, ◌<◌, ◌≡◌, ◌≢◌, refl, ap, ◌∙◌, sym, subst, arith, true, false, not, leb, pure, ◌>>◌, when,
  u8, bit_and, not8, test_bits, Ram, update, ℤ, success, check_below, checked_table,
}
use tuxedo_drivers.Uniwill.Interface.{UniwillInterface, IsEcRam}
use tuxedo_drivers.Uniwill.Access.{Uniwill}
use tuxedo_drivers.Uniwill.Access.Ready.{
  IsReady, read-IsReady, write-IsReady, after_read, after_write,
}
use tuxedo_drivers.Uniwill.Fan.{write}
use tuxedo_drivers.Uniwill.Lightbar.{
  Led, led_red, led_green, led_blue, led_animation, lightbar_set_blocking, lightbar_get,
  uniwill_write_lightbar_rgb, uniwill_read_lightbar_rgb, uniwill_write_lightbar_animation,
  uniwill_read_lightbar_animation,
}

animation_table : check_below 256 (λ v. not (test_bits (u8 (bit_and v (not8 0x80))) 0x80)) ≡ true
unfolding check_below
animation_table = refl

animation_bit : (v : ℕ) → v < 256 → test_bits (u8 (bit_and v (not8 0x80))) 0x80 ≡ false
animation_bit v h = ground (arith, checked_table 256 _ v animation_table h)

-- The devices of the colours, with their registers.
pub data ColorLed : Led → ℕ → Type 0 where
  red_register : ColorLed led_red 0x0749
  green_register : ColorLed led_green 0x074a
  blue_register : ColorLed led_blue 0x074b

module _ {S : Type 0} (i : UniwillInterface S) (ready : S → Type 0) (ram : S → Ram)
    (law : IsEcRam i ready ram) (un : ℕ) where
  -- The RAM after a colour is set.
  abbrev colored : ℕ → ℕ → Ram → Ram
  colored reg b f = update (update f reg b) 0x0748 (bit_and (u8 (f 0x0748)) (not8 0x80))

  abbrev Colored : ℕ → ℕ → Uniwill S → ℤ × Uniwill S → Type 0
  Colored reg b u x =
      (x.0 ≡ success) × (ram x.1.ec ≡ colored reg b (ram u.ec)) × IsReady i ready ram law x.1

  write_lem :
      (reg b : ℕ) (u : Uniwill S)
      → IsReady i ready ram law u
      → reg < 65536
      → reg ≢ 0x0748
      → Colored reg b u
          ((write reg b >> uniwill_write_lightbar_animation un false >> pure success) u)
  unfolding uniwill_write_lightbar_animation
  write_lem reg b u r h other =
      let w = write-IsReady i ready ram law reg b u r h in
      let u1 = after_write i ready ram law reg b u in
      let x = read-IsReady i ready ram law 0x0748 un u1 w.2 (omega arith) in
      let u2 = after_read i ready ram law 0x0748 un u1 in
      let value = bit_and (u8 (ram u1.ec 0x0748)) (not8 0x80) in
      let y = write-IsReady i ready ram law 0x0748 value u2 x.2 (omega arith) in
      let kept : ram u1.ec 0x0748 ≡ ram u.ec 0x0748 =
        ap (λ (f : Ram). f 0x0748) w.1 ∙ ground (arith, other) in
      let e : (write reg b >> uniwill_write_lightbar_animation un false >> pure success) u
          ≡ (success, after_write i ready ram law 0x0748 value u2) =
        ground (arith, w.0, x.0, y.0) in
      subst (Colored reg b u) (sym e)
        (refl, y.1 ∙ (λ j. update ((x.1 ∙ w.1) j) 0x0748 (bit_and (u8 (kept j)) (not8 0x80))), y.2)

  -- A write under its test, which holds.
  tested :
      (reg b : ℕ) (u : Uniwill S)
      → b ≤ 0x24
      → (when (leb (u8 b) 0x24) (write reg (u8 b))
            >> uniwill_write_lightbar_animation un false
            >> pure success)
          u
        ≡ (write reg b >> uniwill_write_lightbar_animation un false >> pure success) u
  tested reg b u h =
      let whole : u8 b ≡ b = omega arith in
      let low : leb (u8 b) 0x24 ≡ true = ground arith in
      λ j.
        (when (low j) (write reg (whole j))
            >> uniwill_write_lightbar_animation un false
            >> pure success)
          u

  set_lem :
      (l : Led) (reg b : ℕ) (u : Uniwill S)
      → ColorLed l reg
      → IsReady i ready ram law u
      → b ≤ 0x24
      → Colored reg b u (lightbar_set_blocking un l b u)
  unfolding lightbar_set_blocking uniwill_write_lightbar_rgb
  set_lem _ _ b u red_register r h =
      subst (Colored 0x0749 b u) (sym (tested 0x0749 b u h))
        (write_lem 0x0749 b u r (omega arith) (ground arith))
  set_lem _ _ b u green_register r h =
      subst (Colored 0x074a b u) (sym (tested 0x074a b u h))
        (write_lem 0x074a b u r (omega arith) (ground arith))
  set_lem _ _ b u blue_register r h =
      subst (Colored 0x074b b u) (sym (tested 0x074b b u h))
        (write_lem 0x074b b u r (omega arith) (ground arith))

  read_rgb_lem :
      (u : Uniwill S)
      → IsReady i ready ram law u
      → (uniwill_read_lightbar_rgb un u).0
        ≡ (u8 (ram u.ec 0x0749), u8 (ram u.ec 0x074a), u8 (ram u.ec 0x074b))
  unfolding uniwill_read_lightbar_rgb
  read_rgb_lem u r =
      let x = read-IsReady i ready ram law 0x0749 un u r (omega arith) in
      let u1 = after_read i ready ram law 0x0749 un u in
      let y = read-IsReady i ready ram law 0x074a un u1 x.2 (omega arith) in
      let u2 = after_read i ready ram law 0x074a un u1 in
      let z = read-IsReady i ready ram law 0x074b un u2 y.2 (omega arith) in
      let green : u8 (ram u1.ec 0x074a) ≡ u8 (ram u.ec 0x074a) =
        ap (λ (f : Ram). u8 (f 0x074a)) x.1 in
      let blue : u8 (ram u2.ec 0x074b) ≡ u8 (ram u.ec 0x074b) =
        ap (λ (f : Ram). u8 (f 0x074b)) (y.1 ∙ x.1) in
      ground (arith, x.0, y.0, z.0, green, blue)

  get_lem :
      (l : Led) (reg : ℕ) (u : Uniwill S)
      → ColorLed l reg
      → IsReady i ready ram law u
      → (lightbar_get un l u).0 ≡ u8 (ram u.ec reg)
  unfolding lightbar_get
  get_lem _ _ u red_register r = ap (λ (c : ℕ × ℕ × ℕ). c.0) (read_rgb_lem u r)
  get_lem _ _ u green_register r = ap (λ (c : ℕ × ℕ × ℕ). c.1) (read_rgb_lem u r)
  get_lem _ _ u blue_register r = ap (λ (c : ℕ × ℕ × ℕ). c.2) (read_rgb_lem u r)

  animation_lem :
      (v : ℕ) (u : Uniwill S)
      → IsReady i ready ram law u
      → ram u.ec 0x0748 ≡ bit_and (u8 v) (not8 0x80)
      → (lightbar_get un led_animation u).0 ≡ 0
  unfolding lightbar_get uniwill_read_lightbar_animation
  animation_lem v u r e =
      let x = read-IsReady i ready ram law 0x0748 un u r (omega arith) in
      ground (arith, x.0, e, animation_bit (u8 v) (omega arith))

  held_lem :
      (l : Led) (reg b : ℕ) (f : Ram) → ColorLed l reg → b ≤ 0x24 → u8 (colored reg b f reg) ≡ b
  held_lem _ _ b f red_register h = ground arith
  held_lem _ _ b f green_register h = ground arith
  held_lem _ _ b f blue_register h = ground arith

  -- Over an EC RAM, a brightness up to 36 that is set for one of the three colours is given by the get
  -- of that colour, the animation is off, and no byte has changed but the colour's and that of the
  -- animation, so that the other two colours are as they were.
  pub lightbar_get-set :
      (l : Led) (reg brightness : ℕ) (u : Uniwill S)
      → ColorLed l reg
      → IsReady i ready ram law u
      → brightness ≤ 0x24
      → let x = lightbar_set_blocking un l brightness u in
        (x.0 ≡ success)
        × ((lightbar_get un l x.1).0 ≡ brightness)
        × ((lightbar_get un led_animation x.1).0 ≡ 0)
        × ((j : ℕ) → j ≢ reg → j ≢ 0x0748 → ram x.1.ec j ≡ ram u.ec j)
  lightbar_get-set l reg brightness u c r h =
      let x = lightbar_set_blocking un l brightness u in
      let s = set_lem l reg brightness u c r h in
      (
        s.0,
        get_lem l reg x.1 c s.2
            ∙ (ap (λ (f : Ram). u8 (f reg)) s.1 ∙ held_lem l reg brightness (ram u.ec) c h),
        animation_lem (ram u.ec 0x0748) x.1 s.2 (ap (λ (f : Ram). f 0x0748) s.1 ∙ ground arith),
        λ j p q. ap (λ (f : Ram). f j) s.1 ∙ ground (arith, p, q),
      )
