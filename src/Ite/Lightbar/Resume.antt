-- ===== src/Ite/Lightbar/Resume.antt =====
-- What the lightbar shows after suspend and after resume.
use tuxedo_drivers.Common.{
  ℕ, ◌≤◌, ◌≡◌, refl, ap, ◌∙◌, sym, subst, arith, Bool, true, false, if◌then◌else◌, ltb, u8, ℤ,
  success, [], ◌∷◌, M, pure, einval,
}
use tuxedo_drivers.Uniwill.Dmi.{Dmi}
use tuxedo_drivers.Ite.{Hid, Color}
use tuxedo_drivers.Ite.Lightbar.{
  Lightbar, mono, power, color_scaling, ite8291_write_control, ite8291_write_lightbar_mono,
  ite8291_write_on, ite8291_write_off, ite8291_write_state, driver_suspend_callb,
  driver_resume_callb,
}

-- What the lightbar shows.
pub record Shown : Type 0 where
  pub on : Bool
  pub level : ℕ
  pub shown_color : Color

-- What is relied on of a lightbar by the code of its colours, of its power, of its parameters and
-- their last byte.
pub record IsLightbar {S : Type 0} (h : Hid S) (view : S → Shown) (colors bar code behaviour : ℕ)
    : Type 0 where
  pub takes_color :
      (c : Color) (s : S)
      → view
          (h.raw_request (0x14 ∷ colors ∷ 0x01 ∷ c.red ∷ c.green ∷ c.blue ∷ 0x00 ∷ 0x00 ∷ []) s).1
        ≡ record (view s) { shown_color = c }
  pub takes_level :
      (b : ℕ) (s : S)
      → view (h.raw_request (0x08 ∷ code ∷ 0x01 ∷ 0x01 ∷ b ∷ behaviour ∷ 0x00 ∷ 0x00 ∷ []) s).1
        ≡ record (view s) { level = b }
  pub takes_on :
      (s : S)
      → view (h.raw_request (0x1a ∷ bar ∷ 0x01 ∷ 0x04 ∷ 0x00 ∷ 0x00 ∷ 0x00 ∷ 0x01 ∷ []) s).1
        ≡ record (view s) { on = true }
  pub takes_off :
      (s : S)
      → view (h.raw_request (0x1a ∷ bar ∷ 0x00 ∷ 0x00 ∷ 0x00 ∷ 0x00 ∷ 0x00 ∷ 0x01 ∷ []) s).1
        ≡ record (view s) { on = false }

-- The three products and their codes.
pub data Product : ℕ → ℕ → ℕ → ℕ → ℕ → Type 0 where
  p6010 : Product 0x6010 0x00 0x00 0x02 0x08
  p7000 : Product 0x7000 0x01 0x01 0x21 0x01
  p7001 : Product 0x7001 0x00 0x02 0x22 0x01

module _ {S : Type 0} (h : Hid S) (view : S → Shown) (dmi : Dmi) where
  -- What follows the power on.
  abbrev state_from : (product colors code behaviour : ℕ) → Lightbar S → M (Lightbar S) ℤ
  state_from product colors code behaviour l =
      if ltb 0x64 (u8 l.brightness)
      then pure einval
      else mono h dmi product colors code behaviour (color_scaling dmi product l.color)
          (u8 l.brightness)

  resumed :
      (product colors bar code behaviour : ℕ) (l : Lightbar S)
      → IsLightbar h view colors bar code behaviour
      → l.brightness ≤ 0x64
      → let y =
          state_from product colors code behaviour l (power h dmi product bar 0x01 0x04 l).1 in
        (y.0 ≡ success)
        × (view y.1.hid ≡ record {
          on = true;
          level = l.brightness;
          shown_color = color_scaling dmi product l.color;
        })
  unfolding ite8291_write_control
  resumed product colors bar code behaviour l law small =
      let c = color_scaling dmi product l.color in
      let shown : Shown = record { on = true; level = l.brightness; shown_color = c } in
      let fits : ltb 0x64 (u8 l.brightness) ≡ false = ground arith in
      let whole : u8 l.brightness ≡ l.brightness = omega arith in
      let l1 = (power h dmi product bar 0x01 0x04 l).1 in
      subst
        (λ t.
          let y =
            (if t
                then pure einval
                else mono h dmi product colors code behaviour c (u8 l.brightness))
              l1 in
          (y.0 ≡ success) × (view y.1.hid ≡ shown))
        (sym fits)
        (
          refl,
          law.takes_level (u8 l.brightness) _
              ∙ (ap (λ (v : Shown). record v { level = u8 l.brightness })
                    (law.takes_color c _
                      ∙ ap (λ (v : Shown). record v { shown_color = c }) (law.takes_on l.hid))
                  ∙ ap (λ b. record shown { level = b }) whole),
        )

  -- Whatever the device shows before, after a suspend the lightbar is off, and after a resume it is
  -- on and shows the brightness, up to 100, and the scaled colour of the LED class device.
  pub resume_shows :
      (product colors bar code behaviour : ℕ) (l : Lightbar S)
      → Product product colors bar code behaviour
      → IsLightbar h view colors bar code behaviour
      → l.brightness ≤ 0x64
      → let x = driver_suspend_callb h dmi product l in
        let y = driver_resume_callb h dmi product l in
        (x.0 ≡ success)
        × ((view x.1.hid).on ≡ false)
        × (y.0 ≡ success)
        × (view y.1.hid ≡ record {
          on = true;
          level = l.brightness;
          shown_color = color_scaling dmi product l.color;
        })
  unfolding driver_suspend_callb driver_resume_callb ite8291_write_on ite8291_write_off
      ite8291_write_state ite8291_write_lightbar_mono ite8291_write_control
  resume_shows _ _ _ _ _ l p6010 law small =
      let r = resumed 0x6010 0x00 0x00 0x02 0x08 l law small in
      (refl, ap (λ (v : Shown). v.on) (law.takes_off _), r.0, r.1)
  resume_shows _ _ _ _ _ l p7000 law small =
      let r = resumed 0x7000 0x01 0x01 0x21 0x01 l law small in
      (refl, ap (λ (v : Shown). v.on) (law.takes_off _), r.0, r.1)
  resume_shows _ _ _ _ _ l p7001 law small =
      let r = resumed 0x7001 0x00 0x02 0x22 0x01 l law small in
      (refl, ap (λ (v : Shown). v.on) (law.takes_off _), r.0, r.1)
