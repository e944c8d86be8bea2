-- ===== src/Ite/Lightbar.antt =====
-- src/ite_8291_lb/ite_8291_lb.c: the lightbar. The product of the device decides what is sent.
pub mod Resume
use tuxedo_drivers.Common.{
  ℕ, zero, suc, ◌+◌, ◌*◌, ◌/◌, ◌%◌, Bool, true, false, not, M, pure, ◌>>=◌, ◌>>◌, if◌then◌else◌,
  ◌==◌, ltb, leb, u8, ◌&&◌, ◌||◌, ℤ, negsuc, success, einval, enodev, enomem, nonzero, length, List,
  [], ◌∷◌,
}
use tuxedo_drivers.Uniwill.Dmi.{DmiField, Dmi}
use tuxedo_drivers.Uniwill.Dmi.DmiField.{board_name, product_sku}
use tuxedo_drivers.Ite.{Hid, Color, HwCall, start_hw, stop_hw}
use tuxedo_drivers.Ite.Scaling.{scale}

abbrev pub enosys : ℤ
enosys = negsuc 37

abbrev pub max_brightness : ℕ
max_brightness = 0x64

-- The LED class device's colour and brightness, the list of colours, and the state of the device.
pub record Lightbar (S : Type 0) : Type 0 where
  pub color : Color
  pub brightness : ℕ
  pub color_list : List Color
  pub hid : S

unfoldable pub color_scaling : Dmi → ℕ → Color → Color
color_scaling dmi product c =
    let sku = dmi product_sku in
    let green_blue = record c { green = scale 100 c.green; blue = scale 100 c.blue } in
    if sku "STEPOL1XA04" && product == 0x6010
    then green_blue
    else if sku "STELLARIS1XI05" && product == 0x6010
    then green_blue
    else if sku "STELLARIS17I06" && product == 0x6010
    then green_blue
    else if dmi board_name "XxAF5xxx" || dmi board_name "XxAF5xxx_mLED"
    then record c { green = scale 200 c.green }
    else c

abbrev pub set_entry : List Color → ℕ → Color → List Color
set_entry [] index c = []
set_entry (d ∷ cs) zero c = c ∷ cs
set_entry (d ∷ cs) (suc index) c = d ∷ set_entry cs index c

-- The colours of a length, all dark.
abbrev pub dark : ℕ → List Color
dark zero = []
dark (suc n) = record { red = 0; green = 0; blue = 0 } ∷ dark n

module _ {S : Type 0} (h : Hid S) where
  unfoldable pub ite8291_write_control : List ℕ → M (Lightbar S) ℤ
  ite8291_write_control ctrl_data l =
      let r = h.raw_request ctrl_data l.hid in (r.0, record l { hid = r.1 })

  unfoldable pub ite8291_set_color_list_entry : ℕ → Color → M (Lightbar S) ℤ
  ite8291_set_color_list_entry index c l =
      if leb (length l.color_list) index
      then (einval, l)
      else (success, record l { color_list = set_entry l.color_list index c })

  module _ (dmi : Dmi) (product : ℕ) where
    -- The entries from a number on.
    unfoldable pub write_entries : ℕ → ℕ → List Color → M (Lightbar S) ℤ
    write_entries bar i [] = pure success
    write_entries bar i (color ∷ colors) = do
      c ← pure (color_scaling dmi product color)
      ite8291_write_control (0x14 ∷ bar ∷ (u8 i + 1) ∷ c.red ∷ c.green ∷ c.blue ∷ 0x00 ∷ 0x00 ∷ [])
      write_entries bar (i + 1) colors

    unfoldable pub ite8291_write_color_list : M (Lightbar S) ℤ
    unfolding write_entries
    ite8291_write_color_list l =
        if product == 0x6010
        then write_entries 0x00 0 l.color_list l
        else if product == 0x7000
        then write_entries 0x01 0 l.color_list l
        else (enosys, l)

    -- A request for the mode: the code of the bar and the mode's parameters.
    abbrev pub params : ℕ → ℕ → ℕ → ℕ → ℕ → ℕ → M (Lightbar S) ℤ
    params bar mode speed brightness behaviour direction =
        ite8291_write_control
          (0x08 ∷ bar ∷ mode ∷ speed ∷ brightness ∷ behaviour ∷ direction ∷ 0x00 ∷ [])

    abbrev pub mono : ℕ → ℕ → ℕ → Color → ℕ → M (Lightbar S) ℤ
    mono bar code behaviour c brightness = do
      ite8291_write_control (0x14 ∷ bar ∷ 0x01 ∷ c.red ∷ c.green ∷ c.blue ∷ 0x00 ∷ 0x00 ∷ [])
      params code 0x01 0x01 brightness behaviour 0x00
      pure success

    unfoldable pub ite8291_write_lightbar_mono : Color → ℕ → M (Lightbar S) ℤ
    ite8291_write_lightbar_mono color brightness =
        if ltb 0x64 brightness
        then pure einval
        else (let c = color_scaling dmi product color in
            if product == 0x6010
            then mono 0x00 0x02 0x08 c brightness
            else if product == 0x7000
            then mono 0x01 0x21 0x01 c brightness
            else if product == 0x7001
            then mono 0x00 0x22 0x01 c brightness
            else pure enosys)

    -- The tests of the modes with a speed.
    abbrev pub refused : ℕ → ℕ → Bool
    refused brightness speed = ltb 0x64 brightness || ltb speed 0x01 || ltb 0x0a speed

    unfoldable pub ite8291_write_lightbar_breathe : ℕ → ℕ → M (Lightbar S) ℤ
    ite8291_write_lightbar_breathe brightness speed =
        if refused brightness speed
        then pure einval
        else if product == 0x6010
        then ite8291_write_color_list >> params 0x02 0x02 speed brightness 0x08 0x00 >> pure success
        else if product == 0x7000
        then ite8291_write_color_list >> params 0x21 0x02 speed brightness 0x08 0x00 >> pure success
        else pure enosys

    unfoldable pub ite8291_write_lightbar_wave : ℕ → ℕ → M (Lightbar S) ℤ
    ite8291_write_lightbar_wave brightness speed =
        if refused brightness speed
        then pure einval
        else if product == 0x7000
        then params 0x21 0x03 speed brightness 0x01 0x00 >> pure success
        else pure enosys

    unfoldable pub ite8291_write_lightbar_clash : ℕ → ℕ → M (Lightbar S) ℤ
    ite8291_write_lightbar_clash brightness speed =
        if refused brightness speed
        then pure einval
        else if product == 0x7000
        then ite8291_write_color_list >> params 0x21 0x04 speed brightness 0x08 0x00 >> pure success
        else pure enosys

    unfoldable pub ite8291_write_lightbar_catchup : ℕ → ℕ → M (Lightbar S) ℤ
    ite8291_write_lightbar_catchup brightness speed =
        if refused brightness speed
        then pure einval
        else if product == 0x7000
        then params 0x21 0x05 speed brightness 0x01 0x00 >> pure success
        else pure enosys

    unfoldable pub ite8291_write_lightbar_flash : ℕ → ℕ → ℕ → M (Lightbar S) ℤ
    ite8291_write_lightbar_flash brightness speed direction =
        if refused brightness speed
        then pure einval
        else if ltb 0x02 direction
        then pure einval
        else if product == 0x6010
        then ite8291_write_color_list
          >> params 0x02 0x11 speed brightness 0x08 direction
          >> pure success
        else pure enosys

    -- 1a with the bar and whether it is on.
    abbrev pub power : ℕ → ℕ → ℕ → M (Lightbar S) ℤ
    power bar on last =
        ite8291_write_control (0x1a ∷ bar ∷ on ∷ last ∷ 0x00 ∷ 0x00 ∷ 0x00 ∷ 0x01 ∷ [])

    unfoldable pub ite8291_write_on : M (Lightbar S) ℤ
    ite8291_write_on =
        if product == 0x6010
        then power 0x00 0x01 0x04 >> pure success
        else if product == 0x7000
        then power 0x01 0x01 0x04 >> pure success
        else if product == 0x7001
        then power 0x02 0x01 0x04 >> pure success
        else pure enosys

    -- The four requests at the end.
    abbrev pub switch_off : ℕ → M (Lightbar S) ℤ
    switch_off bar = do
      ite8291_write_control (0x12 ∷ 0x00 ∷ 0x03 ∷ 0x00 ∷ 0x00 ∷ 0x00 ∷ 0x00 ∷ 0x00 ∷ [])
      ite8291_write_control (0x08 ∷ 0x05 ∷ 0x00 ∷ 0x00 ∷ 0x00 ∷ 0x00 ∷ 0x00 ∷ 0x00 ∷ [])
      ite8291_write_control (0x08 ∷ 0x01 ∷ bar ∷ 0x00 ∷ 0x00 ∷ 0x00 ∷ 0x00 ∷ 0x00 ∷ [])
      power bar 0x00 0x00
      pure success

    unfoldable pub ite8291_write_off : M (Lightbar S) ℤ
    unfolding ite8291_write_lightbar_mono
    ite8291_write_off =
        if product == 0x6010
        then ite8291_write_lightbar_mono (record { red = 0; green = 0; blue = 0 }) 0
          >> switch_off 0x00
        else if product == 0x7000
        then switch_off 0x01
        else if product == 0x7001
        then switch_off 0x02
        else pure enosys

    unfoldable pub ite8291_write_state : M (Lightbar S) ℤ
    ite8291_write_state l = ite8291_write_lightbar_mono l.color (u8 l.brightness) l

    -- The LED core has set the colour and the brightness.
    unfoldable pub leds_set_brightness_mc_lightbar : M (Lightbar S) (Unit {0})
    leds_set_brightness_mc_lightbar = ite8291_write_state >> pure tt

    unfoldable pub ite8291_driver_data_setup : Bool → M (Lightbar S) ℤ
    ite8291_driver_data_setup allocated l =
        let n = if product == 0x6010 || product == 0x7000 then 7 else 0 in
        if n == 0
        then (success, l)
        else if allocated
        then (success, record l { color_list = dark n })
        else (enomem, l)

    -- `registered` is the kernel's answer.
    unfoldable pub ite8291_init_leds : ℤ → M (Lightbar S) ℤ
    ite8291_init_leds registered l = (
      registered,
      record l { color = record { red = 0xff; green = 0xff; blue = 0xff }; brightness = 0 },
    )

    unfoldable pub driver_suspend_callb : M (Lightbar S) ℤ
    driver_suspend_callb = ite8291_write_off >> pure success

    unfoldable pub driver_resume_callb : M (Lightbar S) ℤ
    driver_resume_callb = ite8291_write_on >> ite8291_write_state

    -- The part of the probe once the hardware runs; `family_17` is whether the product family is that
    -- of the model whose lightbar is used.
    unfoldable pub set_up : Bool → Bool → ℤ → M (Lightbar S) ℤ
    set_up allocated list_allocated registered = if not allocated then pure enomem else (do
      result ← ite8291_driver_data_setup list_allocated
      if nonzero result then pure result else (do
        result ← ite8291_init_leds registered
        if nonzero result
            then pure result
            else ite8291_write_on >> ite8291_write_state >> pure result))

    -- The probe over the calls for the hardware and the lightbar.
    unfoldable pub driver_probe_callb :
        Bool → ℤ → ℤ → ℤ → Bool → Bool → ℤ → M (List HwCall × Lightbar S) ℤ
    unfolding set_up
    driver_probe_callb family_17 parsed started opened allocated list_allocated registered
          (calls, l) =
        if dmi product_sku "STELLARIS1XI05" && not family_17 && product == 0x6010
        then (enodev, (calls, l))
        else if nonzero parsed
        then (parsed, ((stop_hw calls).1, l))
        else (let r = start_hw started opened calls in
            if nonzero r.0
            then (r.0, (r.1, l))
            else (let x = set_up allocated list_allocated registered l in (x.0, (r.1, x.1))))

    unfoldable pub driver_remove_callb : M (List HwCall × Lightbar S) (Unit {0})
    driver_remove_callb (calls, l) = (tt, ((stop_hw calls).1, (ite8291_write_off l).1))
