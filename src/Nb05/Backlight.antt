-- ===== src/Nb05/Backlight.antt =====
-- src/tuxedo_nb05/tuxedo_nb05_kbd_backlight.c: the white keyboard backlight. `is_iflx14i01` is whether
-- the matched DMI entry is that of the IFLX14I01.
use tuxedo_drivers.Common.{
  ℕ, ◌<◌, ◌≡◌, refl, arith, Bool, true, false, not, if◌then◌else◌, ltb, ℤ, success, negsuc, nonzero,
  List, [], ◌∷◌, M, Ram, update,
}
use tuxedo_drivers.Uniwill.Touchpad.{byte_at}
use tuxedo_drivers.Nb05.Ec.{Ports, nb05_write_ec_ram}
use tuxedo_drivers.Nb05.Ec.Device.{I2ec, IsI2ec}
use tuxedo_drivers.Nb05.Ec.Refinement.{ram_of, ram-nb05_write_ec_ram}

abbrev pub white_brightness_to_level_map : List ℕ
white_brightness_to_level_map = 0x00 ∷ 0x5c ∷ 0xb8 ∷ []

-- The LED class device, whether `__nb05_kbd_led_cdev` points to it, and the brightness values that
-- were reported, the latest first.
pub record KbdBacklight : Type 0 where
  pub registered : Bool
  pub brightness : ℕ
  pub notified : List ℕ

abbrev pub register_of : Bool → ℕ
register_of is_iflx14i01 = if is_iflx14i01 then 0x03e2 else 0x0409

unfoldable pub nb05_leds_notify_brightness_change_extern : ℕ → KbdBacklight → KbdBacklight
nb05_leds_notify_brightness_change_extern step k =
    if ltb 2 step
    then k
    else if k.registered
    then record k { brightness = step; notified = step ∷ k.notified }
    else k

-- `answer` is what the kernel answers to the registration.
unfoldable pub init_leds : ℤ → M KbdBacklight ℤ
init_leds answer k =
    let unset = record k { brightness = 0x00 } in
    if nonzero answer then (answer, unset) else (success, record unset { registered = true })

-- `un` is `result` before it is written, and `allocated` whether there is memory.
unfoldable pub tuxedo_nb05_kbd_backlight_probe : ℤ → Bool → ℤ → M KbdBacklight ℤ
unfolding init_leds
tuxedo_nb05_kbd_backlight_probe un allocated answer k =
    if not allocated then (negsuc 11, k) else if nonzero un then (un, k) else init_leds answer k

unfoldable pub tuxedo_nb05_kbd_backlight_remove : KbdBacklight → KbdBacklight
tuxedo_nb05_kbd_backlight_remove k = record k { registered = false }

module _ {S : Type 0} (p : Ports S) where
  unfoldable pub nb05_leds_set_brightness : Bool → ℕ → M S (Unit {0})
  nb05_leds_set_brightness is_iflx14i01 brightness s = if ltb 2 brightness then (tt, s) else (
    tt,
    (nb05_write_ec_ram p (register_of is_iflx14i01)
        (byte_at white_brightness_to_level_map brightness) s).1,
  )

  abbrev the_state : Unit {0} × S → S
  the_state r = r.1

  module _ (view : S → I2ec) (dev : IsI2ec p view) where
    chosen :
        (t : Bool) (s d : S) (ram : Ram)
        → ram_of view d ≡ ram
        → ram_of view (the_state (if t then (tt, s) else (tt, d)))
          ≡ (if t then ram_of view s else ram)
    chosen true s d ram h = refl
    chosen false s d ram h = h

    -- Over an I2EC device, a brightness up to 2 puts its level into the register of the device and
    -- changes no other byte, and a brightness above 2 changes none.
    pub nb05_leds_set_brightness_sets :
        (is_iflx14i01 : Bool) (brightness : ℕ) (s : S)
        → ram_of view (nb05_leds_set_brightness is_iflx14i01 brightness s).1 ≡ (
            if ltb 2 brightness
            then ram_of view s
            else update
                (ram_of view s)
                (register_of is_iflx14i01)
                (byte_at white_brightness_to_level_map brightness))
    unfolding nb05_leds_set_brightness
    nb05_leds_set_brightness_sets is_iflx14i01 brightness s =
        let level = byte_at white_brightness_to_level_map brightness in
        let small : register_of is_iflx14i01 < 65536 = ground arith in
        let written = ram-nb05_write_ec_ram p view dev (register_of is_iflx14i01) level s small in
        chosen (ltb 2 brightness) s (nb05_write_ec_ram p (register_of is_iflx14i01) level s).1
          (update (ram_of view s) (register_of is_iflx14i01) level) written
