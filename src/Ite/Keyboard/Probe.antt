-- ===== src/Ite/Keyboard/Probe.antt =====
-- src/ite_8291/ite_8291.c: the start and the removal of the keyboard's driver. `answers` has what the
-- kernel answers to the registration of each LED class device.
use tuxedo_drivers.Common.{
  ℕ, zero, suc, ◌+◌, ◌/◌, ◌%◌, ◌<◌, ◌≡◌, ◌⊎◌, arith, Bool, true, false, not, M, pure, ◌>>=◌, ◌>>◌,
  if◌then◌else◌, ◌==◌, ◌&&◌, ltb, ℤ, success, enodev, enomem, nonzero, List, [], ◌∷◌,
}
use tuxedo_drivers.Uniwill.Dmi.{Dmi}
use tuxedo_drivers.Uniwill.Dmi.DmiField.{product_sku}
use tuxedo_drivers.Ite.{Hid, Color, Device, HwCall, start_hw, stop_hw}
use tuxedo_drivers.Ite.Keyboard.{
  RowData, Driver, row_data_set, has_zones, device_write_on, device_write_off, device_write_state,
}

-- The driver, the calls for the hardware, the LED class devices that are registered, by their
-- channels, and whether the attribute group is there.
pub record Bound (S : Type 0) : Type 0 where
  pub driver : Driver S
  pub calls : List HwCall
  pub registered : ℕ → Bool
  pub group : Bool

abbrev pub mark : ℕ → Bool → (ℕ → Bool) → ℕ → Bool
mark channel b registered i = if i == channel then b else registered i

abbrev pub white : Color
white = record { red = 0xff; green = 0xff; blue = 0xff }

-- The loops over rows and columns as one over the channels. A failure unregisters the device that
-- failed, and no other.
unfoldable pub register_leds : (ℕ → ℤ) → ℕ → ℕ → (ℕ → Bool) → ℤ × (ℕ → Bool)
register_leds answers zero channel registered = (success, registered)
register_leds answers (suc rounds) channel registered =
    let rest = register_leds answers rounds (channel + 1) (mark channel true registered) in
    if nonzero (answers channel) then (answers channel, mark channel false registered) else rest

-- `for (k = 0; k < i; ++k)` of the zones, and all the keys of `unregister_leds`.
unfoldable pub unregister_below : ℕ → (ℕ → Bool) → ℕ → Bool
unregister_below n registered i = if ltb i n then false else registered i

-- The loop over the zones.
unfoldable pub register_zones : (ℕ → ℤ) → ℕ → ℕ → (ℕ → Bool) → ℤ × (ℕ → Bool)
register_zones answers zero zone registered = (success, registered)
register_zones answers (suc rounds) zone registered =
    let rest = register_zones answers rounds (zone + 1) (mark zone true registered) in
    if nonzero (answers zone) then (answers zone, unregister_below zone registered) else rest

-- Every key white, from a channel on.
unfoldable pub fill_rows : Dmi → Device → ℕ → ℕ → RowData → RowData
fill_rows dmi dev zero channel d = d
fill_rows dmi dev (suc rounds) channel d =
    fill_rows dmi dev rounds (channel + 1)
      (row_data_set dmi dev d (channel / 21) (channel % 21) white).1

module _ {S : Type 0} where
  unfoldable pub ite8291_perkey_add : Dmi → Device → Bool → (ℕ → ℤ) → M (Bound S) ℤ
  unfolding register_leds fill_rows
  ite8291_perkey_add dmi dev allocated answers b =
      if not allocated
      then (enomem, b)
      else (let r = register_leds answers 126 0 b.registered in
          (
            r.0,
            record b {
              driver = record (b.driver) {
                perkey = record {
                  row_data = fill_rows dmi dev 126 0 (λ row index. 0);
                  brightness = 0;
                  leds_brightness = 0;
                };
              };
              registered = r.1;
            },
          ))

  unfoldable pub ite8291_zones_add : Bool → (ℕ → ℤ) → M (Bound S) ℤ
  unfolding register_zones
  ite8291_zones_add allocated answers b =
      if not allocated
      then (enomem, b)
      else (let r = register_zones answers 4 0 b.registered in
          (
            r.0,
            record b {
              driver = record (b.driver) {
                zones = record {
                  colors = white ∷ white ∷ white ∷ white ∷ [];
                  zones_brightness = 0;
                  zones_leds_brightness = 0;
                };
              };
              registered = r.1;
            },
          ))

  abbrev pub by_driver : {A : Type 0} → M (Driver S) A → M (Bound S) A
  by_driver m b = let r = m b.driver in (r.0, record b { driver = r.1 })

  abbrev pub by_calls : {A : Type 0} → M (List HwCall) A → M (Bound S) A
  by_calls m b = let r = m b.calls in (r.0, record b { calls = r.1 })

  module _ (h : Hid S) (dmi : Dmi) (dev : Device) where
    -- `parsed`, `started` and `opened` are the answers of the HID functions, and `created` that of
    -- `sysfs_create_group`. The driver data is zero at first.
    unfoldable pub driver_probe_callb : ℤ → ℤ → ℤ → Bool → Bool → (ℕ → ℤ) → ℤ → M (Bound S) ℤ
    driver_probe_callb parsed started opened allocated data_allocated answers created =
        if dmi product_sku "STELLARIS1XI05" && dev.product == 0x5000
        then pure enodev
        else if nonzero parsed
        then by_calls stop_hw >> pure parsed
        else (do
          result ← by_calls (start_hw started opened)
          if nonzero result then pure result else if not allocated then pure enomem else (do
            result ←
                if has_zones dev
                then ite8291_zones_add data_allocated answers
                else ite8291_perkey_add dmi dev data_allocated answers
            if nonzero result then pure result else (do
              by_driver (device_write_on h dmi dev)
              by_driver (device_write_state h dmi dev)
              if has_zones dev
                  then pure success
                  else if nonzero created
                  then by_calls stop_hw >> pure created
                  else (λ b. (success, record b { group = true })))))

    unfoldable pub driver_remove_callb : M (Bound S) (Unit {0})
    unfolding unregister_below
    driver_remove_callb = do
      by_driver (device_write_off h dmi dev)
      (λ b. (
        tt,
        record b { registered = unregister_below (if has_zones dev then 4 else 126) b.registered },
      ))
      (λ b. (tt, if has_zones dev then b else record b { group = false }))
      by_calls stop_hw

abbrev pub none_registered : ℕ → Bool
none_registered channel = false

-- A start of the four zones registers them all, or fails and leaves none registered, whatever the
-- kernel answers.
pub zones_registered :
    (answers : ℕ → ℤ) (zone : ℕ)
    → zone < 4
    → let r = register_zones answers 4 0 none_registered in
      ((r.0 ≡ success) × (r.1 zone ≡ true)) ⊎ ((nonzero r.0 ≡ true) × (r.1 zone ≡ false))
unfolding register_zones unregister_below
zones_registered answers zone h = ground arith
