-- ===== src/Ite/Ite8297.antt =====
-- src/ite_8297/ite_8297.c: a lightbar whose three colours are LED class devices of their own. The
-- name of a device tells which one it is.
use tuxedo_drivers.Common.{
  ℕ, Bool, true, false, not, M, if◌then◌else◌, u8, ℤ, success, enomem, nonzero, zeros, List, ◌∷◌,
}
use tuxedo_drivers.Ite.{Hid, Color, is_negative, HwCall, start_hw, stop_hw}

pub data Led : Type 0 where
  cdev_red cdev_green cdev_blue other_led : Led

-- The driver data, the state of the device and whether the LED class devices are registered.
pub record Driver (S : Type 0) : Type 0 where
  pub current_color : Color
  pub registered : Bool
  pub hid : S

abbrev pub with_color : Led → ℕ → Color → Color
with_color cdev_red b c = record c { red = b }
with_color cdev_green b c = record c { green = b }
with_color cdev_blue b c = record c { blue = b }
with_color other_led b c = c

module _ {S : Type 0} (h : Hid S) where
  unfoldable pub ite8297_write_color : Color → M (Driver S) ℤ
  ite8297_write_color c d =
      let r =
        h.raw_request (0xcc ∷ 0xb0 ∷ 0x01 ∷ 0x01 ∷ c.red ∷ c.green ∷ c.blue ∷ zeros 57) d.hid in
      (r.0, record d { hid = r.1 })

  unfoldable pub ite8297_write_state : M (Driver S) ℤ
  ite8297_write_state d = ite8297_write_color d.current_color d

  -- `led` is the device by its name.
  unfoldable pub lightbar_set_blocking : Led → ℕ → M (Driver S) ℤ
  lightbar_set_blocking led brightness d = (
    success,
    (ite8297_write_state
        (record d { current_color = with_color led (u8 brightness) d.current_color })).1,
  )

  unfoldable pub lightbar_get : Led → Driver S → ℕ
  lightbar_get cdev_red d = d.current_color.red
  lightbar_get cdev_green d = d.current_color.green
  lightbar_get cdev_blue d = d.current_color.blue
  lightbar_get other_led d = 0

  -- `parsed`, `started` and `opened` are the answers of the HID functions.
  unfoldable pub driver_probe_callb : ℤ → ℤ → ℤ → Bool → M (List HwCall × Driver S) ℤ
  driver_probe_callb parsed started opened allocated (calls, d) =
      if nonzero parsed
      then (parsed, ((stop_hw calls).1, d))
      else (let r = start_hw started opened calls in
          if nonzero r.0
          then (r.0, (r.1, d))
          else if not allocated
          then (enomem, (r.1, d))
          else (let w = ite8297_write_state (record d {
            current_color = record { red = 0; green = 0; blue = 0 };
            registered = true;
          }) in
              (if is_negative w.0 then w.0 else success, (r.1, w.1))))

  unfoldable pub driver_remove_callb : M (List HwCall × Driver S) (Unit {0})
  driver_remove_callb (calls, d) = (tt, ((stop_hw calls).1, record d { registered = false }))

  unfoldable pub driver_resume_callb : M (Driver S) ℤ
  driver_resume_callb = ite8297_write_state
