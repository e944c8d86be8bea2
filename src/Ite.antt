-- ===== src/Ite.antt =====
-- The ITE controllers behind USB: what the drivers in src/ite_8291/ and src/ite_8291_lb/ share. An
-- object `Hid` stands for the device with the kernel's HID functions.
pub mod Scaling
pub mod Keyboard
pub mod Lightbar
pub mod Ite829x
pub mod Ite8297
pub mod Tests
use tuxedo_drivers.Common.{
  ℕ, zero, suc, ◌*◌, ◌/◌, ◌%◌, Bool, true, false, M, if◌then◌else◌, ℤ, pos, negsuc, success,
  nonzero, List, [], ◌∷◌,
}

-- `hid_hw_raw_request` with 8 bytes as a feature report, and `output_report` of the low level driver.
pub record Hid (S : Type 0) : Type 0 where
  pub raw_request : List ℕ → M S ℤ
  pub output_report : List ℕ → M S ℤ

-- Red, green and blue.
pub record Color : Type 0 where
  pub red : ℕ
  pub green : ℕ
  pub blue : ℕ

-- The identity of a device: its product and the version in its descriptor.
pub record Device : Type 0 where
  pub product : ℕ
  pub bcd_device : ℕ

-- The calls of the HID functions that start and stop the hardware, the latest first.
pub data HwCall : Type 0 where
  hw_start power_full hw_open power_normal hw_close hw_stop : HwCall

unfoldable pub stop_hw : M (List HwCall) (Unit {0})
stop_hw calls = (tt, hw_stop ∷ hw_close ∷ power_normal ∷ calls)

-- `started` and `opened` are the answers of `hid_hw_start` and `hid_hw_open`.
unfoldable pub start_hw : ℤ → ℤ → M (List HwCall) ℤ
unfolding stop_hw
start_hw started opened calls =
    if nonzero started
    then (started, (stop_hw (hw_start ∷ calls)).1)
    else (let calls2 = hw_open ∷ power_full ∷ hw_start ∷ calls in
        if nonzero opened then (opened, (stop_hw calls2).1) else (success, calls2))

abbrev pub is_negative : ℤ → Bool
is_negative (pos n) = false
is_negative (negsuc n) = true
