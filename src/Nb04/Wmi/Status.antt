-- ===== src/Nb04/Wmi/Status.antt =====
-- The status of the keyboard that is read with retries.
use tuxedo_drivers.Common.{◌<◌, ◌≡◌, ◌⊎◌, arith, true, success, nonzero}
use tuxedo_drivers.Nb04.Wmi.{Evaluate, WmiDev, KeyboardStatus, wmi_update_device_status_keyboard}

module _ {S : Type 0} (evaluate : Evaluate S) where
  -- Whatever the firmware answers, an update of the keyboard's status ends with the status 0 and one
  -- of the four types, or with an error and the status that was there.
  pub status_valid :
      (kbds : KeyboardStatus) (w : WmiDev S)
      → let x = (wmi_update_device_status_keyboard evaluate kbds w).0 in
        ((x.0 ≡ success) × (x.1.keyboard_type < 4)) ⊎ ((nonzero x.0 ≡ true) × (x.1 ≡ kbds))
  unfolding wmi_update_device_status_keyboard
  status_valid kbds w = ground arith
