-- ===== src/Nb04/Tests.antt =====
-- The theorems of the NB04 drivers at concrete firmwares.
use tuxedo_drivers.Common.{ℕ, true, false, if◌then◌else◌, some, zeros, ◌+◌, ltb, ◌∷◌}
use tuxedo_drivers.Clevo.{buffer}
use tuxedo_drivers.Nb04.Wmi.{Evaluate, WmiDev, KeyboardStatus}

-- A firmware that counts its calls and answers with the keyboard type 9 at first.
abbrev late_type : Evaluate ℕ
late_type method input calls =
    (some (some (buffer (0 ∷ 0 ∷ 1 ∷ (if ltb calls 1 then 9 else 2) ∷ zeros 76))), calls + 1)

abbrev bound : WmiDev ℕ
bound = record { wmi_dev = true; firmware = 0 }

abbrev unknown_status : KeyboardStatus
unknown_status = record {
  keyboard_state_enabled = false;
  keyboard_type = 0;
  keyboard_sidebar_support = false;
  keyboard_matrix = 0;
}
