-- ===== src/Clevo/Flexicharger/Cc4.antt =====
-- The newer kind of firmware keeps what the driver's users rely on.
use tuxedo_drivers.Common.{Bool, ℤ, success, Option, none, some, if◌then◌else◌, enodev}
use tuxedo_drivers.Clevo.{Clevo}
use tuxedo_drivers.Clevo.Flexicharger.{Thresholds}

outcome : Thresholds → Bool → ℤ × Option Thresholds
outcome t b = if b then (enodev, none) else (success, some t)
