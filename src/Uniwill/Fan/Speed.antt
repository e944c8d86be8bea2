-- ===== src/Uniwill/Fan/Speed.antt =====
-- src/uniwill_keyboard.h: the speeds that go into the fan tables.
use tuxedo_drivers.Common.{ℕ, ◌≤◌, ◌≡◌, ◌⊎◌, arith, ◌<◌}
use tuxedo_drivers.Uniwill.Fan.{allowed_speed, nb02_fan_speed_max}

-- A speed up to 200 goes into the fan tables as 1, which is off, or as a value of 50 to 200, the
-- range in which the fan turns; it is below 50 or goes in as it is; and a lower speed does not go
-- in as a higher value.
pub allowed_speed_range :
    (lower speed : ℕ)
    → lower ≤ speed
    → speed ≤ nb02_fan_speed_max
    → ((allowed_speed speed ≡ 1) ⊎ ((50 ≤ allowed_speed speed) × (allowed_speed speed ≤ 200)))
      × ((speed < 50) ⊎ (allowed_speed speed ≡ speed))
      × (allowed_speed lower ≤ allowed_speed speed)
unfolding allowed_speed
allowed_speed_range lower speed l h = (ground arith, ground arith, ground arith)
