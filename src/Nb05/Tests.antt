-- ===== src/Nb05/Tests.antt =====
-- The theorems of the NB05 drivers at concrete states: a device that is its registers, two kinds of
-- driver data, and some runs of the drivers.
pub mod Profile
use tuxedo_drivers.Common.{◌≡◌, refl, arith, some, pos, false, true, update}
use tuxedo_drivers.Nb05.Ec.{EcData, nb05_read_ec_ram, nb05_write_ec_ram, nb05_read_ec_fw_version}
use tuxedo_drivers.Nb05.Ec.Device.{I2ec, registers, registers-IsI2ec}
use tuxedo_drivers.Nb05.Ec.Refinement.{ram_of, ram-nb05_write_ec_ram, data-nb05_read_ec_ram}
use tuxedo_drivers.Nb05.FanControl.Attributes.{
  DriverData, fan1_pwm_store, fan1_pwm_show, probe_write_rpm,
}
use tuxedo_drivers.Nb05.FanControl.Duty.{Shown, fan1_pwm_show-store}

-- The RAM holds the low byte of each address.
abbrev device : I2ec
device = record { index = 0; select = 0; high = 0; low = 0; ram = λ a. a }

abbrev zones_ec : EcData
zones_ec = record {
  ver_major = 9;
  ver_minor = 9;
  dev_data = record { number_fans = 2; fanctl_onereg = false };
}

abbrev with_zones : DriverData
with_zones = record { ec_data = zones_ec; write_rpm = true }

ram-nb05_write_ec_ram_example :
    ram_of (λ d. d) (nb05_write_ec_ram registers 0x7a1 5 device).1 ≡ update (λ a. a) 0x7a1 5
ram-nb05_write_ec_ram_example =
    ram-nb05_write_ec_ram registers (λ d. d) registers-IsI2ec 0x7a1 5 device (omega arith)

data-nb05_read_ec_ram_example :
    ((nb05_read_ec_ram registers 0x7a1 device).0 ≡ 0x7a1)
    × (ram_of (λ d. d) (nb05_read_ec_ram registers 0x7a1 device).1 ≡ (λ a. a))
data-nb05_read_ec_ram_example =
    data-nb05_read_ec_ram registers (λ d. d) registers-IsI2ec 0x7a1 device (omega arith)

fan1_pwm_show-store_example :
    ((fan1_pwm_store registers with_zones (some 100) 4 device).0 ≡ pos 4)
    × Shown 100
        (fan1_pwm_show registers with_zones
          (fan1_pwm_store registers with_zones (some 100) 4 device).1).0
fan1_pwm_show-store_example =
    fan1_pwm_show-store registers (λ d. d) registers-IsI2ec with_zones 100 4 device (omega arith)

version_test : (nb05_read_ec_fw_version registers device).0 ≡ (0x400, 0x401)
unfolding nb05_read_ec_fw_version nb05_read_ec_ram
version_test = refl

-- 10.0 is treated as a version before 9.10.
version_10_test : probe_write_rpm (record zones_ec { ver_major = 10; ver_minor = 0 }) ≡ true
unfolding probe_write_rpm
version_10_test = refl
