-- ===== src/Nb05/Ec.antt =====
-- src/tuxedo_nb05/tuxedo_nb05_ec.c: access to the EC's RAM through the I2EC registers behind the
-- I/O ports 0x4e and 0x4f. `outb` and `inb` are the kernel's, and a parameter. The mutex has no
-- counterpart: a call runs from its lock to its unlock in one piece.
pub mod Device
pub mod Refinement
use tuxedo_drivers.Common.{ℕ, Bool, true, false, M, pure, ◌>>=◌, ◌>>◌, bit_and, ◌>>>◌, ℤ, success}

pub record Ports (S : Type 0) : Type 0 where
  -- `outb value port`
  pub outb : ℕ → ℕ → M S (Unit {0})
  pub inb : ℕ → M S ℕ

abbrev pub ec_port_addr : ℕ
ec_port_addr = 0x4e

abbrev pub ec_port_data : ℕ
ec_port_data = 0x4f

abbrev pub i2ec_reg_addr : ℕ
i2ec_reg_addr = 0x2e

abbrev pub i2ec_reg_data : ℕ
i2ec_reg_data = 0x2f

abbrev pub i2ec_addr_low : ℕ
i2ec_addr_low = 0x10

abbrev pub i2ec_addr_high : ℕ
i2ec_addr_high = 0x11

abbrev pub i2ec_addr_data : ℕ
i2ec_addr_data = 0x12

module _ {S : Type 0} (p : Ports S) where
  unfoldable pub io_write : ℕ → ℕ → M S (Unit {0})
  io_write reg byte = do p.outb reg ec_port_addr; p.outb byte ec_port_data

  unfoldable pub io_read : ℕ → M S ℕ
  io_read reg = do p.outb reg ec_port_addr; p.inb ec_port_data

  unfoldable pub nb05_read_ec_ram : ℕ → M S ℕ
  unfolding io_write io_read
  nb05_read_ec_ram addr = do
    let addr_high = bit_and (addr >>> 8) 0xff
    let addr_low = bit_and addr 0xff
    io_write i2ec_reg_addr i2ec_addr_high
    io_write i2ec_reg_data addr_high
    io_write i2ec_reg_addr i2ec_addr_low
    io_write i2ec_reg_data addr_low
    io_write i2ec_reg_addr i2ec_addr_data
    io_read i2ec_reg_data

  unfoldable pub nb05_write_ec_ram : ℕ → ℕ → M S (Unit {0})
  unfolding io_write
  nb05_write_ec_ram addr byte = do
    let addr_high = bit_and (addr >>> 8) 0xff
    let addr_low = bit_and addr 0xff
    io_write i2ec_reg_addr i2ec_addr_high
    io_write i2ec_reg_data addr_high
    io_write i2ec_reg_addr i2ec_addr_low
    io_write i2ec_reg_data addr_low
    io_write i2ec_reg_addr i2ec_addr_data
    io_write i2ec_reg_data byte

  -- The major and the minor version.
  unfoldable pub nb05_read_ec_fw_version : M S (ℕ × ℕ)
  nb05_read_ec_fw_version = do
    major ← nb05_read_ec_ram 0x0400
    minor ← nb05_read_ec_ram 0x0401
    pure (major, minor)

pub record DeviceData : Type 0 where
  pub number_fans : ℕ
  pub fanctl_onereg : Bool

pub record EcData : Type 0 where
  pub ver_major : ℕ
  pub ver_minor : ℕ
  pub dev_data : DeviceData

unfoldable pub data_pulse : DeviceData
data_pulse = record { number_fans = 2; fanctl_onereg = false }

unfoldable pub data_infinityflex : DeviceData
data_infinityflex = record { number_fans = 1; fanctl_onereg = true }

-- The versions as the probe stores them; the device data are those of the matched DMI entry.
unfoldable pub tuxedo_nb05_ec_probe : {S : Type 0} → Ports S → EcData → M S (ℤ × EcData)
tuxedo_nb05_ec_probe p ec_data = do
  version ← nb05_read_ec_fw_version p
  pure (success, record ec_data { ver_major = version.0; ver_minor = version.1 })
