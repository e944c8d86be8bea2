-- ===== src/Nb05/FanControl.antt =====
-- src/tuxedo_nb05/tuxedo_nb05_fan_control.c: the sysfs attributes of the fans. A show function
-- returns the number that it prints; a store function gets its text through the kernel's
-- `kstrtou8`, which is a parameter. (`FAN_SET_DUTY_HIGHTEMP` is 15 * 184 / 54 and so on.)
pub mod Registers
pub mod Duty
pub mod Fan2
pub mod Attributes
use tuxedo_drivers.Common.{
  ℕ, zero, suc, ◌+◌, ◌*◌, ◌/◌, Bool, true, false, M, pure, ◌>>=◌, ◌>>◌, when, if◌then◌else◌,
  bit_and, Option, none, some, ℤ, pos, success, einval, ltb, leb, ◌==◌, not, test_bits, ◌&&◌,
  nonzero,
}
use tuxedo_drivers.Nb05.Ec.{Ports, EcData, DeviceData, nb05_read_ec_ram, nb05_write_ec_ram}

abbrev pub fan_set_rpm_max : ℕ
fan_set_rpm_max = 54

abbrev pub fan_set_duty_max : ℕ
fan_set_duty_max = 0xb8

abbrev pub fan_on_min_speed_percent : ℕ
fan_on_min_speed_percent = 25

abbrev pub fan_set_rpm_hightemp : ℕ
fan_set_rpm_hightemp = 15

abbrev pub fan_set_duty_hightemp : ℕ
fan_set_duty_hightemp = fan_set_rpm_hightemp * fan_set_duty_max / fan_set_rpm_max

unfoldable pub pwm_to_rpm : ℕ → ℕ
pwm_to_rpm pwm = pwm * fan_set_rpm_max / 0xff

unfoldable pub pwm_to_duty : ℕ → ℕ
pwm_to_duty pwm = pwm * fan_set_duty_max / 0xff

unfoldable pub duty_to_pwm : ℕ → ℕ
duty_to_pwm duty = duty * 0xff / fan_set_duty_max

-- No values between fan-off and the minimum fan-on-speed, on the scale up to `top`.
unfoldable pub skip_low_speeds : ℕ → ℕ → ℕ
skip_low_speeds top value =
    if leb value (fan_on_min_speed_percent * top / 2 / 100)
    then 0
    else if ltb value (fan_on_min_speed_percent * top / 100)
    then fan_on_min_speed_percent * top / 100
    else value

-- `if (value < low) value = low;`
unfoldable pub at_least : ℕ → ℕ → ℕ
at_least low value = if ltb value low then low else value

module _ {S : Type 0} (p : Ports S) where
  -- `for (reg = first; reg < first + rounds; ++reg) nb05_write_ec_ram(reg, value);`
  unfoldable pub write_range : ℕ → ℕ → ℕ → M S (Unit {0})
  write_range zero reg value = pure tt
  write_range (suc rounds) reg value = do
    nb05_write_ec_ram p reg value
    write_range rounds (reg + 1) value

  -- The zones of a fan's table: seven get the value, the two hottest at least `hot`.
  unfoldable pub write_zones : ℕ → ℕ → ℕ → M S (Unit {0})
  unfolding write_range at_least
  write_zones first hot value = do
    write_range 7 first value
    nb05_write_ec_ram p (first + 7) (at_least hot value)
    nb05_write_ec_ram p (first + 8) (at_least hot value)

  unfoldable pub write_fan1_rpm : ℕ → M S ℤ
  write_fan1_rpm rpm = if ltb fan_set_rpm_max rpm then pure einval else (do
    write_zones 0x02d0 fan_set_rpm_hightemp (skip_low_speeds fan_set_rpm_max rpm)
    pure success)

  unfoldable pub read_fan1_duty_ranges : M S ℕ
  read_fan1_duty_ranges = nb05_read_ec_ram p 0x2c1

  unfoldable pub read_fan1_duty_onereg : M S ℕ
  read_fan1_duty_onereg = nb05_read_ec_ram p 0x1809

  unfoldable pub write_fan1_duty_ranges : ℕ → M S ℤ
  write_fan1_duty_ranges duty = if ltb fan_set_duty_max duty then pure einval else (do
    write_zones 0x02c1 fan_set_duty_hightemp (skip_low_speeds fan_set_duty_max duty)
    pure success)

  unfoldable pub write_fan1_duty_onereg : ℕ → M S ℤ
  write_fan1_duty_onereg duty =
      if ltb fan_set_duty_max duty
      then pure einval
      else (do nb05_write_ec_ram p 0x1809 (skip_low_speeds fan_set_duty_max duty); pure success)

  unfoldable pub read_fan1_enable_ranges : M S Bool
  read_fan1_enable_ranges = do
    enable_data ← nb05_read_ec_ram p 0x2c0
    pure (test_bits enable_data 0x01)

  unfoldable pub read_fan1_enable_onereg : M S Bool
  read_fan1_enable_onereg = do enable_data ← nb05_read_ec_ram p 0x2f1; pure (enable_data == 0xaa)

  unfoldable pub write_fan1_enable_ranges : Bool → M S ℤ
  write_fan1_enable_ranges enable = do
    nb05_write_ec_ram p 0x2c0 (if enable then 1 else 0)
    pure success

  unfoldable pub write_fan1_enable_onereg : Bool → M S ℤ
  write_fan1_enable_onereg enable = do
    nb05_write_ec_ram p 0x2f1 (if enable then 0xaa else 0x00)
    pure success

  unfoldable pub write_fan2_rpm : ℕ → M S ℤ
  write_fan2_rpm rpm = if ltb fan_set_rpm_max rpm then pure einval else (do
    write_zones 0x0250 fan_set_rpm_hightemp (skip_low_speeds fan_set_rpm_max rpm)
    pure success)

  unfoldable pub read_fan2_duty : M S ℕ
  read_fan2_duty = nb05_read_ec_ram p 0x0241

  unfoldable pub write_fan2_duty : ℕ → M S ℤ
  write_fan2_duty duty = if ltb fan_set_duty_max duty then pure einval else (do
    write_zones 0x0241 fan_set_duty_hightemp (skip_low_speeds fan_set_duty_max duty)
    pure success)

  unfoldable pub read_fan2_enable : M S Bool
  read_fan2_enable = do enable_data ← nb05_read_ec_ram p 0x240; pure (test_bits enable_data 0x01)

  unfoldable pub write_fan2_enable : Bool → M S ℤ
  write_fan2_enable enable = do nb05_write_ec_ram p 0x240 (if enable then 1 else 0); pure success
