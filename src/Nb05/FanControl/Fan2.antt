-- ===== src/Nb05/FanControl/Fan2.antt =====
-- The second fan, the refusals of the register writers, and the choices of the driver data.
use tuxedo_drivers.Common.{
  Bool, ltb, ◌==◌, ◌||◌, ◌&&◌, ◌⊎◌, inl, inr, dec_le, ℕ, ◌/◌, ◌≤◌, ◌<◌, ◌≡◌, arith, einval, false,
  some, success, ◌↔◌, pos,
}
use tuxedo_drivers.Nb05.Ec.{Ports, EcData}
use tuxedo_drivers.Nb05.Ec.Device.{I2ec, IsI2ec}
use tuxedo_drivers.Nb05.Ec.Refinement.{ram_of, data-nb05_read_ec_ram}
use tuxedo_drivers.Nb05.FanControl.{
  pwm_to_rpm, pwm_to_duty, skip_low_speeds, write_fan1_rpm, write_fan1_duty_ranges,
  write_fan1_duty_onereg, write_fan2_rpm, write_fan2_duty, read_fan2_duty,
}
use tuxedo_drivers.Nb05.FanControl.Registers.{zones, zones_ram}
use tuxedo_drivers.Nb05.FanControl.Duty.{Shown, Shown-duty, duty_bound, rpm_bound}
use tuxedo_drivers.Nb05.FanControl.Attributes.{
  DriverData, fan_control_attr_is_visible, probe_write_rpm, fan2_pwm_show, fan2_pwm_store,
}

module _ {S : Type 0} (p : Ports S) (view : S → I2ec) (dev : IsI2ec p view) (d : DriverData) where
  write_duty2_ok :
      (duty : ℕ) (s : S) (x : ℕ)
      → duty ≤ 184
      → ((write_fan2_duty p duty s).0 ≡ success)
        × (ram_of view (write_fan2_duty p duty s).1 x
            ≡ zones 0x241 51 (skip_low_speeds 184 duty) (ram_of view s) x)
  unfolding write_fan2_duty
  write_duty2_ok duty s x h =
      ground (arith, zones_ram p view dev 0x241 51 (skip_low_speeds 184 duty) s x (omega arith))

  write_rpm2_ok :
      (rpm : ℕ) (s : S) (x : ℕ)
      → rpm ≤ 54
      → ((write_fan2_rpm p rpm s).0 ≡ success)
        × (ram_of view (write_fan2_rpm p rpm s).1 x
            ≡ zones 0x250 15 (skip_low_speeds 54 rpm) (ram_of view s) x)
  unfolding write_fan2_rpm
  write_rpm2_ok rpm s x h =
      ground (arith, zones_ram p view dev 0x250 15 (skip_low_speeds 54 rpm) s x (omega arith))

  -- Over an I2EC device, a byte written to `fan2_pwm` is accepted, and reading it back
  -- gives 0 up to 33, 63 from 34 to 63, and from 64 on the value itself or up to two less.
  pub fan2_pwm_show-store :
      (pwm size : ℕ) (s : S)
      → pwm < 256
      → ((fan2_pwm_store p d (some pwm) size s).0 ≡ pos size)
        × Shown pwm (fan2_pwm_show p d (fan2_pwm_store p d (some pwm) size s).1).0
  unfolding fan2_pwm_show fan2_pwm_store read_fan2_duty
  fan2_pwm_show-store pwm size s h = ground (
    arith,
    duty_bound pwm h,
    rpm_bound pwm h,
    Shown-duty pwm h,
    write_duty2_ok (pwm_to_duty pwm) s 0x241,
    write_rpm2_ok (pwm_to_rpm pwm) (write_fan2_duty p (pwm_to_duty pwm) s).1 0x241,
    data-nb05_read_ec_ram p view dev 0x241 (fan2_pwm_store p d (some pwm) size s).1 (omega arith),
  )

-- A duty above 184 is refused with -EINVAL by the three duty writers, and an rpm value above 54 by
-- the two rpm writers, before anything is written to a port.
pub writers_refuse :
    {S : Type 0} (p : Ports S) (duty rpm : ℕ) (s : S)
    → 184 < duty
    → 54 < rpm
    → (write_fan1_duty_ranges p duty s ≡ (einval, s))
      × (write_fan1_duty_onereg p duty s ≡ (einval, s))
      × (write_fan2_duty p duty s ≡ (einval, s))
      × (write_fan1_rpm p rpm s ≡ (einval, s))
      × (write_fan2_rpm p rpm s ≡ (einval, s))
unfolding write_fan1_duty_ranges write_fan1_duty_onereg write_fan2_duty write_fan1_rpm
    write_fan2_rpm
writers_refuse p duty rpm s h i = ground arith

-- An attribute is shown exactly when it belongs to one of the device's fans, two attributes to
-- a fan.
pub visible_iff :
    (d : DriverData) (n : ℕ)
    → (fan_control_attr_is_visible d n ≡ 0o644) ↔ (n / 2 < d.ec_data.dev_data.number_fans)
unfolding fan_control_attr_is_visible
visible_iff d n = (λ h. ground arith, λ h. ground arith)

-- Whether a version is before 9.10.
abbrev pub before_9_10 : ℕ → ℕ → Bool
before_9_10 major minor = ltb major 9 || (major == 9 && ltb minor 10)

-- On a device with zones the probe has the rpm registers written for the versions before 9.10 and
-- for no other exactly when the major number is at most 9 or the minor one at least 10: the two
-- are compared each on its own, so that 10.0 counts as before 9.10.
pub probe_write_rpm_iff :
    (ec : EcData)
    → ec.dev_data.fanctl_onereg ≡ false
    → (probe_write_rpm ec ≡ before_9_10 ec.ver_major ec.ver_minor)
      ↔ ((ec.ver_major ≤ 9) ⊎ (10 ≤ ec.ver_minor))
unfolding probe_write_rpm
probe_write_rpm_iff ec h = (
  λ e. elim (dec_le ec.ver_major 9) [ yes le ↦ inl le | no gt ↦ inr (ground (arith, h, e)) ],
  λ k. ground (arith, h, k),
)
