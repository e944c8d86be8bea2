-- ===== src/Nb05/FanControl/Attributes.antt =====
-- src/tuxedo_nb05/tuxedo_nb05_fan_control.c: the driver data, the visibility and the show and
-- store functions of the attributes. `parsed` is what `kstrtou8(buffer, 0, ..)` makes of the
-- written text, `none` for its error.
use tuxedo_drivers.Common.{
  ℕ, ◌*◌, Bool, true, false, M, pure, ◌>>=◌, if◌then◌else◌, Option, none, some, ℤ, pos, einval, ltb,
  leb, ◌==◌, ◌&&◌, nonzero, u8,
}
use tuxedo_drivers.Nb05.Ec.{Ports, EcData}
use tuxedo_drivers.Nb05.FanControl.{
  pwm_to_rpm, pwm_to_duty, duty_to_pwm, write_fan1_rpm, read_fan1_duty_ranges,
  read_fan1_duty_onereg, write_fan1_duty_ranges, write_fan1_duty_onereg, read_fan1_enable_ranges,
  read_fan1_enable_onereg, write_fan1_enable_ranges, write_fan1_enable_onereg, write_fan2_rpm,
  read_fan2_duty, write_fan2_duty, read_fan2_enable, write_fan2_enable,
}

pub record DriverData : Type 0 where
  pub ec_data : EcData
  pub write_rpm : Bool

abbrev pub onereg : DriverData → Bool
onereg d = d.ec_data.dev_data.fanctl_onereg

-- The mode of attribute `n`: 0644, or 0 for one that is hidden.
unfoldable pub fan_control_attr_is_visible : DriverData → ℕ → ℕ
fan_control_attr_is_visible d n = if ltb n (d.ec_data.dev_data.number_fans * 2) then 0o644 else 0

-- The choice of `write_rpm` in the probe.
unfoldable pub probe_write_rpm : EcData → Bool
probe_write_rpm ec =
    if ec.dev_data.fanctl_onereg
    then false
    else if leb 9 ec.ver_major && leb 10 ec.ver_minor
    then false
    else true

-- `if (err) return err; return size;`
abbrev pub size_or : ℤ → ℕ → ℤ
size_or err size = if nonzero err then err else pos size

module _ {S : Type 0} (p : Ports S) (d : DriverData) where
  unfoldable pub fan1_pwm_show : M S ℕ
  fan1_pwm_show = do
    duty ← if onereg d then read_fan1_duty_onereg p else read_fan1_duty_ranges p
    pure (u8 (duty_to_pwm duty))

  store_duty1 : ℕ → M S ℤ
  store_duty1 duty =
      if onereg d then write_fan1_duty_onereg p duty else write_fan1_duty_ranges p duty

  -- After a successful duty write: the rpm registers too, where the device wants it.
  store_rpm : (ℕ → M S ℤ) → ℕ → ℕ → ℤ → M S ℤ
  store_rpm write rpm size err =
      if nonzero err
      then pure err
      else if d.write_rpm
      then (do err' ← write rpm; pure (size_or err' size))
      else pure (pos size)

  unfoldable pub fan1_pwm_store : Option ℕ → ℕ → M S ℤ
  unfolding store_duty1 store_rpm
  fan1_pwm_store none size = pure einval
  fan1_pwm_store (some pwm) size = do
    err ← store_duty1 (u8 (pwm_to_duty pwm))
    store_rpm (write_fan1_rpm p) (u8 (pwm_to_rpm pwm)) size err

  unfoldable pub fan1_pwm_enable_show : M S ℕ
  fan1_pwm_enable_show = do
    enable ← if onereg d then read_fan1_enable_onereg p else read_fan1_enable_ranges p
    pure (if enable then 1 else 2)

  unfoldable pub fan1_pwm_enable_store : Option ℕ → ℕ → M S ℤ
  fan1_pwm_enable_store none size = pure einval
  fan1_pwm_enable_store (some enable_hwmon) size = do
    let enable = if enable_hwmon == 2 then false else true
    err ← if onereg d then write_fan1_enable_onereg p enable else write_fan1_enable_ranges p enable
    pure (size_or err size)

  unfoldable pub fan2_pwm_show : M S ℕ
  fan2_pwm_show = do duty ← read_fan2_duty p; pure (u8 (duty_to_pwm duty))

  unfoldable pub fan2_pwm_store : Option ℕ → ℕ → M S ℤ
  unfolding store_rpm
  fan2_pwm_store none size = pure einval
  fan2_pwm_store (some pwm) size = do
    err ← write_fan2_duty p (u8 (pwm_to_duty pwm))
    store_rpm (write_fan2_rpm p) (u8 (pwm_to_rpm pwm)) size err

  unfoldable pub fan2_pwm_enable_show : M S ℕ
  fan2_pwm_enable_show = do enable ← read_fan2_enable p; pure (if enable then 1 else 2)

  unfoldable pub fan2_pwm_enable_store : Option ℕ → ℕ → M S ℤ
  fan2_pwm_enable_store none size = pure einval
  fan2_pwm_enable_store (some enable_hwmon) size = do
    let enable = if enable_hwmon == 2 then false else true
    err ← write_fan2_enable p enable
    pure (size_or err size)
