-- ===== src/Nb05/FanControl/Duty.antt =====
-- The attributes of the fan control over a device whose registers are its RAM.
use tuxedo_drivers.Common.{
  ℕ, ◌+◌, ◌≤◌, ◌<◌, ◌≡◌, ap, arith, Ram, update, if◌then◌else◌, ◌==◌, ◌⊎◌, some, pos, success, ◌%◌,
}
use tuxedo_drivers.Nb05.Ec.{Ports, nb05_read_ec_ram, nb05_write_ec_ram}
use tuxedo_drivers.Nb05.Ec.Device.{I2ec, IsI2ec}
use tuxedo_drivers.Nb05.Ec.Refinement.{ram_of, ram-nb05_write_ec_ram, data-nb05_read_ec_ram}
use tuxedo_drivers.Nb05.FanControl.{
  pwm_to_rpm, pwm_to_duty, duty_to_pwm, skip_low_speeds, write_fan1_rpm, write_fan1_duty_ranges,
  write_fan1_duty_onereg, read_fan1_duty_ranges, read_fan1_duty_onereg, read_fan1_enable_onereg,
  read_fan1_enable_ranges, write_fan1_enable_ranges, write_fan1_enable_onereg,
}
use tuxedo_drivers.Nb05.FanControl.Registers.{zones, zones_ram}
use tuxedo_drivers.Nb05.FanControl.Attributes.{
  DriverData, onereg, fan1_pwm_show, fan1_pwm_store, fan1_pwm_enable_show, fan1_pwm_enable_store,
}

-- What a pwm value comes back as: 0 below the fan-off threshold, 63 (a quarter) below the minimum
-- speed, and from there on the value itself or up to two less.
abbrev pub Shown : ℕ → ℕ → Type 0
Shown pwm v =
    ((pwm ≤ 33) × (v ≡ 0))
    ⊎ ((34 ≤ pwm) × (pwm ≤ 63) × (v ≡ 63))
    ⊎ ((64 ≤ pwm) × (v ≤ pwm) × (pwm ≤ v + 2))

abbrev duty_of : ℕ → ℕ
duty_of pwm = skip_low_speeds 184 (pwm_to_duty pwm)

pub Shown-duty : (pwm : ℕ) → pwm < 256 → Shown pwm (duty_to_pwm (duty_of pwm) % 256)
unfolding skip_low_speeds pwm_to_duty duty_to_pwm
Shown-duty pwm h = ground arith

pub duty_bound :
    (pwm : ℕ) → pwm < 256 → (pwm_to_duty pwm ≤ 184) × (pwm_to_duty pwm % 256 ≡ pwm_to_duty pwm)
unfolding pwm_to_duty
duty_bound pwm h = ground arith

pub rpm_bound :
    (pwm : ℕ) → pwm < 256 → (pwm_to_rpm pwm ≤ 54) × (pwm_to_rpm pwm % 256 ≡ pwm_to_rpm pwm)
unfolding pwm_to_rpm
rpm_bound pwm h = ground arith

-- The RAM that `fan1_pwm_store` means to leave.
abbrev pub fan1_ram : DriverData → ℕ → Ram → Ram
fan1_ram d pwm f =
    let duty = duty_of pwm in
    let g = if onereg d then update f 0x1809 duty else zones 0x2c1 51 duty f in
    if d.write_rpm then zones 0x2d0 15 (skip_low_speeds 54 (pwm_to_rpm pwm)) g else g

module _ {S : Type 0} (p : Ports S) (view : S → I2ec) (dev : IsI2ec p view) (d : DriverData) where
  read-write :
      (reg v : ℕ) (s : S)
      → reg < 65536
      → (nb05_read_ec_ram p reg (nb05_write_ec_ram p reg v s).1).0 ≡ v
  read-write reg v s h = ground (
    arith,
    data-nb05_read_ec_ram p view dev reg (nb05_write_ec_ram p reg v s).1 h,
    ap (λ (f : Ram). f reg) (ram-nb05_write_ec_ram p view dev reg v s h),
  )

  write_duty_ok :
      (duty : ℕ) (s : S) (x : ℕ)
      → duty ≤ 184
      → ((write_fan1_duty_ranges p duty s).0 ≡ success)
        × (ram_of view (write_fan1_duty_ranges p duty s).1 x
            ≡ zones 0x2c1 51 (skip_low_speeds 184 duty) (ram_of view s) x)
  unfolding write_fan1_duty_ranges
  write_duty_ok duty s x h =
      ground (arith, zones_ram p view dev 0x2c1 51 (skip_low_speeds 184 duty) s x (omega arith))

  write_onereg_ok :
      (duty : ℕ) (s : S) (x : ℕ)
      → duty ≤ 184
      → ((write_fan1_duty_onereg p duty s).0 ≡ success)
        × (ram_of view (write_fan1_duty_onereg p duty s).1 x
            ≡ update (ram_of view s) 0x1809 (skip_low_speeds 184 duty) x)
  unfolding write_fan1_duty_onereg
  write_onereg_ok duty s x h = ground (
    arith,
    ap (λ (f : Ram). f x)
        (ram-nb05_write_ec_ram p view dev 0x1809 (skip_low_speeds 184 duty) s (omega arith)),
  )

  write_rpm_ok :
      (rpm : ℕ) (s : S) (x : ℕ)
      → rpm ≤ 54
      → ((write_fan1_rpm p rpm s).0 ≡ success)
        × (ram_of view (write_fan1_rpm p rpm s).1 x
            ≡ zones 0x2d0 15 (skip_low_speeds 54 rpm) (ram_of view s) x)
  unfolding write_fan1_rpm
  write_rpm_ok rpm s x h =
      ground (arith, zones_ram p view dev 0x2d0 15 (skip_low_speeds 54 rpm) s x (omega arith))

  pub fan1_store_ram :
      (pwm size : ℕ) (s : S) (x : ℕ)
      → pwm < 256
      → ((fan1_pwm_store p d (some pwm) size s).0 ≡ pos size)
        × (ram_of view (fan1_pwm_store p d (some pwm) size s).1 x
            ≡ fan1_ram d pwm (ram_of view s) x)
  unfolding fan1_pwm_store
  fan1_store_ram pwm size s x h =
      let duty = pwm_to_duty pwm in
      let rpm = pwm_to_rpm pwm in
      ground (
        arith,
        duty_bound pwm h,
        rpm_bound pwm h,
        write_onereg_ok duty s x,
        write_duty_ok duty s x,
        write_rpm_ok rpm (write_fan1_duty_onereg p duty s).1 x,
        write_rpm_ok rpm (write_fan1_duty_ranges p duty s).1 x,
      )

  -- Over an I2EC device, a byte written to `fan1_pwm` is accepted, and reading the attribute back gives it up to the
  -- rounding of the duty scale: 0 up to 33, 63 from 34 to 63, and from 64 on the value itself or
  -- up to two less. It holds on devices with one duty register and on those with zones, and
  -- whether or not the rpm registers are written too.
  pub fan1_pwm_show-store :
      (pwm size : ℕ) (s : S)
      → pwm < 256
      → ((fan1_pwm_store p d (some pwm) size s).0 ≡ pos size)
        × Shown pwm (fan1_pwm_show p d (fan1_pwm_store p d (some pwm) size s).1).0
  unfolding fan1_pwm_show read_fan1_duty_ranges read_fan1_duty_onereg
  fan1_pwm_show-store pwm size s h =
      let s' = (fan1_pwm_store p d (some pwm) size s).1 in
      (
        (fan1_store_ram pwm size s 0 h).0,
        ground (
          arith,
          fan1_store_ram pwm size s 0x2c1 h,
          fan1_store_ram pwm size s 0x1809 h,
          data-nb05_read_ec_ram p view dev 0x2c1 s' (omega arith),
          data-nb05_read_ec_ram p view dev 0x1809 s' (omega arith),
          Shown-duty pwm h,
        ),
      )

  -- The RAM of an I2EC device after a byte was written to `fan1_pwm`. On a device with one duty register it holds
  -- the duty value without the low speeds. On the others the seven lower zones hold it, the two
  -- hottest ones at least 51; and where the rpm registers are written, their nine zones follow
  -- the same pattern with at least 15. No other byte of the RAM changes.
  pub ram-fan1_pwm_store :
      (pwm size : ℕ) (s : S) (x : ℕ)
      → pwm < 256
      → ram_of view (fan1_pwm_store p d (some pwm) size s).1 x ≡ fan1_ram d pwm (ram_of view s) x
  ram-fan1_pwm_store pwm size s x h = (fan1_store_ram pwm size s x h).1

  -- Over an I2EC device, `fan1_pwm_enable` reads back what was written: 2 for a written 2, and 1 for any other byte.
  pub fan1_pwm_enable_show-store :
      (value size : ℕ) (s : S)
      → ((fan1_pwm_enable_store p d (some value) size s).0 ≡ pos size)
        × ((fan1_pwm_enable_show p d (fan1_pwm_enable_store p d (some value) size s).1).0
            ≡ (if value == 2 then 2 else 1))
  unfolding fan1_pwm_enable_show fan1_pwm_enable_store read_fan1_enable_onereg
      read_fan1_enable_ranges write_fan1_enable_ranges write_fan1_enable_onereg
  fan1_pwm_enable_show-store value size s = ground (
    arith,
    read-write 0x2f1 0xaa s (omega arith),
    read-write 0x2f1 0 s (omega arith),
    read-write 0x2c0 1 s (omega arith),
    read-write 0x2c0 0 s (omega arith),
  )
