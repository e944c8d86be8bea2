-- ===== src/Nb05/Sensors.antt =====
-- src/tuxedo_nb05/tuxedo_nb05_sensors.c: the temperature and the speeds of the fans.
use tuxedo_drivers.Common.{
  ℕ, ◌+◌, ◌*◌, ◌<◌, ◌≡◌, ap, ◌∙◌, arith, Bool, M, pure, ◌>>=◌, if◌then◌else◌, ◌==◌, ltb, Ram,
  bit_or, ◌<<<◌, bit_or-byte, bit_or_comm, ℤ, success, enodev, eopnotsupp, Option, none, some,
}
use tuxedo_drivers.Tuxi.Attributes.{
  Sensor, hwmon_temp, hwmon_fan_min, hwmon_fan_max, hwmon_fan_input, hwmon_fan_other, hwmon_other,
}
use tuxedo_drivers.Nb05.Ec.{Ports, nb05_read_ec_ram}
use tuxedo_drivers.Nb05.Ec.Device.{I2ec, IsI2ec}
use tuxedo_drivers.Nb05.Ec.Refinement.{ram_of, data-nb05_read_ec_ram}

pub record SensorsData : Type 0 where
  pub fan_cpu_max : ℕ
  pub fan_cpu_min : ℕ
  pub number_fans : ℕ

-- The file mode of an attribute.
unfoldable pub tuxedo_nb05_hwmon_is_visible : SensorsData → Sensor → ℕ → ℕ
tuxedo_nb05_hwmon_is_visible d hwmon_temp channel = 0x124
tuxedo_nb05_hwmon_is_visible d hwmon_fan_min channel =
    if ltb channel d.number_fans then 0x124 else 0
tuxedo_nb05_hwmon_is_visible d hwmon_fan_max channel =
    if ltb channel d.number_fans then 0x124 else 0
tuxedo_nb05_hwmon_is_visible d hwmon_fan_input channel =
    if ltb channel d.number_fans then 0x124 else 0
tuxedo_nb05_hwmon_is_visible d hwmon_fan_other channel =
    if ltb channel d.number_fans then 0x124 else 0
tuxedo_nb05_hwmon_is_visible d hwmon_other channel = 0

-- The value of a limit, which both channels have.
abbrev pub for_fans : ℕ → ℕ → ℤ × Option ℕ
for_fans channel value =
    if channel == 0
    then (success, some value)
    else if channel == 1
    then (success, some value)
    else (eopnotsupp, none)

-- `is_iflx14i01` is whether the matched device is this one.
unfoldable pub tuxedo_nb05_sensors_probe : Option Bool → ℤ → SensorsData → ℤ × SensorsData
tuxedo_nb05_sensors_probe none registered d = (enodev, d)
tuxedo_nb05_sensors_probe (some is_iflx14i01) registered d = (
  registered,
  record {
    fan_cpu_min = 0;
    number_fans = if is_iflx14i01 then 1 else 2;
    fan_cpu_max = if is_iflx14i01 then 5600 else 5400;
  },
)

module _ {S : Type 0} (p : Ports S) where
  unfoldable pub read_cpu_temp : M S ℕ
  read_cpu_temp = nb05_read_ec_ram p 0x470

  unfoldable pub read_fan1_rpm : M S ℕ
  read_fan1_rpm = do
    rpm_high ← nb05_read_ec_ram p 0x298
    rpm_low ← nb05_read_ec_ram p 0x298
    pure (bit_or (rpm_high <<< 8) rpm_low)

  unfoldable pub read_fan2_rpm : M S ℕ
  read_fan2_rpm = do
    rpm_high ← nb05_read_ec_ram p 0x218
    rpm_low ← nb05_read_ec_ram p 0x219
    pure (bit_or (rpm_high <<< 8) rpm_low)

  unfoldable pub tuxedo_nb05_hwmon_read : SensorsData → Sensor → ℕ → M S (ℤ × Option ℕ)
  unfolding read_cpu_temp read_fan1_rpm read_fan2_rpm
  tuxedo_nb05_hwmon_read d hwmon_temp channel = do
    temp ← read_cpu_temp
    pure (success, some (temp * 1000))
  tuxedo_nb05_hwmon_read d hwmon_fan_min channel = pure (for_fans channel d.fan_cpu_min)
  tuxedo_nb05_hwmon_read d hwmon_fan_max channel = pure (for_fans channel d.fan_cpu_max)
  tuxedo_nb05_hwmon_read d hwmon_fan_input channel =
      if channel == 0
      then (do rpm ← read_fan1_rpm; pure (success, some rpm))
      else if channel == 1
      then (do rpm ← read_fan2_rpm; pure (success, some rpm))
      else pure (eopnotsupp, none)
  tuxedo_nb05_hwmon_read d hwmon_fan_other channel = pure (eopnotsupp, none)
  tuxedo_nb05_hwmon_read d hwmon_other channel = pure (eopnotsupp, none)

  module _ (view : S → I2ec) (dev : IsI2ec p view) where
    two_reads :
        (high low : ℕ) (s : S)
        → high < 65536
        → low < 65536
        → ram_of view s low < 256
        → let r = nb05_read_ec_ram p low (nb05_read_ec_ram p high s).1 in
          bit_or ((nb05_read_ec_ram p high s).0 <<< 8) r.0
          ≡ ram_of view s high * 256 + ram_of view s low
    two_reads high low s h l small =
        let first = data-nb05_read_ec_ram p view dev high s h in
        let second = data-nb05_read_ec_ram p view dev low (nb05_read_ec_ram p high s).1 l in
        let second_byte = second.0 ∙ ap (λ (ram : Ram). ram low) first.1 in
        (λ i. bit_or (first.0 i * 256) (second_byte i))
        ∙ (bit_or_comm (ram_of view s high * 256) (ram_of view s low)
            ∙ (bit_or-byte (ram_of view s low) (ram_of view s high) small ∙ omega arith))

    -- Over an I2EC device that has bytes in the registers, the input of the second fan is the word
    -- of the two registers 0x218 and 0x219, that of the first fan is 257 times its register 0x298,
    -- and both are below 65536.
    pub fan_inputs :
        (d : SensorsData) (s : S)
        → ram_of view s 0x298 < 256
        → ram_of view s 0x218 < 256
        → ram_of view s 0x219 < 256
        → ((tuxedo_nb05_hwmon_read d hwmon_fan_input 0 s).0
            ≡ (success, some (ram_of view s 0x298 * 257)))
          × ((tuxedo_nb05_hwmon_read d hwmon_fan_input 1 s).0
              ≡ (success, some (ram_of view s 0x218 * 256 + ram_of view s 0x219)))
          × (ram_of view s 0x298 * 257 < 65536)
          × (ram_of view s 0x218 * 256 + ram_of view s 0x219 < 65536)
    unfolding tuxedo_nb05_hwmon_read read_fan1_rpm read_fan2_rpm
    fan_inputs d s one high low = (
      ap (λ rpm. (success, some rpm))
          (two_reads 0x298 0x298 s (omega arith) (omega arith) one ∙ omega arith),
      ap (λ rpm. (success, some rpm)) (two_reads 0x218 0x219 s (omega arith) (omega arith) low),
      omega arith,
      omega arith,
    )
