-- ===== src/Nb04/Sensors.antt =====
-- src/tuxedo_nb04/tuxedo_nb04_sensors.c: the temperatures and the fans. `un` and `input` are what the
-- buffers hold before they are written.
use tuxedo_drivers.Common.{
  ℕ, ◌*◌, Bool, M, pure, ◌>>=◌, if◌then◌else◌, ◌==◌, ℤ, success, eio, eopnotsupp, nonzero, Option,
  none, some, List,
}
use tuxedo_drivers.Uniwill.Touchpad.{byte_at}
use tuxedo_drivers.Tuxi.Attributes.{
  Sensor, hwmon_temp, hwmon_fan_min, hwmon_fan_max, hwmon_fan_input, hwmon_fan_other, hwmon_other,
}
use tuxedo_drivers.Nb04.Wmi.{Evaluate, WmiDev, word_at, nb04_wmi_bs_method}

pub record SensorsData : Type 0 where
  pub fan_cpu_max : ℕ
  pub fan_cpu_min : ℕ
  pub fan_gpu_max : ℕ
  pub fan_gpu_min : ℕ

pub record CpuInfo : Type 0 where
  pub cpu_temp : ℕ
  pub cpu_turbo_mode : ℕ

pub record GpuInfo : Type 0 where
  pub gpu_temp : ℕ
  pub gpu_turbo_mode : ℕ
  pub gpu_max_freq : ℕ

pub record FanSetting : Type 0 where
  pub fan1_cur_rpm : ℕ
  pub fan2_cur_rpm : ℕ
  pub fan1_max_rpm : ℕ
  pub fan2_max_rpm : ℕ
  pub full_fan_status : Bool

-- What is made of the output, if the call and the method report success.
abbrev pub checked : {A : Type 0} → (List ℕ → A) → ℤ × List ℕ → ℤ × Option A
checked f (err, out) =
    if nonzero err
    then (err, none)
    else if word_at out 0 == 0
    then (success, some (f out))
    else (eio, none)

-- A value of what was read, or its error.
abbrev pub value : {A : Type 0} → (A → ℕ) → ℤ × Option A → ℤ × Option ℕ
value f (err, none) = (err, none)
value f (err, some a) = (success, some (f a))

-- The limits of the fans, where they were read.
abbrev pub limits_of : ℤ → SensorsData → ℤ × Option FanSetting → ℤ × SensorsData
limits_of registered d (err, none) = (err, d)
limits_of registered d (err, some setting) = (
  registered,
  record {
    fan_cpu_max = setting.fan1_max_rpm;
    fan_cpu_min = 0;
    fan_gpu_max = setting.fan2_max_rpm;
    fan_gpu_min = 0;
  },
)

module _ {S : Type 0} (evaluate : Evaluate S) (un input : List ℕ) where
  unfoldable pub read_cpu_info : M (WmiDev S) (ℤ × Option CpuInfo)
  read_cpu_info = do
    r ← nb04_wmi_bs_method evaluate un 0x04 input
    pure (checked (λ out. record { cpu_temp = byte_at out 2; cpu_turbo_mode = byte_at out 3 }) r)

  unfoldable pub read_gpu_info : M (WmiDev S) (ℤ × Option GpuInfo)
  read_gpu_info = do
    r ← nb04_wmi_bs_method evaluate un 0x06 input
    pure (
        checked
          (λ out. record {
            gpu_temp = byte_at out 2;
            gpu_turbo_mode = byte_at out 3;
            gpu_max_freq = word_at out 4;
          })
          r)

  unfoldable pub read_fan_setting : M (WmiDev S) (ℤ × Option FanSetting)
  read_fan_setting = do
    r ← nb04_wmi_bs_method evaluate un 0x02 input
    pure (
        checked
          (λ out. record {
            fan1_cur_rpm = word_at out 2;
            fan2_cur_rpm = word_at out 4;
            fan1_max_rpm = word_at out 6;
            fan2_max_rpm = word_at out 8;
            full_fan_status = byte_at out 10 == 0x01;
          })
          r)

  -- A limit of the two channels.
  abbrev pub limit : ℕ → ℕ → ℕ → ℤ × Option ℕ
  limit channel cpu gpu =
      if channel == 0
      then (success, some cpu)
      else if channel == 1
      then (success, some gpu)
      else (eopnotsupp, none)

  unfoldable pub tuxedo_nb04_sensors_read : SensorsData → Sensor → ℕ → M (WmiDev S) (ℤ × Option ℕ)
  unfolding read_cpu_info read_gpu_info read_fan_setting
  tuxedo_nb04_sensors_read d hwmon_temp channel =
      if channel == 0
      then (do r ← read_cpu_info; pure (value (λ info. info.cpu_temp * 1000) r))
      else if channel == 1
      then (do r ← read_gpu_info; pure (value (λ info. info.gpu_temp * 1000) r))
      else pure (eopnotsupp, none)
  tuxedo_nb04_sensors_read d hwmon_fan_min channel =
      pure (limit channel d.fan_cpu_min d.fan_gpu_min)
  tuxedo_nb04_sensors_read d hwmon_fan_max channel =
      pure (limit channel d.fan_cpu_max d.fan_gpu_max)
  tuxedo_nb04_sensors_read d hwmon_fan_input channel =
      if channel == 0
      then (do r ← read_fan_setting; pure (value (λ setting. setting.fan1_cur_rpm) r))
      else if channel == 1
      then (do r ← read_fan_setting; pure (value (λ setting. setting.fan2_cur_rpm) r))
      else pure (eopnotsupp, none)
  tuxedo_nb04_sensors_read d hwmon_fan_other channel = pure (eopnotsupp, none)
  tuxedo_nb04_sensors_read d hwmon_other channel = pure (eopnotsupp, none)

  -- `registered` is the answer to the registration.
  unfoldable pub tuxedo_nb04_sensors_probe : ℤ → SensorsData → M (WmiDev S) (ℤ × SensorsData)
  tuxedo_nb04_sensors_probe registered d = do r ← read_fan_setting; pure (limits_of registered d r)
