-- ===== src/Tuxi/Attributes.antt =====
-- src/tuxedo_tuxi/tuxedo_tuxi_fan_control.c: the hwmon attributes. `parsed` is what
-- `kstrtou8(buffer, 0, ..)` makes of the written text, `none` for its error.
use tuxedo_drivers.Common.{
  ℕ, ◌+◌, ◌-◌, ◌*◌, ◌/◌, ◌%◌, ◌^◌, M, pure, ◌>>=◌, if◌then◌else◌, leb, ltb, ◌==◌, ℤ, pos, negsuc,
  success, einval, eopnotsupp, nonzero, Option, none, some,
}
use tuxedo_drivers.Tuxi.{
  Evaluate, DriverData, tuxi_set_fan_speed, tuxi_get_fan_speed, tuxi_set_fan_mode,
  tuxi_get_fan_mode, tuxi_get_fan_temp, tuxi_get_fan_rpm,
}

abbrev pub fan_set_duty_max : ℕ
fan_set_duty_max = 255

abbrev pub fan_on_min_speed_percent : ℕ
fan_on_min_speed_percent = 25

abbrev pub auto : ℕ
auto = 0

abbrev pub manual : ℕ
manual = 1

-- The duty value for a pwm value, without those between fan-off and the minimum fan-on speed.
unfoldable pub duty_for : ℕ → ℕ
duty_for pwm =
    let duty = pwm * fan_set_duty_max / 0xff in
    if leb duty (fan_on_min_speed_percent * fan_set_duty_max / 2 / 100)
    then 0
    else if ltb duty (fan_on_min_speed_percent * fan_set_duty_max / 100)
    then fan_on_min_speed_percent * fan_set_duty_max / 100
    else duty

-- An `int` stored in a `u8`.
unfoldable pub u8_of_int : ℤ → ℕ
u8_of_int (pos n) = n % 2 ^ 8
u8_of_int (negsuc n) = 255 - n % 2 ^ 8

-- A difference of two numbers as an `int`.
abbrev pub minus : ℕ → ℕ → ℤ
minus a b = if leb b a then pos (a - b) else negsuc (b - a - 1)

abbrev pub times_100 : ℤ → ℤ
times_100 (pos n) = pos (n * 100)
times_100 (negsuc n) = negsuc (n * 100 + 99)

-- `enum hwmon_sensor_types` and the fan attributes, as far as they are told apart.
pub data Sensor : Type 0 where
  hwmon_temp hwmon_fan_min hwmon_fan_max hwmon_fan_input hwmon_fan_other hwmon_other : Sensor

module _ {S : Type 0} (evaluate : Evaluate S) (data_ : DriverData) where
  -- The show functions store the status of the call over the value that it has read.
  unfoldable pub fan_pwm_show : ℕ → M S ℕ
  fan_pwm_show index = do
    r ← tuxi_get_fan_speed evaluate data_ index
    pure (u8_of_int r.0 * 0xff / fan_set_duty_max)

  unfoldable pub fan_pwm_store : ℕ → Option ℕ → ℕ → M S ℤ
  fan_pwm_store index none size = pure einval
  fan_pwm_store index (some pwm) size = do
    err ← tuxi_set_fan_speed evaluate data_ index (duty_for pwm)
    pure (if nonzero err then err else pos size)

  -- `uninitialised` is what `mode` holds if the call fails.
  unfoldable pub fan_pwm_enable_show : ℕ → M S ℕ
  fan_pwm_enable_show uninitialised = do
    r ← tuxi_get_fan_mode evaluate data_
    let mode : ℕ = elim r.1 [ none ↦ uninitialised | some m ↦ m ]
    pure (if mode == manual then 1 else 2)

  unfoldable pub fan_pwm_enable_store : Option ℕ → ℕ → M S ℤ
  fan_pwm_enable_store none size = pure einval
  fan_pwm_enable_store (some enable_hwmon) size = do
    err ← tuxi_set_fan_mode evaluate data_ (if enable_hwmon == 1 then manual else auto)
    pure (if nonzero err then err else pos size)

  unfoldable pub fan1_pwm_show : M S ℕ
  unfolding fan_pwm_show
  fan1_pwm_show = fan_pwm_show 0

  unfoldable pub fan1_pwm_store : Option ℕ → ℕ → M S ℤ
  unfolding fan_pwm_store
  fan1_pwm_store = fan_pwm_store 0

  unfoldable pub fan1_pwm_enable_show : ℕ → M S ℕ
  unfolding fan_pwm_enable_show
  fan1_pwm_enable_show = fan_pwm_enable_show

  unfoldable pub fan1_pwm_enable_store : Option ℕ → ℕ → M S ℤ
  unfolding fan_pwm_enable_store
  fan1_pwm_enable_store = fan_pwm_enable_store

  unfoldable pub fan2_pwm_show : M S ℕ
  unfolding fan_pwm_show
  fan2_pwm_show = fan_pwm_show 1

  unfoldable pub fan2_pwm_store : Option ℕ → ℕ → M S ℤ
  unfolding fan_pwm_store
  fan2_pwm_store = fan_pwm_store 1

  unfoldable pub fan2_pwm_enable_show : ℕ → M S ℕ
  unfolding fan_pwm_enable_show
  fan2_pwm_enable_show = fan_pwm_enable_show

  unfoldable pub fan2_pwm_enable_store : Option ℕ → ℕ → M S ℤ
  unfolding fan_pwm_enable_store
  fan2_pwm_enable_store = fan_pwm_enable_store

  -- A value, or the error.
  reading : (ℕ → ℤ) → ℤ × Option ℕ → ℤ × Option ℤ
  reading f (err, none) = (err, none)
  reading f (err, some value) = if nonzero err then (err, none) else (success, some (f value))

  unfoldable pub hwm_read : Sensor → ℕ → M S (ℤ × Option ℤ)
  unfolding reading
  hwm_read hwmon_temp channel = do
    r ← tuxi_get_fan_temp evaluate data_ channel
    pure (reading (λ temp. times_100 (minus temp 2730)) r)
  hwm_read hwmon_fan_min channel = pure (success, some (pos 0))
  hwm_read hwmon_fan_max channel = pure (success, some (pos 6000))
  hwm_read hwmon_fan_input channel = do
    r ← tuxi_get_fan_rpm evaluate data_ channel
    pure (reading (λ rpm. pos rpm) r)
  hwm_read hwmon_fan_other channel = pure (eopnotsupp, none)
  hwm_read hwmon_other channel = pure (eopnotsupp, none)
