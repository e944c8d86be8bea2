-- ===== src/Stk8321/Tests.antt =====
-- The theorems of the accelerometer at a sensor that is nothing but its registers.
use tuxedo_drivers.Common.{
  ℕ, ◌-◌, ◌≡◌, refl, arith, false, if◌then◌else◌, ◌==◌, ltb, Ram, update, ℤ, pos, negsuc, success,
  none,
}
use tuxedo_drivers.Stk8321.{
  I2c, Accel, rotate, zeromatrix, samp_freq_table, stk8321_read_raw, stk8321_write_raw, info_raw,
  info_samp_freq, val_int, val_int_plus_micro,
}
use tuxedo_drivers.Stk8321.Axis.{IsSensor, IsSignExtend, twelve_bits, IsTwelveBit, axis_read}
use tuxedo_drivers.Stk8321.Frequency.{frequency_read-write}

abbrev sensor : I2c Ram
sensor = record {
  read_byte = λ reg ram. (pos (ram reg), ram);
  write_byte = λ reg byte ram. (success, update ram reg byte);
}

sensor-IsSensor : IsSensor sensor (λ ram. ram)
sensor-IsSensor = record {
  reads = λ reg s. refl;
  reads_view = λ reg s. refl;
  writes = λ reg byte s. refl;
  writes_view = λ reg byte s. refl;
}

-- For the index 11.
abbrev extend_twelve : ℤ → ℕ → ℤ
extend_twelve (negsuc v) index = negsuc v
extend_twelve (pos v) index = if ltb v 2048 then pos v else negsuc (4095 - v)

extend_twelve-IsSignExtend : IsSignExtend extend_twelve
extend_twelve-IsSignExtend = record {
  clear_sign = λ v h. ground arith;
  set_sign = λ v h. ground arith;
}

-- The second axis holds -3, which is 0xffd, with 5 below it.
abbrev accel : Accel Ram
accel = record {
  samp_freq = 0;
  orientation = zeromatrix;
  label = none;
  second_client = false;
  bus = λ reg. if reg == 4 then 0xd5 else if reg == 5 then 0xff else 0;
}

axis_read_example : (stk8321_read_raw sensor extend_twelve 1 info_raw accel).0 ≡ val_int (negsuc 2)
unfolding twelve_bits IsTwelveBit
axis_read_example =
    axis_read sensor (λ ram. ram) sensor-IsSensor extend_twelve 1 (negsuc 2) 5 accel
      extend_twelve-IsSignExtend (omega arith) (omega arith) (omega arith) refl refl

frequency_read-write_example :
    let x = stk8321_write_raw sensor (pos 62) (pos 500000) info_samp_freq accel in
    (x.0 ≡ success)
    × ((stk8321_read_raw sensor extend_twelve 0 info_samp_freq x.1).0
        ≡ val_int_plus_micro 62 500000)
    × (x.1.bus 0x10 ≡ 0x0b)
    × (x.1.bus 0x11 ≡ 0x00)
unfolding samp_freq_table
frequency_read-write_example =
    frequency_read-write sensor (λ ram. ram) sensor-IsSensor extend_twelve 3 0 accel (omega arith)

-- A byte that selects the fourth axis is written behind the nine entries of the matrix.
rotate_outside_test : rotate 2 0x13 zeromatrix 11 ≡ "-1"
unfolding rotate
rotate_outside_test = refl
