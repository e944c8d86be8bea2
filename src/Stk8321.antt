-- ===== src/Stk8321.antt =====
-- src/stk8321/stk8321.c: the accelerometer on the I2C bus.
pub mod Frequency
pub mod Axis
pub mod Tests
use Prim.Native.String.{String}
use tuxedo_drivers.Common.{
  ℕ, zero, suc, ◌+◌, ◌*◌, ◌/◌, ◌%◌, Bool, true, false, not, M, pure, ◌>>=◌, ◌>>◌, when,
  if◌then◌else◌, ◌==◌, ◌&&◌, Ram, update, bit_and, bit_or, test_bits, ◌<<<◌, ◌>>>◌, ℤ, pos, negsuc,
  success, eio, einval, enodev, enomem, nonzero, Option, none, some, List, [], ◌∷◌,
}
use tuxedo_drivers.Clevo.{Object, integer, buffer, other_object}
use tuxedo_drivers.Ite.{is_negative}

-- `i2c_smbus_read_byte_data` and `i2c_smbus_write_byte_data` with the sensor's client.
pub record I2c (S : Type 0) : Type 0 where
  pub read_byte : ℕ → M S ℤ
  pub write_byte : ℕ → ℕ → M S ℤ

abbrev pub reg_rangesel : ℕ
reg_rangesel = 0x0f

abbrev pub reg_bwsel : ℕ
reg_bwsel = 0x10

abbrev pub reg_powmode : ℕ
reg_powmode = 0x11

abbrev pub reg_datasetup : ℕ
reg_datasetup = 0x13

abbrev pub reg_swrst : ℕ
reg_swrst = 0x14

abbrev pub powmode_normal : ℕ
powmode_normal = 0x00

abbrev pub powmode_suspend : ℕ
powmode_suspend = 0x80

abbrev pub rangesel_2g : ℕ
rangesel_2g = 0x03

-- An entry of the table of sampling frequencies.
pub record SampFreq : Type 0 where
  pub val : ℕ
  pub val2 : ℕ
  pub reg_bits : ℕ

abbrev entry : ℕ → ℕ → ℕ → SampFreq
entry val val2 reg_bits = record { val = val; val2 = val2; reg_bits = reg_bits }

unfoldable pub samp_freq_table : List SampFreq
samp_freq_table =
    entry 7 810000 0x08
    ∷ entry 15 630000 0x09
    ∷ entry 31 250000 0x0a
    ∷ entry 62 500000 0x0b
    ∷ entry 125 0 0x0c
    ∷ entry 250 0 0x0d
    ∷ entry 500 0 0x0e
    ∷ entry 1000 0 0x0f
    ∷ []

-- The entry at an index; behind the table everything is 0.
abbrev pub freq_at : List SampFreq → ℕ → SampFreq
freq_at [] i = entry 0 0 0
freq_at (f ∷ fs) zero = f
freq_at (f ∷ fs) (suc i) = freq_at fs i

abbrev pub is_int : ℤ → ℕ → Bool
is_int (pos n) m = n == m
is_int (negsuc n) m = false

-- The loop over the table, from the index of the next entry and the one that matched.
unfoldable pub matching_index : ℤ → ℤ → List SampFreq → ℕ → Option ℕ → Option ℕ
matching_index val val2 [] i found = found
matching_index val val2 (f ∷ fs) i found =
    matching_index val val2 fs (i + 1)
      (if is_int val f.val && is_int val2 f.val2 then some i else found)

-- The rotation by the number of an entry. The matrix has nine entries; what is behind them stands
-- for the memory behind it.
abbrev pub Rotation : Type 0
Rotation = ℕ → String

-- The driver data, the label of the device, and the bus.
pub record Accel (S : Type 0) : Type 0 where
  pub samp_freq : ℕ
  pub orientation : Rotation
  pub label : Option String
  pub second_client : Bool
  pub bus : S

abbrev pub zeromatrix : Rotation
zeromatrix index = "0"

abbrev pub set_entry : ℕ → String → Rotation → Rotation
set_entry index value o j = if j == index then value else o j

-- One round of the loop over the axes.
unfoldable pub rotate : ℕ → ℕ → Rotation → Rotation
rotate i byte o =
    let axis = bit_and byte 0x3 * 3 in
    set_entry (i + axis) (if test_bits byte 0x10 then "-1" else "1") o

-- `companion` is whether the device has an ACPI object, `has_method` whether that has the method, and
-- `answer` what its evaluation gives: `none` is a failure and `some none` no object.
unfoldable pub stk8321_apply_acpi_orientation :
    Bool → Bool → Option (Option Object) → Rotation → ℤ × Rotation
unfolding rotate
stk8321_apply_acpi_orientation companion has_method none o =
    (if not companion then enodev else if not has_method then enodev else eio, o)
stk8321_apply_acpi_orientation companion has_method (some none) o =
    (if not companion then enodev else if not has_method then enodev else eio, o)
stk8321_apply_acpi_orientation companion has_method (some (some (integer n))) o =
    (if not companion then enodev else if not has_method then enodev else eio, o)
stk8321_apply_acpi_orientation companion has_method (some (some other_object)) o =
    (if not companion then enodev else if not has_method then enodev else eio, o)
stk8321_apply_acpi_orientation companion has_method (some (some (buffer (a ∷ b ∷ c ∷ [])))) o =
    if not companion
    then (enodev, o)
    else if not has_method
    then (enodev, o)
    else (success, rotate 2 c (rotate 1 b (rotate 0 a zeromatrix)))
stk8321_apply_acpi_orientation companion has_method (some (some (buffer bytes))) o =
    (if not companion then enodev else if not has_method then enodev else eio, o)

-- What is read: a value for IIO_VAL_INT, two for IIO_VAL_INT_PLUS_MICRO, or an error.
pub data Reading : Type 0 where
  val_int : ℤ → Reading
  val_int_plus_micro : ℕ → ℕ → Reading
  failed : ℤ → Reading

-- The mask of a request.
pub data ChanInfo : Type 0 where
  info_raw info_samp_freq info_other : ChanInfo

-- The two bytes of an axis.
abbrev pub axis_value : ℤ → ℤ → ℤ
axis_value (pos low_byte) (pos high_byte) = pos (bit_or (high_byte <<< 4) (low_byte >>> 4))
axis_value (negsuc n) high_byte = negsuc n
axis_value (pos low_byte) (negsuc n) = negsuc n

module _ {S : Type 0} (b : I2c S) where
  unfoldable pub stk8321_read_axis : ℕ → ℕ → M S ℤ
  stk8321_read_axis reg1 reg2 = do
    low_byte ← b.read_byte reg1
    if is_negative low_byte
        then pure low_byte
        else (do high_byte ← b.read_byte reg2; pure (axis_value low_byte high_byte))

  unfoldable pub stk8321_read_x : M S ℤ
  stk8321_read_x = stk8321_read_axis 0x02 0x03

  unfoldable pub stk8321_read_y : M S ℤ
  stk8321_read_y = stk8321_read_axis 0x04 0x05

  unfoldable pub stk8321_read_z : M S ℤ
  stk8321_read_z = stk8321_read_axis 0x06 0x07

  unfoldable pub stk8321_set_range : ℕ → M S ℤ
  stk8321_set_range range = b.write_byte reg_rangesel range

  unfoldable pub stk8321_set_power_mode : ℕ → M S ℤ
  stk8321_set_power_mode mode = b.write_byte reg_powmode mode

  unfoldable pub stk8321_set_bandwidth : ℕ → M S ℤ
  stk8321_set_bandwidth bw = b.write_byte reg_bwsel bw

  abbrev pub by_bus : {A : Type 0} → M S A → M (Accel S) A
  by_bus m a = let r = m a.bus in (r.0, record a { bus = r.1 })

  -- The value of an axis with its sign, if it was read. `realbits` is 12.
  abbrev pub extended : (ℤ → ℕ → ℤ) → ℤ → Reading
  extended sign_extend32 (negsuc n) = failed (negsuc n)
  extended sign_extend32 (pos n) = val_int (sign_extend32 (pos n) 11)

  -- `address` is that of the channel.
  unfoldable pub stk8321_read_raw : (ℤ → ℕ → ℤ) → ℕ → ChanInfo → M (Accel S) Reading
  stk8321_read_raw sign_extend32 address info_raw =
      if address == 0
      then (do ret ← by_bus stk8321_read_x; pure (extended sign_extend32 ret))
      else if address == 1
      then (do ret ← by_bus stk8321_read_y; pure (extended sign_extend32 ret))
      else if address == 2
      then (do ret ← by_bus stk8321_read_z; pure (extended sign_extend32 ret))
      else pure (failed einval)
  stk8321_read_raw sign_extend32 address info_samp_freq =
      (λ a. let f = freq_at samp_freq_table a.samp_freq in (val_int_plus_micro f.val f.val2, a))
  stk8321_read_raw sign_extend32 address info_other = pure (failed einval)

  -- The three writes of a frequency that was found.
  abbrev pub set_frequency : Option ℕ → M (Accel S) ℤ
  set_frequency none = pure einval
  set_frequency (some index) = do
    (λ a. (tt, record a { samp_freq = index }))
    by_bus (stk8321_set_power_mode powmode_suspend)
    ret ← by_bus (stk8321_set_bandwidth (freq_at samp_freq_table index).reg_bits)
    by_bus (stk8321_set_power_mode powmode_normal)
    pure ret

  unfoldable pub stk8321_write_raw : ℤ → ℤ → ChanInfo → M (Accel S) ℤ
  stk8321_write_raw val val2 info_samp_freq =
      set_frequency (matching_index val val2 samp_freq_table 0 none)
  stk8321_write_raw val val2 info_raw = pure einval
  stk8321_write_raw val val2 info_other = pure einval

  -- `is_00` and `is_01` are whether the device's name has the suffix, `geto` is the result of
  -- `stk8321_apply_acpi_orientation` for the matrix that was there, and `iio_read_mount_matrix` that of
  -- the kernel's function.
  unfoldable pub stk8321_apply_orientation :
      Bool → Bool → (Rotation → ℤ × Rotation) → (Rotation → ℤ × Rotation) → M (Accel S) ℤ
  stk8321_apply_orientation is_00 is_01 geto iio_read_mount_matrix a =
      let r = if is_00 then geto a.orientation else (pos 1, a.orientation) in
      let named =
        if is_00 then some "accel-display" else if is_01 then some "accel-base" else a.label in
      let x = if nonzero r.0 then iio_read_mount_matrix r.1 else r in
      (x.0, record a { orientation = x.1; label = named })

  -- `created` is whether `i2c_acpi_new_device` gives a device.
  unfoldable pub stk8321_dual_probe : Bool → Accel S → Accel S
  stk8321_dual_probe created a = record a { second_client = created }

  unfoldable pub stk8321_dual_remove : Accel S → Accel S
  stk8321_dual_remove a = record a { second_client = false }

  -- The writes of the start, in suspend mode.
  abbrev pub set_up : M (Accel S) (Unit {0})
  set_up = do
    (λ a. (tt, record a { samp_freq = 0 }))
    by_bus (stk8321_set_power_mode powmode_suspend)
    by_bus (stk8321_set_range rangesel_2g)
    by_bus (stk8321_set_bandwidth (freq_at samp_freq_table 0).reg_bits)
    by_bus (b.write_byte reg_datasetup 0)
    by_bus (stk8321_set_power_mode powmode_normal)
    pure tt

  -- `orient` is the orientation that is applied, `dual` whether there is no identifier but an ACPI
  -- object, and `registered` the status of the registration. The allocated data is zero.
  unfoldable pub stk8321_probe : Bool → M (Accel S) ℤ → Bool → Bool → ℤ → M (Accel S) ℤ
  unfolding stk8321_dual_probe
  stk8321_probe allocated orient dual created registered =
      if not allocated then pure enomem else (do
        ret ← by_bus (b.write_byte reg_swrst 0x00)
        if is_negative ret then pure ret else (do
          set_up
          ret ← orient
          if nonzero ret
              then pure ret
              else (λ a. (registered, if dual then stk8321_dual_probe created a else a))))

  unfoldable pub stk8321_remove : M (Accel S) (Unit {0})
  unfolding stk8321_dual_remove
  stk8321_remove a =
      (by_bus (stk8321_set_power_mode powmode_suspend) >> pure tt) (stk8321_dual_remove a)

  unfoldable pub stk8321_suspend : M (Accel S) ℤ
  stk8321_suspend = by_bus (stk8321_set_power_mode powmode_suspend) >> pure success

  unfoldable pub stk8321_resume : M (Accel S) ℤ
  stk8321_resume = by_bus (stk8321_set_power_mode powmode_normal) >> pure success
