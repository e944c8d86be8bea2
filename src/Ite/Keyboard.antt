-- ===== src/Ite/Keyboard.antt =====
-- src/ite_8291/ite_8291.c: the keyboard backlight, with single keys or with four zones.
pub mod Rows
pub mod Probe
use Prim.Native.String.{String}
use tuxedo_drivers.Common.{
  ℕ, zero, suc, ◌+◌, ◌*◌, ◌/◌, ◌%◌, ◌^◌, Bool, true, false, not, M, pure, ◌>>=◌, ◌>>◌, when,
  if◌then◌else◌, ◌==◌, ltb, leb, u8, ◌&&◌, Ram, update, ℤ, pos, negsuc, success, einval, enodev,
  enomem, nonzero, Option, none, some, List, [], ◌∷◌,
}
use tuxedo_drivers.Uniwill.Dmi.{DmiField, Dmi}
use tuxedo_drivers.Uniwill.Dmi.DmiField.{product_sku}
use tuxedo_drivers.Ite.{Hid, Color, Device, is_negative, HwCall, start_hw, stop_hw}
use tuxedo_drivers.Ite.Scaling.{color_scaling}

abbrev pub brightness_max : ℕ
brightness_max = 0x32

abbrev pub leds_per_row_max : ℕ
leds_per_row_max = 21

abbrev pub row_data_padding : ℕ
row_data_padding = 1 + 1

abbrev pub row_data_length : ℕ
row_data_length = row_data_padding + leds_per_row_max * 3

abbrev pub nr_rows : ℕ
nr_rows = 6

-- `row_data_t`: a row's number and an index to a byte.
abbrev pub RowData : Type 0
RowData = ℕ → Ram

abbrev pub set_byte : ℕ → ℕ → ℕ → RowData → RowData
set_byte row index byte d r = if r == row then update (d row) index byte else d r

-- `brightness` is that of the driver data, and `leds_brightness` that of all LED class devices.
pub record Perkey : Type 0 where
  pub row_data : RowData
  pub brightness : ℕ
  pub leds_brightness : ℕ

-- The colours of the LED class devices, which the LED core sets, and the brightness of all.
pub record Zones : Type 0 where
  pub colors : List Color
  pub zones_brightness : ℕ
  pub zones_leds_brightness : ℕ

-- The driver data, with both kinds of device data, and the state of the device.
pub record Driver (S : Type 0) : Type 0 where
  pub perkey : Perkey
  pub zones : Zones
  pub device_buffer_input : Bool
  pub hid : S

-- The number of a row and of a column; a negative one is refused as one that is too large is.
unfoldable pub row_data_set : Dmi → Device → RowData → ℕ → ℕ → Color → ℤ × RowData
row_data_set dmi dev d row column color =
    let c = color_scaling dmi dev (some row) color in
    if leb nr_rows row then (einval, d) else if leb leds_per_row_max column then (einval, d) else (
      success,
      set_byte row (row_data_padding + 0 * leds_per_row_max + column) c.blue (
          set_byte row (row_data_padding + 1 * leds_per_row_max + column) c.green
            (set_byte row (row_data_padding + 2 * leds_per_row_max + column) c.red d)),
    )

-- A number of bytes from an index on.
abbrev pub bytes_from : ℕ → ℕ → Ram → List ℕ
bytes_from zero index ram = []
bytes_from (suc n) index ram = ram index ∷ bytes_from n (index + 1) ram

abbrev pub row_bytes : RowData → ℕ → List ℕ
row_bytes d row = bytes_from row_data_length 0 (d row)

-- `ite8291_driver_data_setup`: whether the device has zones.
unfoldable pub has_zones : Device → Bool
has_zones dev = dev.product == 0xce00 && dev.bcd_device == 0x0002

module _ {S : Type 0} (h : Hid S) where
  unfoldable pub ite8291_write_control : List ℕ → M S ℤ
  ite8291_write_control ctrl_data = h.raw_request ctrl_data

  -- The loop over the rows, from how many are left and the next one.
  unfoldable pub write_rows_from : RowData → ℕ → ℕ → ℤ → M S ℤ
  write_rows_from d zero row (pos n) = pure success
  write_rows_from d zero row (negsuc n) = pure (negsuc n)
  write_rows_from d (suc rounds) row result = do
    ite8291_write_control (0x16 ∷ 0x00 ∷ row ∷ 0x00 ∷ 0x00 ∷ 0x00 ∷ 0x00 ∷ 0x00 ∷ [])
    result ← h.output_report (row_bytes d row)
    if is_negative result then pure result else write_rows_from d rounds (row + 1) result

  unfoldable pub ite8291_write_rows : RowData → ℕ → M S ℤ
  unfolding write_rows_from
  ite8291_write_rows d brightness = do
    ite8291_write_control (
        0x08
        ∷ 0x02
        ∷ 0x33
        ∷ 0x00
        ∷ (if ltb brightness_max brightness then brightness_max else brightness)
        ∷ 0x00
        ∷ 0x00
        ∷ 0x00
        ∷ [])
    write_rows_from d nr_rows 0 success

  abbrev pub by_hid : {A : Type 0} → M S A → M (Driver S) A
  by_hid m k = let r = m k.hid in (r.0, record k { hid = r.1 })

  unfoldable pub ite8291_perkey_write_state : M (Driver S) ℤ
  ite8291_perkey_write_state k = by_hid (ite8291_write_rows k.perkey.row_data k.perkey.brightness) k

  unfoldable pub ite8291_perkey_write_on : M (Driver S) ℤ
  ite8291_perkey_write_on = pure success

  unfoldable pub ite8291_perkey_write_off : M (Driver S) ℤ
  ite8291_perkey_write_off =
      by_hid (ite8291_write_control (0x08 ∷ 0x01 ∷ 0x00 ∷ 0x00 ∷ 0x00 ∷ 0x00 ∷ 0x00 ∷ 0x00 ∷ []))

  unfoldable pub ite8291_zones_write_on : M (Driver S) ℤ
  ite8291_zones_write_on = do
    by_hid (ite8291_write_control (0x1a ∷ 0x00 ∷ 0x01 ∷ 0x04 ∷ 0x00 ∷ 0x00 ∷ 0x00 ∷ 0x01 ∷ []))
    pure success

  unfoldable pub ite8291_zones_write_off : M (Driver S) ℤ
  ite8291_zones_write_off = do
    by_hid (ite8291_write_control (0x09 ∷ 0x02 ∷ 0x00 ∷ 0x00 ∷ 0x00 ∷ 0x00 ∷ 0x00 ∷ 0x00 ∷ []))
    by_hid (ite8291_write_control (0x12 ∷ 0x00 ∷ 0x03 ∷ 0x00 ∷ 0x00 ∷ 0x00 ∷ 0x00 ∷ 0x00 ∷ []))
    by_hid (ite8291_write_control (0x08 ∷ 0x05 ∷ 0x00 ∷ 0x00 ∷ 0x00 ∷ 0x00 ∷ 0x00 ∷ 0x00 ∷ []))
    by_hid (ite8291_write_control (0x08 ∷ 0x01 ∷ 0x00 ∷ 0x00 ∷ 0x00 ∷ 0x00 ∷ 0x00 ∷ 0x00 ∷ []))
    by_hid (ite8291_write_control (0x1a ∷ 0x00 ∷ 0x00 ∷ 0x00 ∷ 0x00 ∷ 0x00 ∷ 0x00 ∷ 0x01 ∷ []))
    pure success

  module _ (dmi : Dmi) (dev : Device) where
    -- The LED class device of a key has the channel and, set by the LED core, the colour.
    unfoldable pub leds_set_brightness_mc : ℕ → Color → ℕ → M (Driver S) (Unit {0})
    leds_set_brightness_mc channel color brightness k =
        let set =
          row_data_set dmi dev k.perkey.row_data (channel / leds_per_row_max)
            (channel % leds_per_row_max) color in
        let k2 = record k {
          perkey = record {
            row_data = set.1;
            brightness = u8 brightness;
            leds_brightness = brightness;
          };
        } in
        (tt, if k.device_buffer_input then k2 else (ite8291_perkey_write_state k2).1)

    -- The colours of the zones, from the number of the first one on.
    unfoldable pub write_zones : ℕ → List Color → M S (Unit {0})
    write_zones zone [] = pure tt
    write_zones zone (color ∷ colors) = do
      scaled ← pure (color_scaling dmi dev none color)
      ite8291_write_control
          (0x14 ∷ 0x00 ∷ (zone + 1) ∷ scaled.red ∷ scaled.green ∷ scaled.blue ∷ 0x00 ∷ 0x00 ∷ [])
      write_zones (zone + 1) colors

    unfoldable pub ite8291_zones_write_state : M (Driver S) ℤ
    unfolding write_zones
    ite8291_zones_write_state k =
        (by_hid (write_zones 0 k.zones.colors)
            >> by_hid (
                ite8291_write_control (
                  0x08
                  ∷ 0x02
                  ∷ 0x01
                  ∷ 0x03
                  ∷ u8 k.zones.zones_leds_brightness
                  ∷ 0x08
                  ∷ 0x00
                  ∷ 0x00
                  ∷ []))
            >> pure success)
          k

    -- The LED core has set the zone's colour.
    unfoldable pub leds_zones_set_brightness_mc : ℕ → M (Driver S) (Unit {0})
    leds_zones_set_brightness_mc brightness k =
        let z = record (k.zones) {
          zones_brightness = u8 brightness;
          zones_leds_brightness = brightness;
        } in
        (tt, (ite8291_zones_write_state (record k { zones = z })).1)

    abbrev pub device_write_on : M (Driver S) ℤ
    device_write_on = if has_zones dev then ite8291_zones_write_on else ite8291_perkey_write_on

    abbrev pub device_write_off : M (Driver S) ℤ
    device_write_off = if has_zones dev then ite8291_zones_write_off else ite8291_perkey_write_off

    abbrev pub device_write_state : M (Driver S) ℤ
    device_write_state =
        if has_zones dev then ite8291_zones_write_state else ite8291_perkey_write_state

    -- `parsed` is what `kstrtobool` makes of the text, `none` for its error.
    unfoldable pub buffer_input_store : Option Bool → ℕ → M (Driver S) ℤ
    buffer_input_store none size k = (einval, k)
    buffer_input_store (some buffered) size k =
        let k2 = record k { device_buffer_input = buffered } in
        (pos size, if buffered then k2 else (device_write_state k2).1)

    unfoldable pub buffer_input_show : Driver S → Bool
    buffer_input_show k = k.device_buffer_input

    unfoldable pub driver_suspend_callb : M (Driver S) ℤ
    driver_suspend_callb = device_write_off >> pure success

    unfoldable pub driver_resume_callb : M (Driver S) ℤ
    driver_resume_callb = device_write_on >> device_write_state
