-- ===== src/Ite/Ite829x.antt =====
-- src/ite_829x/ite_829x.c: the keyboard of Clevo devices with single keys. A key that cycles the
-- modes is handled by the driver. The device is bound: the pointer `kbdev` is set.
pub mod Resume
use tuxedo_drivers.Common.{
  ℕ, zero, suc, ◌+◌, ◌*◌, ◌/◌, ◌%◌, Bool, true, false, not, M, pure, ◌>>=◌, ◌>>◌, if◌then◌else◌,
  ◌==◌, ltb, leb, u8, ◌&&◌, ◌||◌, bit_and, bit_or, ◌<<<◌, ◌>>>◌, ℤ, success, nonzero, List, [], ◌∷◌,
}
use tuxedo_drivers.Uniwill.Touchpad.{byte_at}
use tuxedo_drivers.Ite.{Hid, Color, HwCall, start_hw, stop_hw}

abbrev pub get_led_id : ℕ → ℕ → ℕ
get_led_id row col = u8 (bit_or (bit_and row 0x07 <<< 5) (bit_and col 0x1f))

abbrev pub mode_to_color : List ℕ
mode_to_color = 0xff0000 ∷ 0x00ff00 ∷ 0x0000ff ∷ 0xffff00 ∷ 0xff00ff ∷ 0x00ffff ∷ 0xffffff ∷ []

abbrev pub mode_map_length : ℕ
mode_map_length = 7

abbrev pub mode_extras_length : ℕ
mode_extras_length = 2

-- `ti_data`, the intensities of the LED class devices by row and column, the state of the device,
-- and the key that was pressed last, with whether its work is scheduled.
pub record Driver (S : Type 0) : Type 0 where
  pub brightness : ℕ
  pub mode : ℕ
  pub colors : ℕ → ℕ → Color
  pub last_key : ℕ
  pub scheduled : Bool
  pub hid : S

abbrev pub set_at : ℕ → ℕ → Color → (ℕ → ℕ → Color) → ℕ → ℕ → Color
set_at row col c colors r k = if r == row && k == col then c else colors r k

abbrev pub color_of_word : ℕ → Color
color_of_word w = record {
  red = bit_and (w >>> 0x10) 0xff;
  green = bit_and (w >>> 0x08) 0xff;
  blue = bit_and w 0xff;
}

-- The letters of the name.
abbrev pub is_letter : ℕ → ℕ → Bool
is_letter row col =
    row == 2 && col == 6
    || row == 2 && col == 8
    || row == 4 && col == 4
    || row == 2 && col == 4
    || row == 3 && col == 4
    || row == 2 && col == 10

abbrev pub letter_color : ℕ → ℕ → Color
letter_color row col =
    if is_letter row col
    then record { red = 0xff; green = 0x00; blue = 0x00 }
    else record { red = 0xff; green = 0xff; blue = 0xff }

-- The loops over 6 rows and 20 columns, from how many keys are left and the number of the next one.
unfoldable pub for_keys : {T : Type 0} → (ℕ → ℕ → M T (Unit {0})) → ℕ → ℕ → M T (Unit {0})
for_keys body zero key = pure tt
for_keys body (suc rounds) key = body (key / 20) (key % 20) >> for_keys body rounds (key + 1)

module _ {S : Type 0} (h : Hid S) where
  unfoldable pub keyb_send_data : ℕ → ℕ → ℕ → ℕ → ℕ → M (Driver S) ℤ
  keyb_send_data cmd d0 d1 d2 d3 d =
      let r = h.raw_request (0xcc ∷ cmd ∷ d0 ∷ d1 ∷ d2 ∷ d3 ∷ []) d.hid in
      (r.0, record d { hid = r.1 })

  -- The intensities of a key are sent.
  abbrev pub send_key : ℕ → ℕ → Color → M (Driver S) (Unit {0})
  send_key row col c =
      keyb_send_data 0x01 (get_led_id row col) (u8 c.red) (u8 c.green) (u8 c.blue) >> pure tt

  -- The intensities of a key are set and sent.
  unfoldable pub set_key : Color → ℕ → ℕ → M (Driver S) (Unit {0})
  unfolding keyb_send_data
  set_key c row col d = send_key row col c (record d { colors = set_at row col c d.colors })

  unfoldable pub keyb_set_all : Color → M (Driver S) (Unit {0})
  keyb_set_all c = for_keys (set_key c) 120 0

  unfoldable pub send_mode : ℕ → M (Driver S) (Unit {0})
  unfolding keyb_set_all
  send_mode mode =
      if ltb mode mode_map_length
      then keyb_set_all (color_of_word (byte_at mode_to_color mode))
      else if mode == mode_map_length
      then for_keys (λ row col. set_key (letter_color row col) row col) 120 0
      else if mode == mode_map_length + 1
      then keyb_send_data 0x00 0x09 0x00 0x00 0x00 >> pure tt
      else pure tt

  -- The LED core has set the intensities of the device at the row and the column.
  unfoldable pub leds_set_brightness_mc : ℕ → ℕ → ℕ → M (Driver S) (Unit {0})
  leds_set_brightness_mc row col brightness d =
      (keyb_send_data 0x09 (u8 brightness) 0x02 0x00 0x00 >> send_key row col (d.colors row col))
        (record d { brightness = brightness })

  abbrev pub next_mode : ℕ → ℕ
  next_mode mode = if leb (mode_map_length + mode_extras_length) (mode + 1) then 0 else mode + 1

  -- `is_next` is whether the key is KEY_LIGHTS_TOGGLE.
  unfoldable pub key_actions : Bool → M (Driver S) (Unit {0})
  unfolding send_mode
  key_actions is_next d =
      if is_next
      then send_mode (next_mode d.mode) (record d { mode = next_mode d.mode })
      else (tt, d)

  -- `down` and `is_keycode` are from the notification, `locked` is whether `input_lock` is held.
  unfoldable pub keyboard_notifier_callb : Bool → Bool → Bool → ℕ → Driver S → Driver S
  keyboard_notifier_callb down locked is_keycode key d =
      if not down
      then d
      else if locked
      then d
      else if is_keycode
      then record d { last_key = key; scheduled = true }
      else d

  unfoldable pub ite_829x_key_work_handler : (ℕ → Bool) → Driver S → Driver S
  unfolding key_actions
  ite_829x_key_work_handler is_next d =
      (key_actions (is_next d.last_key) (record d { scheduled = false })).1

  abbrev pub send_brightness : M (Driver S) (Unit {0})
  send_brightness d = (keyb_send_data 0x09 (u8 d.brightness) 0x02 0x00 0x00 >> pure tt) d

  -- What is stored is sent.
  unfoldable pub send_stored : ℕ → ℕ → M (Driver S) (Unit {0})
  send_stored row col d = send_key row col (d.colors row col) d

  unfoldable pub driver_resume_callb : M (Driver S) ℤ
  unfolding send_stored send_mode
  driver_resume_callb = do
    send_brightness
    for_keys send_stored 120 0
    mode ← (λ d. (d.mode, d))
    send_mode mode
    pure success

  abbrev pub white : Color
  white = record { red = 255; green = 255; blue = 255 }

  -- `parsed`, `started` and `opened` are the answers of the HID functions; those to the registrations
  -- are ignored.
  unfoldable pub probe_callb : ℤ → ℤ → ℤ → M (List HwCall × Driver S) ℤ
  probe_callb parsed started opened (calls, d) =
      if nonzero parsed
      then (parsed, ((stop_hw calls).1, d))
      else (let r = start_hw started opened calls in
          if nonzero r.0
          then (r.0, (r.1, d))
          else (let sent =
                (send_brightness >> for_keys (λ row col. send_key row col white) 120 0) d in
              (success, (r.1, record (sent.1) { colors = λ row col. white }))))

  unfoldable pub remove_callb : M (List HwCall × Driver S) (Unit {0})
  remove_callb (calls, d) = (tt, ((stop_hw calls).1, d))
