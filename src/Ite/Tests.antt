-- ===== src/Ite/Tests.antt =====
-- The theorems of the ITE drivers at concrete controllers, which are nothing but what they show.
use tuxedo_drivers.Common.{
  ℕ, ◌<◌, ◌≡◌, refl, arith, true, false, if◌then◌else◌, ◌==◌, pos, success, some, [],
}
use tuxedo_drivers.Uniwill.Dmi.{Dmi}
use tuxedo_drivers.Uniwill.Touchpad.{byte_at}
use tuxedo_drivers.Ite.{Hid, Color, Device}
use tuxedo_drivers.Ite.Scaling.{Dimmer, IsColor, color_scaling, color_scaling-Dimmer}
use tuxedo_drivers.Ite.Keyboard.{Driver, row_bytes, leds_set_brightness_mc}
use tuxedo_drivers.Ite.Keyboard.Rows.{Shown, set_row, IsPerkey, key_color, key_set_shown}
use tuxedo_drivers.Ite.Lightbar.{
  Lightbar, color_scaling as bar_scaling, driver_suspend_callb, driver_resume_callb,
}
use tuxedo_drivers.Ite.Lightbar.Resume.{Shown as Bar, IsLightbar, p6010, resume_shows}
use tuxedo_drivers.Ite.Ite829x.{get_led_id, Driver as Keys, driver_resume_callb as keys_resume}
use tuxedo_drivers.Ite.Ite829x.Resume.{sent_color, set_id, IsKeys, resume_overwrites}

-- No entry of the DMI tables matches.
abbrev unknown_device : Dmi
unknown_device field text = false

abbrev orange : Color
orange = record { red = 255; green = 100; blue = 10 }

abbrev black : Color
black = record { red = 0; green = 0; blue = 0 }

abbrev perkey_device : Device
perkey_device = record { product = 0x600b; bcd_device = 3 }

abbrev rows_hid : Hid Shown
rows_hid = record {
  raw_request = λ bytes s. (
    pos 8,
    if byte_at bytes 0 == 0x16
        then record s { announced = byte_at bytes 2 }
        else record s { level = byte_at bytes 4 },
  );
  output_report = λ bytes s. (pos 65, record s { rows = set_row s.announced bytes s.rows });
}

rows_hid-IsPerkey : IsPerkey rows_hid (λ s. s)
rows_hid-IsPerkey = record {
  takes_params = λ b s h. refl;
  takes_row = λ row s h. refl;
  takes_bytes = λ bytes s. refl;
  reports = λ bytes s. (65, refl);
}

abbrev dark_keys : Driver Shown
dark_keys = record {
  perkey = record { row_data = λ row index. 0; brightness = 0; leds_brightness = 0 };
  zones = record { colors = []; zones_brightness = 0; zones_leds_brightness = 0 };
  device_buffer_input = false;
  hid = record { level = 0; announced = 0; rows = λ row. [] };
}

color_scaling-Dimmer_example :
    Dimmer (color_scaling unknown_device perkey_device (some 0) orange) orange
unfolding IsColor
color_scaling-Dimmer_example =
    color_scaling-Dimmer orange (omega arith, omega arith, omega arith) unknown_device perkey_device
      (some 0)

key_set_shown_example :
    let x =
      (leds_set_brightness_mc rows_hid unknown_device perkey_device 43 orange 200 dark_keys).1 in
    (key_color x.perkey.row_data 43 ≡ color_scaling unknown_device perkey_device (some 2) orange)
    × (key_color x.perkey.row_data 44 ≡ black)
    × ((row : ℕ) → row < 6 → x.hid.rows row ≡ row_bytes x.perkey.row_data row)
    × (x.hid.level ≡ 0x32)
key_set_shown_example =
    key_set_shown rows_hid (λ s. s) rows_hid-IsPerkey unknown_device perkey_device 43 44 200 orange
      dark_keys (omega arith) (ground arith) refl

abbrev bar_hid : Hid Bar
bar_hid = record {
  raw_request = λ bytes s. (
    pos 8,
    if byte_at bytes 0 == 0x14
        then record s {
          shown_color = record {
            red = byte_at bytes 3;
            green = byte_at bytes 4;
            blue = byte_at bytes 5;
          };
        }
        else if byte_at bytes 0 == 0x1a
        then record s { on = byte_at bytes 2 == 0x01 }
        else record s { level = byte_at bytes 4 },
  );
  output_report = λ bytes s. (pos 65, s);
}

bar_hid-IsLightbar : IsLightbar bar_hid (λ s. s) 0x00 0x00 0x02 0x08
bar_hid-IsLightbar = record {
  takes_color = λ c s. refl;
  takes_level = λ b s. refl;
  takes_on = λ s. refl;
  takes_off = λ s. refl;
}

abbrev lightbar : Lightbar Bar
lightbar = record {
  color = orange;
  brightness = 50;
  color_list = [];
  hid = record { on = true; level = 10; shown_color = black };
}

resume_shows_example :
    let x = driver_suspend_callb bar_hid unknown_device 0x6010 lightbar in
    let y = driver_resume_callb bar_hid unknown_device 0x6010 lightbar in
    (x.0 ≡ success)
    × (x.1.hid.on ≡ false)
    × (y.0 ≡ success)
    × (y.1.hid ≡ record { on = true; level = 50; shown_color = orange })
unfolding bar_scaling
resume_shows_example =
    resume_shows bar_hid (λ s. s) unknown_device 0x6010 0x00 0x00 0x02 0x08 lightbar p6010
      bar_hid-IsLightbar (omega arith)

abbrev keys_hid : Hid (ℕ → Color)
keys_hid = record {
  raw_request = λ bytes s. (
    pos 6,
    if byte_at bytes 1 == 0x01
        then set_id (byte_at bytes 2)
            (record { red = byte_at bytes 3; green = byte_at bytes 4; blue = byte_at bytes 5 }) s
        else s,
  );
  output_report = λ bytes s. (pos 65, s);
}

keys_hid-IsKeys : IsKeys keys_hid (λ s. s)
keys_hid-IsKeys = record { takes_key = λ id c s. refl }

-- All keys are orange, in the mode of green.
abbrev orange_keys : Keys (ℕ → Color)
orange_keys = record {
  brightness = 5;
  mode = 1;
  colors = λ row col. orange;
  last_key = 0;
  scheduled = false;
  hid = λ id. orange;
}

abbrev green : Color
green = record { red = 0; green = 255; blue = 0 }

resume_overwrites_example :
    let x = keys_resume keys_hid orange_keys in
    (x.0 ≡ success) × (x.1.hid (get_led_id 2 6) ≡ sent_color green) × (x.1.colors 2 6 ≡ green)
resume_overwrites_example =
    resume_overwrites keys_hid (λ s. s) keys_hid-IsKeys 2 6 orange_keys (omega arith) (omega arith)
      (omega arith)
