-- ===== src/Uniwill/MiniLed.antt =====
-- src/uniwill_keyboard.h: the local dimming of the mini LED display, which the WMI method toggles, and
-- the raw values of the battery.
use tuxedo_drivers.Common.{
  ℕ, Bool, M, pure, ◌>>=◌, ◌>>◌, if◌then◌else◌, ◌==◌, ltb, ◌&&◌, ℤ, pos, success, eio, einval,
  nonzero, Option, none, some,
}
use tuxedo_drivers.Uniwill.Access.{Uniwill, uniwill_wmi_evaluate, uniwill_read_ec_ram_u16}
use tuxedo_drivers.Uniwill.Charging.{to_bool, of_bool}

module _ {S : Type 0} where
  unfoldable pub uw_set_mini_led_local_dimming : ℕ → M (Uniwill S) ℤ
  uw_set_mini_led_local_dimming mini_led_local_dimming = do
    result ← uniwill_wmi_evaluate 5 (if mini_led_local_dimming == 1 then 0x0E else 0x0D)
    if nonzero result
        then pure result
        else (λ u. (result, record u { mini_led_last_written = to_bool mini_led_local_dimming }))

  unfoldable pub uw_get_mini_led_local_dimming : Uniwill S → ℤ × ℕ
  uw_get_mini_led_local_dimming u = (success, of_bool u.mini_led_last_written)

  -- The number that is printed.
  unfoldable pub uw_mini_led_local_dimming_show : Uniwill S → ℤ × ℕ
  unfolding uw_get_mini_led_local_dimming
  uw_mini_led_local_dimming_show u = uw_get_mini_led_local_dimming u

  -- `parsed` is what `kstrtou8` makes of the text, `none` for its error.
  unfoldable pub uw_mini_led_local_dimming_store : Option ℕ → ℕ → M (Uniwill S) ℤ
  uw_mini_led_local_dimming_store none size = pure einval
  uw_mini_led_local_dimming_store (some value) size = if ltb 1 value then pure einval else (do
    result ← uw_set_mini_led_local_dimming value
    pure (if nonzero result then eio else pos size))

  -- Whether the attributes are there; `created` is whether `sysfs_create_group` returns 0.
  unfoldable pub uw_mini_led_local_dimming_init : Bool → M (Uniwill S) Bool
  uw_mini_led_local_dimming_init created = do
    loaded ← (λ u. (u.feats.has_mini_led_local_dimming && created, u))
    uw_set_mini_led_local_dimming 0
    pure loaded

  -- A status, or the word that is printed; `un` is what the bytes hold before they are written.
  unfoldable pub raw_cycle_count_show : ℕ → M (Uniwill S) (ℤ × Option ℕ)
  raw_cycle_count_show un = uniwill_read_ec_ram_u16 un 0x04A7 0x04A6

  unfoldable pub raw_xif1_show : ℕ → M (Uniwill S) (ℤ × Option ℕ)
  raw_xif1_show un = uniwill_read_ec_ram_u16 un 0x0403 0x0402

  unfoldable pub raw_xif2_show : ℕ → M (Uniwill S) (ℤ × Option ℕ)
  raw_xif2_show un = uniwill_read_ec_ram_u16 un 0x0405 0x0404
