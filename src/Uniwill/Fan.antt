-- ===== src/Uniwill/Fan.antt =====
-- src/uniwill_keyboard.h: fan control, by the custom fan tables where the EC has the universal fan
-- control, and by the "full fan mode" elsewhere. `un` is what a local byte holds before it is
-- written, `start` the locals of a write with retries.
pub mod Mode
pub mod Speed
pub mod Only
pub mod Table
pub mod Init
pub mod Restart
pub mod Suspend
use tuxedo_drivers.Common.{
  ℕ, zero, suc, ◌+◌, ◌-◌, ◌*◌, ◌/◌, ◌^◌, Bool, true, false, not, M, pure, ◌>>=◌, ◌>>◌, when,
  if◌then◌else◌, ◌==◌, ltb, ◌&&◌, bit_and, bit_or, not8, test_bits, u8, ◌>>>◌, ℤ, success, einval,
  u32_of_int, Option, none, some, nonzero,
}
use tuxedo_drivers.Uniwill.Interface.{Reply}
use tuxedo_drivers.Uniwill.Access.{
  Uniwill, uniwill_read_ec_ram, uniwill_write_ec_ram, uniwill_write_ec_ram_with_retry,
}

abbrev pub nb02_fan_speed_max : ℕ
nb02_fan_speed_max = 0xc8

abbrev pub fan_on_min_speed_percent : ℕ
fan_on_min_speed_percent = 25

-- No values between fan-off and the minimum fan-on-speed, and 1 for 0.
unfoldable pub allowed_speed : ℕ → ℕ
allowed_speed fan_speed =
    let speed =
      if ltb fan_speed (fan_on_min_speed_percent * nb02_fan_speed_max / 2 / 100)
      then 0
      else if ltb fan_speed (fan_on_min_speed_percent * nb02_fan_speed_max / 100)
      then fan_on_min_speed_percent * nb02_fan_speed_max / 100
      else fan_speed in
    if speed == 0 then 1 else speed

module _ {S : Type 0} where
  -- A change of the driver's variables.
  abbrev pub assign : (Uniwill S → Uniwill S) → M (Uniwill S) (Unit {0})
  assign f u = (tt, f u)

  -- A write whose status is dropped.
  abbrev pub write : ℕ → ℕ → M (Uniwill S) (Unit {0})
  write address byte u = (tt, (uniwill_write_ec_ram address byte u).1)

  abbrev pub read : ℕ → ℕ → M (Uniwill S) ℕ
  read address un u = let r = uniwill_read_ec_ram address un u in (r.0.byte, r.1)

  unfoldable pub set_full_fan_mode : ℕ → Bool → M (Uniwill S) ℤ
  set_full_fan_mode un enable = do
    mode_data ← read 0x0751 un
    if enable && not (test_bits mode_data 0x40)
        then uniwill_write_ec_ram 0x0751 (bit_or mode_data 0x40)
        else if test_bits mode_data 0x40
        then uniwill_write_ec_ram 0x0751 (bit_and mode_data (not8 0x40))
        else pure success

  module _ (start : Reply) where
    abbrev pub write_3 : ℕ → ℕ → M (Uniwill S) (Unit {0})
    write_3 address byte u = (tt, (uniwill_write_ec_ram_with_retry start address byte 3 u).1)

    -- `for (i = first; i < first + rounds; ++i)`: the zones of both fan tables that cannot be
    -- reached.
    unfoldable pub write_zones : ℕ → ℕ → M (Uniwill S) (Unit {0})
    write_zones zero i = pure tt
    write_zones (suc rounds) i = do
      write_3 (0x0f00 + i) (115 + i + 1)
      write_3 (0x0f10 + i) (115 + i)
      write_3 (0x0f20 + i) 0xc8
      write_3 (0x0f30 + i) (115 + i + 1)
      write_3 (0x0f40 + i) (115 + i)
      write_3 (0x0f50 + i) 0xc8
      write_zones rounds (i + 1)

    unfoldable pub init_tables : ℕ → M (Uniwill S) (Unit {0})
    init_tables un = do
      set_full_fan_mode un false
      table_0 ← read 0x07c5 un
      when (not (test_bits (table_0 >>> 7) 1)) (write_3 0x07c5 (table_0 + 2 ^ 7))
      write_3 0x0f00 115
      write_3 0x0f10 0
      write_3 0x0f20 0x01
      write_3 0x0f30 120
      write_3 0x0f40 0
      write_3 0x0f50 0x01
      write_zones 15 1
      table_1 ← read 0x07c6 un
      when (not (test_bits (table_1 >>> 2) 1)) (write_3 0x07c6 (table_1 + 2 ^ 2))

    unfoldable pub uw_init_fan : ℕ → M (Uniwill S) ℤ
    uw_init_fan un u =
        let init =
          when (not u.fans_initialized && u.feats.has_universal_ec_fan_control) (init_tables un) in
        (success, record ((init u).1) { fans_initialized = true })

  -- `schedule_delayed_work`: nothing happens if the work is scheduled already.
  abbrev pub schedule : ℕ → M (Uniwill S) (Unit {0})
  schedule ms u =
      (tt, record u { restart_work = elim u.restart_work [ none ↦ some ms | some t ↦ some t ] })

  -- `for (i = 0; i < rounds; ++i)`: both fans get their values.
  unfoldable pub write_both : ℕ → M (Uniwill S) (Unit {0})
  write_both zero u = (tt, u)
  write_both (suc rounds) u =
      let u1 = (uniwill_write_ec_ram 0x1804 (bit_and u.fan0_value 0xff) u).1 in
      let u2 = (uniwill_write_ec_ram 0x1809 (bit_and u1.fan1_value 0xff) u1).1 in
      write_both rounds u2

  -- The work runs: it is no longer scheduled, until the end.
  unfoldable pub restart_direct_fan_control_work_handler : ℕ → M (Uniwill S) (Unit {0})
  restart_direct_fan_control_work_handler un = do
    assign (λ u. record u { restart_work = none })
    set_full_fan_mode un false
    set_full_fan_mode un true
    write_both 10
    schedule (50 * 60 * 1000)

  -- The write of a fan whose value is stored, or the start of the work.
  direct_write : ℕ → ℕ → Bool → M (Uniwill S) (Unit {0})
  direct_write address fan_speed prevent_rampup u =
      if prevent_rampup && not u.direct_fan_control_started
      then schedule 0 (record u { direct_fan_control_started = true })
      else write address (bit_and fan_speed 0xff) u

  unfoldable pub direct_fan_control : ℕ → ℕ → Bool → M (Uniwill S) ℤ
  unfolding direct_write
  direct_fan_control fan_index fan_speed prevent_rampup =
      if fan_index == 0
      then (do
        assign (λ u. record u { fan0_value = fan_speed })
        direct_write 0x1804 fan_speed prevent_rampup
        pure success)
      else if fan_index == 1
      then (do
        assign (λ u. record u { fan1_value = fan_speed })
        direct_write 0x1809 fan_speed prevent_rampup
        pure success)
      else pure einval

  -- The fan tables get a speed that is allowed.
  set_table : ℕ → ℕ → ℕ → M (Uniwill S) ℕ
  set_table fan_index address fan_speed =
      if ltb nb02_fan_speed_max fan_speed then pure (u32_of_int einval) else (do
        write address (bit_and (allowed_speed fan_speed) 0xff)
        direct_fan_control fan_index (allowed_speed fan_speed) false
        pure 0)

  unfoldable pub uw_set_fan : Reply → ℕ → ℕ → ℕ → M (Uniwill S) ℕ
  unfolding set_table
  uw_set_fan start un fan_index fan_speed u =
      if u.feats.has_universal_ec_fan_control
      then (let r = read 0x0751 un u in
          if test_bits r.0 0x40
          then (0, r.1)
          else (let u' = (uw_init_fan start un r.1).1 in
              if fan_index == 0
              then set_table fan_index 0x0f20 fan_speed u'
              else if fan_index == 1
              then set_table fan_index 0x0f50 fan_speed u'
              else (u32_of_int einval, u')))
      else (0, (direct_fan_control fan_index fan_speed true u).1)

  -- Both fan tables are switched off, the second flag first.
  tables_off : Reply → ℕ → M (Uniwill S) (Unit {0})
  tables_off start un = do
    table_1 ← read 0x07c6 un
    when (test_bits (table_1 >>> 2) 1) (write_3 start 0x07c6 (table_1 - 2 ^ 2))
    table_0 ← read 0x07c5 un
    when (test_bits (table_0 >>> 7) 1) (write_3 start 0x07c5 (table_0 - 2 ^ 7))
    assign (λ u. record u { fans_initialized = false })

  -- The work is cancelled, and the full fan mode is switched off.
  full_mode_off : ℕ → M (Uniwill S) (Unit {0})
  full_mode_off un = do
    assign (λ u. record u { restart_work = none; direct_fan_control_started = false })
    mode_data ← read 0x0751 un
    write 0x0751 (bit_and mode_data 0xbf)

  unfoldable pub uw_set_fan_auto : Reply → ℕ → M (Uniwill S) ℕ
  unfolding tables_off full_mode_off
  uw_set_fan_auto start un u =
      let off =
        if u.feats.has_universal_ec_fan_control then tables_off start un else full_mode_off un in
      (0, record ((off u).1) { fan0_value = 0; fan1_value = 0 })
