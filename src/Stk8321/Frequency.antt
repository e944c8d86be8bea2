-- ===== src/Stk8321/Frequency.antt =====
-- The sampling frequency that is written and read.
use tuxedo_drivers.Common.{
  ℕ, zero, suc, ◌+◌, ◌<◌, ◌≡◌, refl, ap, ◌∙◌, sym, subst, arith, Ram, ℤ, pos, success, Option, none,
  some,
}
use tuxedo_drivers.Stk8321.{
  I2c, Accel, samp_freq_table, freq_at, matching_index, set_frequency, info_samp_freq,
  val_int_plus_micro, stk8321_read_raw, stk8321_write_raw, stk8321_set_power_mode,
  stk8321_set_bandwidth,
}
use tuxedo_drivers.Stk8321.Axis.{IsSensor}

-- An entry of the table is found at its index, and its code follows from that.
entry_lem :
    (i : ℕ)
    → i < 8
    → let f = freq_at samp_freq_table i in
      (matching_index (pos f.val) (pos f.val2) samp_freq_table 0 none ≡ some i)
      × (f.reg_bits ≡ 8 + i)
unfolding matching_index samp_freq_table
entry_lem zero h = (refl, refl)
entry_lem (suc zero) h = (refl, refl)
entry_lem (suc (suc zero)) h = (refl, refl)
entry_lem (suc (suc (suc zero))) h = (refl, refl)
entry_lem (suc (suc (suc (suc zero)))) h = (refl, refl)
entry_lem (suc (suc (suc (suc (suc zero))))) h = (refl, refl)
entry_lem (suc (suc (suc (suc (suc (suc zero)))))) h = (refl, refl)
entry_lem (suc (suc (suc (suc (suc (suc (suc zero))))))) h = (refl, refl)
entry_lem (suc (suc (suc (suc (suc (suc (suc (suc i)))))))) h = absurd (omega arith)

module _ {S : Type 0} (b : I2c S) (view : S → Ram) (law : IsSensor b view) where
  -- What the three writes leave on the bus.
  bus_lem :
      (i : ℕ) (a : Accel S)
      → let x = set_frequency b (some i) a in
        (x.0 ≡ success)
        × (view x.1.bus 0x10 ≡ (freq_at samp_freq_table i).reg_bits)
        × (view x.1.bus 0x11 ≡ 0x00)
  unfolding stk8321_set_power_mode stk8321_set_bandwidth
  bus_lem i a =
      let bits = (freq_at samp_freq_table i).reg_bits in
      let s1 = (b.write_byte 0x11 0x80 a.bus).1 in
      let s2 = (b.write_byte 0x10 bits s1).1 in
      let last = law.writes_view 0x11 0x00 s2 in
      (
        law.writes 0x10 bits s1,
        ap (λ (ram : Ram). ram 0x10) last
            ∙ ap (λ (ram : Ram). ram 0x10) (law.writes_view 0x10 bits s1),
        ap (λ (ram : Ram). ram 0x11) last,
      )

  -- Over the sensor a frequency of the table that is written is accepted and read back, and the
  -- sensor has its code in the register of the bandwidth and is in its normal mode.
  pub frequency_read-write :
      (sign_extend32 : ℤ → ℕ → ℤ) (i address : ℕ) (a : Accel S)
      → i < 8
      → let f = freq_at samp_freq_table i in
        let x = stk8321_write_raw b (pos f.val) (pos f.val2) info_samp_freq a in
        (x.0 ≡ success)
        × ((stk8321_read_raw b sign_extend32 address info_samp_freq x.1).0
            ≡ val_int_plus_micro f.val f.val2)
        × (view x.1.bus 0x10 ≡ 8 + i)
        × (view x.1.bus 0x11 ≡ 0x00)
  unfolding stk8321_write_raw stk8321_read_raw
  frequency_read-write sign_extend32 i address a h =
      let f = freq_at samp_freq_table i in
      let e = entry_lem i h in
      let w = bus_lem i a in
      subst
        (λ (found : Option ℕ).
          let x = set_frequency b found a in
          (x.0 ≡ success)
          × ((stk8321_read_raw b sign_extend32 address info_samp_freq x.1).0
              ≡ val_int_plus_micro f.val f.val2)
          × (view x.1.bus 0x10 ≡ 8 + i)
          × (view x.1.bus 0x11 ≡ 0x00))
        (sym e.0) (w.0, refl, w.1 ∙ e.1, w.2)
