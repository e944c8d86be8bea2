-- ===== src/Uniwill/Fan/Only.antt =====
-- What changes of the driver's state by `set_full_fan_mode`: the EC, and no variable.
use tuxedo_drivers.Common.{
  success, pure, not, ◌&&◌, test_bits, bit_or, bit_and, not8, ℕ, ◌≡◌, refl, ◌∙◌, Bool, true, false,
  M, if◌then◌else◌, Option, some, none,
}
use tuxedo_drivers.Uniwill.Interface.{UniwillInterface}
use tuxedo_drivers.Uniwill.Access.{
  Uniwill, read_by, write_by, uniwill_read_ec_ram, uniwill_write_ec_ram,
}
use tuxedo_drivers.Uniwill.Fan.{set_full_fan_mode}

module _ (S : Type 0) where
  unfoldable pub Only : {A : Type 0} → M (Uniwill S) A → Type 0
  Only m = (u : Uniwill S) (e : S) → record ((m u).1) { ec = e } ≡ record u { ec = e }

  by_read : (w : Option (UniwillInterface S)) (a old : ℕ) → Only (read_by w a old)
  unfolding Only
  by_read (some i) a old u e = refl
  by_read none a old u e = refl

  by_write : (w : Option (UniwillInterface S)) (a d : ℕ) → Only (write_by w a d)
  unfolding Only
  by_write (some i) a d u e = refl
  by_write none a d u e = refl

  writes : (a d : ℕ) → Only (uniwill_write_ec_ram {S = S} a d)
  unfolding Only uniwill_write_ec_ram
  writes a d u e = by_write u.wmi a d u e

  either :
      {A : Type 0} (b : Bool) (m n : M (Uniwill S) A) → Only m → Only n → Only (if b then m else n)
  either true m n h l = h
  either false m n h l = l

  by_bit :
      (enable : Bool) (d : ℕ)
      → Only (
          if enable && not (test_bits d 0x40)
          then uniwill_write_ec_ram {S = S} 0x0751 (bit_or d 0x40)
          else if test_bits d 0x40
          then uniwill_write_ec_ram 0x0751 (bit_and d (not8 0x40))
          else pure success)
  unfolding Only
  by_bit enable d =
      either (enable && not (test_bits d 0x40)) (uniwill_write_ec_ram 0x0751 (bit_or d 0x40))
        (if test_bits d 0x40
          then uniwill_write_ec_ram 0x0751 (bit_and d (not8 0x40))
          else pure success)
        (writes 0x0751 (bit_or d 0x40))
        (either (test_bits d 0x40) (uniwill_write_ec_ram 0x0751 (bit_and d (not8 0x40)))
          (pure success) (writes 0x0751 (bit_and d (not8 0x40))) (λ v f. refl))

  pub Only-set_full_fan_mode : (un : ℕ) (enable : Bool) → Only (set_full_fan_mode {S = S} un enable)
  unfolding Only set_full_fan_mode uniwill_read_ec_ram
  Only-set_full_fan_mode un enable u e =
      let r = read_by u.wmi 0x0751 un u in
      by_bit enable r.0.byte r.1 e ∙ by_read u.wmi 0x0751 un u e
