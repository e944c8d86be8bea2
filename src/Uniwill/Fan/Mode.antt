-- ===== src/Uniwill/Fan/Mode.antt =====
-- src/uniwill_keyboard.h: the bit of the full fan mode over an EC RAM.
use tuxedo_drivers.Common.{
  ℕ, ◌<◌, ◌≡◌, refl, ap, ◌∙◌, subst, sym, arith, Bool, true, false, not, ◌&&◌, pure, if◌then◌else◌,
  Ram, u8, ℤ, success, test_bits, bit_and, bit_or, not8, check_below, checked_table, Bool-cases,
  inl, inr, M, update,
}
use tuxedo_drivers.Uniwill.Interface.{UniwillInterface, IsEcRam}
use tuxedo_drivers.Uniwill.Access.{Uniwill, uniwill_write_ec_ram}
use tuxedo_drivers.Uniwill.Access.Ready.{IsReady, read-IsReady, write-IsReady, after_read}
use tuxedo_drivers.Uniwill.Fan.{set_full_fan_mode}

abbrev full : ℕ → Bool
full d = test_bits d 0x40

set_table : check_below 256 (λ d. full (u8 (bit_or d 0x40))) ≡ true
unfolding check_below
set_table = refl

clear_table : check_below 256 (λ d. not (full (u8 (bit_and d (not8 0x40))))) ≡ true
unfolding check_below
clear_table = refl

full-set : (d : ℕ) → d < 256 → full (u8 (bit_or d 0x40)) ≡ true
full-set d h = checked_table 256 (λ d. full (u8 (bit_or d 0x40))) d set_table h

full-clear : (d : ℕ) → d < 256 → full (u8 (bit_and d (not8 0x40))) ≡ false
full-clear d h =
    ground (arith, checked_table 256 (λ d. not (full (u8 (bit_and d (not8 0x40))))) d clear_table h)

module _ {S : Type 0} (i : UniwillInterface S) (ready : S → Type 0) (ram : S → Ram)
    (law : IsEcRam i ready ram) where
  abbrev step : Bool → ℕ → M (Uniwill S) ℤ
  step enable d =
      if enable && not (full d)
      then uniwill_write_ec_ram 0x0751 (bit_or d 0x40)
      else if full d
      then uniwill_write_ec_ram 0x0751 (bit_and d (not8 0x40))
      else pure success

  Result : Bool → Ram → ℤ × Uniwill S → Type 0
  Result bit f x =
      (x.0 ≡ success)
      × (full (u8 (ram x.1.ec 0x0751)) ≡ bit)
      × (update (ram x.1.ec) 0x0751 0 ≡ update f 0x0751 0)
      × IsReady i ready ram law x.1

  -- Only the byte differs.
  others :
      (f g : Ram) (d : ℕ)
      → f ≡ update g 0x0751 d
      → (a : ℕ) → update f 0x0751 0 a ≡ update g 0x0751 0 a
  others f g d e a = ground (arith, ap (λ f. f a) e)

  write-Result :
      (bit : Bool) (d : ℕ) (u : Uniwill S)
      → IsReady i ready ram law u
      → full (u8 d) ≡ bit
      → Result bit (ram u.ec) (uniwill_write_ec_ram 0x0751 d u)
  unfolding Result
  write-Result bit d u r e =
      let w = write-IsReady i ready ram law 0x0751 d u r (omega arith) in
      subst (Result bit (ram u.ec)) (sym w.0)
        (refl, ap (λ f. full (u8 (f 0x0751))) w.1 ∙ e, λ j a. others _ _ d w.1 a j, w.2)

  step-Result :
      (enable : Bool) (u : Uniwill S)
      → IsReady i ready ram law u
      → let d = u8 (ram u.ec 0x0751) in Result (enable && not (full d)) (ram u.ec) (step enable d u)
  unfolding Result
  step-Result true u r =
      let d = u8 (ram u.ec 0x0751) in
      elim (Bool-cases (full d)) [
        | inl e ↦ rw e (write-Result false (bit_and d (not8 0x40)) u r (full-clear d (omega arith)))
        | inr e ↦ rw e (write-Result true (bit_or d 0x40) u r (full-set d (omega arith)))
      ]
  step-Result false u r =
      let d = u8 (ram u.ec 0x0751) in
      elim (Bool-cases (full d)) [
        | inl e ↦ rw e (write-Result false (bit_and d (not8 0x40)) u r (full-clear d (omega arith)))
        | inr e ↦ rw e (refl, e, refl, r)
      ]

  -- Over an EC RAM the bit of the full fan mode is set after the call if it is to be enabled and
  -- was not set before; it is clear in all other cases. The status is 0 and no other byte changes.
  pub set_full_fan_mode_sets :
      (un : ℕ) (enable : Bool) (u : Uniwill S)
      → IsReady i ready ram law u
      → let x = set_full_fan_mode un enable u in
        (x.0 ≡ success)
        × (test_bits (u8 (ram x.1.ec 0x0751)) 0x40
            ≡ (enable && not (test_bits (u8 (ram u.ec 0x0751)) 0x40)))
        × (update (ram x.1.ec) 0x0751 0 ≡ update (ram u.ec) 0x0751 0)
        × IsReady i ready ram law x.1
  unfolding set_full_fan_mode Result
  set_full_fan_mode_sets un enable u r =
      let x = read-IsReady i ready ram law 0x0751 un u r (omega arith) in
      let v = after_read i ready ram law 0x0751 un u in
      let bit = λ (f : Ram). enable && not (full (u8 (f 0x0751))) in
      let q =
        subst (λ f. Result (bit f) f (step enable (u8 (f 0x0751)) v)) x.1
          (step-Result enable v x.2) in
      subst (λ y. Result (bit (ram u.ec)) (ram u.ec) (step enable y.0.byte y.1)) (sym x.0) q
