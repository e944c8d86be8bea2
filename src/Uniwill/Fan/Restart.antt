-- ===== src/Uniwill/Fan/Restart.antt =====
-- The delayed work that restarts the direct fan control, over an EC RAM.
use tuxedo_drivers.Common.{
  refl, none, some, ℕ, zero, suc, ◌≡◌, ap, ◌∙◌, subst, sym, arith, Ram, update, bit_and, test_bits,
  u8, true, false,
}
use tuxedo_drivers.Uniwill.Interface.{UniwillInterface, IsEcRam}
use tuxedo_drivers.Uniwill.Access.{Uniwill, uniwill_write_ec_ram}
use tuxedo_drivers.Uniwill.Access.Ready.{IsReady, write-IsReady, after_write}
use tuxedo_drivers.Uniwill.Fan.{
  write_both, restart_direct_fan_control_work_handler, set_full_fan_mode,
}
use tuxedo_drivers.Uniwill.Fan.Only.{Only, Only-set_full_fan_mode}
use tuxedo_drivers.Uniwill.Fan.Mode.{set_full_fan_mode_sets}

module _ {S : Type 0} (i : UniwillInterface S) (ready : S → Type 0) (ram : S → Ram)
    (law : IsEcRam i ready ram) where
  -- What the rounds of writes keep of `u`.
  Kept : Uniwill S → Uniwill S → Type 0
  Kept u v =
      (v.fan0_value ≡ u.fan0_value)
      × (v.fan1_value ≡ u.fan1_value)
      × (ram v.ec 0x0751 ≡ ram u.ec 0x0751)
      × (v.restart_work ≡ u.restart_work)
      × IsReady i ready ram law v

  -- Both registers hold the values of `u`.
  Held : Uniwill S → Uniwill S → Type 0
  Held u v =
      (ram v.ec 0x1804 ≡ bit_and u.fan0_value 0xff) × (ram v.ec 0x1809 ≡ bit_and u.fan1_value 0xff)

  first : Uniwill S → Uniwill S
  first v = after_write i ready ram law 0x1804 (bit_and v.fan0_value 0xff) v

  second : Uniwill S → Uniwill S
  unfolding first
  second v = after_write i ready ram law 0x1809 (bit_and v.fan1_value 0xff) (first v)

  round_eq :
      (n : ℕ) (v : Uniwill S)
      → IsReady i ready ram law v
      → write_both (suc n) v ≡ write_both n (second v)
  unfolding write_both first second
  round_eq n v r =
      let w = write-IsReady i ready ram law 0x1804 (bit_and v.fan0_value 0xff) v r (omega arith) in
      let x =
        write-IsReady i ready ram law 0x1809 (bit_and v.fan1_value 0xff) (first v) w.2
          (omega arith) in
      ap (λ y. write_both n ((uniwill_write_ec_ram 0x1809 (bit_and (y.1.fan1_value) 0xff) y.1).1))
        w.0
      ∙ ap (λ y. write_both n y.1) x.0

  round_keeps : (u v : Uniwill S) → Kept u v → Kept u (second v) × Held u (second v)
  unfolding Kept Held first second
  round_keeps u v (f0, f1, mode, work, r) =
      let w = write-IsReady i ready ram law 0x1804 (bit_and v.fan0_value 0xff) v r (omega arith) in
      let x =
        write-IsReady i ready ram law 0x1809 (bit_and v.fan1_value 0xff) (first v) w.2
          (omega arith) in
      let at = λ (a : ℕ).
        ap (λ f. f a) (x.1 ∙ ap (λ f. update f 0x1809 (bit_and v.fan1_value 0xff)) w.1) in
      (
        (f0, f1, at 0x0751 ∙ mode, work, x.2),
        (at 0x1804 ∙ ap (λ b. bit_and b 0xff) f0, at 0x1809 ∙ ap (λ b. bit_and b 0xff) f1),
      )

  rounds :
      (n : ℕ) (u v : Uniwill S)
      → Kept u v
      → Held u v
      → Kept u (write_both n v).1 × Held u (write_both n v).1
  unfolding write_both Kept
  rounds zero u v k h = (k, h)
  rounds (suc n) u v k h =
      let q = round_keeps u v k in
      subst (λ y. Kept u y.1 × Held u y.1) (sym (round_eq n v k.4)) (rounds n u (second v) q.0 q.1)

  ten_rounds :
      (u : Uniwill S)
      → IsReady i ready ram law u
      → Kept u (write_both 10 u).1 × Held u (write_both 10 u).1
  unfolding Kept
  ten_rounds u r =
      let q = round_keeps u u (refl, refl, refl, refl, r) in
      subst (λ y. Kept u y.1 × Held u y.1) (sym (round_eq 9 u r)) (rounds 9 u (second u) q.0 q.1)

  -- Over an EC RAM the work that restarts the direct fan control leaves the full fan mode on,
  -- whether it was on before or not, the registers of both fans at their stored values, and itself
  -- scheduled again in 50 minutes.
  pub restart_sets :
      (un : ℕ) (u : Uniwill S)
      → IsReady i ready ram law u
      → let v = (restart_direct_fan_control_work_handler un u).1 in
        (test_bits (u8 (ram v.ec 0x0751)) 0x40 ≡ true)
        × (ram v.ec 0x1804 ≡ bit_and u.fan0_value 0xff)
        × (ram v.ec 0x1809 ≡ bit_and u.fan1_value 0xff)
        × (v.restart_work ≡ some 3000000)
        × IsReady i ready ram law v
  unfolding restart_direct_fan_control_work_handler Kept Held Only
  restart_sets un u r =
      let u0 = record u { restart_work = none } in
      let r0 : IsReady i ready ram law u0 = record {
        registered = r.registered;
        ec_ready = r.ec_ready;
      } in
      let a = set_full_fan_mode_sets i ready ram law un false u0 r0 in
      let u1 = (set_full_fan_mode un false u0).1 in
      let b = set_full_fan_mode_sets i ready ram law un true u1 a.3 in
      let u2 = (set_full_fan_mode un true u1).1 in
      let same1 = Only-set_full_fan_mode S un false u0 u.ec in
      let same2 = Only-set_full_fan_mode S un true u1 u.ec in
      let q = ten_rounds u2 b.3 in
      let v = (write_both 10 u2).1 in
      let off : v.restart_work ≡ none =
        q.0.3 ∙ (ap (λ y. y.restart_work) same2 ∙ ap (λ y. y.restart_work) same1) in
      (
        ap (λ d. test_bits (u8 d) 0x40) q.0.2 ∙ ground (arith, a.1, b.1),
        q.1.0
            ∙ (ap (λ y. bit_and y.fan0_value 0xff) same2
                ∙ ap (λ y. bit_and y.fan0_value 0xff) same1),
        q.1.1
            ∙ (ap (λ y. bit_and y.fan1_value 0xff) same2
                ∙ ap (λ y. bit_and y.fan1_value 0xff) same1),
        ap (λ w. elim w [ none ↦ some 3000000 | some t ↦ some t ]) off,
        record { registered = q.0.4.registered; ec_ready = q.0.4.ec_ready },
      )
