-- ===== src/Uniwill/Charging/Fields.antt =====
-- Charging priority and profile over an EC RAM: what a set leaves, what a get returns, and what
-- survives a reset of the EC.
use tuxedo_drivers.Common.{
  ℕ, ◌%◌, ◌<◌, ◌≡◌, ap, ◌∙◌, arith, Ram, update, u8, success, true, bit_and, ◌>>>◌, insert_field,
  extract_field, rest_of, bits_4-IsField, bit_7-IsField, bit_and-low_bit, bit_and-low_two_bits,
  nonzero, if◌then◌else◌, ◌*◌,
}
use tuxedo_drivers.Uniwill.Interface.{Reply, UniwillInterface, IsEcRam}
use tuxedo_drivers.Uniwill.Access.{Uniwill}
use tuxedo_drivers.Uniwill.Access.Ready.{IsReady, read-IsReady, modify-IsReady, after_modify}
use tuxedo_drivers.Uniwill.Charging.{
  to_bool, of_bool, uw_set_charging_priority, uw_get_charging_priority,
  uw_charging_priority_write_state, uw_set_charging_profile, uw_get_charging_profile,
  uw_charging_profile_write_state, on_success,
}

module _ {S : Type 0} (i : UniwillInterface S) (ready : S → Type 0) (ram : S → Ram)
    (law : IsEcRam i ready ram) where
  set_profile_eq :
      (un v : ℕ) (u : Uniwill S)
      → IsReady i ready ram law u
      → v < 256
      → uw_set_charging_profile un v u ≡ (
        success,
        record (after_modify i ready ram law un 0x07a6 (λ p. insert_field 4 4 p (v % 4)) u) {
          charging_profile_last_written = v % 4;
        },
      )
  unfolding uw_set_charging_profile
  set_profile_eq un v u r h = rw (bit_and-low_two_bits v h) (
      ap (λ x. on_success (λ w. record w { charging_profile_last_written = v % 4 }) x.0 x.1)
        (modify-IsReady i ready ram law un 0x07a6 (λ p. insert_field 4 4 p (v % 4)) u r
          (omega arith)).0)

  set_priority_eq :
      (un v : ℕ) (u : Uniwill S)
      → IsReady i ready ram law u
      → v < 256
      → uw_set_charging_priority un v u ≡ (
        success,
        record (after_modify i ready ram law un 0x07cc (λ p. insert_field 7 2 p (v % 2)) u) {
          charging_prio_last_written = to_bool (v % 2 * 128);
        },
      )
  unfolding uw_set_charging_priority
  set_priority_eq un v u r h = rw (bit_and-low_bit v h) (
      ap
        (λ x.
          on_success (λ w. record w { charging_prio_last_written = to_bool (v % 2 * 128) }) x.0 x.1)
        (modify-IsReady i ready ram law un 0x07cc (λ p. insert_field 7 2 p (v % 2)) u r
          (omega arith)).0)

  get_profile_eq :
      (old : ℕ) (u : Uniwill S)
      → IsReady i ready ram law u
      → (uw_get_charging_profile old u).0
        ≡ record { status = success; byte = extract_field 4 4 (u8 (ram u.ec 0x07a6)) }
  unfolding uw_get_charging_profile
  get_profile_eq old u r =
      ap
        (λ x.
          if nonzero x.0.status
          then x.0
          else record { status = x.0.status; byte = bit_and (x.0.byte >>> 4) 0x03 })
        (read-IsReady i ready ram law 0x07a6 old u r (omega arith)).0

  get_priority_eq :
      (old : ℕ) (u : Uniwill S)
      → IsReady i ready ram law u
      → (uw_get_charging_priority old u).0
        ≡ record { status = success; byte = extract_field 7 2 (u8 (ram u.ec 0x07cc)) }
  unfolding uw_get_charging_priority
  get_priority_eq old u r =
      ap {B = Reply} (λ x. record { status = x.0.status; byte = bit_and (x.0.byte >>> 7) 0x01 })
        (read-IsReady i ready ram law 0x07cc old u r (omega arith)).0

  u8_small : (x : ℕ) → x < 256 → u8 x ≡ x
  u8_small x h = omega arith

  -- Over an EC RAM, setting the charging profile writes its two low bits to bits 4 and 5 of 0x07a6, keeps the
  -- other bits of that byte and all other bytes, and the get returns what was set.
  pub get-set_charging_profile :
      (un old v : ℕ) (u : Uniwill S)
      → IsReady i ready ram law u
      → v < 256
      → ((uw_set_charging_profile un v u).0 ≡ success)
        × ((uw_get_charging_profile old (uw_set_charging_profile un v u).1).0
            ≡ record { status = success; byte = v % 4 })
        × (ram (uw_set_charging_profile un v u).1.ec
            ≡ update (ram u.ec) 0x07a6 (insert_field 4 4 (u8 (ram u.ec 0x07a6)) (v % 4)))
        × (rest_of 4 4 (insert_field 4 4 (u8 (ram u.ec 0x07a6)) (v % 4))
            ≡ rest_of 4 4 (u8 (ram u.ec 0x07a6)))
  get-set_charging_profile un old v u r h =
      let prev = u8 (ram u.ec 0x07a6) in
      let e = set_profile_eq un v u r h in
      let m =
        modify-IsReady i ready ram law un 0x07a6 (λ p. insert_field 4 4 p (v % 4)) u r
          (omega arith) in
      let ready' : IsReady i ready ram law (uw_set_charging_profile un v u).1 =
        rw e (record { registered = m.2.registered; ec_ready = m.2.ec_ready }) in
      let after = ap (λ x. ram x.1.ec) e ∙ m.1 in
      let byte =
        ap (λ f. u8 (f 0x07a6)) after
        ∙ u8_small _ (bits_4-IsField.insert-lt prev (v % 4) (omega arith) (omega arith)) in
      (
        ap (λ x. x.0) e,
        get_profile_eq old (uw_set_charging_profile un v u).1 ready'
            ∙ ap {B = Reply} (λ b. record { status = success; byte = b })
                (ap (extract_field 4 4) byte
                  ∙ bits_4-IsField.extract-insert prev (v % 4) (omega arith) (omega arith)),
        after,
        bits_4-IsField.rest-insert prev (v % 4) (omega arith) (omega arith),
      )

  -- Over an EC RAM, setting the charging priority writes its low bit to bit 7 of 0x07cc, keeps the other bits of
  -- that byte and all other bytes, and the get returns what was set.
  pub get-set_charging_priority :
      (un old v : ℕ) (u : Uniwill S)
      → IsReady i ready ram law u
      → v < 256
      → ((uw_set_charging_priority un v u).0 ≡ success)
        × ((uw_get_charging_priority old (uw_set_charging_priority un v u).1).0
            ≡ record { status = success; byte = v % 2 })
        × (ram (uw_set_charging_priority un v u).1.ec
            ≡ update (ram u.ec) 0x07cc (insert_field 7 2 (u8 (ram u.ec 0x07cc)) (v % 2)))
        × (rest_of 7 2 (insert_field 7 2 (u8 (ram u.ec 0x07cc)) (v % 2))
            ≡ rest_of 7 2 (u8 (ram u.ec 0x07cc)))
  get-set_charging_priority un old v u r h =
      let prev = u8 (ram u.ec 0x07cc) in
      let e = set_priority_eq un v u r h in
      let m =
        modify-IsReady i ready ram law un 0x07cc (λ p. insert_field 7 2 p (v % 2)) u r
          (omega arith) in
      let ready' : IsReady i ready ram law (uw_set_charging_priority un v u).1 =
        rw e (record { registered = m.2.registered; ec_ready = m.2.ec_ready }) in
      let after = ap (λ x. ram x.1.ec) e ∙ m.1 in
      let byte =
        ap (λ f. u8 (f 0x07cc)) after
        ∙ u8_small _ (bit_7-IsField.insert-lt prev (v % 2) (omega arith) (omega arith)) in
      (
        ap (λ x. x.0) e,
        get_priority_eq old (uw_set_charging_priority un v u).1 ready'
            ∙ ap {B = Reply} (λ b. record { status = success; byte = b })
                (ap (extract_field 7 2) byte
                  ∙ bit_7-IsField.extract-insert prev (v % 2) (omega arith) (omega arith)),
        after,
        bit_7-IsField.rest-insert prev (v % 2) (omega arith) (omega arith),
      )

  -- Over an EC RAM, where the charging profile was loaded, one that was set outlives a reset of the
  -- EC: in whatever state the EC is ready afterwards, the restore puts the profile back, so that
  -- the get returns it.
  pub restore_charging_profile :
      (un old v : ℕ) (u : Uniwill S) (e : S)
      → IsReady i ready ram law u
      → v < 256
      → u.charging_profile_loaded ≡ true
      → ready e
      → let after_reset = record ((uw_set_charging_profile un v u).1) { ec = e } in
        (uw_get_charging_profile old (uw_charging_profile_write_state un after_reset).1).0
        ≡ record { status = success; byte = v % 4 }
  unfolding uw_charging_profile_write_state
  restore_charging_profile un old v u e r h loaded re =
      let w = record u { ec = e; charging_profile_last_written = v % 4 } in
      let ready_again : IsReady i ready ram law w = record {
        registered = r.registered;
        ec_ready = re;
      } in
      rw (set_profile_eq un v u r h) (
        ap
          (λ b.
            (uw_get_charging_profile old
              (if◌then◌else◌ {A = Unit {0} × Uniwill S} b
                (tt, (uw_set_charging_profile un (v % 4) w).1) (tt, w)).1).0)
          loaded
        ∙ ((get-set_charging_profile un old (v % 4) w ready_again (omega arith)).1
            ∙ ap {B = Reply} (λ b. record { status = success; byte = b }) (omega arith)))

  -- Over an EC RAM, where the charging priority was loaded, one that was set outlives a reset of
  -- the EC: in whatever state the EC is ready afterwards, the restore puts the priority back, so
  -- that the get returns it.
  pub restore_charging_priority :
      (un old v : ℕ) (u : Uniwill S) (e : S)
      → IsReady i ready ram law u
      → v < 256
      → u.charging_prio_loaded ≡ true
      → ready e
      → let after_reset = record ((uw_set_charging_priority un v u).1) { ec = e } in
        (uw_get_charging_priority old (uw_charging_priority_write_state un after_reset).1).0
        ≡ record { status = success; byte = v % 2 }
  unfolding uw_charging_priority_write_state
  restore_charging_priority un old v u e r h loaded re =
      let w = record u { ec = e; charging_prio_last_written = to_bool (v % 2 * 128) } in
      let ready_again : IsReady i ready ram law w = record {
        registered = r.registered;
        ec_ready = re;
      } in
      let again : of_bool (to_bool (v % 2 * 128)) ≡ v % 2 = ground arith in
      rw (set_priority_eq un v u r h) (
        ap
          (λ b.
            (uw_get_charging_priority old
              (if◌then◌else◌ {A = Unit {0} × Uniwill S} b
                (tt, (uw_set_charging_priority un (of_bool (to_bool (v % 2 * 128))) w).1)
                (tt, w)).1).0)
          loaded
        ∙ ((get-set_charging_priority un old (of_bool (to_bool (v % 2 * 128))) w ready_again
              (ground arith)).1
            ∙ ap {B = Reply} (λ b. record { status = success; byte = b % 2 }) again
            ∙ ap {B = Reply} (λ b. record { status = success; byte = b }) (omega arith)))
