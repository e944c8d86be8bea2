-- ===== src/Uniwill/Switches/Fields.antt =====
-- The two switches over an EC RAM.
use tuxedo_drivers.Common.{
  M, ◌>>=◌, pure, einval, eio, ltb, false, ℕ, ◌<◌, ◌≡◌, refl, ap, subst, sym, ◌∙◌, arith, Ram,
  update, u8, ℤ, success, pos, some, bit_and, ◌<<<◌, ◌>>>◌, insert_field, extract_field, rest_of,
  IsField, bit_3-IsField, bit_4-IsField, bit_and-low_bit, nonzero, if◌then◌else◌,
}
use tuxedo_drivers.Uniwill.Interface.{Reply, UniwillInterface, IsEcRam}
use tuxedo_drivers.Uniwill.Access.{Uniwill}
use tuxedo_drivers.Uniwill.Access.Ready.{IsReady, read-IsReady, modify-IsReady, after_modify}
use tuxedo_drivers.Uniwill.Charging.{on_success, to_bool}
use tuxedo_drivers.Uniwill.Switches.{
  store_bit, number, set_bit, get_bit, uw_set_ac_auto_boot, uw_get_ac_auto_boot,
  uw_ac_auto_boot_show, uw_ac_auto_boot_store, uw_set_usb_powershare, uw_get_usb_powershare,
  uw_usb_powershare_show, uw_usb_powershare_store,
}

below : {v : ℕ} → v < 2 → ltb 1 v ≡ false
below small = ground arith

-- What is stored is what was set.
stored :
    {S : Type 0} (set : ℕ → M (Uniwill S) ℤ) (v size : ℕ) (u : Uniwill S)
    → v < 2
    → (store_bit set (some v) size u).1 ≡ (set v u).1
stored set v size u small =
    ap
      (λ b.
        ((if b
            then pure einval
            else (set v >>= λ result. pure (if nonzero result then eio else pos size)))
          u).1)
      (below small)

module _ {S : Type 0} (i : UniwillInterface S) (ready : S → Type 0) (ram : S → Ram)
    (law : IsEcRam i ready ram) where
  module _ (sh a : ℕ) (field : IsField sh 2) (in_ram : a < 65536)
      (remember : ℕ → Uniwill S → Uniwill S)
      (keeps_wmi : (n : ℕ) (u : Uniwill S) → (remember n u).wmi ≡ u.wmi)
      (keeps_ec : (n : ℕ) (u : Uniwill S) → (remember n u).ec ≡ u.ec) where
    -- A value of one bit, once set, is what a get returns; the other bits and bytes are kept.
    bit_round :
        (un old v : ℕ) (u : Uniwill S)
        → IsReady i ready ram law u
        → v < 2
        → let w = set_bit sh a remember un v u in
          (w.0 ≡ success)
          × ((get_bit sh a old w.1).0 ≡ record { status = success; byte = v })
          × (ram w.1.ec ≡ update (ram u.ec) a (insert_field sh 2 (u8 (ram u.ec a)) v))
    bit_round un old v u r small =
        let prev = u8 (ram u.ec a) in
        let low : bit_and v 1 ≡ v = ground (arith, bit_and-low_bit v) in
        let m = modify-IsReady i ready ram law un a (λ p. insert_field sh 2 p v) u r in_ram in
        let x = after_modify i ready ram law un a (λ p. insert_field sh 2 p v) u in
        let e : set_bit sh a remember un v u ≡ (success, remember (v <<< sh) x) =
          rw low (ap (λ y. on_success (remember (v <<< sh)) y.0 y.1) m.0) in
        let w = remember (v <<< sh) x in
        let after = ap ram (keeps_ec (v <<< sh) x) ∙ m.1 in
        let ready' : IsReady i ready ram law w = record {
          registered = keeps_wmi (v <<< sh) x ∙ m.2.registered;
          ec_ready = subst ready (sym (keeps_ec (v <<< sh) x)) m.2.ec_ready;
        } in
        let fits = field.insert-lt prev v (omega arith) small in
        let at : u8 (update (ram u.ec) a (insert_field sh 2 prev v) a) ≡ insert_field sh 2 prev v =
          ground (arith, fits) in
        let byte = ap (λ f. u8 (f a)) after ∙ at in
        subst
          (λ y.
            (y.0 ≡ success)
            × ((get_bit sh a old y.1).0 ≡ record { status = success; byte = v })
            × (ram y.1.ec ≡ update (ram u.ec) a (insert_field sh 2 (u8 (ram u.ec a)) v)))
          (sym e)
          (
            refl,
            ap
                  (λ y.
                    if nonzero y.0.status
                    then y.0
                    else record { status = y.0.status; byte = bit_and (y.0.byte >>> sh) 0x01 })
                  (read-IsReady i ready ram law a old w ready' in_ram).0
                ∙ ap {B = Reply} (λ b. record { status = success; byte = b })
                    (ap (extract_field sh 2) byte
                      ∙ field.extract-insert prev v (omega arith) small),
            after,
          )

  -- Over an EC RAM, a 0 or 1 that is stored for the boot on AC power is accepted and shown again; it is bit 3 of
  -- 0x0726, and the other bits of that byte and all other bytes are kept.
  pub ac_auto_boot_show-store :
      (un v size : ℕ) (u : Uniwill S)
      → IsReady i ready ram law u
      → v < 2
      → let w = uw_ac_auto_boot_store un (some v) size u in
        (w.0 ≡ pos size)
        × ((uw_ac_auto_boot_show un w.1).0 ≡ number v)
        × (ram w.1.ec ≡ update (ram u.ec) 0x0726 (insert_field 3 2 (u8 (ram u.ec 0x0726)) v))
        × (rest_of 3 2 (insert_field 3 2 (u8 (ram u.ec 0x0726)) v)
            ≡ rest_of 3 2 (u8 (ram u.ec 0x0726)))
  unfolding uw_ac_auto_boot_show uw_ac_auto_boot_store uw_get_ac_auto_boot uw_set_ac_auto_boot
  ac_auto_boot_show-store un v size u r small =
      let b =
        bit_round 3 0x0726 bit_3-IsField (omega arith)
          (λ n x. record x { ac_auto_boot_last_written = to_bool n }) (λ n x. refl) (λ n x. refl) un
          un v u r small in
      (
        ground (arith, b.0, small),
        ground (arith, b.0, b.1, small),
        ap (λ y. ram y.ec) (stored (uw_set_ac_auto_boot un) v size u small) ∙ b.2,
        bit_3-IsField.rest-insert (u8 (ram u.ec 0x0726)) v (omega arith) small,
      )

  -- Over an EC RAM, a 0 or 1 that is stored for the USB powershare is accepted and shown again; it is bit 4 of
  -- 0x0767, and the other bits of that byte and all other bytes are kept.
  pub usb_powershare_show-store :
      (un v size : ℕ) (u : Uniwill S)
      → IsReady i ready ram law u
      → v < 2
      → let w = uw_usb_powershare_store un (some v) size u in
        (w.0 ≡ pos size)
        × ((uw_usb_powershare_show un w.1).0 ≡ number v)
        × (ram w.1.ec ≡ update (ram u.ec) 0x0767 (insert_field 4 2 (u8 (ram u.ec 0x0767)) v))
        × (rest_of 4 2 (insert_field 4 2 (u8 (ram u.ec 0x0767)) v)
            ≡ rest_of 4 2 (u8 (ram u.ec 0x0767)))
  unfolding uw_usb_powershare_show uw_usb_powershare_store uw_get_usb_powershare
      uw_set_usb_powershare
  usb_powershare_show-store un v size u r small =
      let b =
        bit_round 4 0x0767 bit_4-IsField (omega arith)
          (λ n x. record x { usb_powershare_last_written = to_bool n }) (λ n x. refl) (λ n x. refl)
          un un v u r small in
      (
        ground (arith, b.0, small),
        ground (arith, b.0, b.1, small),
        ap (λ y. ram y.ec) (stored (uw_set_usb_powershare un) v size u small) ∙ b.2,
        bit_4-IsField.rest-insert (u8 (ram u.ec 0x0767)) v (omega arith) small,
      )
