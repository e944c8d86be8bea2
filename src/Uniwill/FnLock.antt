-- ===== src/Uniwill/FnLock.antt =====
-- src/uniwill_keyboard.h: the fn lock and its sysfs attribute. `un` is what a local variable holds
-- before it is written; `parsed` is what `kstrtoint(buf, 10, ..)` makes of the written text, `none`
-- for its error or a negative number, which are refused alike.
use tuxedo_drivers.Common.{
  ℕ, ◌<◌, ◌≡◌, refl, ap, ◌∙◌, sym, subst, arith, Bool, true, false, ◌&&◌, ◌||◌, M, pure, ◌>>=◌,
  if◌then◌else◌, ltb, ◌==◌, bit_and, bit_or, not8, u8, ◌>>>◌, Ram, ℤ, success, einval, pos, nonzero,
  Option, none, some, [], ◌∷◌, check_below, checked_table,
}
use tuxedo_drivers.Uniwill.Interface.{UniwillInterface, IsEcRam}
use tuxedo_drivers.Uniwill.Access.{Uniwill, uniwill_read_ec_ram, uniwill_write_ec_ram}
use tuxedo_drivers.Uniwill.Access.Ready.{
  IsReady, read-IsReady, write-IsReady, after_read, after_write,
}
use tuxedo_drivers.Uniwill.Dmi.{Dmi, any_match}
use tuxedo_drivers.Uniwill.Dmi.DmiField.{board_name, product_name}

abbrev pub uniwill_fn_lock_mask : ℕ
uniwill_fn_lock_mask = 0x10

-- The byte with the bit set or cleared.
abbrev pub locked : ℕ → ℕ → ℕ
locked on old =
    if on == 0 then bit_and old (not8 uniwill_fn_lock_mask) else bit_or old uniwill_fn_lock_mask

module _ {S : Type 0} where
  -- A status, and `*on` where it is written.
  unfoldable pub uniwill_wmi_fn_lock_get : ℕ → M (Uniwill S) (ℤ × Option ℕ)
  uniwill_wmi_fn_lock_get un = do
    r ← uniwill_read_ec_ram 0x074e un
    pure (
        if nonzero r.status
        then (r.status, none)
        else (success, some (bit_and r.byte uniwill_fn_lock_mask >>> 4)))

  unfoldable pub uniwill_wmi_fn_lock_set : ℕ → ℕ → M (Uniwill S) ℤ
  uniwill_wmi_fn_lock_set un on = do
    r ← uniwill_read_ec_ram 0x074e un
    if nonzero r.status then pure r.status else uniwill_write_ec_ram 0x074e (locked on r.byte)

  unfoldable pub uniwill_fn_lock_store : ℕ → Option ℕ → ℕ → M (Uniwill S) ℤ
  uniwill_fn_lock_store un none size = pure einval
  uniwill_fn_lock_store un (some on) size =
      if ltb 1 on
      then pure einval
      else (do err ← uniwill_wmi_fn_lock_set un on; pure (if nonzero err then err else pos size))

  unfoldable pub uniwill_fn_lock_available : Dmi → ℕ → M (Uniwill S) Bool
  uniwill_fn_lock_available dmi un =
      if any_match dmi board_name ("LAPQC71A" ∷ "LAPQC71B" ∷ []) || dmi product_name "A60 MUV"
      then pure false
      else (do r ← uniwill_wmi_fn_lock_get un; pure (if nonzero r.0 then false else true))

lock_table :
    check_below 256 (λ d. check_below 2 (λ on.
      (bit_and (u8 (locked on d)) 0x10 >>> 4 == on)
      && (bit_and (u8 (locked on d)) 0xef == bit_and d 0xef)))
    ≡ true
unfolding check_below
lock_table = refl

lock_bits :
    (d on : ℕ)
    → d < 256
    → on < 2
    → (bit_and (u8 (locked on d)) 0x10 >>> 4 ≡ on)
      × (bit_and (u8 (locked on d)) 0xef ≡ bit_and d 0xef)
lock_bits d on h l =
    let t =
      checked_table 2
        (λ on.
          (bit_and (u8 (locked on d)) 0x10 >>> 4 == on)
          && (bit_and (u8 (locked on d)) 0xef == bit_and d 0xef))
        on (checked_table 256 _ d lock_table h) l in
    (ground (arith, t), ground (arith, t))

module _ {S : Type 0} (i : UniwillInterface S) (ready : S → Type 0) (ram : S → Ram)
    (law : IsEcRam i ready ram) where
  get-IsReady :
      (old : ℕ) (u : Uniwill S)
      → IsReady i ready ram law u
      → (uniwill_wmi_fn_lock_get old u).0
        ≡ (success, some (bit_and (u8 (ram u.ec 0x074e)) uniwill_fn_lock_mask >>> 4))
  unfolding uniwill_wmi_fn_lock_get
  get-IsReady old u r =
      ap
        (λ c.
          if nonzero c.0.status
          then (c.0.status, none)
          else (success, some (bit_and c.0.byte uniwill_fn_lock_mask >>> 4)))
        (read-IsReady i ready ram law 0x074e old u r (omega arith)).0

  -- Over an EC RAM, a 0 or 1 that is stored for the fn lock is accepted, and the next read of the
  -- fn lock gives it; the other bits of its byte are kept.
  pub fn_lock_get-store :
      (un old on size : ℕ) (u : Uniwill S)
      → IsReady i ready ram law u
      → on < 2
      → let w = uniwill_fn_lock_store un (some on) size u in
        (w.0 ≡ pos size)
        × ((uniwill_wmi_fn_lock_get old w.1).0 ≡ (success, some on))
        × (bit_and (u8 (ram w.1.ec 0x074e)) 0xef ≡ bit_and (u8 (ram u.ec 0x074e)) 0xef)
  unfolding uniwill_fn_lock_store uniwill_wmi_fn_lock_set uniwill_wmi_fn_lock_get
  fn_lock_get-store un old on size u r small =
      let d = u8 (ram u.ec 0x074e) in
      let x = read-IsReady i ready ram law 0x074e un u r (omega arith) in
      let v = after_read i ready ram law 0x074e un u in
      let w = write-IsReady i ready ram law 0x074e (locked on d) v x.2 (omega arith) in
      let z = after_write i ready ram law 0x074e (locked on d) v in
      let b = lock_bits d on (omega arith) small in
      let e : uniwill_fn_lock_store un (some on) size u ≡ (pos size, z) =
        ground (arith, x.0, w.0) in
      let at = ap (λ f. u8 (f 0x074e)) w.1 in
      subst
        (λ s.
          (s.0 ≡ pos size)
          × ((uniwill_wmi_fn_lock_get old s.1).0 ≡ (success, some on))
          × (bit_and (u8 (ram s.1.ec 0x074e)) 0xef ≡ bit_and d 0xef))
        (sym e)
        (
          refl,
          get-IsReady old z w.2
              ∙ ap (λ n. (success, some n)) (ap (λ n. bit_and n 0x10 >>> 4) at ∙ b.0),
          ap (λ n. bit_and n 0xef) at ∙ b.1,
        )
