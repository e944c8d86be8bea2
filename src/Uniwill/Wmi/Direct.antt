-- ===== src/Uniwill/Wmi/Direct.antt =====
-- The direct access over a mailbox that is idle before the call: what it returns and what becomes
-- of the mailbox, by the number of delays that the EC takes.
use tuxedo_drivers.Common.{
  ℕ, zero, suc, ◌-◌, ◌≤◌, ◌<◌, ◌≡◌, refl, ◌∙◌, ap, arith, true, false, bit_or, bit_and, test_bits,
}
use tuxedo_drivers.Uniwill.Wmi.{
  Kernel, reg_ldat, reg_hdat, reg_flags, reg_cmdl, reg_cmdh, drdy, wait_ready,
}
use tuxedo_drivers.Uniwill.Wmi.Mailbox.{Mailbox, IsMailbox, mailbox_write, carry_out, delay}

-- A mailbox with a request that is carried out after `suc m` delays.
abbrev pub waiting : Mailbox → ℕ → ℕ → Mailbox
waiting d fl m = record d { flags = fl; pending = suc m }

module _ {S : Type 0} (k : Kernel S) (view : S → Mailbox) (dev : IsMailbox k view) (d : Mailbox)
    (fl : ℕ) (busy : test_bits fl drdy ≡ false) (done : test_bits (bit_or fl drdy) drdy ≡ true)
    (carried : (carry_out (waiting d fl 0)).flags ≡ bit_or fl drdy) where
  after_sleep :
      (tmp : ℕ) (s : S) {e : Mailbox}
      → view s ≡ e
      → let s1 = (k.msleep 15 s).1 in
        ((k.ec_read reg_flags tmp s1).0 ≡ (delay e).flags)
        × (view (k.ec_read reg_flags tmp s1).1 ≡ delay e)
  after_sleep tmp s h =
      let h' = dev.sleep_view 15 s ∙ ap delay h in
      (dev.read_flags tmp _ ∙ ap (λ v. v.flags) h', dev.read_view reg_flags tmp _ ∙ h')

  -- The EC is done within the cycles that are left.
  pub wait_done :
      (count m tmp : ℕ) (s : S)
      → m < count
      → view s ≡ waiting d fl m
      → ((wait_ready k count tmp s).0.0 ≡ count - suc m)
        × (view (wait_ready k count tmp s).1 ≡ carry_out (waiting d fl 0))
  unfolding wait_ready
  wait_done zero m tmp s h e = absurd (omega arith)
  wait_done (suc count) zero tmp s h e =
      let a = after_sleep tmp s e in ground (arith, a.0 ∙ carried, a.1, done)
  wait_done (suc count) (suc m) tmp s h e =
      let a = after_sleep tmp s e in
      let r = k.ec_read reg_flags tmp (k.msleep 15 s).1 in
      ground (arith, a.0, busy, wait_done count m r.0 r.1 (omega arith) a.1)

  -- The EC is not done when the cycles are used up.
  pub wait_timeout :
      (count m tmp : ℕ) (s : S)
      → count ≤ m
      → view s ≡ waiting d fl m
      → ((wait_ready k count tmp s).0.0 ≡ 0)
        × (view (wait_ready k count tmp s).1 ≡ waiting d fl (m - count))
  unfolding wait_ready
  wait_timeout zero m tmp s h e = (refl, ground arith)
  wait_timeout (suc count) zero tmp s h e = absurd (omega arith)
  wait_timeout (suc count) (suc m) tmp s h e =
      let a = after_sleep tmp s e in
      let r = k.ec_read reg_flags tmp (k.msleep 15 s).1 in
      ground (arith, a.0, busy, wait_timeout count m r.0 r.1 (omega arith) a.1)

module _ {S : Type 0} (k : Kernel S) (view : S → Mailbox) (dev : IsMailbox k view) where
  pub wrote :
      (reg v : ℕ) (s : S) {e : Mailbox}
      → view s ≡ e
      → view (k.ec_write reg v s).1 ≡ mailbox_write reg v e
  wrote reg v s h = dev.write_view reg v s ∙ ap (mailbox_write reg v) h

  -- The registers at the end of a request, when the flags were 0 before it.
  pub read_request :
      (d : Mailbox) (m low high f : ℕ) (s : S)
      → d.latency ≡ suc m
      → view s ≡ d
      → f ≡ 0
      → let s1 = (k.ec_write reg_flags (bit_or f 4) s).1 in
        let s2 = (k.ec_write reg_hdat high (k.ec_write reg_ldat low s1).1).1 in
        view (k.ec_write reg_flags (bit_or (bit_and (bit_or f 4) 127) 1) s2).1
        ≡ waiting (record d { ldat = low; hdat = high }) 5 m
  read_request d m low high f s lat h z = rw z (
      wrote reg_flags 5 _ (wrote reg_hdat high _ (wrote reg_ldat low _ (wrote reg_flags 4 s h)))
      ∙ ap (λ n. record d { ldat = low; hdat = high; flags = 5; pending = n }) lat)

  pub write_request :
      (d : Mailbox) (m low high byte f : ℕ) (s : S)
      → d.latency ≡ suc m
      → view s ≡ d
      → f ≡ 0
      → let s1 = (k.ec_write reg_flags (bit_or f 4) s).1 in
        let s2 = (k.ec_write reg_hdat high (k.ec_write reg_ldat low s1).1).1 in
        let s3 = (k.ec_write reg_cmdh 0 (k.ec_write reg_cmdl byte s2).1).1 in
        view (k.ec_write reg_flags (bit_or (bit_and (bit_or f 4) 127) 2) s3).1
        ≡ waiting (record d { ldat = low; hdat = high; cmdl = byte; cmdh = 0 }) 6 m
  write_request d m low high byte f s lat h z = rw z (
      wrote reg_flags 6 _ (
        wrote reg_cmdh 0 _ (
          wrote reg_cmdl byte _
            (wrote reg_hdat high _ (wrote reg_ldat low _ (wrote reg_flags 4 s h)))))
      ∙ ap
          (λ n. record d { ldat = low; hdat = high; cmdl = byte; cmdh = 0; flags = 6; pending = n })
          lat)
