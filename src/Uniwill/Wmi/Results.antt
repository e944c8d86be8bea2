-- ===== src/Uniwill/Wmi/Results.antt =====
-- What the direct read and write return, and the mailbox that they leave.
use tuxedo_drivers.Common.{
  if◌then◌else◌, dec_le, ℕ, suc, ◌+◌, ◌*◌, ◌%◌, ◌≤◌, ◌<◌, ◌≡◌, refl, ◌∙◌, ap, arith, update,
  success, eio, bit_or, bit_and, ltb,
}
use tuxedo_drivers.Uniwill.Wmi.{
  Kernel, reg_ldat, reg_hdat, reg_flags, reg_cmdl, reg_cmdh, wait_ready, error_word,
  uw_ec_read_addr_direct, uw_ec_write_addr_direct,
}
use tuxedo_drivers.Uniwill.Wmi.Mailbox.{Mailbox, IsMailbox}
use tuxedo_drivers.Uniwill.Wmi.Direct.{
  waiting, wait_done, wait_timeout, wrote, read_request, write_request,
}

-- The address is in the registers.
abbrev pub addressed : Mailbox → ℕ → ℕ → Mailbox
addressed d low high = record d { ldat = low; hdat = high }

module _ {S : Type 0} (k : Kernel S) (view : S → Mailbox) (dev : IsMailbox k view)
    (low high : ℕ) where
  -- The EC carries a request out after `suc m` delays.
  module _ (m : ℕ) (s : S) (idle : (view s).flags ≡ 0) (lat : (view s).latency ≡ suc m) where
    read_requested : S
    read_requested =
        let f = (k.ec_read reg_flags k.uninitialised s).0 in
        let s0 = (k.ec_read reg_flags k.uninitialised s).1 in
        let s1 = (k.ec_write reg_flags (bit_or f 4) s0).1 in
        let s2 = (k.ec_write reg_hdat high (k.ec_write reg_ldat low s1).1).1 in
        (k.ec_write reg_flags (bit_or (bit_and (bit_or f 4) 127) 1) s2).1

    read_requested_view : view read_requested ≡ waiting (addressed (view s) low high) 5 m
    unfolding read_requested
    read_requested_view =
        read_request k view dev (view s) m low high _ _ lat
          (dev.read_view reg_flags k.uninitialised s) (dev.read_flags k.uninitialised s ∙ idle)

    -- Over a mailbox with no flags set that takes less than 30 delays, the direct read reports success
    -- and the byte of the address, and leaves the RAM as it is, with the flags cleared.
    pub read_in_time :
        m < 29
        → ((uw_ec_read_addr_direct k low high s).0.0 ≡ success)
          × ((uw_ec_read_addr_direct k low high s).0.1 % 256
              ≡ (view s).ram (high * 256 + low) % 256)
          × (view (uw_ec_read_addr_direct k low high s).1 ≡ record (addressed (view s) low high) {
            flags = 0;
            pending = 0;
            cmdl = (view s).ram (high * 256 + low);
          })
    unfolding uw_ec_read_addr_direct read_requested
    read_in_time h =
        let w = wait_ready k 30 k.uninitialised read_requested in
        let done =
          wait_done k view dev (addressed (view s) low high) 5 refl refl refl 30 m k.uninitialised
            read_requested (omega arith) read_requested_view in
        let low_read = dev.read_cmdl w.0.1 w.1 ∙ ap (λ v. v.cmdl) done.1 in
        let cmdl_read = k.ec_read reg_cmdl w.0.1 w.1 in
        let after =
          dev.read_view reg_cmdh cmdl_read.0 cmdl_read.1
          ∙ (dev.read_view reg_cmdl w.0.1 w.1 ∙ done.1) in
        let final = wrote k view dev reg_flags 0 _ after in
        (ground (arith, done.0), ground (arith, done.0, low_read), ground (arith, done.0, final))

    -- Over a mailbox with no flags set that takes 30 delays or more, the direct read reports -EIO and
    -- the error word; the RAM is as before, and the flags are 0.
    pub read_late :
        29 ≤ m
        → ((uw_ec_read_addr_direct k low high s).0 ≡ (eio, error_word))
          × ((view (uw_ec_read_addr_direct k low high s).1).ram ≡ (view s).ram)
          × ((view (uw_ec_read_addr_direct k low high s).1).flags ≡ 0)
    unfolding uw_ec_read_addr_direct read_requested
    read_late h =
        let w = wait_ready k 30 k.uninitialised read_requested in
        let a = addressed (view s) low high in
        elim (dec_le m 29) [
          | yes le ↦
              let r =
                wait_done k view dev a 5 refl refl refl 30 m k.uninitialised read_requested
                  (omega arith) read_requested_view in
              let final = wrote k view dev reg_flags 0 w.1 r.1 in
              (
                ground (arith, r.0),
                ground (arith, r.0, ap (λ v. v.ram) final),
                ground (arith, r.0, ap (λ v. v.flags) final),
              )
          | no gt ↦
              let r =
                wait_timeout k view dev a 5 refl refl refl 30 m k.uninitialised read_requested
                  (omega arith) read_requested_view in
              let final = wrote k view dev reg_flags 0 w.1 r.1 in
              (
                ground (arith, r.0),
                ground (arith, r.0, ap (λ v. v.ram) final),
                ground (arith, r.0, ap (λ v. v.flags) final),
              )
        ]

    module _ (byte : ℕ) where
      write_requested : S
      write_requested =
          let f = (k.ec_read reg_flags k.uninitialised s).0 in
          let s0 = (k.ec_read reg_flags k.uninitialised s).1 in
          let s1 = (k.ec_write reg_flags (bit_or f 4) s0).1 in
          let s2 = (k.ec_write reg_hdat high (k.ec_write reg_ldat low s1).1).1 in
          let s3 = (k.ec_write reg_cmdh 0 (k.ec_write reg_cmdl byte s2).1).1 in
          (k.ec_write reg_flags (bit_or (bit_and (bit_or f 4) 127) 2) s3).1

      write_requested_view :
          view write_requested
          ≡ waiting (record (addressed (view s) low high) { cmdl = byte; cmdh = 0 }) 6 m
      unfolding write_requested
      write_requested_view =
          write_request k view dev (view s) m low high byte _ _ lat
            (dev.read_view reg_flags k.uninitialised s) (dev.read_flags k.uninitialised s ∙ idle)

      -- Over a mailbox with no flags set that takes at most 30 delays, the direct write puts the byte
      -- at its address and clears the flags; it reports success below 30 delays and -EIO at 30.
      pub write_in_time :
          m < 30
          → ((uw_ec_write_addr_direct k low high byte 0 s).0.0
              ≡ (if ltb m 29 then success else eio))
            × (view (uw_ec_write_addr_direct k low high byte 0 s).1
                ≡ record (addressed (view s) low high) {
                  flags = 0;
                  pending = 0;
                  cmdl = byte;
                  cmdh = 0;
                  ram = update (view s).ram (high * 256 + low) byte;
                })
      unfolding uw_ec_write_addr_direct write_requested
      write_in_time h =
          let w = wait_ready k 30 k.uninitialised write_requested in
          let a = record (addressed (view s) low high) { cmdl = byte; cmdh = 0 } in
          let r =
            wait_done k view dev a 6 refl refl refl 30 m k.uninitialised write_requested h
              write_requested_view in
          (ground (arith, r.0), wrote k view dev reg_flags 0 w.1 r.1)

      -- Over a mailbox with no flags set that takes more than 30 delays, the direct write reports -EIO
      -- and the error word, writes nothing, and clears the flags.
      pub write_late :
          30 ≤ m
          → ((uw_ec_write_addr_direct k low high byte 0 s).0 ≡ (eio, error_word))
            × ((view (uw_ec_write_addr_direct k low high byte 0 s).1).ram ≡ (view s).ram)
            × ((view (uw_ec_write_addr_direct k low high byte 0 s).1).flags ≡ 0)
      unfolding uw_ec_write_addr_direct write_requested
      write_late h =
          let w = wait_ready k 30 k.uninitialised write_requested in
          let a = record (addressed (view s) low high) { cmdl = byte; cmdh = 0 } in
          let r =
            wait_timeout k view dev a 6 refl refl refl 30 m k.uninitialised write_requested h
              write_requested_view in
          let final = wrote k view dev reg_flags 0 w.1 r.1 in
          (ground (arith, r.0), ap (λ v. v.ram) final, ap (λ v. v.flags) final)
