-- ===== src/Uniwill/Wmi/EcRam.antt =====
-- The registered table, with `ec_direct_io` set, keeps the contract of `IsEcRam` over a mailbox.
use tuxedo_drivers.Common.{
  ℕ, suc, ◌+◌, ◌*◌, ◌-◌, ◌/◌, ◌<◌, ◌≡◌, ◌∙◌, ap, arith, update, true, bit_and, bit_and-low_byte,
  ◌>>>◌, success, u8,
}
use tuxedo_drivers.Uniwill.Interface.{IsEcRam}
use tuxedo_drivers.Uniwill.Wmi.{
  Kernel, uw_wmi_read_ec_ram, uw_wmi_write_ec_ram, uniwill_wmi_interface,
}
use tuxedo_drivers.Uniwill.Wmi.Mailbox.{Mailbox, IsMailbox}
use tuxedo_drivers.Uniwill.Wmi.Results.{read_in_time, write_in_time}

-- No request is pending, and the EC takes at least one delay and less than the 30 that the driver
-- waits for.
pub record IsIdle (d : Mailbox) : Type 0 where
  pub no_flags : d.flags ≡ 0
  pub some_latency : 0 < d.latency
  pub short_latency : d.latency < 30

-- The two address bytes of the mailbox make up the address again.
address_bytes : (a : ℕ) → a < 65536 → bit_and (a >>> 8) 255 * 256 + bit_and a 255 ≡ a
address_bytes a h = ground (arith, bit_and-low_byte (a / 256), bit_and-low_byte a)

module _ {S : Type 0} (k : Kernel S) (view : S → Mailbox) (dev : IsMailbox k view) where
  module _ (s : S) (ready : IsIdle (view s)) where
    latency_suc : (view s).latency ≡ suc ((view s).latency - 1)
    latency_suc = ground (arith, ready.some_latency)

    direct_read :
        (a old : ℕ)
        → a < 65536
        → let r = (uniwill_wmi_interface k true).read_ec_ram a old s in
          (r.0.status ≡ success)
          × (r.0.byte ≡ u8 ((view s).ram a))
          × ((view r.1).ram ≡ (view s).ram)
          × IsIdle (view r.1)
    unfolding uniwill_wmi_interface uw_wmi_read_ec_ram
    direct_read a old h =
        let r =
          read_in_time k view dev (bit_and a 255) (bit_and (a >>> 8) 255) ((view s).latency - 1) s
            ready.no_flags latency_suc (ground (arith, ready.short_latency)) in
        (
          r.0,
          r.1 ∙ ap (λ x. u8 ((view s).ram x)) (address_bytes a h),
          ap (λ v. v.ram) r.2,
          record {
            no_flags = ap (λ v. v.flags) r.2;
            some_latency = rw (ap (λ v. v.latency) r.2) ready.some_latency;
            short_latency = rw (ap (λ v. v.latency) r.2) ready.short_latency;
          },
        )

    direct_write :
        (a d : ℕ)
        → a < 65536
        → let r = (uniwill_wmi_interface k true).write_ec_ram a d s in
          (r.0 ≡ success) × ((view r.1).ram ≡ update (view s).ram a d) × IsIdle (view r.1)
    unfolding uniwill_wmi_interface uw_wmi_write_ec_ram
    direct_write a d h =
        let r =
          write_in_time k view dev (bit_and a 255) (bit_and (a >>> 8) 255) ((view s).latency - 1) s
            ready.no_flags latency_suc d (ground (arith, ready.short_latency)) in
        (
          ground (arith, r.0, ready.short_latency, ready.some_latency),
          ap (λ v. v.ram) r.1 ∙ ap (λ x. update (view s).ram x d) (address_bytes a h),
          record {
            no_flags = ap (λ v. v.flags) r.1;
            some_latency = rw (ap (λ v. v.latency) r.1) ready.some_latency;
            short_latency = rw (ap (λ v. v.latency) r.1) ready.short_latency;
          },
        )

  -- Over a mailbox that is idle and answers in one to 29 delays, the table that `uniwill_wmi`
  -- registers is an EC RAM: each read returns the byte of its address and each write changes that
  -- byte and no other, both with status 0, and the mailbox is idle again.
  pub direct-IsEcRam :
      IsEcRam (uniwill_wmi_interface k true) (λ s. IsIdle (view s)) (λ s. (view s).ram)
  direct-IsEcRam = record {
    read_status = λ a old s r h. (direct_read s r a old h).0;
    read_byte = λ a old s r h. (direct_read s r a old h).1;
    read_ram = λ a old s r h. (direct_read s r a old h).2;
    read_ready = λ a old s r h. (direct_read s r a old h).3;
    write_status = λ a d s r h. (direct_write s r a d h).0;
    write_ram = λ a d s r h. (direct_write s r a d h).1;
    write_ready = λ a d s r h. (direct_write s r a d h).2;
  }
