-- ===== src/Uniwill/Wmi/Mailbox.antt =====
-- What the direct access relies on: the EC answers through a mailbox of five registers. A request
-- starts when the flags are written with the read or the write flag; after `latency` delays the EC
-- has carried it out and sets the ready flag. `view` shows the mailbox in the state.
use tuxedo_drivers.Common.{
  ℕ, zero, suc, ◌+◌, ◌*◌, ◌≡◌, refl, Ram, update, ◌==◌, if◌then◌else◌, bit_or, test_bits, ◌||◌,
  none, false,
}
use tuxedo_drivers.Uniwill.Wmi.{
  Kernel, reg_ldat, reg_hdat, reg_flags, reg_cmdl, reg_cmdh, rflg, wflg, drdy,
}

pub record Mailbox : Type 0 where
  pub ldat : ℕ
  pub hdat : ℕ
  pub flags : ℕ
  pub cmdl : ℕ
  pub cmdh : ℕ
  -- delays until the request is carried out, 0 for none pending
  pub pending : ℕ
  pub latency : ℕ
  pub ram : Ram

abbrev pub address : Mailbox → ℕ
address d = d.hdat * 256 + d.ldat

abbrev pub carry_out : Mailbox → Mailbox
carry_out d =
    if test_bits d.flags rflg
    then record d { flags = bit_or d.flags drdy; pending = 0; cmdl = d.ram (address d) }
    else record d {
      flags = bit_or d.flags drdy;
      pending = 0;
      ram = update d.ram (address d) d.cmdl;
    }

abbrev pub delay_from : Mailbox → ℕ → Mailbox
delay_from d zero = d
delay_from d (suc zero) = carry_out d
delay_from d (suc (suc n)) = record d { pending = suc n }

abbrev pub delay : Mailbox → Mailbox
delay d = delay_from d d.pending

abbrev pub mailbox_write : ℕ → ℕ → Mailbox → Mailbox
mailbox_write reg v d =
    if reg == reg_ldat
    then record d { ldat = v }
    else if reg == reg_hdat
    then record d { hdat = v }
    else if reg == reg_cmdl
    then record d { cmdl = v }
    else if reg == reg_cmdh
    then record d { cmdh = v }
    else if reg == reg_flags
    then record d {
      flags = v;
      pending = if test_bits v rflg || test_bits v wflg then d.latency else 0;
    }
    else d

pub record IsMailbox {S : Type 0} (k : Kernel S) (view : S → Mailbox) : Type 0 where
  pub write_view : (reg v : ℕ) (s : S) → view (k.ec_write reg v s).1 ≡ mailbox_write reg v (view s)
  pub read_view : (reg old : ℕ) (s : S) → view (k.ec_read reg old s).1 ≡ view s
  pub read_flags : (old : ℕ) (s : S) → (k.ec_read reg_flags old s).0 ≡ (view s).flags
  pub read_cmdl : (old : ℕ) (s : S) → (k.ec_read reg_cmdl old s).0 ≡ (view s).cmdl
  pub sleep_view : (ms : ℕ) (s : S) → view (k.msleep ms s).1 ≡ delay (view s)

-- A mailbox that is nothing but its registers.
abbrev pub registers : Kernel Mailbox
registers = record {
  ec_read = λ reg old d. (
    if reg == reg_flags
        then d.flags
        else if reg == reg_cmdl
        then d.cmdl
        else if reg == reg_cmdh
        then d.cmdh
        else old,
    d,
  );
  ec_write = λ reg v d. (tt, mailbox_write reg v d);
  msleep = λ ms d. (tt, delay d);
  wmi_evaluate_method = λ input d. (record { failed = false; word = none }, d);
  uninitialised = 0;
}

pub registers-IsMailbox : IsMailbox registers (λ d. d)
registers-IsMailbox = record {
  write_view = λ reg v s. refl;
  read_view = λ reg old s. refl;
  read_flags = λ old s. refl;
  read_cmdl = λ old s. refl;
  sleep_view = λ ms s. refl;
}
