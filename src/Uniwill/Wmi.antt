-- ===== src/Uniwill/Wmi.antt =====
-- src/uniwill_wmi.c: EC access through the WMI method, or directly through the registers of the
-- EC's mailbox. The kernel's `ec_read`, `ec_write`, `msleep` and `wmi_evaluate_method` are a
-- parameter; the mutex and the log have no counterpart.
pub mod Mailbox
pub mod Direct
pub mod Results
pub mod EcRam
use Prim.Native.String.{String}
use tuxedo_drivers.Common.{
  ℕ, zero, suc, ◌+◌, ◌*◌, ◌-◌, ◌/◌, ◌%◌, ◌^◌, Bool, true, false, not, List, [], ◌∷◌, M, pure, ◌>>=◌,
  ◌>>◌, if◌then◌else◌, ◌==◌, bit_and, bit_or, not8, test_bits, ◌>>>◌, ℤ, success, eio, Option, none,
  some, u8,
}
use tuxedo_drivers.Uniwill.Interface.{Reply, UniwillInterface}

-- What `wmi_evaluate_method` gives back: whether ACPI reports a failure, and the first word of the
-- output, if it is a buffer.
pub record Evaluated : Type 0 where
  pub failed : Bool
  pub word : Option ℕ

pub record Kernel (S : Type 0) : Type 0 where
  -- register, `*val` before the call; the result is `*val` after it
  pub ec_read : ℕ → ℕ → M S ℕ
  pub ec_write : ℕ → ℕ → M S (Unit {0})
  pub msleep : ℕ → M S (Unit {0})
  -- the bytes of the input buffer
  pub wmi_evaluate_method : List ℕ → M S Evaluated
  -- what a local variable holds before it is written
  pub uninitialised : ℕ

abbrev pub reg_ldat : ℕ
reg_ldat = 0x8a

abbrev pub reg_hdat : ℕ
reg_hdat = 0x8b

abbrev pub reg_flags : ℕ
reg_flags = 0x8c

abbrev pub reg_cmdl : ℕ
reg_cmdl = 0x8d

abbrev pub reg_cmdh : ℕ
reg_cmdh = 0x8e

-- 1 << UNIWILL_EC_BIT_*
abbrev pub rflg : ℕ
rflg = 0x01

abbrev pub wflg : ℕ
wflg = 0x02

abbrev pub bflg : ℕ
bflg = 0x04

abbrev pub drdy : ℕ
drdy = 0x80

abbrev pub busy_wait_cycles : ℕ
busy_wait_cycles = 30

abbrev pub busy_wait_delay : ℕ
busy_wait_delay = 15

-- The value that stands for an error in the output word.
abbrev pub error_word : ℕ
error_word = 0xfefefefe

-- A status and the output word.
abbrev pub Output : Type 0
Output = ℤ × ℕ

module _ {S : Type 0} (k : Kernel S) where
  -- The first eight bytes of the argument: `sizeof(wmi_arg)` is that of a pointer.
  unfoldable pub uw_wmi_ec_evaluate : ℕ → ℕ → M S Output
  uw_wmi_ec_evaluate function arg = do
    r ←
        k.wmi_evaluate_method
          (u8 arg ∷ u8 (arg >>> 8) ∷ u8 (arg >>> 16) ∷ u8 (arg >>> 24) ∷ 0 ∷ function ∷ 0 ∷ 0 ∷ [])
    pure (if r.failed then eio else success, elim r.word [ none ↦ k.uninitialised | some w ↦ w ])

  checked : Output → Output
  checked r = (if r.1 == error_word then eio else r.0, r.1)

  unfoldable pub uw_ec_read_addr_wmi : ℕ → ℕ → M S Output
  unfolding checked
  uw_ec_read_addr_wmi addr_low addr_high = do
    r ← uw_wmi_ec_evaluate 1 (bit_or (addr_high * 2 ^ 8) addr_low)
    pure (checked r)

  unfoldable pub uw_ec_write_addr_wmi : ℕ → ℕ → ℕ → ℕ → M S Output
  unfolding checked
  uw_ec_write_addr_wmi addr_low addr_high data_low data_high = do
    r ← uw_wmi_ec_evaluate 0 (
        bit_or (bit_or (bit_or (data_high * 2 ^ 24) (data_low * 2 ^ 16)) (addr_high * 2 ^ 8))
          addr_low)
    pure (checked r)

  -- `while (!ready && count != 0)`, from a `count` with `ready` not yet set. The result is the
  -- `count` and the variable `tmp` at the end.
  unfoldable pub wait_ready : ℕ → ℕ → M S (ℕ × ℕ)
  wait_ready zero tmp s = ((0, tmp), s)
  wait_ready (suc count) tmp s =
      let s1 = (k.msleep busy_wait_delay s).1 in
      let r = k.ec_read reg_flags tmp s1 in
      elim (test_bits r.0 drdy) [ true ↦ ((count, r.0), r.1) | false ↦ wait_ready count r.0 r.1 ]

  unfoldable pub uw_ec_read_addr_direct : ℕ → ℕ → M S Output
  uw_ec_read_addr_direct addr_low addr_high = do
    f ← k.ec_read reg_flags k.uninitialised
    let flags1 = bit_or f bflg
    k.ec_write reg_flags flags1
    k.ec_write reg_ldat addr_low
    k.ec_write reg_hdat addr_high
    let flags2 = bit_or (bit_and flags1 (not8 drdy)) rflg
    k.ec_write reg_flags flags2
    w ← wait_ready busy_wait_cycles k.uninitialised
    r ←
        if not (w.0 == 0)
        then (do
          low ← k.ec_read reg_cmdl w.1
          high ← k.ec_read reg_cmdh low
          pure (success, high * 2 ^ 8 + low))
        else pure (eio, error_word)
    k.ec_write reg_flags 0x00
    pure r

  unfoldable pub uw_ec_write_addr_direct : ℕ → ℕ → ℕ → ℕ → M S Output
  uw_ec_write_addr_direct addr_low addr_high data_low data_high = do
    f ← k.ec_read reg_flags k.uninitialised
    let flags1 = bit_or f bflg
    k.ec_write reg_flags flags1
    k.ec_write reg_ldat addr_low
    k.ec_write reg_hdat addr_high
    k.ec_write reg_cmdl data_low
    k.ec_write reg_cmdh data_high
    let flags2 = bit_or (bit_and flags1 (not8 drdy)) wflg
    k.ec_write reg_flags flags2
    w ← wait_ready busy_wait_cycles k.uninitialised
    k.ec_write reg_flags 0x00
    pure (
        if not (w.0 == 0)
        then (success, data_high * 2 ^ 24 + data_low * 2 ^ 16 + addr_high * 2 ^ 8 + addr_low)
        else (eio, error_word))

  -- `ec_direct` is the module parameter `ec_direct_io`.
  unfoldable pub uw_wmi_read_ec_ram : Bool → ℕ → M S Reply
  uw_wmi_read_ec_ram ec_direct addr = do
    let addr_low = bit_and addr 0xff
    let addr_high = bit_and (addr >>> 8) 0xff
    r ←
        if ec_direct
        then uw_ec_read_addr_direct addr_low addr_high
        else uw_ec_read_addr_wmi addr_low addr_high
    pure (record { status = r.0; byte = u8 r.1 })

  unfoldable pub uw_wmi_write_ec_ram : Bool → ℕ → ℕ → M S ℤ
  uw_wmi_write_ec_ram ec_direct addr byte = do
    let addr_low = bit_and addr 0xff
    let addr_high = bit_and (addr >>> 8) 0xff
    r ←
        if ec_direct
        then uw_ec_write_addr_direct addr_low addr_high byte 0x00
        else uw_ec_write_addr_wmi addr_low addr_high byte 0x00
    pure r.0

  -- The table that the driver registers.
  unfoldable pub uniwill_wmi_interface : Bool → UniwillInterface S
  uniwill_wmi_interface ec_direct = record {
    string_id = "uniwill_wmi";
    read_ec_ram = λ addr old. uw_wmi_read_ec_ram ec_direct addr;
    write_ec_ram = uw_wmi_write_ec_ram ec_direct;
    wmi_evaluate = λ function arg. uw_wmi_ec_evaluate function arg >>= λ r. pure r.0;
  }
