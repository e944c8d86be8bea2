-- ===== src/Uniwill/Fan/Init.antt =====
-- The start of the fan tables over an EC RAM, which leaves the EC ready.
use tuxedo_drivers.Common.{
  ℕ, zero, suc, ◌+◌, ◌^◌, ◌≤◌, ◌<◌, ◌≡◌, refl, subst, sym, arith, Bool, true, false, not, M, ◌>>◌,
  when, ◌==◌, ◌&&◌, ◌||◌, test_bits, ◌>>>◌, Ram, ℤ, nonzero,
}
use tuxedo_drivers.Uniwill.Interface.{Reply, UniwillInterface, IsEcRam}
use tuxedo_drivers.Uniwill.Access.{
  Uniwill, uniwill_read_ec_ram, uniwill_write_ec_ram, write_retry, uniwill_write_ec_ram_with_retry,
}
use tuxedo_drivers.Uniwill.Access.Ready.{IsReady, read-IsReady, write-IsReady}
use tuxedo_drivers.Uniwill.Fan.{write_3, write_zones, init_tables, uw_init_fan, set_full_fan_mode}
use tuxedo_drivers.Uniwill.Fan.Mode.{set_full_fan_mode_sets}

module _ {S : Type 0} (i : UniwillInterface S) (ready : S → Type 0) (ram : S → Ram)
    (law : IsEcRam i ready ram) where
  -- The EC stays ready.
  Keeps : {A : Type 0} → M (Uniwill S) A → Type 0
  Keeps m = (u : Uniwill S) → IsReady i ready ram law u → IsReady i ready ram law (m u).1

  then-Keeps :
      {A B : Type 0} (m : M (Uniwill S) A) (n : M (Uniwill S) B)
      → Keeps m
      → Keeps n
      → Keeps (m >> n)
  unfolding Keeps
  then-Keeps m n h l u r = l (m u).1 (h u r)

  read-Keeps : (a un : ℕ) → a < 65536 → Keeps (uniwill_read_ec_ram a un)
  unfolding Keeps
  read-Keeps a un h u r =
      let x = read-IsReady i ready ram law a un u r h in
      subst (λ (y : Reply × Uniwill S). IsReady i ready ram law y.1) (sym x.0) x.2

  write-Keeps : (a d : ℕ) → a < 65536 → Keeps (uniwill_write_ec_ram a d)
  unfolding Keeps
  write-Keeps a d h u r =
      let x = write-IsReady i ready ram law a d u r h in
      subst (λ (y : ℤ × Uniwill S). IsReady i ready ram law y.1) (sym x.0) x.2

  retry-Keeps : (n a d : ℕ) (control : Reply) → a < 65536 → Keeps (write_retry n a d control)
  unfolding Keeps write_retry
  retry-Keeps zero a d control h u r = r
  retry-Keeps (suc n) a d control h u r =
      let wrote = uniwill_write_ec_ram a d u in
      let w = write-Keeps a d h u r in
      let check = uniwill_read_ec_ram a control.byte wrote.1 in
      let c = read-Keeps a control.byte h wrote.1 w in
      by_outcome (nonzero wrote.0) (nonzero check.0.status || not (d == check.0.byte))
        (write_retry n a d (record control { status = wrote.0 }) wrote.1)
        (write_retry n a d check.0 check.1) (check.0.status, check.1)
        (retry-Keeps n a d (record control { status = wrote.0 }) h wrote.1 w)
        (retry-Keeps n a d check.0 h check.1 c) c
    where
      by_outcome :
          (s t : Bool) (x y z : ℤ × Uniwill S)
          → IsReady i ready ram law x.1
          → IsReady i ready ram law y.1
          → IsReady i ready ram law z.1
          → let p : ℤ × Uniwill S = elim s [ true ↦ x | false ↦ elim t [ true ↦ y | false ↦ z ] ] in
            IsReady i ready ram law p.1
      by_outcome true t x y z p q r = p
      by_outcome false true x y z p q r = q
      by_outcome false false x y z p q r = r

  module _ (start : Reply) where
    write_3-Keeps : (a d : ℕ) → a < 65536 → Keeps (write_3 start a d)
    unfolding Keeps uniwill_write_ec_ram_with_retry
    write_3-Keeps a d h u r = retry-Keeps 3 a d start h u r

    zones-Keeps : (rounds n : ℕ) → rounds + n ≤ 16 → Keeps (write_zones start rounds n)
    unfolding Keeps write_zones
    zones-Keeps zero n h u r = r
    zones-Keeps (suc rounds) n h u r =
        let more = zones-Keeps rounds (n + 1) (omega arith) in
        let five =
          then-Keeps (write_3 start (0x0f50 + n) 0xc8) (write_zones start rounds (n + 1))
            (write_3-Keeps (0x0f50 + n) 0xc8 (omega arith)) more in
        let r1 = write_3-Keeps (0x0f00 + n) (115 + n + 1) (omega arith) u r in
        let r2 = write_3-Keeps (0x0f10 + n) (115 + n) (omega arith) _ r1 in
        let r3 = write_3-Keeps (0x0f20 + n) 0xc8 (omega arith) _ r2 in
        let r4 = write_3-Keeps (0x0f30 + n) (115 + n + 1) (omega arith) _ r3 in
        let r5 = write_3-Keeps (0x0f40 + n) (115 + n) (omega arith) _ r4 in five _ r5

    flag-Keeps : (b : Bool) (a d : ℕ) → a < 65536 → Keeps (when b (write_3 start a d))
    unfolding Keeps
    flag-Keeps true a d h u r = write_3-Keeps a d h u r
    flag-Keeps false a d h u r = r

    init-Keeps : (un : ℕ) → Keeps (init_tables start un)
    unfolding Keeps init_tables
    init-Keeps un u r =
        let x0 = (set_full_fan_mode un false u).1 in
        let r0 = (set_full_fan_mode_sets i ready ram law un false u r).3 in
        let t0 = (uniwill_read_ec_ram 0x07c5 un x0).0.byte in
        let r1 = read-Keeps 0x07c5 un (omega arith) x0 r0 in
        let r2 = flag-Keeps (not (test_bits (t0 >>> 7) 1)) 0x07c5 (t0 + 2 ^ 7) (omega arith) _ r1 in
        let r3 = write_3-Keeps 0x0f00 115 (omega arith) _ r2 in
        let r4 = write_3-Keeps 0x0f10 0 (omega arith) _ r3 in
        let r5 = write_3-Keeps 0x0f20 0x01 (omega arith) _ r4 in
        let r6 = write_3-Keeps 0x0f30 120 (omega arith) _ r5 in
        let r7 = write_3-Keeps 0x0f40 0 (omega arith) _ r6 in
        let r8 = write_3-Keeps 0x0f50 0x01 (omega arith) _ r7 in
        let r9 = zones-Keeps 15 1 (omega arith) _ r8 in
        let r10 = read-Keeps 0x07c6 un (omega arith) _ r9 in
        flag-Keeps _ 0x07c6 _ (omega arith) _ r10

    -- Over an EC RAM, the start of the fan tables leaves the EC ready, whether the tables were
    -- initialized before or not, and counts them as initialized.
    pub uw_init_fan-IsReady :
        (un : ℕ) (u : Uniwill S)
        → IsReady i ready ram law u
        → ((uw_init_fan start un u).1.fans_initialized ≡ true)
          × IsReady i ready ram law (uw_init_fan start un u).1
    unfolding uw_init_fan Keeps
    uw_init_fan-IsReady un u r =
        let x =
          by_flag (not u.fans_initialized && u.feats.has_universal_ec_fan_control)
            (init-Keeps un u r) in
        (refl, record { registered = x.registered; ec_ready = x.ec_ready })
      where
        by_flag :
            (b : Bool)
            → IsReady i ready ram law (init_tables start un u).1
            → IsReady i ready ram law (when b (init_tables start un) u).1
        by_flag true h = h
        by_flag false h = r
