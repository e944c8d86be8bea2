-- ===== src/Uniwill/Access/Retry.antt =====
-- The accesses with retries, and the read of two bytes.
use tuxedo_drivers.Common.{
  ℕ, zero, suc, ◌+◌, ◌*◌, ◌<◌, ◌≡◌, ◌≢◌, refl, subst, sym, ap, ◌∙◌, arith, Ram, update, u8, ℤ,
  success, eio, some, none, bit_or-join,
}
use tuxedo_drivers.Uniwill.Interface.{Reply, UniwillInterface, IsEcRam}
use tuxedo_drivers.Uniwill.Access.{
  Uniwill, uniwill_read_ec_ram, uniwill_write_ec_ram, write_retry, uniwill_write_ec_ram_with_retry,
  uniwill_read_ec_ram_with_retry, uniwill_read_ec_ram_u16, write_by, read_by, read_retry,
}
use tuxedo_drivers.Uniwill.Access.Ready.{
  IsReady, read-IsReady, write-IsReady, after_read, after_write,
}

module _ {S : Type 0} (i : UniwillInterface S) (ready : S → Type 0) (ram : S → Ram)
    (law : IsEcRam i ready ram) (u : Uniwill S) (r : IsReady i ready ram law u) where
  -- Over an EC RAM, a write with at least one retry puts the byte at its address, changes no
  -- other, and reports success.
  pub ram-write_with_retry :
      (start : Reply) (a d n : ℕ)
      → a < 65536
      → d < 256
      → ((uniwill_write_ec_ram_with_retry start a d (suc n) u).0 ≡ success)
        × (ram (uniwill_write_ec_ram_with_retry start a d (suc n) u).1.ec ≡ update (ram u.ec) a d)
        × IsReady i ready ram law (uniwill_write_ec_ram_with_retry start a d (suc n) u).1
  unfolding uniwill_write_ec_ram_with_retry
  ram-write_with_retry start a d n h b =
      let w = write-IsReady i ready ram law a d u r h in
      let u1 = after_write i ready ram law a d u in
      let c = read-IsReady i ready ram law a start.byte u1 w.2 h in
      let u2 = after_read i ready ram law a start.byte u1 in
      let same = w.1 in
      let e : write_retry (suc n) a d start u ≡ (success, u2) =
        ground (arith, w.0, c.0, ap (λ f. u8 (f a)) same) in
      (
        ap (λ x. x.0) e,
        ap (λ x. ram x.1.ec) e ∙ (c.1 ∙ w.1),
        subst (λ x. IsReady i ready ram law x.1) (sym e) c.2,
      )

  -- Over an EC RAM, a read with at least one retry gives the byte with status 0.
  pub ram-read_with_retry :
      (st : ℤ) (old a n : ℕ)
      → a < 65536
      → uniwill_read_ec_ram_with_retry st a old (suc n) u
        ≡ (record { status = success; byte = u8 (ram u.ec a) }, after_read i ready ram law a old u)
  unfolding uniwill_read_ec_ram_with_retry read_retry
  ram-read_with_retry st old a n h = ground (arith, (read-IsReady i ready ram law a old u r h).0)

  -- Over an EC RAM, the 16-bit read reports status 0 and the two bytes of its addresses joined, the
  -- first one as the high byte.
  pub read_u16_joins :
      (un a b : ℕ)
      → a < 65536
      → b < 65536
      → (uniwill_read_ec_ram_u16 un a b u).0
        ≡ (success, some (u8 (ram u.ec a) * 256 + u8 (ram u.ec b)))
  unfolding uniwill_read_ec_ram_u16
  read_u16_joins un a b h l =
      let x = read-IsReady i ready ram law a un u r h in
      let y = read-IsReady i ready ram law b un (after_read i ready ram law a un u) x.2 l in
      ground (
        arith,
        x.0,
        y.0,
        ap (λ f. f b) x.1,
        bit_or-join (u8 (ram u.ec a)) (u8 (ram u.ec b)) (omega arith) (omega arith),
      )

module _ {S : Type 0} (i : UniwillInterface S) (a d : ℕ)
    (wrote : (s : S) → (i.write_ec_ram a d s).0 ≡ success)
    (read : (old : ℕ) (s : S) → (i.read_ec_ram a old s).0.status ≡ success)
    (other : (old : ℕ) (s : S) → (i.read_ec_ram a old s).0.byte ≢ d) where
  -- One round without a match goes on with status 0.
  unverified_round :
      (n : ℕ) (c : Reply) (v : Uniwill S)
      → v.wmi ≡ some i
      → let w = (i.write_ec_ram a d v.ec).1 in
        let x = i.read_ec_ram a c.byte w in
        write_retry (suc n) a d c v ≡ write_retry n a d x.0 (record v { ec = x.1 })
  unfolding write_retry uniwill_write_ec_ram uniwill_read_ec_ram
  unverified_round n c v reg =
      let w = (i.write_ec_ram a d v.ec).1 in
      ground (
        arith,
        ap (λ t. write_by t a d v) reg,
        ap (λ t. read_by t a c.byte (record v { ec = w })) reg,
        wrote v.ec,
        read c.byte w,
        other c.byte w,
      )

  unverified_loop :
      (n : ℕ) (c : Reply) (v : Uniwill S)
      → v.wmi ≡ some i
      → c.status ≡ success
      → (write_retry n a d c v).0 ≡ success
  unfolding write_retry
  unverified_loop zero c v reg h = h
  unverified_loop (suc n) c v reg h =
      let x = i.read_ec_ram a c.byte (i.write_ec_ram a d v.ec).1 in
      ap (λ t. t.0) (unverified_round n c v reg)
      ∙ unverified_loop n x.0 (record v { ec = x.1 }) reg (read c.byte (i.write_ec_ram a d v.ec).1)

  -- The control read decides whether to try again, and not what is reported: where each write and
  -- each control read returns status 0, but the byte read back is never the one written, the write
  -- with one or more retries uses them all up and reports success.
  pub unverified_write_succeeds :
      (start : Reply) (n : ℕ) (u : Uniwill S)
      → u.wmi ≡ some i
      → (uniwill_write_ec_ram_with_retry start a d (suc n) u).0 ≡ success
  unfolding uniwill_write_ec_ram_with_retry
  unverified_write_succeeds start n u reg =
      let x = i.read_ec_ram a start.byte (i.write_ec_ram a d u.ec).1 in
      ap (λ t. t.0) (unverified_round n start u reg)
      ∙ unverified_loop n x.0 (record u { ec = x.1 }) reg
          (read start.byte (i.write_ec_ram a d u.ec).1)

module _ {S : Type 0} (u : Uniwill S) (gone : u.wmi ≡ none) where
  unregistered_read :
      (n a b : ℕ)
      → read_retry n a (record { status = eio; byte = b }) u
        ≡ (record { status = eio; byte = b }, u)
  unfolding read_retry uniwill_read_ec_ram
  unregistered_read zero a b = refl
  unregistered_read (suc n) a b =
      ground (arith, ap (λ t. read_by t a b u) gone, unregistered_read n a b)

  unregistered_write :
      (n a d b : ℕ) → write_retry n a d (record { status = eio; byte = b }) u ≡ (eio, u)
  unfolding write_retry uniwill_write_ec_ram
  unregistered_write zero a d b = refl
  unregistered_write (suc n) a d b =
      ground (arith, ap (λ t. write_by t a d u) gone, unregistered_write n a d b)

  -- With no table registered both accesses with one or more retries report -EIO, the byte of the
  -- caller keeps its value, and the state does not change.
  pub unregistered_retry :
      (un : ℤ) (start : Reply) (a d n : ℕ)
      → (uniwill_read_ec_ram_with_retry un a d (suc n) u ≡ (record { status = eio; byte = d }, u))
        × (uniwill_write_ec_ram_with_retry start a d (suc n) u ≡ (eio, u))
  unfolding uniwill_read_ec_ram_with_retry uniwill_write_ec_ram_with_retry read_retry write_retry
      uniwill_read_ec_ram uniwill_write_ec_ram
  unregistered_retry un start a d n = (
    ground (arith, ap (λ t. read_by t a d u) gone, unregistered_read n a d),
    ground (arith, ap (λ t. write_by t a d u) gone, unregistered_write n a d start.byte),
  )
