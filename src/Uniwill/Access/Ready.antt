-- ===== src/Uniwill/Access/Ready.antt =====
-- The access to the EC while a table that keeps the contract of an EC RAM is registered.
use tuxedo_drivers.Common.{
  ℕ, ◌<◌, ◌≡◌, ap, ◌∙◌, if◌then◌else◌, pure, Ram, update, u8, success, some, nonzero,
}
use tuxedo_drivers.Uniwill.Interface.{UniwillInterface, IsEcRam}
use tuxedo_drivers.Uniwill.Access.{
  Uniwill, uniwill_read_ec_ram, uniwill_write_ec_ram, modify_ec_ram, read_by, write_by,
}

module _ {S : Type 0} (i : UniwillInterface S) (ready : S → Type 0) (ram : S → Ram)
    (law : IsEcRam i ready ram) where
  pub record IsReady (u : Uniwill S) : Type 0 where
    pub registered : u.wmi ≡ some i
    pub ec_ready : ready u.ec

  -- The EC's part of an access.
  abbrev pub after_read : ℕ → ℕ → Uniwill S → Uniwill S
  after_read a old u = record u { ec = (i.read_ec_ram a old u.ec).1 }

  abbrev pub after_write : ℕ → ℕ → Uniwill S → Uniwill S
  after_write a d u = record u { ec = (i.write_ec_ram a d u.ec).1 }

  pub read-IsReady :
      (a old : ℕ) (u : Uniwill S)
      → IsReady u
      → a < 65536
      → (uniwill_read_ec_ram a old u
          ≡ (record { status = success; byte = u8 (ram u.ec a) }, after_read a old u))
        × (ram (after_read a old u).ec ≡ ram u.ec)
        × IsReady (after_read a old u)
  unfolding uniwill_read_ec_ram
  read-IsReady a old u r h =
      let e = r.ec_ready in
      (
        ap (λ w. read_by w a old u) r.registered ∙ λ j. (
          record {
            status = law.read_status a old u.ec e h j;
            byte = law.read_byte a old u.ec e h j;
          },
          after_read a old u,
        ),
        law.read_ram a old u.ec e h,
        record { registered = r.registered; ec_ready = law.read_ready a old u.ec e h },
      )

  pub write-IsReady :
      (a d : ℕ) (u : Uniwill S)
      → IsReady u
      → a < 65536
      → (uniwill_write_ec_ram a d u ≡ (success, after_write a d u))
        × (ram (after_write a d u).ec ≡ update (ram u.ec) a d)
        × IsReady (after_write a d u)
  unfolding uniwill_write_ec_ram
  write-IsReady a d u r h =
      let e = r.ec_ready in
      (
        ap (λ w. write_by w a d u) r.registered
            ∙ ap (λ st. (st, after_write a d u)) (law.write_status a d u.ec e h),
        law.write_ram a d u.ec e h,
        record { registered = r.registered; ec_ready = law.write_ready a d u.ec e h },
      )

  -- A change of one byte.
  abbrev pub after_modify : ℕ → ℕ → (ℕ → ℕ) → Uniwill S → Uniwill S
  after_modify old a change u = after_write a (change (u8 (ram u.ec a))) (after_read a old u)

  pub modify-IsReady :
      (old a : ℕ) (change : ℕ → ℕ) (u : Uniwill S)
      → IsReady u
      → a < 65536
      → (modify_ec_ram old a change u ≡ (success, after_modify old a change u))
        × (ram (after_modify old a change u).ec ≡ update (ram u.ec) a (change (u8 (ram u.ec a))))
        × IsReady (after_modify old a change u)
  unfolding modify_ec_ram
  modify-IsReady old a change u r h =
      let x = read-IsReady a old u r h in
      let w = write-IsReady a (change (u8 (ram u.ec a))) (after_read a old u) x.2 h in
      (
        ap
              (λ y.
                (if nonzero y.0.status
                    then pure y.0.status
                    else uniwill_write_ec_ram a (change y.0.byte))
                  y.1)
              x.0
            ∙ w.0,
        w.1 ∙ ap (λ f. update f a (change (u8 (ram u.ec a)))) x.1,
        w.2,
      )
