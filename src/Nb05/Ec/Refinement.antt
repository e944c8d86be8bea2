-- ===== src/Nb05/Ec/Refinement.antt =====
-- `nb05_read_ec_ram` and `nb05_write_ec_ram` against a plain byte store.
use tuxedo_drivers.Common.{
  ℕ, ◌+◌, ◌*◌, ◌/◌, ◌<◌, ◌≡◌, refl, ◌∙◌, ap, arith, Ram, update, bit_and, ◌>>>◌, bit_and-low_byte,
}
use tuxedo_drivers.Nb05.Ec.{Ports, io_write, io_read, nb05_read_ec_ram, nb05_write_ec_ram}
use tuxedo_drivers.Nb05.Ec.Device.{I2ec, IsI2ec, address, device_outb}

-- The two address bytes that the driver sends make up the address again.
split_address : (a : ℕ) → a < 65536 → bit_and (a >>> 8) 255 * 256 + bit_and a 255 ≡ a
split_address a h = omega (arith, bit_and-low_byte (a / 256) (omega arith), bit_and-low_byte a h)

abbrev pub ram_of : {S : Type 0} → (S → I2ec) → S → Ram
ram_of view s = (view s).ram

module _ {S : Type 0} (p : Ports S) (view : S → I2ec) (dev : IsI2ec p view) where
  after_io_write :
      (reg byte : ℕ) (s : S) {d : I2ec}
      → view s ≡ d
      → view (io_write p reg byte s).1 ≡ device_outb byte 0x4f (device_outb reg 0x4e d)
  unfolding io_write
  after_io_write reg byte s e =
      dev.outb_view byte 0x4f _
      ∙ ap (device_outb byte 0x4f) (dev.outb_view reg 0x4e s ∙ ap (device_outb reg 0x4e) e)

  -- The state in which the data register is selected, at an address sent in two bytes.
  at_address : ℕ → ℕ → I2ec → I2ec
  at_address high low d = record d { index = 0x2e; select = 0x12; high = high; low = low }

  addressed :
      (high low : ℕ) (s : S) {d : I2ec}
      → view s ≡ d
      → view
          (io_write p 0x2e 0x12
            (io_write p 0x2f low
              (io_write p 0x2e 0x10 (io_write p 0x2f high (io_write p 0x2e 0x11 s).1).1).1).1).1
        ≡ at_address high low d
  unfolding at_address
  addressed high low s e = after_io_write 0x2e 0x12 _ (
      after_io_write 0x2f low _
        (after_io_write 0x2e 0x10 _ (after_io_write 0x2f high _ (after_io_write 0x2e 0x11 s e))))

  write_view :
      (a d : ℕ) (s : S)
      → ram_of view (nb05_write_ec_ram p a d s).1
        ≡ update (ram_of view s) (bit_and (a >>> 8) 255 * 256 + bit_and a 255) d
  unfolding nb05_write_ec_ram at_address
  write_view a d s =
      ap (λ v. v.ram)
        (after_io_write 0x2f d _ (addressed (bit_and (a >>> 8) 255) (bit_and a 255) s refl))

  -- Over an I2EC device, the write of a byte at an address below 65536 changes that byte of the EC's
  -- RAM, and no other.
  pub ram-nb05_write_ec_ram :
      (a d : ℕ) (s : S)
      → a < 65536
      → ram_of view (nb05_write_ec_ram p a d s).1 ≡ update (ram_of view s) a d
  ram-nb05_write_ec_ram a d s h =
      write_view a d s ∙ ap (λ t. update (ram_of view s) t d) (split_address a h)

  read_selected :
      (high low : ℕ) (s : S) (d : I2ec)
      → view s ≡ at_address high low d
      → ((io_read p 0x2f s).0 ≡ d.ram (high * 256 + low))
        × (ram_of view (io_read p 0x2f s).1 ≡ d.ram)
  unfolding io_read at_address
  read_selected high low s d e =
      let e' : view (p.outb 0x2f 0x4e s).1
          ≡ record d { index = 0x2f; select = 0x12; high = high; low = low } =
        dev.outb_view 0x2f 0x4e s ∙ ap (device_outb 0x2f 0x4e) e in
      (
        dev.inb_data _ (ap (λ v. v.index) e') (ap (λ v. v.select) e')
            ∙ ap (λ v. v.ram (address v)) e',
        ap (λ v. v.ram) (dev.inb_view 0x4f _ ∙ e'),
      )

  -- Over an I2EC device, a read at an address below 65536 returns the byte, and leaves the RAM as it
  -- is.
  pub data-nb05_read_ec_ram :
      (a : ℕ) (s : S)
      → a < 65536
      → ((nb05_read_ec_ram p a s).0 ≡ ram_of view s a)
        × (ram_of view (nb05_read_ec_ram p a s).1 ≡ ram_of view s)
  unfolding nb05_read_ec_ram
  data-nb05_read_ec_ram a s h =
      let low = bit_and a 255 in
      let high = bit_and (a >>> 8) 255 in
      let r = read_selected high low _ (view s) (addressed high low s refl) in
      (r.0 ∙ ap (ram_of view s) (split_address a h), r.1)
