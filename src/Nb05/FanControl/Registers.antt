-- ===== src/Nb05/FanControl/Registers.antt =====
-- What the register writes of the fan control leave in the EC's RAM.
use tuxedo_drivers.Common.{
  ℕ, zero, suc, ◌+◌, ◌≤◌, ◌≡◌, ap, arith, Ram, if◌then◌else◌, ltb, leb, ◌&&◌,
}
use tuxedo_drivers.Nb05.Ec.{Ports, nb05_write_ec_ram}
use tuxedo_drivers.Nb05.Ec.Device.{I2ec, IsI2ec}
use tuxedo_drivers.Nb05.Ec.Refinement.{ram_of, ram-nb05_write_ec_ram}
use tuxedo_drivers.Nb05.FanControl.{write_range, write_zones, at_least}

-- A table of zones from `first` on, as `write_zones` means to leave it.
abbrev pub zones : ℕ → ℕ → ℕ → Ram → Ram
zones first hot value f x =
    if leb first x && ltb x (first + 7)
    then value
    else if leb (first + 7) x && ltb x (first + 9)
    then at_least hot value
    else f x

module _ {S : Type 0} (p : Ports S) (view : S → I2ec) (dev : IsI2ec p view) where
  range_ram :
      (rounds reg value : ℕ) (s : S) (x : ℕ)
      → reg + rounds ≤ 65536
      → ram_of view (write_range p rounds reg value s).1 x
        ≡ (if leb reg x && ltb x (reg + rounds) then value else ram_of view s x)
  unfolding write_range
  range_ram zero reg value s x h = ground arith
  range_ram (suc rounds) reg value s x h = ground (
    arith,
    range_ram rounds (reg + 1) value (nb05_write_ec_ram p reg value s).1 x,
    ap (λ (f : Ram). f x) (ram-nb05_write_ec_ram p view dev reg value s (omega arith)),
  )

  pub zones_ram :
      (first hot value : ℕ) (s : S) (x : ℕ)
      → first + 9 ≤ 65536
      → ram_of view (write_zones p first hot value s).1 x ≡ zones first hot value (ram_of view s) x
  unfolding write_zones
  zones_ram first hot value s x h =
      let hot_value = at_least hot value in
      let s1 = (write_range p 7 first value s).1 in
      let s2 = (nb05_write_ec_ram p (first + 7) hot_value s1).1 in
      ground (
        arith,
        range_ram 7 first value s x,
        ap (λ (f : Ram). f x)
            (ram-nb05_write_ec_ram p view dev (first + 7) hot_value s1 (omega arith)),
        ap (λ (f : Ram). f x)
            (ram-nb05_write_ec_ram p view dev (first + 8) hot_value s2 (omega arith)),
      )
