-- ===== src/Uniwill/Fan/Table.antt =====
-- A fan speed over an EC RAM, where the fan tables are in use.
use tuxedo_drivers.Common.{
  u32_of_int, einval, ℕ, ◌≤◌, ◌<◌, ◌≡◌, refl, ap, ◌∙◌, subst, sym, arith, true, false, Ram, u8, ltb,
  if◌then◌else◌, test_bits, bit_and, bit_and-low_byte,
}
use tuxedo_drivers.Uniwill.Interface.{Reply, UniwillInterface, IsEcRam}
use tuxedo_drivers.Uniwill.Access.{Uniwill}
use tuxedo_drivers.Uniwill.Access.Ready.{
  IsReady, read-IsReady, write-IsReady, after_write, after_read,
}
use tuxedo_drivers.Uniwill.Fan.{
  allowed_speed, set_table, direct_fan_control, direct_write, uw_init_fan, uw_set_fan,
}
use tuxedo_drivers.Uniwill.Fan.Speed.{allowed_speed_range}
use tuxedo_drivers.Uniwill.Fan.Init.{uw_init_fan-IsReady}

low_byte : (speed : ℕ) → speed ≤ 200 → bit_and (allowed_speed speed) 0xff ≡ allowed_speed speed
low_byte speed h =
    ground (
      arith,
      allowed_speed_range speed speed (omega arith) h,
      bit_and-low_byte (allowed_speed speed),
    )

module _ {S : Type 0} (i : UniwillInterface S) (ready : S → Type 0) (ram : S → Ram)
    (law : IsEcRam i ready ram) where
  -- The entry of the fan table and the register of the direct control hold `speed`.
  pub HasSpeed : ℕ → ℕ → ℕ → ℕ × Uniwill S → Type 0
  HasSpeed entry register speed x =
      (x.0 ≡ 0)
      × (ram x.1.ec entry ≡ speed)
      × (ram x.1.ec register ≡ speed)
      × IsReady i ready ram law x.1

  table_0 :
      (speed : ℕ) (u : Uniwill S)
      → IsReady i ready ram law u
      → speed ≤ 200
      → HasSpeed 0x0f20 0x1804 (allowed_speed speed) (set_table 0 0x0f20 speed u)
  unfolding HasSpeed set_table direct_fan_control direct_write
  table_0 speed u r h =
      let a = allowed_speed speed in
      let b = bit_and a 0xff in
      let low = low_byte speed h in
      let w = write-IsReady i ready ram law 0x0f20 b u r (omega arith) in
      let u2 = record (after_write i ready ram law 0x0f20 b u) { fan0_value = a } in
      let r2 : IsReady i ready ram law u2 = record {
        registered = w.2.registered;
        ec_ready = w.2.ec_ready;
      } in
      let x = write-IsReady i ready ram law 0x1804 b u2 r2 (omega arith) in
      let v = after_write i ready ram law 0x1804 b u2 in
      let e : set_table 0 0x0f20 speed u ≡ (0, v) = ground (arith, w.0, x.0) in
      subst (HasSpeed 0x0f20 0x1804 a) (sym e) (
        refl,
        ap (λ f. f 0x0f20) x.1 ∙ (ap (λ f. f 0x0f20) w.1 ∙ low),
        ap (λ f. f 0x1804) x.1 ∙ low,
        x.2,
      )

  table_1 :
      (speed : ℕ) (u : Uniwill S)
      → IsReady i ready ram law u
      → speed ≤ 200
      → HasSpeed 0x0f50 0x1809 (allowed_speed speed) (set_table 1 0x0f50 speed u)
  unfolding HasSpeed set_table direct_fan_control direct_write
  table_1 speed u r h =
      let a = allowed_speed speed in
      let b = bit_and a 0xff in
      let low = low_byte speed h in
      let w = write-IsReady i ready ram law 0x0f50 b u r (omega arith) in
      let u2 = record (after_write i ready ram law 0x0f50 b u) { fan1_value = a } in
      let r2 : IsReady i ready ram law u2 = record {
        registered = w.2.registered;
        ec_ready = w.2.ec_ready;
      } in
      let x = write-IsReady i ready ram law 0x1809 b u2 r2 (omega arith) in
      let v = after_write i ready ram law 0x1809 b u2 in
      let e : set_table 1 0x0f50 speed u ≡ (0, v) = ground (arith, w.0, x.0) in
      subst (HasSpeed 0x0f50 0x1809 a) (sym e) (
        refl,
        ap (λ f. f 0x0f50) x.1 ∙ (ap (λ f. f 0x0f50) w.1 ∙ low),
        ap (λ f. f 0x1809) x.1 ∙ low,
        x.2,
      )

  -- What goes into the fan table for a speed.
  abbrev pub table_speed : ℕ → ℕ
  table_speed speed = if ltb speed 25 then 1 else if ltb speed 50 then 50 else speed

  table_speed_lem : (speed : ℕ) → allowed_speed speed ≡ table_speed speed
  unfolding allowed_speed
  table_speed_lem speed = ground arith

  module _ (start : Reply) (un : ℕ) (u : Uniwill S) (r : IsReady i ready ram law u)
      (universal : u.feats.has_universal_ec_fan_control ≡ true)
      (off : test_bits (u8 (ram u.ec 0x0751)) 0x40 ≡ false) where
    at_table : Uniwill S
    at_table = (uw_init_fan start un (after_read i ready ram law 0x0751 un u)).1

    at_table-IsReady : IsReady i ready ram law at_table
    unfolding at_table
    at_table-IsReady =
        (uw_init_fan-IsReady i ready ram law start un (after_read i ready ram law 0x0751 un u)
          (read-IsReady i ready ram law 0x0751 un u r (omega arith)).2).1

    -- Over an EC RAM with the universal fan control and the full fan mode off, whether the tables
    -- were initialized before or not, a speed up to 200 is set for either fan: the result is 0, and
    -- the entry of the fan's table and the register of its direct control hold 1 for a speed below
    -- 25, 50 for one from 25 to 49, and the speed from 50 on. A third fan, and a speed above 200 of
    -- any fan, are refused with -EINVAL.
    pub uw_set_fan_sets :
        (speed other fan fast : ℕ)
        → speed ≤ 200
        → 2 ≤ other
        → 200 < fast
        → HasSpeed 0x0f20 0x1804 (table_speed speed) (uw_set_fan start un 0 speed u)
          × HasSpeed 0x0f50 0x1809 (table_speed speed) (uw_set_fan start un 1 speed u)
          × ((uw_set_fan start un other speed u).0 ≡ u32_of_int einval)
          × ((uw_set_fan start un fan fast u).0 ≡ u32_of_int einval)
    unfolding uw_set_fan at_table set_table
    uw_set_fan_sets speed other fan fast h l g =
        let x = read-IsReady i ready ram law 0x0751 un u r (omega arith) in
        let e0 : uw_set_fan start un 0 speed u ≡ set_table 0 0x0f20 speed at_table =
          ground (arith, x.0) in
        let e1 : uw_set_fan start un 1 speed u ≡ set_table 1 0x0f50 speed at_table =
          ground (arith, x.0) in
        let speed_lem = table_speed_lem speed in
        (
          subst (λ n. HasSpeed 0x0f20 0x1804 n (uw_set_fan start un 0 speed u)) speed_lem
              (subst (HasSpeed 0x0f20 0x1804 (allowed_speed speed)) (sym e0)
                (table_0 speed at_table at_table-IsReady h)),
          subst (λ n. HasSpeed 0x0f50 0x1809 n (uw_set_fan start un 1 speed u)) speed_lem
              (subst (HasSpeed 0x0f50 0x1809 (allowed_speed speed)) (sym e1)
                (table_1 speed at_table at_table-IsReady h)),
          ground (arith, x.0),
          ground (arith, x.0),
        )
