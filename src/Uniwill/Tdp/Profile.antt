-- ===== src/Uniwill/Tdp/Profile.antt =====
-- src/tuxedo_io/tuxedo_io.c: the bits of the performance profile over an EC RAM.
use tuxedo_drivers.Common.{
  ℕ, ◌<◌, ◌≡◌, refl, ap, ◌∙◌, subst, sym, arith, Bool, true, ◌==◌, ◌&&◌, Ram, u8, success, einval,
  u32_of_int, bit_and, bit_or, not8, check_below, checked_table, update,
}
use tuxedo_drivers.Uniwill.Interface.{UniwillInterface, IsEcRam}
use tuxedo_drivers.Uniwill.Access.{Uniwill, Features, uniwill_write_ec_ram}
use tuxedo_drivers.Uniwill.Access.Ready.{IsReady, read-IsReady, write-IsReady, after_read}
use tuxedo_drivers.Uniwill.Tdp.{choose_profile, uw_set_performance_profile_v1}

-- The byte that is written for the bits `c`.
abbrev with_bits : ℕ → ℕ → ℕ
with_bits c d = bit_or (bit_and d (not8 (bit_or 0xa0 0x10))) c

abbrev fits : ℕ → ℕ → Bool
fits c d =
    (bit_and (u8 (with_bits c d)) 0xb0 == c)
    && (bit_and (u8 (with_bits c d)) 0x4f == bit_and d 0x4f)

table_1 : check_below 256 (fits 0xa0) ≡ true
unfolding check_below
table_1 = refl

table_2 : check_below 256 (fits 0) ≡ true
unfolding check_below
table_2 = refl

table_3 : check_below 256 (fits 0x10) ≡ true
unfolding check_below
table_3 = refl

split_fits :
    (c d : ℕ)
    → fits c d ≡ true
    → (bit_and (u8 (with_bits c d)) 0xb0 ≡ c) × (bit_and (u8 (with_bits c d)) 0x4f ≡ bit_and d 0x4f)
split_fits c d h = (ground arith, ground arith)

module _ {S : Type 0} (i : UniwillInterface S) (ready : S → Type 0) (ram : S → Ram)
    (law : IsEcRam i ready ram) where
  -- The status is 0, the bits of the mask 0xb0 are `c`, the others of the byte and all other bytes
  -- are those of `f`, and the EC stays ready.
  unfoldable pub Chosen : ℕ → Ram → Features → ℕ × Uniwill S → Type 0
  Chosen c f feats x =
      (x.0 ≡ 0)
      × (bit_and (u8 (ram x.1.ec 0x0751)) 0xb0 ≡ c)
      × (bit_and (u8 (ram x.1.ec 0x0751)) 0x4f ≡ bit_and (u8 (f 0x0751)) 0x4f)
      × (update (ram x.1.ec) 0x0751 0 ≡ update f 0x0751 0)
      × (x.1.feats ≡ feats)
      × IsReady i ready ram law x.1

  -- Only the byte differs.
  others :
      (f g : Ram) (d : ℕ)
      → f ≡ update g 0x0751 d
      → (a : ℕ) → update f 0x0751 0 a ≡ update g 0x0751 0 a
  others f g d e a = ground (arith, ap (λ f. f a) e)

  choose :
      (c d : ℕ) (u : Uniwill S)
      → IsReady i ready ram law u
      → u8 (ram u.ec 0x0751) ≡ d
      → fits c d ≡ true
      → let w = uniwill_write_ec_ram 0x0751 (with_bits c d) u in
        Chosen c (ram u.ec) u.feats (u32_of_int w.0, w.1)
  unfolding Chosen
  choose c d u r e h =
      let w = write-IsReady i ready ram law 0x0751 (with_bits c d) u r (omega arith) in
      let at = ap (λ f. u8 (f 0x0751)) w.1 in
      subst (λ x. Chosen c (ram u.ec) u.feats (u32_of_int x.0, x.1)) (sym w.0)
        (
          refl,
          ap (λ x. bit_and x 0xb0) at ∙ (split_fits c d h).0,
          ap (λ x. bit_and x 0x4f) at ∙ ((split_fits c d h).1 ∙ ap (λ x. bit_and x 0x4f) (sym e)),
          λ j a. others _ _ (with_bits c d) w.1 a j,
          refl,
          w.2,
        )

  abbrev from : Uniwill S → Uniwill S
  from u = after_read i ready ram law 0x0751 0x00 u

  by_read :
      (p c : ℕ) (u : Uniwill S)
      → IsReady i ready ram law u
      → ((d : ℕ)
          → u8 (ram (from u).ec 0x0751) ≡ d
          → Chosen c
              (ram (from u).ec)
              u.feats
              (choose_profile p (record { status = success; byte = d }) (from u)))
      → Chosen c (ram u.ec) u.feats (uw_set_performance_profile_v1 p u)
  unfolding uw_set_performance_profile_v1
  by_read p c u r chosen =
      let x = read-IsReady i ready ram law 0x0751 0x00 u r (omega arith) in
      let q = chosen (u8 (ram u.ec 0x0751)) (ap (λ f. u8 (f 0x0751)) x.1) in
      subst (λ y. Chosen c (ram u.ec) u.feats (choose_profile p y.0 y.1)) (sym x.0)
        (subst
          (λ f.
            Chosen c f u.feats (
              choose_profile p (record { status = success; byte = u8 (ram u.ec 0x0751) }) (from u)))
          x.1 q)

  -- Over an EC RAM each of the profiles 1, 2 and 3 leaves its own bits, 0xa0, 0 and 0x10, under the
  -- mask 0xb0, keeps all others, the bit of the full fan mode among them, and reports 0. A profile `p` above
  -- 3 reports -EINVAL and writes nothing.
  pub performance_profile_sets :
      (u : Uniwill S) (p : ℕ)
      → IsReady i ready ram law u
      → 3 < p
      → Chosen 0xa0 (ram u.ec) u.feats (uw_set_performance_profile_v1 1 u)
        × Chosen 0 (ram u.ec) u.feats (uw_set_performance_profile_v1 2 u)
        × Chosen 0x10 (ram u.ec) u.feats (uw_set_performance_profile_v1 3 u)
        × ((uw_set_performance_profile_v1 p u).0 ≡ u32_of_int einval)
        × (ram (uw_set_performance_profile_v1 p u).1.ec ≡ ram u.ec)
  unfolding choose_profile uw_set_performance_profile_v1
  performance_profile_sets u p r l =
      let x = read-IsReady i ready ram law 0x0751 0x00 u r (omega arith) in
      (
        by_read 1 0xa0 u r (λ d e.
            choose 0xa0 d (from u) x.2 e (checked_table 256 (fits 0xa0) d table_1 (omega arith))),
        by_read 2 0 u r
            (λ d e. choose 0 d (from u) x.2 e (checked_table 256 (fits 0) d table_2 (omega arith))),
        by_read 3 0x10 u r (λ d e.
            choose 0x10 d (from u) x.2 e (checked_table 256 (fits 0x10) d table_3 (omega arith))),
        ground (arith, x.0),
        ground (arith, x.0, x.1),
      )
