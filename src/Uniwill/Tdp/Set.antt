-- ===== src/Uniwill/Tdp/Set.antt =====
-- src/tuxedo_io/tuxedo_io.c: what a set of a power limit leaves, and what is refused.
use tuxedo_drivers.Common.{
  false, Bool, true, ℕ, ◌+◌, ◌*◌, ◌/◌, ◌<◌, ◌≤◌, ◌≡◌, refl, ap, subst, sym, arith, ◌==◌, ◌&&◌,
  if◌then◌else◌, Ram, ℤ, pos, success, ◌∙◌, ◌↔◌, ◌≤ℤ◌, inl, ◌⊎◌, inr, negsuc,
}
use tuxedo_drivers.Uniwill.Interface.{UniwillInterface, IsEcRam}
use tuxedo_drivers.Uniwill.Access.{Uniwill}
use tuxedo_drivers.Uniwill.Access.Ready.{IsReady, write-IsReady, after_write, read-IsReady}
use tuxedo_drivers.Uniwill.Tdp.{
  Limits, uw_get_tdp_min, uw_get_tdp_max, write_tdp, uw_get_tdp, uw_set_performance_profile_v1,
  uw_set_tdp, profile_overboost,
}
use tuxedo_drivers.Uniwill.Tdp.Profile.{Chosen, performance_profile_sets}

module _ {S : Type 0} (i : UniwillInterface S) (ready : S → Type 0) (ram : S → Ram)
    (law : IsEcRam i ready ram) (l : Limits) (index low high v : ℕ) (in_array : index ≤ 2)
    (is_low : uw_get_tdp_min l index ≡ pos low) (is_high : uw_get_tdp_max l index ≡ pos high)
    (above : low ≤ v) (below : v ≤ high) where
  -- What is stored of the value, and what a get makes of it.
  abbrev stored : Uniwill S → ℕ
  stored u = if index == 2 && u.feats.has_double_pl4 then v / 2 else v

  abbrev shown : Uniwill S → ℕ
  shown u = if index == 2 && u.feats.has_double_pl4 then v / 2 * 2 else v

  Result : Uniwill S → ℤ × Uniwill S → Type 0
  Result u x =
      (x.0 ≡ success)
      × (ram x.1.ec (0x0783 + index) ≡ stored u)
      × (x.1.feats ≡ u.feats)
      × IsReady i ready ram law x.1

  write-Result :
      (u : Uniwill S)
      → IsReady i ready ram law u
      → stored u < 256
      → Result u (write_tdp l index (pos v) u)
  unfolding write_tdp Result
  write-Result u r fit =
      let w = write-IsReady i ready ram law (0x0783 + index) (stored u) u r (omega arith) in
      let after = after_write i ready ram law (0x0783 + index) (stored u) u in
      let e : write_tdp l index (pos v) u ≡ (success, after) =
        ground (arith, is_low, is_high, w.0) in
      subst (Result u) (sym e) (refl, ground (arith, ap (λ f. f (0x0783 + index)) w.1), refl, w.2)

  start : Uniwill S → Uniwill S
  start u =
      if u.feats.custom_profile_mode_needed
      then (uw_set_performance_profile_v1 profile_overboost u).1
      else u

  Keeps : Uniwill S → Uniwill S → Type 0
  Keeps u v = (v.feats ≡ u.feats) × IsReady i ready ram law v

  either : (b : Bool) (v w u : Uniwill S) → Keeps u v → Keeps u w → Keeps u (if b then v else w)
  either true v w u h l = h
  either false v w u h l = l

  start_ready : (u : Uniwill S) → IsReady i ready ram law u → Keeps u (start u)
  unfolding start Keeps Chosen
  start_ready u r =
      let c = (performance_profile_sets i ready ram law u 4 r (omega arith)).2 in
      either u.feats.custom_profile_mode_needed
        (uw_set_performance_profile_v1 profile_overboost u).1 u u (c.4, c.5) (refl, r)

  get_after :
      (un : ℕ) (u w : Uniwill S)
      → IsReady i ready ram law w
      → w.feats ≡ u.feats
      → ram w.ec (0x0783 + index) ≡ stored u
      → stored u < 256
      → (uw_get_tdp l un index w).0 ≡ pos (shown u)
  unfolding uw_get_tdp
  get_after un u w r same e fit =
      let x = read-IsReady i ready ram law (0x0783 + index) un w r (omega arith) in
      ground (arith, is_low, x.0, e, ap (λ f. f.has_double_pl4) same)

  -- Over an EC RAM, a value within the limits of a supported index is set with status 0, and the
  -- next get returns it, but for the lowest bit where the limit is stored halved. What is stored
  -- must fit into a byte.
  pub get-set_tdp :
      (un : ℕ) (u : Uniwill S)
      → IsReady i ready ram law u
      → stored u < 256
      → ((uw_set_tdp l index (pos v) u).0 ≡ success)
        × ((uw_get_tdp l un index (uw_set_tdp l index (pos v) u).1).0 ≡ pos (shown u))
  unfolding uw_set_tdp start Keeps Result
  get-set_tdp un u r fit =
      let s = start_ready u r in
      let b = ap (λ f. f.has_double_pl4) s.0 in
      let q = write-Result (start u) s.1 (ground (arith, b)) in
      (
        q.0,
        get_after un u (uw_set_tdp l index (pos v) u).1 q.3 (q.2 ∙ s.0) (ground (arith, q.1, b))
            fit,
      )

ℤ-cases : (z : ℤ) → ((n : ℕ) × (z ≡ pos n)) ⊎ ((n : ℕ) × (z ≡ negsuc n))
ℤ-cases (pos n) = inl (n, refl)
ℤ-cases (negsuc n) = inr (n, refl)

-- The limits of the index are there, and the value is not outside of them.
pub Within : Limits → ℕ → ℤ → Type 0
Within l index v =
    (low : ℕ) × (high : ℕ) × (uw_get_tdp_min l index ≡ pos low)
    × (uw_get_tdp_max l index ≡ pos high)
    × (pos low ≤ℤ v)
    × (v ≤ℤ pos high)

module _ {S : Type 0} (l : Limits) (index : ℕ) (v : ℤ) (u : Uniwill S) where
  accepts : Within l index v → (uw_set_tdp l index v u).0 ≡ success
  unfolding uw_set_tdp write_tdp Within
  accepts (low, high, e, f, a, b) = ground (arith, e, f)

  accepted : (uw_set_tdp l index v u).0 ≡ success → Within l index v
  unfolding uw_set_tdp write_tdp Within
  accepted h = elim (ℤ-cases (uw_get_tdp_min l index)) [
    | inl (low, e) ↦ elim (ℤ-cases (uw_get_tdp_max l index)) [
      | inl (high, f) ↦ (low, high, e, f, ground (arith, e, f), ground (arith, e, f))
      | inr (n, f) ↦ absurd (ground (arith, e, f))
    ]
    | inr (n, e) ↦ absurd (ground (arith, e))
  ]

  -- A set reports 0 exactly for a value within the limits of an index that has limits, whatever
  -- the EC does, the device is and the profile was.
  pub uw_set_tdp_accepts_iff : ((uw_set_tdp l index v u).0 ≡ success) ↔ Within l index v
  uw_set_tdp_accepts_iff = (accepted, accepts)
