-- ===== src/Uniwill/Nvidia/Enable.antt =====
-- The enable bits of cTGP and dynamic boost over an EC RAM.
use tuxedo_drivers.Common.{
  ==_iff, ℕ, ◌<◌, ◌≡◌, refl, ap, ◌∙◌, subst, sym, arith, Bool, true, false, not, ◌==◌, ◌&&◌, ◌||◌,
  if◌then◌else◌, test_bits, u8, Ram, pos, success, negative, check_below, checked_table,
}
use tuxedo_drivers.Uniwill.Interface.{UniwillInterface, IsEcRam}
use tuxedo_drivers.Uniwill.Access.{Uniwill}
use tuxedo_drivers.Uniwill.Access.Ready.{
  IsReady, read-IsReady, write-IsReady, after_read, after_write,
}
use tuxedo_drivers.Uniwill.Switches.{number, failed}
use tuxedo_drivers.Uniwill.Nvidia.{
  bit_ctgp_enable, bit_db_enable, bit_general_enable, enabled, store_enable, show_byte, to_bit,
  ctgp_enable_store, ctgp_enable_show, db_enable_store, db_enable_show, init_db_and_ctgp,
}

-- The general bit is set exactly if one of the two others is.
abbrev pub is_coupled : ℕ → Bool
is_coupled d =
    to_bit bit_general_enable d
    == (if test_bits d bit_ctgp_enable || test_bits d bit_db_enable then 1 else 0)

-- What is stored of a bit: itself, the other one unchanged, and the general one with both.
abbrev stores : ℕ → ℕ → Bool → ℕ → Bool
stores bit other on d =
    (to_bit bit (u8 (enabled bit other on d)) == (if on then 1 else 0))
    && (to_bit other (u8 (enabled bit other on d)) == to_bit other d)
    && (not (is_coupled d) || is_coupled (u8 (enabled bit other on d)))

bit_table : ℕ → ℕ → Bool
unfolding check_below
bit_table bit other =
    check_below 256 (stores bit other true) && check_below 256 (stores bit other false)

ctgp_table : bit_table bit_ctgp_enable bit_db_enable ≡ true
unfolding bit_table
ctgp_table = refl

db_table : bit_table bit_db_enable bit_ctgp_enable ≡ true
unfolding bit_table
db_table = refl

both : (a b : Bool) → (a && b) ≡ true → (a ≡ true) × (b ≡ true)
both a b h = (ground arith, ground arith)

stored_bit :
    (bit other : ℕ) (on : Bool) (d : ℕ)
    → bit_table bit other ≡ true
    → d < 256
    → stores bit other on d ≡ true
unfolding bit_table
stored_bit bit other true d t h = checked_table 256 (stores bit other true) d (both _ _ t).0 h
stored_bit bit other false d t h = checked_table 256 (stores bit other false) d (both _ _ t).1 h

and_parts :
    (a b c d : Bool)
    → (a && b && (not c || d)) ≡ true
    → c ≡ true
    → (a ≡ true) × (b ≡ true) × (d ≡ true)
and_parts a b c d h k = (ground arith, ground arith, ground arith)

split_stores :
    (bit other : ℕ) (on : Bool) (d : ℕ)
    → stores bit other on d ≡ true
    → is_coupled d ≡ true
    → (to_bit bit (u8 (enabled bit other on d)) ≡ (if on then 1 else 0))
      × (to_bit other (u8 (enabled bit other on d)) ≡ to_bit other d)
      × (is_coupled (u8 (enabled bit other on d)) ≡ true)
split_stores bit other on d h c =
    let x = u8 (enabled bit other on d) in
    let all =
      and_parts (to_bit bit x == (if on then 1 else 0)) (to_bit other x == to_bit other d)
        (is_coupled d) (is_coupled x) h c in
    ((==_iff _ _).0 all.0, (==_iff _ _).0 all.1, all.2)

module _ {S : Type 0} (i : UniwillInterface S) (ready : S → Type 0) (ram : S → Ram)
    (law : IsEcRam i ready ram) where
  show_eq :
      (f : ℕ → ℕ) (u : Uniwill S)
      → IsReady i ready ram law u
      → (show_byte 0x0743 f u).0 ≡ number (f (u8 (ram u.ec 0x0743)))
  show_eq f u r =
      ap (λ x. if negative x.0.status then failed x.0.status else number (f x.0.byte))
        (read-IsReady i ready ram law 0x0743 0 u r (omega arith)).0

  store_round :
      (bit other : ℕ) (on : Bool) (count : ℕ) (u : Uniwill S)
      → bit_table bit other ≡ true
      → IsReady i ready ram law u
      → is_coupled (u8 (ram u.ec 0x0743)) ≡ true
      → let x = store_enable bit other (success, on) count u in
        (x.0 ≡ pos count)
        × ((show_byte 0x0743 (to_bit bit) x.1).0 ≡ number (if on then 1 else 0))
        × ((show_byte 0x0743 (to_bit other) x.1).0 ≡ (show_byte 0x0743 (to_bit other) u).0)
        × (is_coupled (u8 (ram x.1.ec 0x0743)) ≡ true)
  store_round bit other on count u t r coupled =
      let d = u8 (ram u.ec 0x0743) in
      let x = read-IsReady i ready ram law 0x0743 0 u r (omega arith) in
      let v = after_read i ready ram law 0x0743 0 u in
      let n = enabled bit other on d in
      let w = write-IsReady i ready ram law 0x0743 n v x.2 (omega arith) in
      let z = after_write i ready ram law 0x0743 n v in
      let e : store_enable bit other (success, on) count u ≡ (pos count, z) =
        ground (arith, x.0, w.0) in
      let b = split_stores bit other on d (stored_bit bit other on d t (omega arith)) coupled in
      let at : u8 (ram z.ec 0x0743) ≡ u8 n = ap (λ f. u8 (f 0x0743)) w.1 in
      subst
        (λ y.
          (y.0 ≡ pos count)
          × ((show_byte 0x0743 (to_bit bit) y.1).0 ≡ number (if on then 1 else 0))
          × ((show_byte 0x0743 (to_bit other) y.1).0 ≡ (show_byte 0x0743 (to_bit other) u).0)
          × (is_coupled (u8 (ram y.1.ec 0x0743)) ≡ true))
        (sym e)
        (
          refl,
          show_eq (to_bit bit) z w.2 ∙ ap number (ap (to_bit bit) at ∙ b.0),
          show_eq (to_bit other) z w.2
              ∙ (ap number (ap (to_bit other) at ∙ b.1) ∙ sym (show_eq (to_bit other) u r)),
          ap is_coupled at ∙ b.2,
        )

  -- Over an EC RAM whose general bit is set exactly if the cTGP or the dynamic boost bit is, a store
  -- of either enable attribute is accepted, that attribute shows what was stored, the other one
  -- what it showed before, and the general bit is again set exactly if one of the two is.
  pub enable_show-store :
      (on : Bool) (count : ℕ) (u : Uniwill S)
      → IsReady i ready ram law u
      → is_coupled (u8 (ram u.ec 0x0743)) ≡ true
      → let c = ctgp_enable_store (success, on) count u in
        let d = db_enable_store (success, on) count u in
        (c.0 ≡ pos count)
        × ((ctgp_enable_show c.1).0 ≡ number (if on then 1 else 0))
        × ((db_enable_show c.1).0 ≡ (db_enable_show u).0)
        × (is_coupled (u8 (ram c.1.ec 0x0743)) ≡ true)
        × (d.0 ≡ pos count)
        × ((db_enable_show d.1).0 ≡ number (if on then 1 else 0))
        × ((ctgp_enable_show d.1).0 ≡ (ctgp_enable_show u).0)
        × (is_coupled (u8 (ram d.1.ec 0x0743)) ≡ true)
  unfolding ctgp_enable_store ctgp_enable_show db_enable_store db_enable_show
  enable_show-store on count u r coupled =
      let c = store_round bit_ctgp_enable bit_db_enable on count u ctgp_table r coupled in
      let d = store_round bit_db_enable bit_ctgp_enable on count u db_table r coupled in
      (c.0, c.1, c.2, c.3, d.0, d.1, d.2, d.3)

  -- Over an EC RAM the start reports 0, sets both bits and the general one, and leaves a cTGP offset
  -- of 0.
  pub init_enables :
      (u : Uniwill S)
      → IsReady i ready ram law u
      → let x = init_db_and_ctgp u in
        (x.0 ≡ success)
        × ((ctgp_enable_show x.1).0 ≡ number 1)
        × ((db_enable_show x.1).0 ≡ number 1)
        × (is_coupled (u8 (ram x.1.ec 0x0743)) ≡ true)
        × (ram x.1.ec 0x0744 ≡ 0)
  unfolding init_db_and_ctgp ctgp_enable_show db_enable_show
  init_enables u r =
      let a = write-IsReady i ready ram law 0x0743 7 u r (omega arith) in
      let ua = after_write i ready ram law 0x0743 7 u in
      let b = write-IsReady i ready ram law 0x0744 0 ua a.2 (omega arith) in
      let ub = after_write i ready ram law 0x0744 0 ua in
      let c = write-IsReady i ready ram law 0x0745 255 ub b.2 (omega arith) in
      let uc = after_write i ready ram law 0x0745 255 ub in
      let d = write-IsReady i ready ram law 0x0746 25 uc c.2 (omega arith) in
      let ud = after_write i ready ram law 0x0746 25 uc in
      let e : init_db_and_ctgp u ≡ (success, ud) = ground (arith, a.0, b.0, c.0, d.0) in
      let at : ram ud.ec 0x0743 ≡ 7 =
        ap (λ f. f 0x0743) d.1
        ∙ (ap (λ f. f 0x0743) c.1 ∙ (ap (λ f. f 0x0743) b.1 ∙ ap (λ f. f 0x0743) a.1)) in
      let offset : ram ud.ec 0x0744 ≡ 0 =
        ap (λ f. f 0x0744) d.1 ∙ (ap (λ f. f 0x0744) c.1 ∙ ap (λ f. f 0x0744) b.1) in
      subst
        (λ y.
          (y.0 ≡ success)
          × ((show_byte 0x0743 (to_bit bit_ctgp_enable) y.1).0 ≡ number 1)
          × ((show_byte 0x0743 (to_bit bit_db_enable) y.1).0 ≡ number 1)
          × (is_coupled (u8 (ram y.1.ec 0x0743)) ≡ true)
          × (ram y.1.ec 0x0744 ≡ 0))
        (sym e)
        (
          refl,
          show_eq (to_bit bit_ctgp_enable) ud d.2
              ∙ ap (λ n. number (to_bit bit_ctgp_enable (u8 n))) at,
          show_eq (to_bit bit_db_enable) ud d.2 ∙ ap (λ n. number (to_bit bit_db_enable (u8 n))) at,
          ap (λ n. is_coupled (u8 n)) at,
          offset,
        )
