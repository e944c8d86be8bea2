-- ===== src/Clevo/Flexicharger/Legacy.antt =====
-- The older kind of firmware keeps what the driver's users rely on.
use tuxedo_drivers.Common.{
  ℕ, ◌+◌, ◌*◌, ◌%◌, ◌^◌, ◌≡◌, refl, ap, ◌∙◌, sym, subst, arith, false, ℤ, success, Option, some,
  bit_and, bit_or, ◌<<<◌, nonzero, if◌then◌else◌, eio, not, pure, ◌>>=◌, Bool,
}
use tuxedo_drivers.Clevo.{Object, integer, ClevoInterface, Clevo, clevo_evaluate_method, Bool}
use tuxedo_drivers.Clevo.Flexicharger.{
  Thresholds, thresholds_of, chosen, cc4_of, data_or, over, write_legacy,
  clevo_legacy_flexicharger_read, clevo_legacy_flexicharger_write, clevo_cc4_flexicharger_read,
  clevo_has_cc4_flexicharger, clevo_flexicharger_read, clevo_flexicharger_write,
  clevo_cc4_flexicharger_write,
}
use tuxedo_drivers.Clevo.Flexicharger.Words.{
  IsSmall, word_of, thresholds-word_of, set_word, status_word,
}
use tuxedo_drivers.Clevo.Flexicharger.Firmware.{
  IsLegacy, IsFlexicharger, after, method2_lem, integer_lem,
}

module _ {S : Type 0} (i : ClevoInterface S) (view : S → Thresholds) (law : IsLegacy i view) where
  has_no_cc4 :
      (c : Clevo S)
      → c.active ≡ some i
      → clevo_has_cc4_flexicharger c ≡ (false, after i 0x04 0x1e c)
  unfolding clevo_has_cc4_flexicharger clevo_cc4_flexicharger_read
  has_no_cc4 c h =
      let n = law.no_cc4 c.firmware in
      ap (λ (r : (ℤ × Object) × Clevo S). (not (nonzero (cc4_of r.0).0), r.1))
        (method2_lem i 0x04 0x1e c (success, integer n.0) h n.1)

  legacy_read :
      (un : ℕ) (c : Clevo S)
      → c.active ≡ some i
      → IsSmall (view c.firmware)
      → clevo_legacy_flexicharger_read un c ≡ ((success, some (view c.firmware)), after i 0x77 0 c)
  unfolding clevo_legacy_flexicharger_read
  legacy_read un c h s =
      let t = view c.firmware in
      let p = s.start_small in
      let q = s.end_small in
      let r = s.status_small in
      let whole : word_of t % 2 ^ 32 ≡ word_of t = omega arith in
      ap (λ (r : (ℤ × Option ℕ) × Clevo S). ((r.0.0, some (thresholds_of (data_or un r.0.1))), r.1))
        (integer_lem i 0x77 0 c (word_of t) h (law.reads c.firmware))
      ∙ ap (λ (w : Thresholds). ((success, some w), after i 0x77 0 c))
          (ap thresholds_of whole ∙ thresholds-word_of t s)

  legacy_write :
      (t : Thresholds) (c : Clevo S)
      → c.active ≡ some i
      → IsSmall t
      → let r = write_legacy t c in
        (r.0 ≡ success) × (view r.1.firmware ≡ t) × (r.1.active ≡ c.active)
  unfolding write_legacy
  legacy_write t c h s =
      let a = t.start_ in
      let b = t.end_ in
      let v = t.status in
      let w1 = 0x06000000 + b * 256 + a in
      let w2 = 0x05000000 + v in
      let c1 = after i 0x76 w1 c in
      let e1 : clevo_evaluate_method 0x76 (bit_or (bit_or (0x06 <<< 0x18) a) (b <<< 0x08)) c
          ≡ ((success, some 0x76), c1) =
        ap (λ w. clevo_evaluate_method 0x76 w c) (set_word a b s.start_small s.end_small)
        ∙ integer_lem i 0x76 w1 c 0x76 h (law.sets a b c.firmware s.start_small s.end_small) in
      let e2 : clevo_evaluate_method 0x76 (bit_or (0x05 <<< 0x18) (bit_and v 0x01)) c1
          ≡ ((success, some 0x76), after i 0x76 w2 c1) =
        ap (λ w. clevo_evaluate_method 0x76 w c1) (status_word v s.status_small)
        ∙ integer_lem i 0x76 w2 c1 0x76 h (law.switches v c1.firmware s.status_small) in
      let e : write_legacy t c ≡ (success, after i 0x76 w2 c1) =
        ap
          (λ (r : (ℤ × Option ℕ) × Clevo S).
            (if nonzero r.0.0 then pure eio else (do
              r' ← clevo_evaluate_method 0x76 (bit_or (0x05 <<< 0x18) (bit_and v 0x01))
              pure (if nonzero r'.0 then eio else success)))
              r.1)
          e1
        ∙ ap (λ (x : (ℤ × Option ℕ) × Clevo S). (if nonzero x.0.0 then eio else success, x.1)) e2 in
      let seen : view (after i 0x76 w2 c1).firmware ≡ t =
        law.switches_view v c1.firmware s.status_small
        ∙ ap (λ (x : Thresholds). record x { status = v })
            (law.sets_view a b c.firmware s.start_small s.end_small) in
      subst
        (λ (r : ℤ × Clevo S). (r.0 ≡ success) × (view r.1.firmware ≡ t) × (r.1.active ≡ c.active))
        (sym e) (refl, seen, refl)

  -- A firmware of the older kind whose interface is the active one is read and written as the
  -- attributes rely on.
  pub legacy-IsFlexicharger : IsFlexicharger i view
  unfolding clevo_flexicharger_read clevo_flexicharger_write clevo_legacy_flexicharger_write
  legacy-IsFlexicharger = record {
    flexicharger_read = λ un c h.
        let c1 = after i 0x04 0x1e c in
        let same = law.no_cc4_view c.firmware in
        let e =
          ap
            (λ (r : Bool × Clevo S).
              (if r.0 then clevo_cc4_flexicharger_read else clevo_legacy_flexicharger_read un) r.1)
            (has_no_cc4 c h.is_active)
          ∙ legacy_read un c1 h.is_active (subst IsSmall (sym same) h.fits) in
        (
          ap (λ r. r.0) e ∙ ap (λ t. (success, some t)) same,
          ap (λ r. view r.1.firmware) e ∙ (law.reads_view c1.firmware ∙ same),
          ap (λ r. r.1.active) e,
        );
    flexicharger_write = λ un a b v c h s.
        let c1 = after i 0x04 0x1e c in
        let c2 = after i 0x77 0 c1 in
        let same = law.no_cc4_view c.firmware in
        let t = chosen a b v (view c1.firmware) in
        let is_t : t ≡ chosen a b v (view c.firmware) = ap (chosen a b v) same in
        let e =
          ap
            (λ (r : Bool × Clevo S).
              (if r.0
                  then clevo_cc4_flexicharger_write a b v
                  else clevo_legacy_flexicharger_write un a b v)
                r.1)
            (has_no_cc4 c h.is_active)
          ∙ ap (λ (r : (ℤ × Option Thresholds) × Clevo S). over (chosen a b v) write_legacy r.0 r.1)
              (legacy_read un c1 h.is_active (subst IsSmall (sym same) h.fits)) in
        let w = legacy_write t c2 h.is_active (subst IsSmall (sym is_t) s) in
        (
          ap (λ r. r.0) e ∙ w.0,
          ap (λ r. view r.1.firmware) e ∙ (w.1 ∙ is_t),
          ap (λ r. r.1.active) e ∙ w.2,
        );
  }
