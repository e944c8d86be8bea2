-- ===== src/Clevo/Flexicharger/Attributes.antt =====
-- src/clevo_keyboard.h: the attributes of the charging thresholds, over either kind of firmware.
use Prim.Native.String.{String}
use tuxedo_drivers.Common.{
  Bool-cases, inl, inr, ◌||◌, pure, ◌>>=◌, einval, negative, ℕ, ◌+◌, ◌%◌, ◌^◌, ◌≤◌, ◌<◌, ◌≡◌, refl,
  ap, ◌∙◌, sym, subst, arith, true, false, Bool, ℤ, pos, negsuc, success, Option, none, some, List,
  [], ◌∷◌, M, ltb, ◌&&◌, ◌==◌, if◌then◌else◌, check_below, checked_table,
}
use tuxedo_drivers.Uniwill.Switches.{number}
use tuxedo_drivers.Clevo.{ClevoInterface, Clevo}
use tuxedo_drivers.Clevo.Flexicharger.{
  Thresholds, chosen, start_values, end_values, closest_from, array_find_closest_u8, u8_of_int,
  threshold_store, threshold_show, type_of, type_write, clevo_flexicharger_read,
  clevo_flexicharger_write, charge_control_start_threshold_store,
  charge_control_start_threshold_show, charge_control_end_threshold_store,
  charge_control_end_threshold_show, charge_type_store, charge_type_show,
}
use tuxedo_drivers.Clevo.Flexicharger.Words.{IsSmall}
use tuxedo_drivers.Clevo.Flexicharger.Closest.{Closest, found-Closest}
use tuxedo_drivers.Clevo.Flexicharger.Firmware.{IsCharging, IsFlexicharger}

-- A byte that is not 0.
in_range : ℤ → Bool
in_range (pos n) = ltb 0 n && ltb n 256
in_range (negsuc n) = false

range_table : List ℕ → Bool
unfolding check_below in_range
range_table values = check_below 101 (λ v. in_range (array_find_closest_u8 v values))

start_table : range_table start_values ≡ true
unfolding range_table array_find_closest_u8 closest_from
start_table = refl

end_table : range_table end_values ≡ true
unfolding range_table array_find_closest_u8 closest_from
end_table = refl

-- The value that a store looks up.
looked_up :
    (value x : ℕ) (values : List ℕ)
    → value ≤ 100
    → range_table (x ∷ values) ≡ true
    → (n : ℕ) × (u8_of_int (array_find_closest_u8 value (x ∷ values)) ≡ n)
      × Closest value (x ∷ values) n
      × (0 < n)
      × (n < 256)
unfolding range_table in_range
looked_up value x values small table =
    let h = found-Closest value x values in
    let n = h.0 in
    let ok : in_range (pos n) ≡ true =
      subst (λ z. in_range z ≡ true) h.1
        (checked_table 101 (λ v. in_range (array_find_closest_u8 v (x ∷ values))) value table
          (omega arith)) in
    let low : 0 < n = ground (arith, ok) in
    let high : n < 256 = ground (arith, ok) in
    let same : n % 2 ^ 8 ≡ n = omega arith in (n, ap u8_of_int h.1 ∙ same, h.2, low, high)

module _ {S : Type 0} (i : ClevoInterface S) (view : S → Thresholds) (dev : IsFlexicharger i view)
    (un count : ℕ) (c : Clevo S) (h : IsCharging i view c) where
  -- A write of thresholds that fit, and the read after it.
  written :
      (a b v : Option ℕ)
      → IsSmall (chosen a b v (view c.firmware))
      → 0 < (chosen a b v (view c.firmware)).start_ + (chosen a b v (view c.firmware)).end_
      → let r = clevo_flexicharger_write un a b v c in
        (r.0 ≡ success)
        × (view r.1.firmware ≡ chosen a b v (view c.firmware))
        × ((clevo_flexicharger_read un r.1).0 ≡ (success, some (chosen a b v (view c.firmware))))
  written a b v small set =
      let t = chosen a b v (view c.firmware) in
      let w = dev.flexicharger_write un a b v c h small in
      let d = (clevo_flexicharger_write un a b v c).1 in
      let charging : IsCharging i view d = record {
        is_active = w.2 ∙ h.is_active;
        fits = subst IsSmall (sym w.1) small;
        is_set = subst (λ (t : Thresholds). 0 < t.start_ + t.end_) (sym w.1) set;
      } in
      let r = dev.flexicharger_read un d charging in
      (w.0, w.1, r.0 ∙ ap (λ t. (success, some t)) w.1)

  -- A store that passes the checks writes the value that was looked up.
  store_lem :
      (values : List ℕ) (write : ℕ → M (Clevo S) ℤ) (value n : ℕ)
      → 1 ≤ value
      → value ≤ 100
      → u8_of_int (array_find_closest_u8 value values) ≡ n
      → (write n c).0 ≡ success
      → threshold_store values write (success, value) count c ≡ (pos count, (write n c).1)
  store_lem values write value n low high e ok =
      let passes : (ltb value 1 || ltb 100 value) ≡ false = ground arith in
      ap
        (λ b.
          (if b then pure einval else (do
            result ← write (u8_of_int (array_find_closest_u8 value values))
            pure (if negative result then result else pos count)))
            c)
        passes
      ∙ (ap (λ m. (if negative (write m c).0 then (write m c).0 else pos count, (write m c).1)) e
          ∙ ap (λ r. (if negative r then r else pos count, (write n c).1)) ok)

  start_round :
      (value : ℕ)
      → 1 ≤ value
      → value ≤ 100
      → let x = charge_control_start_threshold_store un (success, value) count c in
        (x.0 ≡ pos count)
        × ((n : ℕ) × Closest value start_values n
            × (view x.1.firmware ≡ record (view c.firmware) { start_ = n })
            × ((charge_control_start_threshold_show un x.1).0 ≡ number n))
  unfolding charge_control_start_threshold_store charge_control_start_threshold_show
  start_round value low high =
      let l = looked_up value 40 (50 ∷ 60 ∷ 70 ∷ 80 ∷ 95 ∷ []) high start_table in
      let n = l.0 in
      let small : IsSmall (chosen (some n) none none (view c.firmware)) = record {
        start_small = l.4;
        end_small = h.fits.end_small;
        status_small = h.fits.status_small;
      } in
      let set : 0 < n + (view c.firmware).end_ = ground (arith, l.3) in
      let w = written (some n) none none small set in
      let e =
        store_lem start_values (λ value. clevo_flexicharger_write un (some value) none none) value n
          low high l.1 w.0 in
      (
        ap (λ x. x.0) e,
        (
          n,
          l.2,
          ap (λ x. view x.1.firmware) e ∙ w.1,
          ap (λ x. threshold_show (λ t. t.start_) (clevo_flexicharger_read un x.1).0) e
              ∙ ap (threshold_show (λ t. t.start_)) w.2,
        ),
      )

  end_round :
      (value : ℕ)
      → 1 ≤ value
      → value ≤ 100
      → let x = charge_control_end_threshold_store un (success, value) count c in
        (x.0 ≡ pos count)
        × ((n : ℕ) × Closest value end_values n
            × (view x.1.firmware ≡ record (view c.firmware) { end_ = n })
            × ((charge_control_end_threshold_show un x.1).0 ≡ number n))
  unfolding charge_control_end_threshold_store charge_control_end_threshold_show
  end_round value low high =
      let l = looked_up value 60 (70 ∷ 80 ∷ 90 ∷ 100 ∷ []) high end_table in
      let n = l.0 in
      let small : IsSmall (chosen none (some n) none (view c.firmware)) = record {
        start_small = h.fits.start_small;
        end_small = l.4;
        status_small = h.fits.status_small;
      } in
      let set : 0 < (view c.firmware).start_ + n = ground (arith, l.3) in
      let w = written none (some n) none small set in
      let e =
        store_lem end_values (λ value. clevo_flexicharger_write un none (some value) none) value n
          low high l.1 w.0 in
      (
        ap (λ x. x.0) e,
        (
          n,
          l.2,
          ap (λ x. view x.1.firmware) e ∙ w.1,
          ap (λ x. threshold_show (λ t. t.end_) (clevo_flexicharger_read un x.1).0) e
              ∙ ap (threshold_show (λ t. t.end_)) w.2,
        ),
      )

  -- Over either kind of firmware a start threshold of 1 to 100 is accepted, a value of the list to
  -- which no other is closer is set as the start, the other settings stay, and the attribute shows
  -- the value; and so for the end threshold.
  pub thresholds_show-store :
      (value : ℕ)
      → 1 ≤ value
      → value ≤ 100
      → let x = charge_control_start_threshold_store un (success, value) count c in
        let y = charge_control_end_threshold_store un (success, value) count c in
        (x.0 ≡ pos count)
        × ((n : ℕ) × Closest value start_values n
            × (view x.1.firmware ≡ record (view c.firmware) { start_ = n })
            × ((charge_control_start_threshold_show un x.1).0 ≡ number n))
        × (y.0 ≡ pos count)
        × ((n : ℕ) × Closest value end_values n
            × (view y.1.firmware ≡ record (view c.firmware) { end_ = n })
            × ((charge_control_end_threshold_show un y.1).0 ≡ number n))
  thresholds_show-store value low high =
      let x = start_round value low high in let y = end_round value low high in (x.0, x.1, y.0, y.1)

  -- The write of a type, and what is shown after it.
  TypeSet : ℕ → String → ℤ × Clevo S → Type 0
  TypeSet v name x =
      (x.0 ≡ pos count)
      × (view x.1.firmware ≡ record (view c.firmware) { status = v })
      × (type_of (clevo_flexicharger_read un x.1).0 ≡ (success, some name))

  type_write-TypeSet :
      (v : ℕ)
      → v < 2
      → TypeSet v (if v == 1 then "Custom" else "Standard") (type_write un v count c)
  unfolding TypeSet
  type_write-TypeSet v low =
      let small : IsSmall (chosen none none (some v) (view c.firmware)) = record {
        start_small = h.fits.start_small;
        end_small = h.fits.end_small;
        status_small = low;
      } in
      let w = written none none (some v) small h.is_set in
      (ap (λ r. if negative r then r else pos count) w.0, w.1, ap type_of w.2)

  -- Over either kind of firmware a text that matches one of the two types is accepted, the status is
  -- 0 for Standard and 1 for Custom, the thresholds stay, and the attribute shows that type.
  pub charge_type_show-store :
      (matches : String → Bool)
      → (matches "Standard" || matches "Custom") ≡ true
      → let x = charge_type_store un matches count c in
        let standard = matches "Standard" in
        (x.0 ≡ pos count)
        × (view x.1.firmware ≡ record (view c.firmware) { status = if standard then 0 else 1 })
        × ((charge_type_show un x.1).0
            ≡ (success, some (if standard then "Standard" else "Custom")))
  unfolding charge_type_store charge_type_show TypeSet
  charge_type_show-store matches one = elim (Bool-cases (matches "Standard")) [
    | inl is_standard ↦
        subst
          (λ b.
            let x : ℤ × Clevo S =
              (if b
                  then type_write un 0 count
                  else if matches "Custom"
                  then type_write un 1 count
                  else pure einval)
                c in
            TypeSet (if b then 0 else 1) (if b then "Standard" else "Custom") x)
          (sym is_standard) (type_write-TypeSet 0 (omega arith))
    | inr not_it ↦
        let custom : matches "Custom" ≡ true = ground (arith, one, not_it) in
        subst
          (λ b.
            let x : ℤ × Clevo S =
              (if b
                  then type_write un 0 count
                  else if matches "Custom"
                  then type_write un 1 count
                  else pure einval)
                c in
            TypeSet (if b then 0 else 1) (if b then "Standard" else "Custom") x)
          (sym not_it)
          (subst
            (λ b.
              let x : ℤ × Clevo S = (if b then type_write un 1 count else pure einval) c in
              TypeSet 1 "Custom" x)
            (sym custom) (type_write-TypeSet 1 (omega arith)))
  ]
