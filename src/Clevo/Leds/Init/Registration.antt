-- ===== src/Clevo/Leds/Init/Registration.antt =====
-- What is registered after `clevo_leds_init` and after `clevo_leds_remove`.
use Prim.Native.String.{String}
use tuxedo_drivers.Common.{
  List, ℕ, zero, suc, Bool, true, false, M, pure, ◌>>◌, when, if◌then◌else◌, ◌==◌, ◌||◌, ℤ, success,
  nonzero, ◌≡◌, ◌⊎◌, inl, inr, Bool-cases, refl, ap, ◌∙◌, sym, subst, arith,
}
use tuxedo_drivers.Clevo.{
  Object, integer, buffer, other_object, clevo_evaluate_method, clevo_evaluate_method2,
}
use tuxedo_drivers.Clevo.Leds.{
  Zone, ClevoLeds, Registered, nothing, type_none, type_fixed_color, type_1_zone_rgb,
  type_3_zone_rgb, by_clevo, assign, clevo_leds_set_brightness, clevo_leds_set_brightness_mc,
  clevo_leds_set_brightness_extern, clevo_leds_set_color_extern, clevo_evaluate_set_keyboard_status,
  clevo_leds_remove, unregister, colored, again,
}
use tuxedo_drivers.Clevo.Leds.Init.{
  Answers, register, with_max_5, ask_levels, specs_byte, take_specs, find_type, find_older, prepare,
  clevo_leds_init,
}

-- The devices of a type of backlight.
abbrev pub all_of : ℕ → Registered
all_of type =
    if type == 1
    then record nothing { white = true }
    else if type == 6
    then record nothing { rgb_0 = true }
    else if type == 2
    then record nothing { rgb_0 = true; rgb_1 = true; rgb_2 = true }
    else nothing

register_lem :
    (answers : Answers) (type : ℕ)
    → ((register answers type nothing).0 ≡ success)
        × ((register answers type nothing).1 ≡ all_of type)
      ⊎ (nonzero (register answers type nothing).0 ≡ true)
        × ((register answers type nothing).1 ≡ nothing)
unfolding register
register_lem answers type = ground arith

unregister_lem : (type : ℕ) → unregister type (all_of type) ≡ nothing
unregister_lem type = ground arith

none_lem : (type : ℕ) → unregister type nothing ≡ nothing
none_lem type = ground arith

removed_lem : (t : Bool) (type : ℕ) → (if t then unregister type nothing else nothing) ≡ nothing
removed_lem true type = none_lem type
removed_lem false type = refl

module _ {S : Type 0} where
  set_brightness-registered :
      (b : ℕ) (l : ClevoLeds S) → (clevo_leds_set_brightness b l).1.registered ≡ l.registered
  unfolding clevo_leds_set_brightness
  set_brightness-registered b l = ground arith

  mc-registered :
      (zone : ClevoLeds S → Zone) (b : ℕ) (l : ClevoLeds S)
      → (clevo_leds_set_brightness_mc zone b l).1.registered ≡ l.registered
  unfolding clevo_leds_set_brightness_mc
  mc-registered zone b l = ground arith

  ask_levels-registered : (l : ClevoLeds S) → (ask_levels l).1.registered ≡ l.registered
  unfolding ask_levels
  ask_levels-registered l = ground arith

  take_specs-registered :
      (beyond : List ℕ → ℕ) (r : ℤ × Object) (l : ClevoLeds S)
      → (take_specs beyond r l).1.registered ≡ l.registered
  unfolding take_specs
  take_specs-registered beyond (status, integer value) l = refl
  take_specs-registered beyond (status, other_object) l = refl
  take_specs-registered beyond (status, buffer bytes) l =
      let typed = record l { backlight_type = specs_byte beyond bytes } in
      ground (arith, ask_levels-registered typed)

  find_type-registered :
      (beyond : List ℕ → ℕ) (rounds : ℕ) (status : ℤ) (l : ClevoLeds S)
      → (find_type beyond rounds status l).1.registered ≡ l.registered
  unfolding find_type
  find_type-registered beyond zero status l = refl
  find_type-registered beyond (suc rounds) status l =
      let r = by_clevo (clevo_evaluate_method2 0x0d 0) l in
      let found = take_specs beyond r.0 r.1 in
      let same : found.1.registered ≡ l.registered = take_specs-registered beyond r.0 r.1 in
      let rest = find_type-registered beyond rounds found.0.1 found.1 in
      elim (Bool-cases found.0.0) [
        | inl h ↦
            ap
              (λ t.
                ((if t then pure found.0.1 else find_type beyond rounds found.0.1)
                  found.1).1.registered)
              h
            ∙ same
        | inr h ↦
            ap
              (λ t.
                ((if t then pure found.0.1 else find_type beyond rounds found.0.1)
                  found.1).1.registered)
              h
            ∙ (rest ∙ same)
      ]

  find_older-registered : (l : ClevoLeds S) → (find_older l).1.registered ≡ l.registered
  unfolding find_older
  find_older-registered l =
      let k = (by_clevo (clevo_evaluate_method 0x52 0) l).1 in
      ground (arith, ask_levels-registered (record k { backlight_type = type_fixed_color }))

  set_brightness_extern-registered :
      (b : ℕ) (l : ClevoLeds S) → (clevo_leds_set_brightness_extern b l).1.registered ≡ l.registered
  unfolding clevo_leds_set_brightness_extern
  set_brightness_extern-registered b l =
      let one = (clevo_leds_set_brightness_mc (λ l. l.zone_0) b l).1 in
      let two = (clevo_leds_set_brightness_mc (λ l. l.zone_1) b one).1 in
      ground (
        arith,
        set_brightness-registered b l,
        mc-registered (λ l. l.zone_0) b l,
        mc-registered (λ l. l.zone_1) b one,
        mc-registered (λ l. l.zone_2) b two,
      )

  -- The colours of the devices from one on, and a set of its brightness again.
  set_color_extern-registered :
      (color : ℕ) (l : ClevoLeds S)
      → (clevo_leds_set_color_extern color l).1.registered ≡ l.registered
  unfolding clevo_leds_set_color_extern
  set_color_extern-registered color l =
      let l0 = record l { zone_0 = colored color l.zone_0 } in
      let k0 = (again (λ l. l.zone_0) l0).1 in
      let l1 = record k0 { zone_1 = colored color k0.zone_1 } in
      let k1 = (again (λ l. l.zone_1) l1).1 in
      let l2 = record k1 { zone_2 = colored color k1.zone_2 } in
      let same0 : k0.registered ≡ l.registered =
        mc-registered (λ l. l.zone_0) l0.zone_0.brightness l0 in
      let same1 : k1.registered ≡ l.registered =
        mc-registered (λ l. l.zone_1) l1.zone_1.brightness l1 ∙ same0 in
      let same2 : (again (λ l. l.zone_2) l2).1.registered ≡ l.registered =
        mc-registered (λ l. l.zone_2) l2.zone_2.brightness l2 ∙ same1 in
      ground (arith, same0, same1, same2)

  when-registered :
      (t : Bool) (m : M (ClevoLeds S) (Unit {0})) (l : ClevoLeds S)
      → (m l).1.registered ≡ l.registered
      → (when t m l).1.registered ≡ l.registered
  when-registered true m l h = h
  when-registered false m l h = refl

  either-registered :
      (t : Bool) (m n : M (ClevoLeds S) (Unit {0})) (l : ClevoLeds S)
      → (m l).1.registered ≡ l.registered
      → (n l).1.registered ≡ l.registered
      → ((if t then m else n) l).1.registered ≡ l.registered
  either-registered true m n l g h = g
  either-registered false m n l g h = h

  prepare-registered :
      (beyond : List ℕ → ℕ) (un : ℤ) (board_in : String → Bool) (l : ClevoLeds S)
      → (prepare beyond un board_in l).1.registered ≡ l.registered
  unfolding prepare
  prepare-registered beyond un board_in l =
      let a = find_type beyond 3 un l in
      let older = nonzero a.0 || a.1.backlight_type == type_none in
      let b = (when older find_older a.1).1 in
      let same_b : b.registered ≡ l.registered =
        when-registered older find_older a.1 (find_older-registered a.1)
        ∙ find_type-registered beyond 3 un l in
      let quirk = board_in "N14xWU" || board_in "N13xWU" in
      let c = (when quirk (assign with_max_5) b).1 in
      let same_c : c.registered ≡ l.registered =
        when-registered quirk (assign with_max_5) b refl ∙ same_b in
      either-registered (c.backlight_type == type_fixed_color)
        (clevo_leds_set_brightness_extern c.led_brightness) (clevo_leds_set_color_extern 0xffffff) c
        (set_brightness_extern-registered c.led_brightness c)
        (set_color_extern-registered 0xffffff c)
      ∙ same_c

  -- How the initialization ends, and what the removal leaves after it.
  Outcome : ℤ × ClevoLeds S → Type 0
  Outcome x =
      ((x.0 ≡ success)
          × (x.1.leds_initialized ≡ true)
          × (x.1.registered ≡ all_of x.1.backlight_type)
        ⊎ (nonzero x.0 ≡ true) × (x.1.registered ≡ nothing))
      × ((clevo_leds_remove x.1).1.registered ≡ nothing)

  -- The end of the initialization from the outcome of the registrations.
  abbrev done : ℤ × Registered → ClevoLeds S → ℤ × ClevoLeds S
  done r k =
      (if nonzero r.0
          then pure r.0
          else (assign (λ (l : ClevoLeds S). record l { leds_initialized = true }) >> pure success))
        (record k { registered = r.1 })

  done-Outcome :
      (r : ℤ × Registered) (k : ClevoLeds S)
      → (r.0 ≡ success) × (r.1 ≡ all_of k.backlight_type) ⊎ (nonzero r.0 ≡ true) × (r.1 ≡ nothing)
      → Outcome (done r k)
  unfolding Outcome clevo_leds_remove
  done-Outcome r k (inl (e, g)) =
      subst (λ (r : ℤ × Registered). Outcome (done r k)) (sym (λ i. (e i, g i)))
        (inl (refl, refl, refl), unregister_lem k.backlight_type)
  done-Outcome r k (inr (e, g)) =
      subst
        (λ (t : Bool). Outcome (
          (if t
              then pure r.0
              else (assign (λ (l : ClevoLeds S). record l { leds_initialized = true })
                  >> pure success))
            (record k { registered = r.1 })))
        (sym e)
        (
          inr (e, g),
          ap (λ g. if k.leds_initialized then unregister k.backlight_type g else g) g
              ∙ removed_lem k.leds_initialized k.backlight_type,
        )

  -- What is done to the keyboard before the registrations.
  abbrev switched_on : ℕ → ClevoLeds S → ClevoLeds S
  switched_on type p =
      (when (type == type_1_zone_rgb || type == type_3_zone_rgb)
        (by_clevo (clevo_evaluate_set_keyboard_status 1) >> pure tt) p).1

  switched_lem :
      (t : Bool) (p : ClevoLeds S)
      → let k = (when t (by_clevo (clevo_evaluate_set_keyboard_status 1) >> pure tt) p).1 in
        (k.registered ≡ p.registered) × (k.backlight_type ≡ p.backlight_type)
  switched_lem true p = (refl, refl)
  switched_lem false p = (refl, refl)

  -- Where no device is registered, an initialization ends with the status 0, with the devices of the
  -- type of backlight that was found, and no other, registered, or with an error and no device
  -- registered, whatever the firmware and the kernel answer. After a removal that follows it no
  -- device is registered.
  pub init_registers :
      (beyond : List ℕ → ℕ) (un : ℤ) (board_in : String → Bool) (answers : Answers)
      (l : ClevoLeds S)
      → l.registered ≡ nothing
      → let x = clevo_leds_init beyond un board_in answers l in
        ((x.0 ≡ success)
            × (x.1.leds_initialized ≡ true)
            × (x.1.registered ≡ all_of x.1.backlight_type)
          ⊎ (nonzero x.0 ≡ true) × (x.1.registered ≡ nothing))
        × ((clevo_leds_remove x.1).1.registered ≡ nothing)
  unfolding clevo_leds_init Outcome
  init_registers beyond un board_in answers l h =
      let p = (prepare beyond un board_in l).1 in
      let type = p.backlight_type in
      let k = switched_on type p in
      let s = switched_lem (type == type_1_zone_rgb || type == type_3_zone_rgb) p in
      let empty : k.registered ≡ nothing = s.0 ∙ (prepare-registered beyond un board_in l ∙ h) in
      done-Outcome (register answers type k.registered) k (
        subst
          (λ (q : Registered × ℕ).
            let r = register answers type q.0 in
            (r.0 ≡ success) × (r.1 ≡ all_of q.1) ⊎ (nonzero r.0 ≡ true) × (r.1 ≡ nothing))
          (sym (λ i. (empty i, s.1 i))) (register_lem answers type))
