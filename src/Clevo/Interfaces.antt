-- ===== src/Clevo/Interfaces.antt =====
-- src/clevo_keyboard.h: which interface is active after any sequence of additions and removals.
use tuxedo_drivers.Common.{
  enodev, ℕ, ◌≡◌, ◌≢◌, ◌⊎◌, inl, inr, refl, ◌∙◌, sym, subst, arith, true, false, none, some, ◌∷◌,
}
use text.Mathlib.Text.{◌==◌ as str_eq}
use tuxedo_drivers.Clevo.{
  remove_driver, start_driver, enable_events, ClevoInterface, Clevo, wmi_strid, acpi_strid,
  clevo_keyboard_add_interface, clevo_keyboard_remove_interface, clevo_evaluate_method2, add_wmi,
  give_up,
}

module _ {S : Type 0} (w a : ClevoInterface S) where
  -- What the two drivers do: each adds its interface and removes it, and the firmware may change in
  -- between.
  pub data Step : Clevo S → Clevo S → Type 0 where
    added_wmi : (c : Clevo S) → Step c (clevo_keyboard_add_interface w c).1
    added_acpi : (c : Clevo S) → Step c (clevo_keyboard_add_interface a c).1
    removed_wmi : (c : Clevo S) → Step c (clevo_keyboard_remove_interface w c).1
    removed_acpi : (c : Clevo S) → Step c (clevo_keyboard_remove_interface a c).1
    ran : (c : Clevo S) (s : S) → Step c (record c { firmware = s })

  pub data Reachable (start : Clevo S) : Clevo S → Type 0 where
    here : Reachable start start
    next : (c d : Clevo S) → Reachable start c → Step c d → Reachable start d

  -- The ACPI interface is active while it is registered, and another one only while it is
  -- registered.
  pub Consistent : Clevo S → Type 0
  Consistent c =
      ((c.active ≡ some a) × (c.acpi ≡ some a))
      ⊎ ((c.active ≡ some w) × (c.wmi ≡ some w) × (c.acpi ≡ none))
      ⊎ ((c.active ≡ none) × (c.acpi ≡ none))

  module _ (is_wmi : w.string_id ≡ wmi_strid) (is_acpi : a.string_id ≡ acpi_strid)
      (distinct : w.address ≢ a.address) where
    wmi_true : str_eq w.string_id wmi_strid ≡ true
    wmi_true = subst (λ n. str_eq n wmi_strid ≡ true) (sym is_wmi) refl

    acpi_false : str_eq a.string_id wmi_strid ≡ false
    acpi_false = subst (λ n. str_eq n wmi_strid ≡ false) (sym is_acpi) refl

    acpi_true : str_eq a.string_id acpi_strid ≡ true
    acpi_true = subst (λ n. str_eq n acpi_strid ≡ true) (sym is_acpi) refl

    added_w : (c : Clevo S) → (clevo_keyboard_add_interface w c).1 ≡ start_driver (add_wmi w c)
    unfolding clevo_keyboard_add_interface
    added_w c = ground (arith, wmi_true)

    added_a :
        (c : Clevo S)
        → (clevo_keyboard_add_interface a c).1
          ≡ start_driver (enable_events a (record c { acpi = some a; active = some a }))
    unfolding clevo_keyboard_add_interface
    added_a c = ground (arith, acpi_false, acpi_true)

    removed_w :
        (c : Clevo S)
        → (clevo_keyboard_remove_interface w c).1 ≡ give_up w (record c { wmi = none })
    unfolding clevo_keyboard_remove_interface
    removed_w c = ground (arith, wmi_true)

    removed_a :
        (c : Clevo S)
        → (clevo_keyboard_remove_interface a c).1 ≡ give_up a (record c { acpi = none })
    unfolding clevo_keyboard_remove_interface
    removed_a c = ground (arith, acpi_false, acpi_true)

    add_wmi-Consistent : (c : Clevo S) → Consistent c → Consistent (start_driver (add_wmi w c))
    unfolding Consistent add_wmi
    add_wmi-Consistent c h = ground arith

    add_acpi-Consistent :
        (c : Clevo S)
        → Consistent (start_driver (enable_events a (record c { acpi = some a; active = some a })))
    unfolding Consistent
    add_acpi-Consistent c = inl (refl, refl)

    give_up_w-Consistent :
        (c : Clevo S) → Consistent c → Consistent (give_up w (record c { wmi = none }))
    unfolding Consistent give_up
    give_up_w-Consistent c h = ground (arith, distinct)

    give_up_a-Consistent :
        (c : Clevo S) → Consistent c → Consistent (give_up a (record c { acpi = none }))
    unfolding Consistent give_up
    give_up_a-Consistent c h = ground (arith, distinct)

    moved-Consistent : (c d : Clevo S) → Step c d → Consistent c → Consistent d
    unfolding Consistent
    moved-Consistent _ _ (added_wmi c) h =
        subst Consistent (sym (added_w c)) (add_wmi-Consistent c h)
    moved-Consistent _ _ (added_acpi c) h =
        subst Consistent (sym (added_a c)) (add_acpi-Consistent c)
    moved-Consistent _ _ (removed_wmi c) h =
        subst Consistent (sym (removed_w c)) (give_up_w-Consistent c h)
    moved-Consistent _ _ (removed_acpi c) h =
        subst Consistent (sym (removed_a c)) (give_up_a-Consistent c h)
    moved-Consistent _ _ (ran c s) h = h

    -- After any sequence of additions and removals of the two interfaces, and of changes of the
    -- firmware, that starts with none, the ACPI interface is the active one while it is registered,
    -- and otherwise the active one is the registered WMI interface or there is none.
    pub always-Consistent :
        (start c : Clevo S)
        → start.active ≡ none
        → start.acpi ≡ none
        → Reachable start c
        → Consistent c
    unfolding Consistent
    always-Consistent start _ p q here = inr (inr (p, q))
    always-Consistent start _ p q (next c d r s) =
        moved-Consistent c d s (always-Consistent start c p q r)

    -- Where the ACPI interface is active, its removal leaves no active interface, so that a call
    -- reports -ENODEV, also if the WMI interface is still registered.
    pub removal_deactivates :
        (c : Clevo S) (cmd arg : ℕ)
        → c.active ≡ some a
        → let d = (clevo_keyboard_remove_interface a c).1 in
          (d.wmi ≡ c.wmi) × (d.active ≡ none) × ((clevo_evaluate_method2 cmd arg d).0.0 ≡ enodev)
    unfolding give_up clevo_evaluate_method2
    removal_deactivates c cmd arg h =
        let e : (clevo_keyboard_remove_interface a c).1
            ≡ record c { acpi = none; active = none; calls = remove_driver ∷ c.calls } =
          removed_a c ∙ ground (arith, h) in
        subst
          (λ d.
            (d.wmi ≡ c.wmi) × (d.active ≡ none) × ((clevo_evaluate_method2 cmd arg d).0.0 ≡ enodev))
          (sym e) (refl, refl, refl)
