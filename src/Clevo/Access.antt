-- ===== src/Clevo/Access.antt =====
-- src/clevo_wmi.c and src/clevo_acpi.c: the two tables of method calls, and the drivers that add
-- them. `wmi_evaluate_method`, `guid_parse` and `acpi_evaluate_dsm` are parameters.
pub mod Tables
use tuxedo_drivers.Common.{
  ℕ, ◌%◌, ◌^◌, Bool, true, false, not, M, pure, ◌>>=◌, ◌>>◌, if◌then◌else◌, ◌==◌, u8, ℤ, pos,
  negsuc, success, eio, enodev, nonzero, ◌&&◌, Option, none, some, List,
}
use tuxedo_drivers.Clevo.{
  Object, integer, buffer, other_object, ClevoInterface, Clevo, wmi_strid, acpi_strid, enodata,
  clevo_keyboard_add_interface, clevo_keyboard_remove_interface,
}

-- -ENOENT and -ENOMEM of errno.h
abbrev pub enoent : ℤ
enoent = negsuc 1

abbrev pub enomem : ℤ
enomem = negsuc 11

-- `active_driver_data`, whether it is set, with the firmware.
pub record Platform (S : Type 0) : Type 0 where
  pub driver_data : Bool
  pub below : S

abbrev pub is_negative : ℤ → Bool
is_negative (pos n) = false
is_negative (negsuc n) = true

-- `none` is a failure, `some none` a success without an object.
abbrev pub wmi_result : Option (Option Object) → ℤ × Object
wmi_result none = (eio, other_object)
wmi_result (some none) = (negsuc 0, other_object)
wmi_result (some (some object)) = (success, object)

-- The answer of _DSM, with the status of `guid_parse`.
abbrev pub dsm_result : ℤ → Option Object → ℤ × Object
dsm_result status none = (negsuc 0, other_object)
dsm_result status (some object) = (status, object)

-- Whether the answer to a method that is known to exist is as expected.
abbrev pub is_expected : ℤ × Object → Bool
is_expected (status, integer value) = not (is_negative status) && not (value % 2 ^ 32 == 0xffffffff)
is_expected (status, buffer bytes) = false
is_expected (status, other_object) = false

abbrev pub by_firmware : {S A : Type 0} → M S A → M (Clevo S) A
by_firmware m c = let r = m c.firmware in (r.0, record c { firmware = r.1 })

module _ {S : Type 0} where
  abbrev pub by_below : {A : Type 0} → M S A → M (Platform S) A
  by_below m p = let r = m p.below in (r.0, record p { below = r.1 })

  module _ (wmi_evaluate_method : ℕ → ℕ → M S (Option (Option Object))) where
    unfoldable pub clevo_wmi_evaluate : ℕ → ℕ → M (Platform S) (ℤ × Object)
    clevo_wmi_evaluate wmi_method_id wmi_arg = do
      r ← by_below (wmi_evaluate_method wmi_method_id wmi_arg)
      pure (wmi_result r)

    unfoldable pub clevo_wmi_interface_method_call : ℕ → ℕ → M (Platform S) (ℤ × Object)
    unfolding clevo_wmi_evaluate
    clevo_wmi_interface_method_call cmd arg = clevo_wmi_evaluate (u8 cmd) (arg % 2 ^ 32)

    unfoldable pub clevo_wmi_interface_method_call_pkgbuf : ℕ → List ℕ → M (Platform S) ℤ
    clevo_wmi_interface_method_call_pkgbuf cmd arg = pure success

    unfoldable pub clevo_wmi_interface : ℕ → ClevoInterface (Platform S)
    clevo_wmi_interface address = record {
      address = address;
      string_id = wmi_strid;
      method_call = clevo_wmi_interface_method_call;
      method_call_pkgbuf = clevo_wmi_interface_method_call_pkgbuf;
    }

    -- `event_guid` and `method_guid` are what `wmi_has_guid` finds.
    unfoldable pub clevo_wmi_probe : Bool → Bool → ℕ → M (Clevo (Platform S)) ℤ
    clevo_wmi_probe event_guid method_guid address =
        if not event_guid then pure enodev else if not method_guid then pure enodev else (do
          r ← by_firmware (clevo_wmi_evaluate 0x52 0)
          if not (is_expected r)
              then pure enodev
              else (do clevo_keyboard_add_interface (clevo_wmi_interface address); pure success))

    unfoldable pub clevo_wmi_remove : ℕ → M (Clevo (Platform S)) ℤ
    clevo_wmi_remove address = clevo_keyboard_remove_interface (clevo_wmi_interface address)

  -- `status` is that of `guid_parse`, `handle` whether the device has one, and the object of `dsm`
  -- is the one in the package.
  module _ (status : ℤ) (handle : Bool) (dsm : ℕ → Object → M S (Option Object)) where
    -- Both evaluations, of an integer and of a buffer.
    unfoldable pub clevo_acpi_evaluate : ℕ → Object → M (Platform S) (ℤ × Object)
    clevo_acpi_evaluate cmd object =
        if is_negative status
        then pure (enoent, other_object)
        else if not handle
        then pure (enodev, other_object)
        else (do r ← by_below (dsm (u8 cmd) object); pure (dsm_result status r))

    unfoldable pub clevo_acpi_interface_method_call : ℕ → ℕ → M (Platform S) (ℤ × Object)
    clevo_acpi_interface_method_call cmd arg p =
        if p.driver_data
        then clevo_acpi_evaluate cmd (integer (arg % 2 ^ 32)) p
        else ((enodata, other_object), p)

    unfoldable pub clevo_acpi_interface_method_call_pkgbuf : ℕ → List ℕ → M (Platform S) ℤ
    clevo_acpi_interface_method_call_pkgbuf cmd arg p =
        if p.driver_data
        then (let r = clevo_acpi_evaluate cmd (buffer arg) p in (r.0.0, r.1))
        else (enodata, p)

    unfoldable pub clevo_acpi_interface : ℕ → ClevoInterface (Platform S)
    clevo_acpi_interface address = record {
      address = address;
      string_id = acpi_strid;
      method_call = clevo_acpi_interface_method_call;
      method_call_pkgbuf = clevo_acpi_interface_method_call_pkgbuf;
    }

    -- Whether `active_driver_data` is set.
    abbrev pub set_driver_data : Bool → M (Clevo (Platform S)) (Unit {0})
    set_driver_data b c = (tt, record c { firmware = record (c.firmware) { driver_data = b } })

    -- `installed` is the status of the notify handler, `allocated` whether there is memory.
    unfoldable pub clevo_platform_probe : Bool → ℤ → Bool → ℕ → M (Clevo (Platform S)) ℤ
    clevo_platform_probe companion installed allocated address =
        if not companion
        then pure enodev
        else if nonzero installed
        then pure installed
        else if not allocated
        then pure enomem
        else (do
          set_driver_data true
          clevo_keyboard_add_interface (clevo_acpi_interface address)
          pure success)

    unfoldable pub clevo_acpi_remove : ℕ → M (Clevo (Platform S)) (Unit {0})
    clevo_acpi_remove address = do
      clevo_keyboard_remove_interface (clevo_acpi_interface address)
      set_driver_data false
