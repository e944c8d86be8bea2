-- ===== src/Clevo.antt =====
-- src/clevo_keyboard.h: the interfaces of Clevo devices, and the method calls through the active one.
-- `union acpi_object` is the data type `Object`; an object that a call returns is freed by the
-- caller, which has no counterpart here.
pub mod Interfaces
pub mod Flexicharger
pub mod FnLock
pub mod Leds
pub mod Events
pub mod Access
pub mod Tests
use Prim.Native.String.{String}
use text.Mathlib.Text.{◌==◌ as str_eq}
use tuxedo_drivers.Common.{
  ℕ, ◌%◌, ◌^◌, Bool, true, false, M, pure, ◌>>=◌, if◌then◌else◌, ◌==◌, ℤ, success, enodev, einval,
  negsuc, nonzero, Option, none, some, List, [], ◌∷◌,
}

-- -ENODATA of errno.h
abbrev pub enodata : ℤ
enodata = negsuc 60

pub data Object : Type 0 where
  integer : ℕ → Object
  buffer : List ℕ → Object
  other_object : Object

-- `struct clevo_interface_t` over the state of the firmware. The object of `method_call` is what
-- `*result` holds where the status is 0; callers of `method_call_pkgbuf` only free its object.
-- `address` is that of the struct.
pub record ClevoInterface (S : Type 0) : Type 0 where
  pub address : ℕ
  pub string_id : String
  pub method_call : ℕ → ℕ → M S (ℤ × Object)
  pub method_call_pkgbuf : ℕ → List ℕ → M S ℤ

-- The calls of tuxedo_keyboard.c that start and remove the keyboard driver.
pub data DriverCall : Type 0 where
  init_driver remove_driver : DriverCall

-- `clevo_interfaces` and `active_clevo_interface`, with the firmware behind them. `calls` has the
-- calls of the keyboard driver's start and removal, the latest first.
pub record Clevo (S : Type 0) : Type 0 where
  pub wmi : Option (ClevoInterface S)
  pub acpi : Option (ClevoInterface S)
  pub active : Option (ClevoInterface S)
  pub firmware : S
  pub calls : List DriverCall

abbrev pub cmd_set_events_enabled : ℕ
cmd_set_events_enabled = 0x46

abbrev pub wmi_strid : String
wmi_strid = "clevo_wmi"

abbrev pub acpi_strid : String
acpi_strid = "clevo_acpi"

-- The integer of an answer, `none` where `*result` is not written.
abbrev pub integer_of : ℤ × Object → ℤ × Option ℕ
integer_of (status, integer value) =
    if nonzero status then (status, none) else (success, some (value % 2 ^ 32))
integer_of (status, buffer bytes) = if nonzero status then (status, none) else (enodata, none)
integer_of (status, other_object) = if nonzero status then (status, none) else (enodata, none)

module _ {S : Type 0} where
  abbrev pub call_by : Option (ClevoInterface S) → ℕ → ℕ → M (Clevo S) (ℤ × Object)
  call_by none cmd arg c = ((enodev, other_object), c)
  call_by (some i) cmd arg c =
      let r = i.method_call cmd arg c.firmware in (r.0, record c { firmware = r.1 })

  abbrev pub call_pkgbuf_by : Option (ClevoInterface S) → ℕ → List ℕ → M (Clevo S) ℤ
  call_pkgbuf_by none cmd arg c = (enodev, c)
  call_pkgbuf_by (some i) cmd arg c =
      let r = i.method_call_pkgbuf cmd arg c.firmware in (r.0, record c { firmware = r.1 })

  unfoldable pub clevo_evaluate_method2 : ℕ → ℕ → M (Clevo S) (ℤ × Object)
  clevo_evaluate_method2 cmd arg c = call_by c.active cmd arg c

  unfoldable pub clevo_evaluate_method_pkgbuf : ℕ → List ℕ → M (Clevo S) ℤ
  clevo_evaluate_method_pkgbuf cmd arg c = call_pkgbuf_by c.active cmd arg c

  unfoldable pub clevo_evaluate_method : ℕ → ℕ → M (Clevo S) (ℤ × Option ℕ)
  clevo_evaluate_method cmd arg = do r ← clevo_evaluate_method2 cmd arg; pure (integer_of r)

  unfoldable pub clevo_get_active_interface_id : Clevo S → ℤ × Option String
  clevo_get_active_interface_id c = elim c.active [
    | none ↦ (enodev, none)
    | some i ↦ (success, some i.string_id)
  ]

  -- The first call of an interface that is added.
  abbrev pub enable_events : ClevoInterface S → Clevo S → Clevo S
  enable_events i c = record c { firmware = (i.method_call cmd_set_events_enabled 0 c.firmware).1 }

  abbrev pub start_driver : Clevo S → Clevo S
  start_driver c = elim c.active [ none ↦ c | some i ↦ record c { calls = init_driver ∷ c.calls } ]

  -- Only use wmi if there is no other current interface
  unfoldable pub add_wmi : ClevoInterface S → Clevo S → Clevo S
  add_wmi i c = elim c.active [
    | none ↦ enable_events i (record c { wmi = some i; active = some i })
    | some other ↦ record c { wmi = some i }
  ]

  unfoldable pub clevo_keyboard_add_interface : ClevoInterface S → M (Clevo S) ℤ
  unfolding add_wmi
  clevo_keyboard_add_interface i c =
      if str_eq i.string_id wmi_strid
      then (success, start_driver (add_wmi i c))
      else if str_eq i.string_id acpi_strid
      then (success, start_driver (enable_events i (record c { acpi = some i; active = some i })))
      else (einval, c)

  -- The active interface is given up if it is the one that is removed.
  unfoldable pub give_up : ClevoInterface S → Clevo S → Clevo S
  give_up i c = elim c.active [
    | none ↦ c
    | some a ↦
        if a.address == i.address
        then record c { active = none; calls = remove_driver ∷ c.calls }
        else c
  ]

  unfoldable pub clevo_keyboard_remove_interface : ClevoInterface S → M (Clevo S) ℤ
  unfolding give_up
  clevo_keyboard_remove_interface i c =
      if str_eq i.string_id wmi_strid
      then (success, give_up i (record c { wmi = none }))
      else if str_eq i.string_id acpi_strid
      then (success, give_up i (record c { acpi = none }))
      else (einval, c)
