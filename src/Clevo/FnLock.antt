-- ===== src/Clevo/FnLock.antt =====
-- src/clevo_keyboard.h: the fn lock of Clevo devices. `parsed` is what `kstrtoint` makes of the text,
-- `none` for its error.
pub mod Lock
use Prim.Native.String.{String}
use text.Mathlib.Text.{◌==◌ as str_eq}
use tuxedo_drivers.Common.{
  ℕ, Bool, true, false, not, M, pure, ◌>>=◌, ◌>>◌, if◌then◌else◌, ◌==◌, ltb, ◌&&◌, ◌||◌, ℤ, pos,
  negsuc, success, einval, nonzero, Option, none, some, List, [], ◌∷◌,
}
use tuxedo_drivers.Uniwill.Dmi.{DmiField, Dmi, any_match}
use tuxedo_drivers.Uniwill.Dmi.DmiField.{board_name, product_sku}
use tuxedo_drivers.Uniwill.Switches.{Printed, number, failed}
use tuxedo_drivers.Clevo.{
  Object, integer, buffer, other_object, Clevo, ClevoInterface, enodata, wmi_strid, acpi_strid,
  clevo_evaluate_method2, clevo_evaluate_method_pkgbuf,
}

-- `*on`, `*kbstatus1` and `*kbstatus2`.
pub record FnState : Type 0 where
  pub on : ℕ
  pub kbstatus1 : ℕ
  pub kbstatus2 : ℕ

-- The fn lock of a byte: 1 is set and 2 is not.
abbrev pub state_of : FnState → ℕ → ℕ → ℕ → ℤ × FnState
state_of un fnlock first second =
    if fnlock == 1
    then (success, record { on = 1; kbstatus1 = first; kbstatus2 = second })
    else if fnlock == 2
    then (success, record { on = 0; kbstatus1 = first; kbstatus2 = second })
    else (enodata, record un { kbstatus1 = first; kbstatus2 = second })

-- The status, and the three values from those that they had. An object that is no buffer, or too
-- small, leaves the status and the values.
abbrev pub fn_of : FnState → ℤ × Object → ℤ × FnState
fn_of un (status, integer value) = (status, un)
fn_of un (status, other_object) = (status, un)
fn_of un (status, buffer []) = (status, un)
fn_of un (status, buffer (a ∷ [])) = (status, un)
fn_of un (status, buffer (a ∷ b ∷ [])) = (status, un)
fn_of un (status, buffer (a ∷ b ∷ c ∷ more)) =
    if nonzero status then (status, un) else state_of un a b c

-- Whether the answer has a fn lock.
abbrev pub has_fn_lock : ℤ × Object → Bool
has_fn_lock (status, integer value) = false
has_fn_lock (status, other_object) = false
has_fn_lock (status, buffer []) = false
has_fn_lock (status, buffer (a ∷ [])) = false
has_fn_lock (status, buffer (a ∷ b ∷ [])) = false
has_fn_lock (status, buffer (a ∷ b ∷ c ∷ more)) = not (nonzero status) && (a == 1 || a == 2)

module _ {S : Type 0} where
  unfoldable pub clevo_acpi_fn_get : FnState → M (Clevo S) (ℤ × FnState)
  clevo_acpi_fn_get un = do r ← clevo_evaluate_method2 0x4 0x18; pure (fn_of un r)

  unfoldable pub clevo_acpi_fn_lock_set : FnState → Bool → M (Clevo S) ℤ
  clevo_acpi_fn_lock_set un on = do
    r ← clevo_acpi_fn_get un
    if nonzero r.0
        then pure r.0
        else clevo_evaluate_method_pkgbuf 0x4
            (0x19 ∷ (if on then 0x01 else 0x02) ∷ r.1.kbstatus1 ∷ r.1.kbstatus2 ∷ [])

  unfoldable pub clevo_fn_lock_show : FnState → M (Clevo S) Printed
  clevo_fn_lock_show un = do
    r ← clevo_acpi_fn_get un
    pure (if nonzero r.0 then failed r.0 else number r.1.on)

  unfoldable pub clevo_fn_lock_store : FnState → Option ℤ → ℕ → M (Clevo S) ℤ
  clevo_fn_lock_store un none size = pure einval
  clevo_fn_lock_store un (some (negsuc n)) size = pure einval
  clevo_fn_lock_store un (some (pos n)) size = if ltb 1 n then pure einval else (do
    err ← clevo_acpi_fn_lock_set un (n == 1)
    pure (if nonzero err then err else pos size))

  -- The interface is there when the driver asks.
  unfoldable pub clevo_fn_lock_available : Dmi → ClevoInterface S → M (Clevo S) Bool
  clevo_fn_lock_available dmi active =
      let excluded =
        any_match dmi product_sku ("AURA14GEN3" ∷ "AURA15GEN3" ∷ [])
        && any_match dmi board_name ("NL57PU" ∷ "NL45PU2" ∷ []) in
      if excluded
      then pure false
      else if str_eq active.string_id wmi_strid
      then pure false
      else if str_eq active.string_id acpi_strid
      then (do r ← clevo_evaluate_method2 0x4 0x18; pure (has_fn_lock r))
      else pure false

  -- The request of the key: the lock is switched over.
  unfoldable pub toggle_fn_lock : FnState → M (Clevo S) (Unit {0})
  toggle_fn_lock un = do
    r ← clevo_acpi_fn_get un
    if nonzero r.0 then pure tt else (do clevo_acpi_fn_lock_set un (not (r.1.on == 1)); pure tt)
