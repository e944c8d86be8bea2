-- ===== src/Tuxi.antt =====
-- src/tuxedo_tuxi/tuxi_acpi.c: the fans behind the methods of an ACPI device. The kernel's
-- `acpi_evaluate_integer` is a parameter; a `u8 *` or `u16 *` that is written is a value of the
-- result, `none` where it is not written.
pub mod Fans
pub mod Attributes
pub mod Tests
use Prim.Native.String.{String}
use tuxedo_drivers.Common.{
  ℕ, ◌^◌, ◌%◌, Bool, true, false, M, pure, ◌>>=◌, if◌then◌else◌, leb, ◌==◌, not, ℤ, success, eio,
  einval, enodev, nonzero, Option, none, some, List, [], ◌∷◌,
}

-- The method's name and its parameters; `none` is a failure, a value is the `unsigned long long`.
abbrev pub Evaluate : Type 0 → Type 0
Evaluate S = String → List ℕ → M S (Option ℕ)

-- `tuxi_driver_data`: `none` before the probe, else whether the handle of the fans was found.
abbrev pub DriverData : Type 0
DriverData = Option Bool

-- The sign of a `long long`.
abbrev pub is_negative : ℕ → Bool
is_negative value = leb (2 ^ 63) value

module _ {S : Type 0} (evaluate : Evaluate S) (data_ : DriverData) where
  -- A status, and `*retval`.
  unfoldable pub evaluate_intparams : Bool → String → List ℕ → M S (ℤ × Option ℕ)
  evaluate_intparams false pathname int_params = pure (enodev, none)
  evaluate_intparams true pathname int_params = do
    result ← evaluate pathname int_params
    pure (elim result [ none ↦ (eio, none) | some value ↦ (success, some value) ])

  -- The call of a method, before its value is looked at.
  abbrev pub call : String → List ℕ → M S (ℤ × Option ℕ)
  call pathname args = elim data_ [
    | none ↦ pure (enodev, none)
    | some handle ↦ evaluate_intparams handle pathname args
  ]

  -- What a getter makes of it: the value modulo the width of its type, and -EINVAL if it is refused.
  abbrev pub value_of : (ℕ → Bool) → ℕ → ℤ × Option ℕ → ℤ × Option ℕ
  value_of refused width (err, none) = (err, none)
  value_of refused width (err, some value) =
      if refused value then (einval, none) else (err, some (value % 2 ^ width))

  abbrev pub status_of : (ℕ → Bool) → ℤ × Option ℕ → ℤ
  status_of refused (err, none) = err
  status_of refused (err, some value) = if refused value then einval else err

  unfoldable pub tuxi_set_fan_speed : ℕ → ℕ → M S ℤ
  tuxi_set_fan_speed fan_index fan_speed = do
    r ← call "SSPD" (fan_index ∷ fan_speed ∷ [])
    pure (status_of (λ value. not (value == 0)) r)

  unfoldable pub tuxi_get_fan_speed : ℕ → M S (ℤ × Option ℕ)
  tuxi_get_fan_speed fan_index = do
    r ← call "GSPD" (fan_index ∷ [])
    pure (value_of is_negative 8 r)

  unfoldable pub tuxi_get_nr_fans : M S (ℤ × Option ℕ)
  tuxi_get_nr_fans = do r ← call "GCNT" []; pure (value_of (λ value. false) 8 r)

  unfoldable pub tuxi_set_fan_mode : ℕ → M S ℤ
  tuxi_set_fan_mode mode = do r ← call "SMOD" (mode ∷ []); pure (status_of is_negative r)

  unfoldable pub tuxi_get_fan_mode : M S (ℤ × Option ℕ)
  tuxi_get_fan_mode = do r ← call "GMOD" []; pure (value_of is_negative 8 r)

  unfoldable pub tuxi_get_fan_type : ℕ → M S (ℤ × Option ℕ)
  tuxi_get_fan_type fan_index = do r ← call "GTYP" (fan_index ∷ []); pure (value_of is_negative 8 r)

  -- `retval` is unsigned here, so that `retval < 0` never holds.
  unfoldable pub tuxi_get_fan_temp : ℕ → M S (ℤ × Option ℕ)
  tuxi_get_fan_temp index = do r ← call "GTMP" (index ∷ []); pure (value_of (λ value. false) 16 r)

  unfoldable pub tuxi_get_fan_rpm : ℕ → M S (ℤ × Option ℕ)
  tuxi_get_fan_rpm index = do r ← call "GRPM" (index ∷ []); pure (value_of (λ value. false) 16 r)
