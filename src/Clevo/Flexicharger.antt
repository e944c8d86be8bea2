-- ===== src/Clevo/Flexicharger.antt =====
-- src/clevo_keyboard.h: the charging thresholds of the battery, by one of two kinds of firmware.
-- A pointer argument that may be NULL is an `Option`; `un` is what a local variable holds before it
-- is written.
pub mod Closest
pub mod Words
pub mod Firmware
pub mod Legacy
pub mod Attributes
pub mod Cc4
use Prim.Native.String.{String}
use text.Mathlib.Text.{◌==◌ as str_eq}
use tuxedo_drivers.Common.{
  ℕ, zero, suc, ◌+◌, ◌-◌, ◌%◌, ◌^◌, Bool, true, false, not, M, pure, ◌>>=◌, if◌then◌else◌, ◌==◌,
  ◌||◌, ◌&&◌, leb, ltb, bit_and, bit_or, ◌<<<◌, ◌>>>◌, ℤ, pos, negsuc, success, eio, enodev, einval,
  nonzero, negative, Option, none, some, List, [], ◌∷◌,
}
use tuxedo_drivers.Uniwill.Switches.{Printed, number, failed}
use tuxedo_drivers.Clevo.{
  Object, integer, buffer, other_object, Clevo, clevo_evaluate_method, clevo_evaluate_method2,
  clevo_evaluate_method_pkgbuf,
}

abbrev pub start_values : List ℕ
start_values = 40 ∷ 50 ∷ 60 ∷ 70 ∷ 80 ∷ 95 ∷ []

abbrev pub end_values : List ℕ
end_values = 60 ∷ 70 ∷ 80 ∷ 90 ∷ 100 ∷ []

-- `abs(a - b)`
abbrev pub distance : ℕ → ℕ → ℕ
distance a b = (a - b) + (b - a)

-- The loop from the closest value so far.
unfoldable pub closest_from : ℕ → List ℕ → ℕ → ℕ
closest_from value [] closest = closest
closest_from value (x ∷ haystack) closest =
    closest_from value haystack
      (if ltb (distance value x) (distance value closest) then x else closest)

unfoldable pub array_find_closest_u8 : ℕ → List ℕ → ℤ
array_find_closest_u8 value [] = einval
array_find_closest_u8 value (x ∷ haystack) = pos (closest_from value (x ∷ haystack) x)

-- `*start`, `*end` and `*status`
pub record Thresholds : Type 0 where
  pub start_ : ℕ
  pub end_ : ℕ
  pub status : ℕ

-- Set choosen parameters, leave nulled ones with previous value
abbrev pub or_previous : Option ℕ → ℕ → ℕ
or_previous none previous = previous
or_previous (some chosen) previous = chosen

abbrev pub chosen : Option ℕ → Option ℕ → Option ℕ → Thresholds → Thresholds
chosen param_start param_end param_status t = record {
  start_ = or_previous param_start t.start_;
  end_ = or_previous param_end t.end_;
  status = or_previous param_status t.status;
}

-- The board names of the devices without it.
abbrev pub excluded_boards : List String
excluded_boards =
    "N24_25BU" ∷ "L14xMU" ∷ "N141CU" ∷ "NH5xAx" ∷ "NL5xNU" ∷ "P95xER" ∷ "PCX0DX"
    ∷ "PD5x_7xPNP_PNR_PNN_PNT" ∷ "X170SM" ∷ "NS50MU" ∷ "NS50_70MU" ∷ []

-- `info` is the text of the kernel for the field, if it has one, and `strstr` the C function, whether
-- its second argument stands within the first. The text that is looked for is never NULL.
unfoldable pub dmi_string_in : (String → String → Bool) → Option String → String → Bool
dmi_string_in strstr none str = false
dmi_string_in strstr (some info) str = strstr info str

abbrev any_name : (String → Bool) → List String → Bool
any_name f [] = false
any_name f (x ∷ xs) = f x || any_name f xs

abbrev pub zeros : ℕ → List ℕ
zeros zero = []
zeros (suc n) = 0 ∷ zeros n

-- `buffer_set`, of 255 bytes.
abbrev pub buffer_set : Thresholds → List ℕ
buffer_set t = 0x1f ∷ t.status ∷ t.start_ ∷ t.end_ ∷ zeros 251

abbrev pub data_or : ℕ → Option ℕ → ℕ
data_or un none = un
data_or un (some value) = value

abbrev pub flag_or : Bool → Option Bool → Bool
flag_or un none = un
flag_or un (some flag) = flag

abbrev pub thresholds_of : ℕ → Thresholds
thresholds_of word = record {
  start_ = bit_and (word >>> 0x08) 0xff;
  end_ = bit_and (word >>> 0x10) 0xff;
  status = bit_and word 0x01;
}

-- The bytes of the answer.
abbrev pub cc4_of : ℤ × Object → ℤ × Option Thresholds
cc4_of (status, integer value) = (eio, none)
cc4_of (status, other_object) = (eio, none)
cc4_of (status, buffer (on ∷ from ∷ to ∷ more)) =
    if nonzero status
    then (eio, none)
    else if to == 0 && from == 0
    then (enodev, none)
    else (success, some (record { start_ = from; end_ = to; status = on }))
cc4_of (status, buffer (on ∷ from ∷ [])) = (eio, none)
cc4_of (status, buffer (on ∷ [])) = (eio, none)
cc4_of (status, buffer []) = (eio, none)

abbrev pub threshold_show : (Thresholds → ℕ) → ℤ × Option Thresholds → Printed
threshold_show f (result, none) = failed result
threshold_show f (result, some t) = if nonzero result then failed result else number (f t)

abbrev pub type_of : ℤ × Option Thresholds → ℤ × Option String
type_of (result, none) = (result, none)
type_of (result, some t) =
    if nonzero result
    then (result, none)
    else (success, some (if t.status == 1 then "Custom" else "Standard"))

-- An `int` stored in a `u8`.
abbrev pub u8_of_int : ℤ → ℕ
u8_of_int (pos n) = n % 2 ^ 8
u8_of_int (negsuc n) = 255 - n % 2 ^ 8

module _ {S : Type 0} where
  -- The status, and `*status`. `board` is what the kernel gives for DMI_BOARD_NAME.
  unfoldable pub clevo_has_legacy_flexicharger :
      (String → String → Bool) → Option String → M (Clevo S) (ℤ × Option Bool)
  unfolding dmi_string_in
  clevo_has_legacy_flexicharger strstr board =
      if any_name (dmi_string_in strstr board) excluded_boards
      then pure (success, some false)
      else (do
        r ← clevo_evaluate_method 0x77 0
        let read_data : ℕ = data_or 0 r.1
        if nonzero r.0 then pure (r.0, none) else (do
          w ← clevo_evaluate_method 0x76 (bit_or 0x06000000 (bit_and (read_data >>> 8) 0xffff))
          pure (w.0, some (data_or read_data w.1 == 0x76))))

  -- The three values are stored whatever the call returned.
  unfoldable pub clevo_legacy_flexicharger_read : ℕ → M (Clevo S) (ℤ × Option Thresholds)
  clevo_legacy_flexicharger_read un = do
    r ← clevo_evaluate_method 0x77 0
    pure (r.0, some (thresholds_of (data_or un r.1)))

  unfoldable pub write_legacy : Thresholds → M (Clevo S) ℤ
  write_legacy set = do
    r ← clevo_evaluate_method 0x76 (bit_or (bit_or (0x06 <<< 0x18) set.start_) (set.end_ <<< 0x08))
    if nonzero r.0 then pure eio else (do
      r' ← clevo_evaluate_method 0x76 (bit_or (0x05 <<< 0x18) (bit_and set.status 0x01))
      pure (if nonzero r'.0 then eio else success))

  -- `write` of what is chosen, over what was read.
  abbrev pub over :
      (Thresholds → Thresholds)
      → (Thresholds → M (Clevo S) ℤ)
      → ℤ × Option Thresholds
      → M (Clevo S) ℤ
  over f write (status, none) = pure eio
  over f write (status, some previous) = if nonzero status then pure eio else write (f previous)

  unfoldable pub clevo_legacy_flexicharger_write :
      ℕ → Option ℕ → Option ℕ → Option ℕ → M (Clevo S) ℤ
  unfolding write_legacy
  clevo_legacy_flexicharger_write un param_start param_end param_status = do
    r ← clevo_legacy_flexicharger_read un
    over (chosen param_start param_end param_status) write_legacy r

  unfoldable pub clevo_cc4_flexicharger_read : M (Clevo S) (ℤ × Option Thresholds)
  clevo_cc4_flexicharger_read = do r ← clevo_evaluate_method2 0x04 0x1e; pure (cc4_of r)

  unfoldable pub clevo_has_cc4_flexicharger : M (Clevo S) Bool
  clevo_has_cc4_flexicharger = do r ← clevo_cc4_flexicharger_read; pure (not (nonzero r.0))

  unfoldable pub write_cc4 : Thresholds → M (Clevo S) ℤ
  write_cc4 set = do
    r ← clevo_evaluate_method_pkgbuf 0x04 (buffer_set set)
    pure (if nonzero r then eio else success)

  unfoldable pub clevo_cc4_flexicharger_write : Option ℕ → Option ℕ → Option ℕ → M (Clevo S) ℤ
  unfolding write_cc4
  clevo_cc4_flexicharger_write param_start param_end param_status = do
    r ← clevo_cc4_flexicharger_read
    over (chosen param_start param_end param_status) write_cc4 r

  unfoldable pub clevo_flexicharger_read : ℕ → M (Clevo S) (ℤ × Option Thresholds)
  clevo_flexicharger_read un = do
    has_cc4 ← clevo_has_cc4_flexicharger
    if has_cc4 then clevo_cc4_flexicharger_read else clevo_legacy_flexicharger_read un

  unfoldable pub clevo_flexicharger_write : ℕ → Option ℕ → Option ℕ → Option ℕ → M (Clevo S) ℤ
  clevo_flexicharger_write un param_start param_end param_status = do
    has_cc4 ← clevo_has_cc4_flexicharger
    if has_cc4
        then clevo_cc4_flexicharger_write param_start param_end param_status
        else clevo_legacy_flexicharger_write un param_start param_end param_status

  -- `parsed` is what `kstrtou8` makes of the text, or its error.
  abbrev pub threshold_store : List ℕ → (ℕ → M (Clevo S) ℤ) → ℤ × ℕ → ℕ → M (Clevo S) ℤ
  threshold_store values write parsed count =
      if nonzero parsed.0
      then pure parsed.0
      else if ltb parsed.1 1 || ltb 100 parsed.1
      then pure einval
      else (do
        result ← write (u8_of_int (array_find_closest_u8 parsed.1 values))
        pure (if negative result then result else pos count))

  unfoldable pub charge_control_start_threshold_show : ℕ → M (Clevo S) Printed
  charge_control_start_threshold_show un = do
    r ← clevo_flexicharger_read un
    pure (threshold_show (λ t. t.start_) r)

  unfoldable pub charge_control_start_threshold_store : ℕ → ℤ × ℕ → ℕ → M (Clevo S) ℤ
  charge_control_start_threshold_store un =
      threshold_store start_values (λ value. clevo_flexicharger_write un (some value) none none)

  unfoldable pub charge_control_end_threshold_show : ℕ → M (Clevo S) Printed
  charge_control_end_threshold_show un = do
    r ← clevo_flexicharger_read un
    pure (threshold_show (λ t. t.end_) r)

  unfoldable pub charge_control_end_threshold_store : ℕ → ℤ × ℕ → ℕ → M (Clevo S) ℤ
  charge_control_end_threshold_store un =
      threshold_store end_values (λ value. clevo_flexicharger_write un none (some value) none)

  -- `Custom` is printed for 1, `Standard` for any other status.
  unfoldable pub charge_type_show : ℕ → M (Clevo S) (ℤ × Option String)
  charge_type_show un = do r ← clevo_flexicharger_read un; pure (type_of r)

  abbrev pub type_write : ℕ → ℕ → ℕ → M (Clevo S) ℤ
  type_write un status count = do
    result ← clevo_flexicharger_write un none none (some status)
    pure (if negative result then result else pos count)

  -- `matches` is `sysfs_streq` of the written text.
  unfoldable pub charge_type_store : ℕ → (String → Bool) → ℕ → M (Clevo S) ℤ
  charge_type_store un matches count =
      if matches "Standard"
      then type_write un 0 count
      else if matches "Custom"
      then type_write un 1 count
      else pure einval

  -- The status, and whether the attributes are added.
  unfoldable pub clevo_battery_add :
      Bool → (String → String → Bool) → Option String → ℤ → M (Clevo S) (ℤ × Bool)
  clevo_battery_add un strstr board added = do
    legacy ← clevo_has_legacy_flexicharger strstr board
    cc4 ← clevo_has_cc4_flexicharger
    pure (
        if not (flag_or un legacy.1) && not cc4
        then (enodev, false)
        else if nonzero added
        then (enodev, false)
        else (success, true))
