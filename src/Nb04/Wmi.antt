-- ===== src/Nb04/Wmi.antt =====
-- src/tuxedo_nb04/tuxedo_nb04_wmi_ab.c and src/tuxedo_nb04/tuxedo_nb04_wmi_bs.c: the WMI methods of the
-- NB04 platform. `evaluate` is `wmidev_evaluate_method` with the input buffer: `none` is a failure and
-- `some none` a success without an object. `un` is what the output holds before it is written.
pub mod Status
use tuxedo_drivers.Common.{
  ℕ, zero, suc, ◌+◌, ◌*◌, ◌%◌, Bool, true, false, not, M, pure, ◌>>=◌, ◌>>◌, if◌then◌else◌, ◌==◌,
  ltb, leb, ◌&&◌, bit_or, ◌<<<◌, ℤ, pos, negsuc, success, eio, enodev, einval, enomem, nonzero,
  Option, none, some, length, zeros, List, [], ◌∷◌,
}
use tuxedo_drivers.Uniwill.Touchpad.{byte_at}
use tuxedo_drivers.Clevo.{Object, integer, buffer, other_object, enodata}

abbrev pub Evaluate : Type 0 → Type 0
Evaluate S = ℕ → List ℕ → M S (Option (Option Object))

-- `__wmi_dev` of one of the two drivers, and the firmware.
pub record WmiDev (S : Type 0) : Type 0 where
  pub wmi_dev : Bool
  pub firmware : S

-- The status and the output for an answer that should be a buffer of a length, or else an object
-- that gives the status `wrong`.
abbrev pub buffer_result : ℤ → ℕ → List ℕ → Option (Option Object) → ℤ × List ℕ
buffer_result wrong n un none = (eio, un)
buffer_result wrong n un (some none) = (enodata, un)
buffer_result wrong n un (some (some (integer value))) = (wrong, un)
buffer_result wrong n un (some (some other_object)) = (wrong, un)
buffer_result wrong n un (some (some (buffer bytes))) =
    if length bytes == n then (success, bytes) else (eio, un)

abbrev pub integer_result : ℕ → Option (Option Object) → ℤ × ℕ
integer_result un none = (eio, un)
integer_result un (some none) = (enodata, un)
integer_result un (some (some (integer value))) = (success, value)
integer_result un (some (some (buffer bytes))) = (eio, un)
integer_result un (some (some other_object)) = (eio, un)

-- `(out[i + 1] << 8) | out[i]`
abbrev pub word_at : List ℕ → ℕ → ℕ
word_at out i = bit_or (byte_at out (i + 1) <<< 8) (byte_at out i)

-- `struct device_keyboard_status_t`
pub record KeyboardStatus : Type 0 where
  pub keyboard_state_enabled : Bool
  pub keyboard_type : ℕ
  pub keyboard_sidebar_support : Bool
  pub keyboard_matrix : ℕ

abbrev pub keyboard_type_max : ℕ
keyboard_type_max = 4

abbrev pub status_of : List ℕ → KeyboardStatus
status_of out = record {
  keyboard_state_enabled = byte_at out 2 == 1;
  keyboard_type = byte_at out 3;
  keyboard_sidebar_support = byte_at out 4 == 1;
  keyboard_matrix = byte_at out 5;
}

-- The byte of the brightness and the one that enables the keyboard.
abbrev pub brightness_bytes : ℤ → ℕ × ℕ
brightness_bytes (negsuc n) = (0xfe, 0x01)
brightness_bytes (pos brightness) =
    if brightness == 0
    then (0xfe, 0x00)
    else if leb brightness 10
    then (brightness, 0x01)
    else (0xfe, 0x01)

module _ {S : Type 0} (evaluate : Evaluate S) where
  -- A method call, if the driver is bound.
  abbrev pub call : {A : Type 0} → A → (Option (Option Object) → A) → ℕ → List ℕ → M (WmiDev S) A
  call unbound result wmi_method_id input w =
      if w.wmi_dev
      then (let r = evaluate wmi_method_id input w.firmware in
          (result r.0, record w { firmware = r.1 }))
      else (unbound, w)

  unfoldable pub nb04_wmi_ab_method_buffer : List ℕ → ℕ → List ℕ → M (WmiDev S) (ℤ × List ℕ)
  nb04_wmi_ab_method_buffer un = call (enodev, un) (buffer_result eio 80 un)

  unfoldable pub nb04_wmi_ab_method_buffer_reduced_output :
      List ℕ → ℕ → List ℕ → M (WmiDev S) (ℤ × List ℕ)
  nb04_wmi_ab_method_buffer_reduced_output un = call (enodev, un) (buffer_result eio 10 un)

  -- The input has 496 bytes.
  unfoldable pub nb04_wmi_ab_method_extended_input : List ℕ → ℕ → List ℕ → M (WmiDev S) (ℤ × List ℕ)
  nb04_wmi_ab_method_extended_input un = call (enodev, un) (buffer_result eio 80 un)

  unfoldable pub nb04_wmi_ab_method_int_out : ℕ → ℕ → List ℕ → M (WmiDev S) (ℤ × ℕ)
  nb04_wmi_ab_method_int_out un = call (enodev, un) (integer_result un)

  unfoldable pub nb04_wmi_bs_method : List ℕ → ℕ → List ℕ → M (WmiDev S) (ℤ × List ℕ)
  nb04_wmi_bs_method un = call (enodev, un) (buffer_result einval 80 un)

  unfoldable pub nb04_wmi_bs_available : WmiDev S → Bool
  nb04_wmi_bs_available w = w.wmi_dev

  -- The loop, from the rounds that are left and what the last one has read: the status that it ends
  -- with, and what was read.
  unfoldable pub read_keyboard : ℕ → List ℕ → M (WmiDev S) (ℤ × List ℕ)
  read_keyboard zero out = pure (success, out)
  read_keyboard (suc retries) out = do
    r ← nb04_wmi_ab_method_buffer out 2 (2 ∷ zeros 7)
    if nonzero r.0
        then pure r
        else if not (word_at r.1 0 == 0)
        then pure (eio, r.1)
        else if ltb (byte_at r.1 3) keyboard_type_max
        then pure r
        else read_keyboard retries r.1

  unfoldable pub wmi_update_device_status_keyboard :
      KeyboardStatus → M (WmiDev S) (ℤ × KeyboardStatus)
  unfolding read_keyboard
  wmi_update_device_status_keyboard kbds = do
    r ← read_keyboard 3 (zeros 80)
    pure (
        if nonzero r.0
        then (r.0, kbds)
        else if leb keyboard_type_max (byte_at r.1 3)
        then (enodev, kbds)
        else (success, status_of r.1))

  unfoldable pub wmi_set_whole_keyboard : ℕ → ℕ → ℕ → ℕ → ℤ → M (WmiDev S) ℤ
  wmi_set_whole_keyboard un red green blue brightness = do
    b ← pure (brightness_bytes brightness)
    r ← nb04_wmi_ab_method_int_out un 3 (0x00 ∷ red ∷ green ∷ blue ∷ b.0 ∷ 0xfe ∷ 0x00 ∷ b.1 ∷ [])
    pure (if nonzero r.0 then r.0 else if r.1 == 0 then success else eio)

  -- `compatible` and `guid` are the two tests, `allocated` whether there is memory.
  unfoldable pub tuxedo_nb04_wmi_ab_probe : Bool → Bool → Bool → M (WmiDev S) ℤ
  tuxedo_nb04_wmi_ab_probe compatible guid allocated w =
      if not compatible
      then (enodev, w)
      else if not guid
      then (enodev, w)
      else if not allocated
      then (enomem, w)
      else (success, record w { wmi_dev = true })

  unfoldable pub tuxedo_nb04_wmi_ab_remove : WmiDev S → WmiDev S
  tuxedo_nb04_wmi_ab_remove w = record w { wmi_dev = false }
