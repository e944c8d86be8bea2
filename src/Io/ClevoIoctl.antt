-- ===== src/Io/ClevoIoctl.antt =====
-- src/tuxedo_io/tuxedo_io.c: the requests of Clevo devices.

use tuxedo_drivers.Common.{
  ℕ, ◌*◌, ◌/◌, Bool, M, pure, ◌>>=◌, ◌>>◌, if◌then◌else◌, ltb, ◌==◌, bit_and, bit_or, ◌<<<◌, ◌>>>◌,
  ℤ, success, enodev, Option, [], ◌∷◌,
}
use tuxedo_drivers.Uniwill.Dmi.{Dmi, any_match}
use tuxedo_drivers.Uniwill.Dmi.DmiField.{product_sku}
use tuxedo_drivers.Clevo.{Clevo, clevo_evaluate_method, clevo_get_active_interface_id}
use tuxedo_drivers.Io.{Command, Copied, nothing, word, copied_or, text_or, fan_on_min_speed_percent}
use tuxedo_drivers.Io.{
  r_cl_hw_if_str, r_cl_faninfo1, r_cl_faninfo2, r_cl_faninfo3, r_cl_webcam_sw, r_cl_flightmode_sw,
  r_cl_touchpad_sw, w_cl_fanspeed, w_cl_fanauto, w_cl_webcam_sw, w_cl_flightmode_sw,
  w_cl_touchpad_sw, w_cl_perf_profile,
}

abbrev pub nb01_fan_speed_max : ℕ
nb01_fan_speed_max = 0xff

-- A fan speed, without those between fan-off and the minimum fan-on speed.
unfoldable pub limit_fanspeed : ℕ → ℕ
limit_fanspeed speed =
    if ltb speed (fan_on_min_speed_percent * nb01_fan_speed_max / 2 / 100)
    then 0
    else if ltb speed (fan_on_min_speed_percent * nb01_fan_speed_max / 100)
    then fan_on_min_speed_percent * nb01_fan_speed_max / 100
    else speed

-- The three speeds of the argument, each limited.
unfoldable pub limit_fanspeeds : ℕ → ℕ
unfolding limit_fanspeed
limit_fanspeeds argument =
    bit_or
      (bit_or (limit_fanspeed (bit_and argument 0xff))
        (limit_fanspeed (bit_and (argument >>> 8) 0xff) <<< 8))
      (limit_fanspeed (bit_and (argument >>> 16) 0xff) <<< 16)

abbrev pub aura_gen3 : Dmi → Bool
aura_gen3 dmi = any_match dmi product_sku ("AURA14GEN3" ∷ "AURA15GEN3" ∷ [])

abbrev pub aura_without_webcam : Dmi → Bool
aura_without_webcam dmi =
    any_match dmi product_sku ("AURA14GEN3" ∷ "AURA15GEN3" ∷ "AURA14GEN4 / AURA15GEN4" ∷ [])

module _ {S : Type 0} where
  -- `result` is 0 before the call.
  abbrev pub get_result : ℕ → M (Clevo S) (ℤ × Copied)
  get_result cmd = do r ← clevo_evaluate_method cmd 0; pure (success, word (copied_or 0 r.1))

  abbrev pub set_argument : ℕ → ℕ → M (Clevo S) (ℤ × Copied)
  set_argument cmd argument = do clevo_evaluate_method cmd argument; pure (success, nothing)

  -- Only set status if it isn't already the right value
  abbrev pub set_webcam : ℕ → M (Clevo S) (ℤ × Copied)
  set_webcam argument = do
    r ← clevo_evaluate_method 0x06 0
    if bit_and argument 0x01 == bit_and (copied_or 0 r.1) 0x01
        then pure (success, nothing)
        else set_argument 0x22 argument

  unfoldable pub clevo_ioctl_interface : Dmi → Command → Option ℕ → ℕ → M (Clevo S) (ℤ × Copied)
  unfolding limit_fanspeeds
  clevo_ioctl_interface dmi r_cl_hw_if_str user arg =
      λ c. ((success, text_or (clevo_get_active_interface_id c).1), c)
  clevo_ioctl_interface dmi r_cl_faninfo1 user arg = get_result 0x63
  clevo_ioctl_interface dmi r_cl_faninfo2 user arg = get_result 0x64
  clevo_ioctl_interface dmi r_cl_faninfo3 user arg = get_result 0x6e
  clevo_ioctl_interface dmi r_cl_webcam_sw user arg =
      if aura_without_webcam dmi then pure (enodev, nothing) else get_result 0x06
  clevo_ioctl_interface dmi r_cl_flightmode_sw user arg = get_result 0x07
  clevo_ioctl_interface dmi r_cl_touchpad_sw user arg = get_result 0x09
  clevo_ioctl_interface dmi w_cl_fanspeed user arg =
      set_argument 0x68 (limit_fanspeeds (copied_or arg user))
  clevo_ioctl_interface dmi w_cl_fanauto user arg = set_argument 0x69 (copied_or arg user)
  clevo_ioctl_interface dmi w_cl_webcam_sw user arg =
      if aura_gen3 dmi then pure (enodev, nothing) else set_webcam (copied_or arg user)
  clevo_ioctl_interface dmi w_cl_flightmode_sw user arg = set_argument 0x20 (copied_or arg user)
  clevo_ioctl_interface dmi w_cl_touchpad_sw user arg = set_argument 0x2a (copied_or arg user)
  clevo_ioctl_interface dmi w_cl_perf_profile user arg =
      set_argument 0x79 (bit_or (0x19 <<< 0x18) (bit_and (copied_or arg user) 0xff))
  clevo_ioctl_interface dmi command user arg = pure (success, nothing)
