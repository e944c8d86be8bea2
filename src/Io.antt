-- ===== src/Io.antt =====
-- src/tuxedo_io/tuxedo_io.c: the ioctl interface over the Clevo and the Uniwill drivers. `user` is
-- what `copy_from_user` stores, `none` if it fails; `arg` is the low word of the pointer. What goes
-- to `copy_to_user` is a value of the result.

pub mod ClevoIoctl
pub mod UniwillIoctl
pub mod Requests
pub mod Dispatch
pub mod Tests
use Prim.Native.String.{String}
use tuxedo_drivers.Common.{
  ℕ, ◌+◌, ◌%◌, ◌^◌, ◌<◌, Bool, true, false, not, M, pure, ◌>>=◌, ◌>>◌, when, if◌then◌else◌, ltb,
  ◌==◌, ◌&&◌, ◌||◌, bit_and, bit_or, ◌<<<◌, ◌>>>◌, ℤ, pos, success, enodev, nonzero, u32_of_int,
  Option, none, some, List, [], ◌∷◌,
}
use tuxedo_drivers.Uniwill.Dmi.{DmiField, Dmi, any_match}
use tuxedo_drivers.Uniwill.Dmi.DmiField.{product_sku}
use tuxedo_drivers.Uniwill.Access.{Uniwill}
use tuxedo_drivers.Uniwill.Tdp.{Limits}
use tuxedo_drivers.Clevo.{Clevo}

-- The requests of tuxedo_io_ioctl.h, by their names; the debug requests are left out.
pub data Command : Type 0 where
  r_mod_version r_hwcheck_cl r_hwcheck_uw : Command
  r_cl_hw_if_str r_cl_faninfo1 r_cl_faninfo2 r_cl_faninfo3 : Command
  r_cl_webcam_sw r_cl_flightmode_sw r_cl_touchpad_sw : Command
  w_cl_fanspeed w_cl_fanauto w_cl_webcam_sw w_cl_flightmode_sw w_cl_touchpad_sw : Command
  w_cl_perf_profile : Command
  r_uw_hw_if_str r_uw_model_id r_uw_fanspeed r_uw_fanspeed2 r_uw_fan_temp r_uw_fan_temp2 : Command
  r_uw_mode r_uw_mode_enable r_uw_fans_off_available r_uw_fans_min_speed : Command
  r_uw_tdp0 r_uw_tdp1 r_uw_tdp2 r_uw_tdp0_min r_uw_tdp1_min r_uw_tdp2_min : Command
  r_uw_tdp0_max r_uw_tdp1_max r_uw_tdp2_max r_uw_profs_available : Command
  w_uw_fanspeed w_uw_fanspeed2 w_uw_mode w_uw_mode_enable w_uw_fanauto : Command
  w_uw_tdp0 w_uw_tdp1 w_uw_tdp2 w_uw_perf_prof : Command
  other_command : Command

-- What is copied to user space.
pub data Copied : Type 0 where
  nothing : Copied
  text : String → Copied
  word : ℕ → Copied

-- `fault` is the use of `uw_feats` while it is NULL, else the return value and what was copied.
pub data Outcome : Type 0 where
  fault : Outcome
  returned : ℤ → Copied → Outcome

-- The variables of tuxedo_io.c, with the two drivers. `uw_feats` is whether the pointer is set, and
-- then it points to the features of the Uniwill driver.
pub record Io (C U : Type 0) : Type 0 where
  pub clevo : Clevo C
  pub uniwill : Uniwill U
  pub id_check_clevo : ℕ
  pub id_check_uniwill : ℕ
  pub uw_feats : Bool
  pub limits : Limits

abbrev pub fan_on_min_speed_percent : ℕ
fan_on_min_speed_percent = 25

-- What a variable holds after `copy_from_user`.
abbrev pub copied_or : ℕ → Option ℕ → ℕ
copied_or old none = old
copied_or old (some value) = value

abbrev pub text_or : Option String → Copied
text_or none = text ""
text_or (some name) = text name
