-- ===== src/Io/UniwillIoctl.antt =====
-- src/tuxedo_io/tuxedo_io.c: the requests of Uniwill devices, and the dispatch. `un` is what a local
-- variable holds before it is written, `start` what the local variables of the fan control hold.
use tuxedo_drivers.Common.{
  ℕ, ◌-◌, ◌%◌, ◌^◌, Bool, true, M, pure, ◌>>=◌, ◌>>◌, if◌then◌else◌, ltb, ◌==◌, ◌&&◌, ◌||◌, bit_and,
  ℤ, pos, negsuc, success, nonzero, u32_of_int, Option,
}
use tuxedo_drivers.Uniwill.Dmi.{Dmi}
use tuxedo_drivers.Uniwill.Interface.{Reply}
use tuxedo_drivers.Uniwill.Access.{Uniwill, Features, uniwill_read_ec_ram, uniwill_write_ec_ram}
use tuxedo_drivers.Uniwill.Features.{uniwill_get_active_interface_id, uniwill_get_device_features}
use tuxedo_drivers.Uniwill.Fan.{uw_set_fan, uw_set_fan_auto}
use tuxedo_drivers.Uniwill.Tdp.{
  Limits, uw_get_tdp, uw_get_tdp_min, uw_get_tdp_max, uw_set_tdp, uw_set_performance_profile_v1,
}
use tuxedo_drivers.Uniwill.Tdp.Tables.{uw_id_tdp}
use tuxedo_drivers.Clevo.{clevo_get_active_interface_id}
use tuxedo_drivers.Io.{
  Io, Command, Copied, nothing, text, word, Outcome, fault, returned, copied_or, text_or,
  fan_on_min_speed_percent,
}
use tuxedo_drivers.Io.{
  r_mod_version, r_hwcheck_cl, r_hwcheck_uw, r_uw_hw_if_str, r_uw_model_id, r_uw_fanspeed,
  r_uw_fanspeed2, r_uw_fan_temp, r_uw_fan_temp2, r_uw_mode, r_uw_mode_enable,
  r_uw_fans_off_available, r_uw_fans_min_speed, r_uw_tdp0, r_uw_tdp1, r_uw_tdp2, r_uw_tdp0_min,
  r_uw_tdp1_min, r_uw_tdp2_min, r_uw_tdp0_max, r_uw_tdp1_max, r_uw_tdp2_max, r_uw_profs_available,
  w_uw_fanspeed, w_uw_fanspeed2, w_uw_mode, w_uw_fanauto, w_uw_tdp0, w_uw_tdp1, w_uw_tdp2,
  w_uw_perf_prof,
}
use tuxedo_drivers.Io.ClevoIoctl.{clevo_ioctl_interface}

-- A `u32` as the `int` that it is passed as.
abbrev pub int_of_u32 : ℕ → ℤ
int_of_u32 n = if ltb n (2 ^ 31) then pos n else negsuc (2 ^ 32 - 1 - n)

-- The speed that is reported, where 1 stands for off.
abbrev pub shown_speed : Features → ℕ → ℕ
shown_speed feats byte = if feats.has_universal_ec_fan_control && byte == 1 then 0 else byte

abbrev pub profs_available : Features → ℕ
profs_available feats =
    if feats.profile_v1_two_profs
    then 2
    else if feats.profile_v1_three_profs || feats.profile_v1_three_profs_leds_only
    then 3
    else 0

module _ {S : Type 0} where
  -- `result = m; copy_to_user(&result)`
  abbrev pub reads_byte : ℕ → ℕ → M (Uniwill S) Outcome
  reads_byte un address = do
    r ← uniwill_read_ec_ram address un
    pure (returned success (word r.byte))

  abbrev pub reads_speed : Bool → ℕ → ℕ → M (Uniwill S) Outcome
  reads_speed uw_feats un address = do
    r ← uniwill_read_ec_ram address un
    feats ← (λ u. (u.feats, u))
    pure (if uw_feats then returned success (word (shown_speed feats r.byte)) else fault)

  abbrev pub reads_tdp : Limits → ℕ → ℕ → M (Uniwill S) Outcome
  reads_tdp limits un index = do
    r ← uw_get_tdp limits un index
    pure (returned success (word (u32_of_int r)))

  abbrev pub gives : ℕ → M (Uniwill S) Outcome
  gives n = pure (returned success (word n))

  abbrev pub done : {A : Type 0} → M (Uniwill S) A → M (Uniwill S) Outcome
  done m = do m; pure (returned success nothing)

  abbrev pub sets_tdp : Bool → Limits → ℕ → ℕ → M (Uniwill S) Outcome
  sets_tdp uw_feats limits index argument =
      if uw_feats then done (uw_set_tdp limits index (int_of_u32 argument)) else pure fault

  -- `feats` is whether `uw_feats` is set.
  unfoldable pub uniwill_ioctl_interface :
      Bool → Limits → Reply → ℕ → Command → Option ℕ → M (Uniwill S) Outcome
  uniwill_ioctl_interface feats limits start un r_uw_hw_if_str user =
      λ u. (returned success (text_or (uniwill_get_active_interface_id u).1), u)
  uniwill_ioctl_interface feats limits start un r_uw_model_id user =
      λ u. (if feats then returned success (word u.feats.model) else fault, u)
  uniwill_ioctl_interface feats limits start un r_uw_fanspeed user = reads_speed feats un 0x1804
  uniwill_ioctl_interface feats limits start un r_uw_fanspeed2 user = reads_speed feats un 0x1809
  uniwill_ioctl_interface feats limits start un r_uw_fan_temp user = reads_byte un 0x043e
  uniwill_ioctl_interface feats limits start un r_uw_fan_temp2 user = reads_byte un 0x044f
  uniwill_ioctl_interface feats limits start un r_uw_mode user = reads_byte un 0x0751
  uniwill_ioctl_interface feats limits start un r_uw_mode_enable user = reads_byte un 0x0741
  uniwill_ioctl_interface feats limits start un r_uw_fans_off_available user = gives 1
  uniwill_ioctl_interface feats limits start un r_uw_fans_min_speed user =
      gives fan_on_min_speed_percent
  uniwill_ioctl_interface feats limits start un r_uw_tdp0 user = reads_tdp limits un 0
  uniwill_ioctl_interface feats limits start un r_uw_tdp1 user = reads_tdp limits un 1
  uniwill_ioctl_interface feats limits start un r_uw_tdp2 user = reads_tdp limits un 2
  uniwill_ioctl_interface feats limits start un r_uw_tdp0_min user =
      gives (u32_of_int (uw_get_tdp_min limits 0))
  uniwill_ioctl_interface feats limits start un r_uw_tdp1_min user =
      gives (u32_of_int (uw_get_tdp_min limits 1))
  uniwill_ioctl_interface feats limits start un r_uw_tdp2_min user =
      gives (u32_of_int (uw_get_tdp_min limits 2))
  uniwill_ioctl_interface feats limits start un r_uw_tdp0_max user =
      gives (u32_of_int (uw_get_tdp_max limits 0))
  uniwill_ioctl_interface feats limits start un r_uw_tdp1_max user =
      gives (u32_of_int (uw_get_tdp_max limits 1))
  uniwill_ioctl_interface feats limits start un r_uw_tdp2_max user =
      gives (u32_of_int (uw_get_tdp_max limits 2))
  uniwill_ioctl_interface feats limits start un r_uw_profs_available user =
      λ u. (if feats then returned success (word (profs_available u.feats)) else fault, u)
  uniwill_ioctl_interface feats limits start un w_uw_fanspeed user =
      done (uw_set_fan start un 0 (copied_or un user % 2 ^ 8))
  uniwill_ioctl_interface feats limits start un w_uw_fanspeed2 user =
      done (uw_set_fan start un 1 (copied_or un user % 2 ^ 8))
  uniwill_ioctl_interface feats limits start un w_uw_mode user =
      done (uniwill_write_ec_ram 0x0751 (bit_and (copied_or un user) 0xff))
  uniwill_ioctl_interface feats limits start un w_uw_fanauto user = done (uw_set_fan_auto start un)
  uniwill_ioctl_interface feats limits start un w_uw_tdp0 user =
      sets_tdp feats limits 0 (copied_or un user)
  uniwill_ioctl_interface feats limits start un w_uw_tdp1 user =
      sets_tdp feats limits 1 (copied_or un user)
  uniwill_ioctl_interface feats limits start un w_uw_tdp2 user =
      sets_tdp feats limits 2 (copied_or un user)
  uniwill_ioctl_interface feats limits start un w_uw_perf_prof user =
      done (uw_set_performance_profile_v1 (copied_or un user))
  uniwill_ioctl_interface feats limits start un command user = pure (returned success nothing)

-- What was copied last.
abbrev pub last : Copied → Copied → Copied
last first nothing = first
last first (text s) = text s
last first (word n) = word n

abbrev pub last_outcome : Copied → Outcome → Outcome
last_outcome first fault = fault
last_outcome first (returned status copied) = returned status (last first copied)

module _ {C U : Type 0} where
  unfoldable pub clevo_identify : Io C U → ℕ
  clevo_identify io = if nonzero (clevo_get_active_interface_id io.clevo).0 then 0 else 1

  unfoldable pub uniwill_identify : Dmi → ℕ → M (Io C U) ℕ
  uniwill_identify dmi un io =
      let f = uniwill_get_device_features dmi un io.uniwill in
      if nonzero (uniwill_get_active_interface_id io.uniwill).0
      then (0, io)
      else (1, record io { uniwill = f.1; uw_feats = true; limits = uw_id_tdp f.0.model dmi })

  -- The first switch: what is copied, and the state.
  unfoldable pub identify : Dmi → ℕ → Command → M (Io C U) Copied
  unfolding clevo_identify uniwill_identify
  identify dmi un r_mod_version io = (text "0.3.9", io)
  identify dmi un r_hwcheck_cl io =
      (word (clevo_identify io), record io { id_check_clevo = clevo_identify io })
  identify dmi un r_hwcheck_uw io =
      let r = uniwill_identify dmi un io in (word r.0, record (r.1) { id_check_uniwill = r.0 })
  identify dmi un command io = (nothing, io)

  -- The status of the two interfaces is kept in a `u32`.
  unfoldable pub fop_ioctl : Dmi → Reply → ℕ → Command → Option ℕ → ℕ → M (Io C U) Outcome
  unfolding identify
  fop_ioctl dmi start un command user arg io =
      let first = identify dmi un command io in
      let c = clevo_ioctl_interface dmi command user arg (first.1.clevo) in
      let io1 = record (first.1) { clevo = c.1 } in
      let u = uniwill_ioctl_interface io1.uw_feats io1.limits start un command user io1.uniwill in
      if nonzero c.0.0
      then (returned (pos (u32_of_int c.0.0)) (last first.0 c.0.1), io1)
      else (last_outcome (last first.0 c.0.1) u.0, record io1 { uniwill = u.1 })
