-- ===== src/Uniwill/Tdp.antt =====
-- src/tuxedo_io/tuxedo_io.c: the power limits (TDP) of a Uniwill device and its performance
-- profiles. `limits` are the two arrays that were set for the device, `un` is what a local byte
-- holds before it is written.
pub mod Tables
pub mod Limits
pub mod Profile
pub mod Set
use tuxedo_drivers.Common.{
  ℕ, zero, suc, ◌+◌, ◌-◌, ◌*◌, ◌/◌, ◌%◌, ◌^◌, Bool, true, false, not, M, pure, ◌>>=◌, ◌>>◌, when,
  if◌then◌else◌, ◌==◌, ltb, ◌&&◌, ◌||◌, bit_and, bit_or, not8, u8, ℤ, pos, negsuc, ltb_ℤ, negative,
  success, einval, enodev, u32_of_int, Option, none, some, List, [], ◌∷◌,
}
use tuxedo_drivers.Uniwill.Interface.{Reply}
use tuxedo_drivers.Uniwill.Access.{Uniwill, uniwill_read_ec_ram, uniwill_write_ec_ram}

abbrev pub Limits : Type 0
Limits = Option (List ℕ × List ℕ)

-- The array's entry. The tables have three, and no caller asks for another.
abbrev pub entry : List ℕ → ℕ → ℕ
entry [] index = 0
entry (x ∷ xs) zero = x
entry (x ∷ xs) (suc index) = entry xs index

-- `tdp_min_defs` or `tdp_max_defs`.
get_limit : Option (List ℕ) → ℕ → ℤ
get_limit none index = if ltb 2 index then einval else enodev
get_limit (some defs) index =
    if ltb 2 index then einval else if entry defs index == 0 then enodev else pos (entry defs index)

unfoldable pub uw_get_tdp_min : Limits → ℕ → ℤ
unfolding get_limit
uw_get_tdp_min none index = get_limit none index
uw_get_tdp_min (some t) index = get_limit (some t.0) index

unfoldable pub uw_get_tdp_max : Limits → ℕ → ℤ
unfolding get_limit
uw_get_tdp_max none index = get_limit none index
uw_get_tdp_max (some t) index = get_limit (some t.1) index

abbrev pub profile_overboost : ℕ
profile_overboost = 3

-- The value of a number that is not negative, for the cast to a byte.
abbrev pub to_nat : ℤ → ℕ
to_nat (pos n) = n
to_nat (negsuc n) = 0

module _ {S : Type 0} where
  unfoldable pub uw_get_tdp : Limits → ℕ → ℕ → M (Uniwill S) ℤ
  uw_get_tdp limits un index u =
      if negative (uw_get_tdp_min limits index)
      then (uw_get_tdp_min limits index, u)
      else (let r = uniwill_read_ec_ram (0x0783 + index) un u in
          if negative r.0.status
          then (r.0.status, r.1)
          else if index == 2 && u.feats.has_double_pl4
          then (pos (r.0.byte * 2), r.1)
          else (pos r.0.byte, r.1))

  -- `result` is a `u32`, so `result >= 0` holds whatever the read returned.
  write_profile : ℕ → M (Uniwill S) ℕ
  write_profile next u = let w = uniwill_write_ec_ram 0x0751 next u in (u32_of_int w.0, w.1)

  -- The byte with the bits of the profile, and its write.
  unfoldable pub choose_profile : ℕ → Reply → M (Uniwill S) ℕ
  unfolding write_profile
  choose_profile profile current =
      let next = bit_and current.byte (not8 (bit_or 0xa0 0x10)) in
      if u32_of_int current.status == u32_of_int einval
      then pure (u32_of_int current.status)
      else if profile == 1
      then write_profile (bit_or next 0xa0)
      else if profile == 2
      then write_profile (bit_or next 0x00)
      else if profile == 3
      then write_profile (bit_or next 0x10)
      else pure (u32_of_int einval)

  unfoldable pub uw_set_performance_profile_v1 : ℕ → M (Uniwill S) ℕ
  uw_set_performance_profile_v1 profile = do
    current ← uniwill_read_ec_ram 0x0751 0x00
    choose_profile profile current

  -- The checks and the write, after the choice of the profile.
  unfoldable pub write_tdp : Limits → ℕ → ℤ → M (Uniwill S) ℤ
  write_tdp limits index value u =
      if negative (uw_get_tdp_min limits index)
      then (uw_get_tdp_min limits index, u)
      else if ltb_ℤ value (uw_get_tdp_min limits index) || ltb_ℤ (uw_get_tdp_max limits index) value
      then (einval, u)
      else if index == 2 && u.feats.has_double_pl4
      then (success, (uniwill_write_ec_ram (0x0783 + index) (u8 (to_nat value / 2)) u).1)
      else (success, (uniwill_write_ec_ram (0x0783 + index) (u8 (to_nat value)) u).1)

  unfoldable pub uw_set_tdp : Limits → ℕ → ℤ → M (Uniwill S) ℤ
  unfolding write_tdp
  uw_set_tdp limits index value u =
      let start =
        if u.feats.custom_profile_mode_needed
        then (uw_set_performance_profile_v1 profile_overboost u).1
        else u in
      write_tdp limits index value start
