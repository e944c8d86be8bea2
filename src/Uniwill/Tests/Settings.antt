-- ===== src/Uniwill/Tests/Settings.antt =====
-- The theorems of the charging, fan and power limit settings at concrete states.
use tuxedo_drivers.Common.{
  ◌%◌, ◌≡◌, ◌↔◌, refl, arith, some, pos, false, success, update, insert_field, rest_of,
}
use tuxedo_drivers.Uniwill.Interface.{plain_ram, plain_ram-IsEcRam}
use tuxedo_drivers.Uniwill.Charging.{uw_set_charging_profile, uw_get_charging_profile}
use tuxedo_drivers.Uniwill.Charging.Fields.{get-set_charging_profile}
use tuxedo_drivers.Uniwill.Tdp.{Limits, uw_get_tdp, uw_set_tdp, uw_get_tdp_min, uw_get_tdp_max}
use tuxedo_drivers.Uniwill.Tdp.Tables.{uw_id_tdp, tdp_min_phxpxx, tdp_max_phxpxx}
use tuxedo_drivers.Uniwill.Tdp.Limits.{Bounded, tdp_limits_fit}
use tuxedo_drivers.Uniwill.Tdp.Set.{Within, get-set_tdp, uw_set_tdp_accepts_iff}
use tuxedo_drivers.Uniwill.Tests.{sample, sample-Ready}

get-set_charging_profile_example :
    ((uw_set_charging_profile 0 2 sample).0 ≡ success)
    × ((uw_get_charging_profile 0 (uw_set_charging_profile 0 2 sample).1).0
        ≡ record { status = success; byte = 2 })
    × ((uw_set_charging_profile 0 2 sample).1.ec
        ≡ update (λ a. a % 256) 0x07a6 (insert_field 4 4 0xa6 2))
    × (rest_of 4 4 (insert_field 4 4 0xa6 2) ≡ rest_of 4 4 0xa6)
get-set_charging_profile_example =
    get-set_charging_profile plain_ram (λ f. Unit {0}) (λ f. f) plain_ram-IsEcRam 0 0 2 sample
      sample-Ready (omega arith)

tdp_limits_fit_example : Bounded (uw_id_tdp 0x13 (λ field name. false)) 1
tdp_limits_fit_example = tdp_limits_fit 0x13 (λ field name. false) 1 (omega arith)

abbrev limits : Limits
limits = some (tdp_min_phxpxx, tdp_max_phxpxx)

-- The third limit is stored halved, so 101 comes back as 100.
get-set_tdp_example :
    ((uw_set_tdp limits 2 (pos 101) sample).0 ≡ success)
    × ((uw_get_tdp limits 0 2 (uw_set_tdp limits 2 (pos 101) sample).1).0 ≡ pos 100)
unfolding uw_get_tdp_min uw_get_tdp_max
get-set_tdp_example =
    get-set_tdp plain_ram (λ f. Unit {0}) (λ f. f) plain_ram-IsEcRam limits 2 5 110 101
      (omega arith) refl refl (omega arith) (omega arith) 0 sample sample-Ready (omega arith)

-- The value is above the limit.
uw_set_tdp_accepts_iff_example :
    ((uw_set_tdp limits 2 (pos 111) sample).0 ≡ success) ↔ Within limits 2 (pos 111)
uw_set_tdp_accepts_iff_example = uw_set_tdp_accepts_iff limits 2 (pos 111) sample
