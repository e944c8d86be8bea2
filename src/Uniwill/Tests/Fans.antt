-- ===== src/Uniwill/Tests/Fans.antt =====
-- The theorems of the fan control at concrete states.
use tuxedo_drivers.Common.{◌≡◌, refl, arith, false}
use tuxedo_drivers.Uniwill.Interface.{plain_ram, plain_ram-IsEcRam}
use tuxedo_drivers.Common.{Ram}
use tuxedo_drivers.Uniwill.Access.{Uniwill}
use tuxedo_drivers.Uniwill.Fan.{uw_set_fan}
use tuxedo_drivers.Uniwill.Fan.Table.{HasSpeed, uw_set_fan_sets}
use tuxedo_drivers.Uniwill.Tests.{sample, Ready, start}

-- The fan tables are not in use yet.
abbrev tables : Uniwill Ram
tables = record sample { ec = λ a. 0; fans_initialized = false }

tables-Ready : Ready tables
tables-Ready = record { registered = refl; ec_ready = tt }

uw_set_fan_sets_example :
    let law = plain_ram-IsEcRam in
    HasSpeed plain_ram
      (λ f. Unit {0})
      (λ f. f)
      law
      0x0f20
      0x1804
      50
      (uw_set_fan start 0 0 30 tables)
    × HasSpeed plain_ram
        (λ f. Unit {0})
        (λ f. f)
        law
        0x0f50
        0x1809
        50
        (uw_set_fan start 0 1 30 tables)
    × ((uw_set_fan start 0 2 30 tables).0 ≡ 4294967274)
    × ((uw_set_fan start 0 1 201 tables).0 ≡ 4294967274)
uw_set_fan_sets_example =
    uw_set_fan_sets plain_ram (λ f. Unit {0}) (λ f. f) plain_ram-IsEcRam start 0 tables tables-Ready
      refl refl 30 2 1 201 (omega arith) (omega arith) (omega arith)
