-- ===== src/Tuxi/Tests.antt =====
-- The theorems of the TUXI fan control over a firmware that keeps the speeds and the mode.
use text.Mathlib.Text.{◌==◌ as str_eq}
use tuxedo_drivers.Common.{◌≡◌, refl, arith, update, pos, if◌then◌else◌, none, some, [], ◌∷◌, true}
use tuxedo_drivers.Tuxi.{Evaluate}
use tuxedo_drivers.Tuxi.Attributes.{fan1_pwm_store, fan1_pwm_show, fan2_pwm_store, fan2_pwm_show}
use tuxedo_drivers.Tuxi.Fans.{Fans, IsTfan, pwm_show-store}

-- The methods of two arguments, of one and of none.
abbrev firmware : Evaluate Fans
firmware name (i ∷ v ∷ []) f =
    if str_eq name "SSPD" then (some 0, record f { speed = update f.speed i v }) else (none, f)
firmware name (a ∷ []) f =
    if str_eq name "GSPD"
    then (some (f.speed a), f)
    else if str_eq name "SMOD"
    then (some 0, record f { mode = a })
    else (none, f)
firmware name [] f = if str_eq name "GMOD" then (some f.mode, f) else (none, f)
firmware name (a ∷ b ∷ c ∷ more) f = (none, f)

firmware-IsTfan : IsTfan firmware (λ f. f)
firmware-IsTfan = record {
  sspd = λ i v s. refl;
  sspd_view = λ i v s. refl;
  gspd = λ i s. refl;
  gspd_view = λ i s. refl;
  smod = λ m s. refl;
  smod_view = λ m s. refl;
  gmod = λ s. refl;
  gmod_view = λ s. refl;
}

abbrev idle : Fans
idle = record { speed = λ i. 10; mode = 0 }

pwm_show-store_example :
    let x = fan1_pwm_store firmware (some true) (some 40) 3 idle in
    let y = fan2_pwm_store firmware (some true) (some 40) 3 idle in
    (x.0 ≡ pos 3)
    × (x.1.speed ≡ update (λ i. 10) 0 63)
    × ((fan1_pwm_show firmware (some true) x.1).0 ≡ 0)
    × (y.0 ≡ pos 3)
    × (y.1.speed ≡ update (λ i. 10) 1 63)
    × ((fan2_pwm_show firmware (some true) y.1).0 ≡ 0)
pwm_show-store_example = pwm_show-store firmware (λ f. f) firmware-IsTfan 40 3 idle (omega arith)
