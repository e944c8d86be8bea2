-- ===== src/Uniwill/Features/Model.antt =====
-- The model that the driver finds out: the byte of the EC, which no later test changes.
use tuxedo_drivers.Common.{
  ℕ, ◌≡◌, refl, ap, ◌∙◌, arith, Bool, false, M, Ram, u8, Option, some, none, if◌then◌else◌,
}
use tuxedo_drivers.Uniwill.Dmi.{Dmi}
use tuxedo_drivers.Uniwill.Interface.{UniwillInterface, IsEcRam}
use tuxedo_drivers.Uniwill.Access.{Uniwill, Features, uniwill_read_ec_ram, read_by}
use tuxedo_drivers.Uniwill.Access.Ready.{IsReady, read-IsReady}
use tuxedo_drivers.Uniwill.Charging.{uw_has_charging_priority, uw_has_charging_profile}
use tuxedo_drivers.Uniwill.Features.{
  load_model, load_tests, load_fan_control, uniwill_get_device_features,
  uw_has_mini_led_local_dimming, has_double_pl4_bit, has_universal_ec_fan_control_bit,
}

module _ (S : Type 0) where
  -- The model stays.
  Kept : {A : Type 0} → M (Uniwill S) A → Type 0
  Kept m = (u : Uniwill S) → (m u).1.feats.model ≡ u.feats.model

  by_table :
      (w : Option (UniwillInterface S)) (a un : ℕ) (u : Uniwill S)
      → (read_by w a un u).1.feats.model ≡ u.feats.model
  by_table none a un u = refl
  by_table (some i) a un u = refl

  read-Kept : (a un : ℕ) → Kept (uniwill_read_ec_ram a un)
  unfolding Kept uniwill_read_ec_ram
  read-Kept a un u = by_table u.wmi a un u

  double-Kept : (un : ℕ) → Kept (has_double_pl4_bit un)
  unfolding Kept has_double_pl4_bit
  double-Kept un u = read-Kept 0x0727 un u

  mini_led-Kept : (un : ℕ) → Kept (uw_has_mini_led_local_dimming un)
  unfolding Kept uw_has_mini_led_local_dimming
  mini_led-Kept un u = read-Kept 0x0d4f un u

  priority-Kept : (dmi : Dmi) (un : ℕ) → Kept (uw_has_charging_priority dmi un)
  unfolding Kept uw_has_charging_priority
  priority-Kept dmi un u = let k = read-Kept 0x0742 un u in ground (arith, k)

  profile-Kept : (dmi : Dmi) (un : ℕ) → Kept (uw_has_charging_profile dmi un)
  unfolding Kept uw_has_charging_profile
  profile-Kept dmi un u = let k = read-Kept 0x078e un u in ground (arith, k)

  tests_lem :
      (dmi : Dmi) (un : ℕ) (u : Uniwill S) → (load_tests dmi un u).feats.model ≡ u.feats.model
  unfolding Kept load_tests
  tests_lem dmi un u =
      mini_led-Kept un _ ∙ (profile-Kept dmi un _ ∙ (priority-Kept dmi un _ ∙ double-Kept un u))

  fan_lem :
      (dmi : Dmi) (un : ℕ) (u : Uniwill S) → (load_fan_control dmi un u).feats.model ≡ u.feats.model
  unfolding Kept load_fan_control has_universal_ec_fan_control_bit
  fan_lem dmi un u = let k = read-Kept 0x078e un u in ground (arith, k)

module _ {S : Type 0} (i : UniwillInterface S) (ready : S → Type 0) (ram : S → Ram)
    (law : IsEcRam i ready ram) where
  model_lem :
      (dmi : Dmi) (u : Uniwill S)
      → IsReady i ready ram law u
      → (load_model dmi u).feats.model ≡ u8 (ram u.ec 0x0740)
  unfolding load_model
  model_lem dmi u r =
      let x = read-IsReady i ready ram law 0x0740 u.feats.model u r (omega arith) in
      ground (arith, x.0)

  -- Over an EC RAM the model of the features is the byte at 0x0740, when they are found out.
  pub get_device_features-model :
      (dmi : Dmi) (un : ℕ) (u : Uniwill S)
      → IsReady i ready ram law u
      → u.feats_loaded ≡ false
      → (uniwill_get_device_features dmi un u).0.model ≡ u8 (ram u.ec 0x0740)
  unfolding uniwill_get_device_features
  get_device_features-model dmi un u r h =
      let m = model_lem dmi u r in
      let loaded = load_fan_control dmi un (load_tests dmi un (load_model dmi u)) in
      let kept : loaded.feats.model ≡ u8 (ram u.ec 0x0740) =
        fan_lem S dmi un (load_tests dmi un (load_model dmi u))
        ∙ (tests_lem S dmi un (load_model dmi u) ∙ m) in
      ap
        (λ (t : Bool).
          let p : Features × Uniwill S = if t then (u.feats, u) else (loaded.feats, loaded) in
          p.0.model)
        h
      ∙ kept
