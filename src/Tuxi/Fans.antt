-- ===== src/Tuxi/Fans.antt =====
-- The attributes over a firmware that keeps what it is given.
use tuxedo_drivers.Common.{
  ℕ, ◌*◌, ◌/◌, ◌<◌, ◌≡◌, ap, ◌∙◌, arith, true, ◌==◌, if◌then◌else◌, leb, Ram, update, ℤ, pos,
  success, nonzero, Option, some, [], ◌∷◌,
}
use tuxedo_drivers.Tuxi.{
  Evaluate, tuxi_set_fan_speed, tuxi_get_fan_speed, tuxi_set_fan_mode, tuxi_get_fan_mode,
  evaluate_intparams,
}
use tuxedo_drivers.Tuxi.Attributes.{
  duty_for, manual, auto, u8_of_int, fan1_pwm_show, fan1_pwm_store, fan1_pwm_enable_show,
  fan1_pwm_enable_store, fan2_pwm_show, fan2_pwm_store, fan2_pwm_enable_show, fan_pwm_show,
  fan_pwm_store, fan_pwm_enable_show, fan_pwm_enable_store,
}

pub record Fans : Type 0 where
  pub speed : Ram
  pub mode : ℕ

-- What is relied on of the methods: SSPD and SMOD store a value and return 0, GSPD and GMOD return it
-- and change nothing.
pub record IsTfan {S : Type 0} (evaluate : Evaluate S) (view : S → Fans) : Type 0 where
  pub sspd : (i v : ℕ) (s : S) → (evaluate "SSPD" (i ∷ v ∷ []) s).0 ≡ some 0
  pub sspd_view :
      (i v : ℕ) (s : S)
      → view (evaluate "SSPD" (i ∷ v ∷ []) s).1
        ≡ record (view s) { speed = update ((view s).speed) i v }
  pub gspd : (i : ℕ) (s : S) → (evaluate "GSPD" (i ∷ []) s).0 ≡ some ((view s).speed i)
  pub gspd_view : (i : ℕ) (s : S) → view (evaluate "GSPD" (i ∷ []) s).1 ≡ view s
  pub smod : (m : ℕ) (s : S) → (evaluate "SMOD" (m ∷ []) s).0 ≡ some 0
  pub smod_view :
      (m : ℕ) (s : S) → view (evaluate "SMOD" (m ∷ []) s).1 ≡ record (view s) { mode = m }
  pub gmod : (s : S) → (evaluate "GMOD" [] s).0 ≡ some ((view s).mode)
  pub gmod_view : (s : S) → view (evaluate "GMOD" [] s).1 ≡ view s

module _ {S : Type 0} (evaluate : Evaluate S) (view : S → Fans) (dev : IsTfan evaluate view) where
  set_speed :
      (i v : ℕ) (s : S)
      → ((tuxi_set_fan_speed evaluate (some true) i v s).0 ≡ success)
        × (view (tuxi_set_fan_speed evaluate (some true) i v s).1
            ≡ record (view s) { speed = update ((view s).speed) i v })
  unfolding tuxi_set_fan_speed evaluate_intparams
  set_speed i v s = (ground (arith, dev.sspd i v s), dev.sspd_view i v s)

  get_speed :
      (i : ℕ) (s : S)
      → (view s).speed i < 256
      → ((tuxi_get_fan_speed evaluate (some true) i s).0 ≡ (success, some ((view s).speed i)))
        × (view (tuxi_get_fan_speed evaluate (some true) i s).1 ≡ view s)
  unfolding tuxi_get_fan_speed evaluate_intparams
  get_speed i s small = (ground (arith, dev.gspd i s), dev.gspd_view i s)

  -- The speed that was set for a fan is the one that the getter returns, with no fan's speed but its
  -- own changed.
  pub get-set_fan_speed :
      (i v : ℕ) (s : S)
      → v < 256
      → let set = tuxi_set_fan_speed evaluate (some true) i v s in
        (set.0 ≡ success)
        × ((tuxi_get_fan_speed evaluate (some true) i set.1).0 ≡ (success, some v))
        × ((view set.1).speed ≡ update ((view s).speed) i v)
  get-set_fan_speed i v s small =
      let a = set_speed i v s in
      let at : (view (tuxi_set_fan_speed evaluate (some true) i v s).1).speed i ≡ v =
        ground (arith, ap (λ (f : Fans). f.speed i) a.1) in
      let b = get_speed i (tuxi_set_fan_speed evaluate (some true) i v s).1 (ground (arith, at)) in
      (a.0, b.0 ∙ ap (λ n. (success, some n)) at, ap (λ (f : Fans). f.speed) a.1)

  -- What the firmware gets for a pwm value: off up to 31, 63 from 32 to 62, and the value itself above.
  abbrev pub driven : ℕ → ℕ
  driven pwm = if leb pwm 31 then 0 else if leb pwm 62 then 63 else pwm

  duty_for_lem : (pwm : ℕ) → pwm < 256 → (duty_for pwm ≡ driven pwm) × (duty_for pwm < 256)
  unfolding duty_for
  duty_for_lem pwm small = (ground arith, ground arith)

  pwm_round :
      (i pwm size : ℕ) (s : S)
      → pwm < 256
      → let x = fan_pwm_store evaluate (some true) i (some pwm) size s in
        (x.0 ≡ pos size)
        × ((view x.1).speed ≡ update ((view s).speed) i (driven pwm))
        × ((fan_pwm_show evaluate (some true) i x.1).0 ≡ 0)
  unfolding fan_pwm_store fan_pwm_show u8_of_int
  pwm_round i pwm size s small =
      let d = duty_for_lem pwm small in
      let r = get-set_fan_speed i (duty_for pwm) s d.1 in
      (
        ap (λ err. if nonzero err then err else pos size) r.0,
        r.2 ∙ ap (update ((view s).speed) i) d.0,
        ap (λ (q : ℤ × Option ℕ). u8_of_int q.0 * 0xff / 255) r.1,
      )

  -- A pwm value below 256 that is written to the attribute of either fan is accepted, and that fan,
  -- and no other, is off for a value up to 31, runs at 63 for one from 32 to 62, and at the value
  -- above. The attribute shows 0 after that, whatever the fan's speed is.
  pub pwm_show-store :
      (pwm size : ℕ) (s : S)
      → pwm < 256
      → let x = fan1_pwm_store evaluate (some true) (some pwm) size s in
        let y = fan2_pwm_store evaluate (some true) (some pwm) size s in
        (x.0 ≡ pos size)
        × ((view x.1).speed ≡ update ((view s).speed) 0 (driven pwm))
        × ((fan1_pwm_show evaluate (some true) x.1).0 ≡ 0)
        × (y.0 ≡ pos size)
        × ((view y.1).speed ≡ update ((view s).speed) 1 (driven pwm))
        × ((fan2_pwm_show evaluate (some true) y.1).0 ≡ 0)
  unfolding fan1_pwm_store fan2_pwm_store fan1_pwm_show fan2_pwm_show
  pwm_show-store pwm size s small =
      let x = pwm_round 0 pwm size s small in
      let y = pwm_round 1 pwm size s small in (x.0, x.1, x.2, y.0, y.1, y.2)

  -- The mode is manual for a written 1 and automatic for any other byte; the attribute of each fan
  -- then shows 1 for the one and 2 for the other, and no fan's speed changes.
  pub pwm_enable_show-store :
      (n size old : ℕ) (s : S)
      → let x = fan1_pwm_enable_store evaluate (some true) (some n) size s in
        (x.0 ≡ pos size)
        × ((view x.1).mode ≡ (if n == 1 then manual else auto))
        × ((fan1_pwm_enable_show evaluate (some true) old x.1).0 ≡ (if n == 1 then 1 else 2))
        × ((fan2_pwm_enable_show evaluate (some true) old x.1).0 ≡ (if n == 1 then 1 else 2))
        × ((view x.1).speed ≡ (view s).speed)
  unfolding fan1_pwm_enable_store fan1_pwm_enable_show fan2_pwm_enable_show fan_pwm_enable_store
      fan_pwm_enable_show tuxi_set_fan_mode tuxi_get_fan_mode evaluate_intparams
  pwm_enable_show-store n size old s =
      let m = if n == 1 then manual else auto in
      let z = (evaluate "SMOD" (m ∷ []) s).1 in
      let kept = dev.smod_view m s in
      let at : (view z).mode ≡ m = ap (λ (f : Fans). f.mode) kept in
      (
        ground (arith, dev.smod m s),
        at,
        ground (arith, dev.gmod z, at),
        ground (arith, dev.gmod z, at),
        ap (λ (f : Fans). f.speed) kept,
      )
