-- ===== src/Uniwill/Fan/Suspend.antt =====
-- The direct fan control over suspend and resume, and the work that the resume schedules.
use tuxedo_drivers.Common.{
  ℕ, ◌≡◌, refl, ap, ◌∙◌, sym, subst, arith, true, false, bit_and, test_bits, u8, Ram, none, some,
}
use tuxedo_drivers.Uniwill.Interface.{Reply, UniwillInterface, IsEcRam}
use tuxedo_drivers.Uniwill.Access.{Uniwill}
use tuxedo_drivers.Uniwill.Access.Ready.{
  IsReady, read-IsReady, write-IsReady, after_read, after_write,
}
use tuxedo_drivers.Uniwill.Fan.{
  full_mode_off, direct_write, direct_fan_control, uw_set_fan, uw_set_fan_auto,
  restart_direct_fan_control_work_handler,
}
use tuxedo_drivers.Uniwill.Fan.Restart.{restart_sets}
use tuxedo_drivers.Uniwill.Power.{suspend_fans, resume_fans}

module _ {S : Type 0} (i : UniwillInterface S) (ready : S → Type 0) (ram : S → Ram)
    (law : IsEcRam i ready ram) (un : ℕ) (start : Reply) where
  -- The values of the fans are `a` and `b`, and the direct control runs.
  abbrev Suspended : ℕ → ℕ → Uniwill S → Type 0
  Suspended a b v =
      (v.direct_fan_control_suspend ≡ true)
      × (v.direct_fan_control_started ≡ false)
      × (v.fan0_suspend_save ≡ a)
      × (v.fan1_suspend_save ≡ b)
      × (v.fan0_value ≡ 0)
      × (v.restart_work ≡ none)
      × (v.feats.has_universal_ec_fan_control ≡ false)
      × IsReady i ready ram law v

  suspend_lem :
      (u : Uniwill S)
      → IsReady i ready ram law u
      → u.direct_fan_control_started ≡ true
      → u.feats.has_universal_ec_fan_control ≡ false
      → Suspended u.fan0_value u.fan1_value (suspend_fans un start u).1
  unfolding suspend_fans uw_set_fan_auto full_mode_off
  suspend_lem u r on plain =
      let u1 = record u {
        direct_fan_control_suspend = true;
        fan0_suspend_save = u.fan0_value;
        fan1_suspend_save = u.fan1_value;
        restart_work = none;
        direct_fan_control_started = false;
      } in
      let r1 : IsReady i ready ram law u1 = record {
        registered = r.registered;
        ec_ready = r.ec_ready;
      } in
      let x = read-IsReady i ready ram law 0x0751 un u1 r1 (omega arith) in
      let u2 = after_read i ready ram law 0x0751 un u1 in
      let d = bit_and (u8 (ram u1.ec 0x0751)) 0xbf in
      let y = write-IsReady i ready ram law 0x0751 d u2 x.2 (omega arith) in
      let u3 = record (after_write i ready ram law 0x0751 d u2) {
        fan0_value = 0;
        fan1_value = 0;
      } in
      let e : (suspend_fans un start u).1 ≡ u3 = ground (arith, on, plain, x.0, y.0) in
      subst (Suspended u.fan0_value u.fan1_value) (sym e) (
        refl,
        refl,
        refl,
        refl,
        refl,
        refl,
        plain,
        record { registered = y.2.registered; ec_ready = y.2.ec_ready },
      )

  -- The direct control runs again with the values, and its work is scheduled at once.
  abbrev Resumed : ℕ → ℕ → Uniwill S → Type 0
  Resumed a b v =
      (v.fan0_value ≡ a)
      × (v.fan1_value ≡ b)
      × (v.direct_fan_control_started ≡ true)
      × (v.direct_fan_control_suspend ≡ false)
      × (v.restart_work ≡ some 0)
      × IsReady i ready ram law v

  resume_lem : (a b : ℕ) (v : Uniwill S) → Suspended a b v → Resumed a b (resume_fans un start v).1
  unfolding resume_fans uw_set_fan direct_fan_control direct_write
  resume_lem a b v (kept, off, save0, save1, value0, work, plain, r) =
      let v1 = record v {
        direct_fan_control_suspend = false;
        fan0_value = v.fan0_suspend_save;
        restart_work = some 0;
        direct_fan_control_started = true;
        fan1_value = v.fan1_suspend_save;
      } in
      let r1 : IsReady i ready ram law v1 = record {
        registered = r.registered;
        ec_ready = r.ec_ready;
      } in
      let d = bit_and v.fan1_suspend_save 0xff in
      let y = write-IsReady i ready ram law 0x1809 d v1 r1 (omega arith) in
      let e : (resume_fans un start v).1 ≡ after_write i ready ram law 0x1809 d v1 =
        ground (arith, kept, off, plain, work, y.0) in
      subst (Resumed a b) (sym e) (save0, save1, refl, refl, refl, y.2)

  -- Over an EC RAM without the universal fan control, where the direct control runs, after a suspend
  -- and a resume the direct control runs with the values from before, and its work is scheduled
  -- without a delay; the work leaves the full fan mode on, the registers of both fans at the low bytes
  -- of these values, and itself scheduled again in 50 minutes.
  pub suspended_fans_restart :
      (un2 : ℕ) (u : Uniwill S)
      → IsReady i ready ram law u
      → u.direct_fan_control_started ≡ true
      → u.feats.has_universal_ec_fan_control ≡ false
      → let v = (resume_fans un start (suspend_fans un start u).1).1 in
        let x = (restart_direct_fan_control_work_handler un2 v).1 in
        (v.fan0_value ≡ u.fan0_value)
        × (v.fan1_value ≡ u.fan1_value)
        × (v.direct_fan_control_started ≡ true)
        × (v.restart_work ≡ some 0)
        × (test_bits (u8 (ram x.ec 0x0751)) 0x40 ≡ true)
        × (ram x.ec 0x1804 ≡ bit_and u.fan0_value 0xff)
        × (ram x.ec 0x1809 ≡ bit_and u.fan1_value 0xff)
        × (x.restart_work ≡ some 3000000)
  suspended_fans_restart un2 u r on plain =
      let v = (resume_fans un start (suspend_fans un start u).1).1 in
      let k =
        resume_lem u.fan0_value u.fan1_value (suspend_fans un start u).1
          (suspend_lem u r on plain) in
      let x = restart_sets i ready ram law un2 v k.5 in
      (
        k.0,
        k.1,
        k.2,
        k.4,
        x.0,
        x.1 ∙ ap (λ n. bit_and n 0xff) k.0,
        x.2 ∙ ap (λ n. bit_and n 0xff) k.1,
        x.3,
      )
