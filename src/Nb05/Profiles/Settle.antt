-- ===== src/Nb05/Profiles/Settle.antt =====
-- The profile over a firmware that keeps it: what is stored is shown, and what was chosen last is
-- written again until it stays.
use Prim.Native.String.{String}
use text.Mathlib.Text.{◌==◌ as str_eq}
use tuxedo_drivers.Common.{
  ℕ, ◌≡◌, refl, ap, ◌∙◌, sym, subst, Bool, true, false, M, pure, if◌then◌else◌, ◌==◌, ==_iff, ℤ,
  pos, success, enodev, nonzero, Option, none, some,
}
use tuxedo_drivers.Clevo.{integer}
use tuxedo_drivers.Nb05.Profiles.{
  Evaluate, Profiles, shown, write_other, choose, integer_result, printed_profile,
  platform_profile_options, value_of, written, profile_changed_timer_bump, profile_changed_timeout,
  rewrite_last_profile, nb05_wmi_aa_method, write_profile, read_profile, platform_profile_show,
  platform_profile_store, rewrite_last_profile_internal, nb05_rewrite_profile_work_handler,
}

-- What is relied on of the firmware: method 1 sets the profile, and method 2 gives it.
pub record IsProfileFirmware {S : Type 0} (evaluate : Evaluate S) (current : S → ℕ) : Type 0 where
  pub sets : (n : ℕ) (s : S) → (evaluate 1 n s).0 ≡ some (some (integer 0))
  pub sets_current : (n : ℕ) (s : S) → current (evaluate 1 n s).1 ≡ n
  pub gets : (un : ℕ) (s : S) → (evaluate 2 un s).0 ≡ some (some (integer (current s)))
  pub gets_current : (un : ℕ) (s : S) → current (evaluate 2 un s).1 ≡ current s

module _ {S : Type 0} where
  -- What the kernel does: the timer's function is called where the timer runs, and the work's where
  -- the work is scheduled.
  abbrev pub expire : Profiles S → Profiles S
  expire k = if k.timer then profile_changed_timeout k else k

  abbrev pub run_work : Evaluate S → ℕ → Profiles S → Profiles S
  run_work evaluate un k = if k.work then nb05_rewrite_profile_work_handler evaluate un k else k

  -- A descriptor that is written and shown again, and the number that the firmware gets for it.
  abbrev pub Chosen :
      Evaluate S → (S → ℕ) → (String → Bool) → String → ℕ → ℕ → ℕ → Profiles S → Type 0
  Chosen evaluate current matches descriptor value un size k =
      let x = platform_profile_store evaluate matches size k in
      (x.0 ≡ pos size)
      × (current x.1.firmware ≡ value)
      × (x.1.last_chosen_profile ≡ value)
      × ((platform_profile_show evaluate un x.1).0 ≡ (success, some descriptor))

module _ {S : Type 0} (evaluate : Evaluate S) (current : S → ℕ)
    (law : IsProfileFirmware evaluate current) where
  abbrev asked : ℕ → Profiles S → Profiles S
  asked un k = record k { firmware = (evaluate 2 un k.firmware).1 }

  abbrev sent : ℕ → Profiles S → Profiles S
  sent n k = record k {
    firmware = (evaluate 1 n k.firmware).1;
    profile_changed_by_driver_flag = true;
    timer = true;
  }

  read_lem :
      (un : ℕ) (k : Profiles S)
      → k.wmi_dev ≡ true
      → read_profile evaluate un k ≡ ((success, some (current k.firmware)), asked un k)
  unfolding read_profile nb05_wmi_aa_method
  read_lem un k h =
      ap
        (λ t.
          if t
          then (integer_result (evaluate 2 un k.firmware).0, asked un k)
          else ((enodev, none), k))
        h
      ∙ ap (λ r. (integer_result r, asked un k)) (law.gets un k.firmware)

  write_lem :
      (n : ℕ) (k : Profiles S) → k.wmi_dev ≡ true → write_profile evaluate n k ≡ (success, sent n k)
  unfolding write_profile nb05_wmi_aa_method profile_changed_timer_bump
  write_lem n k h =
      let bumped = record k { profile_changed_by_driver_flag = true; timer = true } in
      let finish : (ℤ × Option ℕ) × Profiles S → ℤ × Profiles S = λ r. (written r.0, r.1) in
      ap
        (λ t. finish (
          if t
          then (integer_result (evaluate 1 n k.firmware).0, sent n k)
          else ((enodev, none), bumped)))
        h
      ∙ ap (λ r. finish (integer_result r, sent n k)) (law.sets n k.firmware)

  -- What the work does, from whether the profile is the one that was chosen last.
  abbrev worked : ℕ → Profiles S → Bool → Profiles S
  worked un k same =
      let asked_once = asked un (record k { work = false }) in
      if same then asked_once else sent k.last_chosen_profile asked_once

  handler_lem :
      (un : ℕ) (k : Profiles S)
      → k.wmi_dev ≡ true
      → nb05_rewrite_profile_work_handler evaluate un k
        ≡ worked un k (current k.firmware == k.last_chosen_profile)
  unfolding nb05_rewrite_profile_work_handler rewrite_last_profile_internal
  handler_lem un k h =
      let k0 = record k { work = false } in
      let k1 = asked un k0 in
      let last = k.last_chosen_profile in
      ap
        (λ (r : (ℤ × Option ℕ) × Profiles S).
          (write_other evaluate r.1.last_chosen_profile r.0 r.1).1)
        (read_lem un k0 h)
      ∙ moved (current k.firmware == last) (write_profile evaluate last) (pure success) k1
          (ap (λ (r : ℤ × Profiles S). r.1) (write_lem last k1 h))
    where
      moved :
          (t : Bool) (m n : M (Profiles S) ℤ) (x : Profiles S) {b : Profiles S}
          → (m x).1 ≡ b
          → ((if t then n else m) x).1 ≡ (if t then (n x).1 else b)
      moved true m n x e = refl
      moved false m n x e = e

  -- The work leaves the profile that was chosen last, and bumps the timer only where it writes.
  worked_lem :
      (un : ℕ) (k : Profiles S) (same : Bool)
      → (same ≡ true → current k.firmware ≡ k.last_chosen_profile)
      → let x = worked un k same in
        (current x.firmware ≡ k.last_chosen_profile)
        × (x.last_chosen_profile ≡ k.last_chosen_profile)
        × (x.wmi_dev ≡ k.wmi_dev)
        × (x.work ≡ false)
        × (x.timer ≡ (if same then k.timer else true))
        × (x.profile_changed_by_driver_flag
            ≡ (if same then k.profile_changed_by_driver_flag else true))
  worked_lem un k true h = (law.gets_current un k.firmware ∙ h refl, refl, refl, refl, refl, refl)
  worked_lem un k false h =
      (law.sets_current k.last_chosen_profile (asked un k).firmware, refl, refl, refl, refl, refl)

  pub work_lem :
      (un : ℕ) (k : Profiles S)
      → k.wmi_dev ≡ true
      → let x = nb05_rewrite_profile_work_handler evaluate un k in
        (current x.firmware ≡ k.last_chosen_profile)
        × (x.last_chosen_profile ≡ k.last_chosen_profile)
        × (x.wmi_dev ≡ k.wmi_dev)
  work_lem un k h =
      let same = current k.firmware == k.last_chosen_profile in
      let w = worked_lem un k same (λ e. (==_iff (current k.firmware) k.last_chosen_profile).0 e) in
      subst
        (λ (x : Profiles S).
          (current x.firmware ≡ k.last_chosen_profile)
          × (x.last_chosen_profile ≡ k.last_chosen_profile)
          × (x.wmi_dev ≡ k.wmi_dev))
        (sym (handler_lem un k h)) (w.0, w.1, w.2)

  -- The profile is the one that was chosen last, and nothing is left to do.
  abbrev Settled : ℕ → Profiles S → Type 0
  Settled last x =
      (current x.firmware ≡ last)
      × (x.last_chosen_profile ≡ last)
      × (x.timer ≡ false)
      × (x.work ≡ false)
      × (x.profile_changed_by_driver_flag ≡ false)

  -- The state after the timer has run out and the work has run.
  once_lem :
      (un : ℕ) (k : Profiles S)
      → k.wmi_dev ≡ true
      → k.timer ≡ true
      → run_work evaluate un (expire k)
        ≡ worked un (profile_changed_timeout k) (current k.firmware == k.last_chosen_profile)
  unfolding profile_changed_timeout rewrite_last_profile
  once_lem un k h timer =
      ap (λ t. run_work evaluate un (if t then profile_changed_timeout k else k)) timer
      ∙ handler_lem un (profile_changed_timeout k) h

  -- The second round, after a work that has written (`same` is false) or not.
  settle_lem :
      (un : ℕ) (k : Profiles S) (same : Bool)
      → k.wmi_dev ≡ true
      → (same ≡ true → current k.firmware ≡ k.last_chosen_profile)
      → let once = worked un (profile_changed_timeout k) same in
        (current once.firmware ≡ k.last_chosen_profile)
        × Settled k.last_chosen_profile (run_work evaluate un (expire once))
  unfolding profile_changed_timeout rewrite_last_profile
  settle_lem un k true h kept =
      let is_last = law.gets_current un k.firmware ∙ kept refl in
      (is_last, (is_last, refl, refl, refl, refl))
  settle_lem un k false h kept =
      let last = k.last_chosen_profile in
      let once = worked un (profile_changed_timeout k) false in
      let k2 = profile_changed_timeout once in
      let is_last : current once.firmware ≡ last =
        law.sets_current last (asked un (profile_changed_timeout k)).firmware in
      let v = worked_lem un k2 true (λ e. is_last) in
      let e : run_work evaluate un (expire once) ≡ worked un k2 true =
        handler_lem un k2 h ∙ ap (worked un k2) ((==_iff (current once.firmware) last).1 is_last) in
      (is_last, subst (Settled last) (sym e) (v.0, refl, refl, refl, refl))

  -- Over a firmware that keeps the profile, whatever profile it has when the timer runs out, the
  -- timeout schedules the work, and the work puts the profile back that was chosen last. After the
  -- timer has run out again, if it runs, and the work has run again, if it is scheduled, the profile
  -- is still that one, the timer does not run, no work is scheduled and the change does not count as
  -- the driver's.
  pub rewrite_settles :
      (un : ℕ) (k : Profiles S)
      → k.wmi_dev ≡ true
      → k.timer ≡ true
      → let once = run_work evaluate un (expire k) in
        let x = run_work evaluate un (expire once) in
        ((expire k).work ≡ true)
        × (current once.firmware ≡ k.last_chosen_profile)
        × (current x.firmware ≡ k.last_chosen_profile)
        × (x.last_chosen_profile ≡ k.last_chosen_profile)
        × (x.timer ≡ false)
        × (x.work ≡ false)
        × (x.profile_changed_by_driver_flag ≡ false)
  unfolding profile_changed_timeout rewrite_last_profile
  rewrite_settles un k h timer =
      let same = current k.firmware == k.last_chosen_profile in
      let w =
        settle_lem un k same h (λ e. (==_iff (current k.firmware) k.last_chosen_profile).0 e) in
      let v =
        subst
          (λ (once : Profiles S).
            (current once.firmware ≡ k.last_chosen_profile)
            × Settled k.last_chosen_profile (run_work evaluate un (expire once)))
          (sym (once_lem un k h timer)) w in
      let z = v.1 in
      (
        ap (λ t. (if t then profile_changed_timeout k else k).work) timer,
        v.0,
        z.0,
        z.1,
        z.2,
        z.3,
        z.4,
      )

  chosen_lem :
      (un size value : ℕ) (matches : String → Bool) (descriptor : String) (k : Profiles S)
      → k.wmi_dev ≡ true
      → value_of platform_profile_options matches ≡ some value
      → printed_profile platform_profile_options value ≡ (success, some descriptor)
      → Chosen evaluate current matches descriptor value un size k
  unfolding platform_profile_store platform_profile_show
  chosen_lem un size value matches descriptor k h found printed =
      let stored = sent value k in
      let kept = record stored { last_chosen_profile = value } in
      let e : platform_profile_store evaluate matches size k ≡ (pos size, kept) =
        ap (λ v. choose evaluate size v k) found
        ∙ ap
            (λ (r : ℤ × Profiles S).
              (if nonzero r.0
                  then pure r.0
                  else (λ k. (pos size, record k { last_chosen_profile = value })))
                r.1)
            (write_lem value k h) in
      let set = law.sets_current value k.firmware in
      subst
        (λ (x : ℤ × Profiles S).
          (x.0 ≡ pos size)
          × (current x.1.firmware ≡ value)
          × (x.1.last_chosen_profile ≡ value)
          × ((platform_profile_show evaluate un x.1).0 ≡ (success, some descriptor)))
        (sym e)
        (
          refl,
          set,
          refl,
          ap (λ (r : (ℤ × Option ℕ) × Profiles S). shown r.0) (read_lem un kept h)
              ∙ (ap (printed_profile platform_profile_options) set ∙ printed),
        )

  -- Over a firmware that keeps the profile, where a text is compared with a descriptor by their
  -- equality, "low-power", "balanced" and "performance" are accepted, the firmware gets the profile
  -- 2, 0 or 1 for them, that is the one chosen last, and the attribute shows what was written.
  pub profile_show-store :
      (un size : ℕ) (matches : String → String → Bool) (k : Profiles S)
      → k.wmi_dev ≡ true
      → ((written descriptor : String) → matches written descriptor ≡ str_eq descriptor written)
      → Chosen evaluate current (matches "low-power") "low-power" 2 un size k
        × Chosen evaluate current (matches "balanced") "balanced" 0 un size k
        × Chosen evaluate current (matches "performance") "performance" 1 un size k
  profile_show-store un size matches k h equal =
      let found =
        λ (text : String). ap (value_of platform_profile_options) (λ j d. equal text d j) in
      (
        chosen_lem un size 2 (matches "low-power") "low-power" k h (found "low-power") refl,
        chosen_lem un size 0 (matches "balanced") "balanced" k h (found "balanced") refl,
        chosen_lem un size 1 (matches "performance") "performance" k h (found "performance") refl,
      )
