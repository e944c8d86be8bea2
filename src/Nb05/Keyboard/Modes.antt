-- ===== src/Nb05/Keyboard/Modes.antt =====
-- The event of a mode that the firmware has changed.
use tuxedo_drivers.Common.{ℕ, ◌≡◌, ap, ◌∙◌, arith, true, false, if◌then◌else◌, List, ◌∷◌}
use tuxedo_drivers.Clevo.{buffer}
use tuxedo_drivers.Nb05.Profiles.{
  Evaluate, Profiles, rewrite_last_profile, nb05_rewrite_profile_work_handler,
}
use tuxedo_drivers.Nb05.Profiles.Settle.{IsProfileFirmware, work_lem}
use tuxedo_drivers.Nb05.Keyboard.{
  Keyboard, is_mode_event, handle_event, report_gauge_key_combo, tuxedo_nb05_keyboard_notify,
}

module _ {S : Type 0} (evaluate : Evaluate S) (current : S → ℕ)
    (law : IsProfileFirmware evaluate current) where
  -- An event of a changed mode schedules the work, unless the driver has changed the mode.
  scheduled_lem :
      (a event low high : ℕ) (more : List ℕ) (k : Keyboard S)
      → is_mode_event event ≡ true
      → let x = tuxedo_nb05_keyboard_notify (buffer (a ∷ event ∷ low ∷ high ∷ more)) k in
        x.profiles ≡ (
          if k.profiles.profile_changed_by_driver_flag
          then k.profiles
          else rewrite_last_profile k.profiles)
  unfolding tuxedo_nb05_keyboard_notify handle_event report_gauge_key_combo
  scheduled_lem a event low high more k h = ground (arith, h)

  -- Over a firmware that keeps the profile, an event of a changed mode that is not the driver's own
  -- change schedules the work, and the work puts the profile back that was chosen last, whatever the
  -- firmware has made of it.
  pub mode_event_restores :
      (un a event low high : ℕ) (more : List ℕ) (k : Keyboard S)
      → is_mode_event event ≡ true
      → k.profiles.profile_changed_by_driver_flag ≡ false
      → k.profiles.wmi_dev ≡ true
      → let x = tuxedo_nb05_keyboard_notify (buffer (a ∷ event ∷ low ∷ high ∷ more)) k in
        (x.profiles.work ≡ true)
        × (current (nb05_rewrite_profile_work_handler evaluate un x.profiles).firmware
            ≡ k.profiles.last_chosen_profile)
  unfolding rewrite_last_profile
  mode_event_restores un a event low high more k h flag dev =
      let e =
        scheduled_lem a event low high more k h
        ∙ ap (λ t. if t then k.profiles else rewrite_last_profile k.profiles) flag in
      (
        ap (λ (p : Profiles S). p.work) e,
        ap (λ (p : Profiles S). current (nb05_rewrite_profile_work_handler evaluate un p).firmware)
              e
            ∙ (work_lem evaluate current law un (rewrite_last_profile k.profiles) dev).0,
      )
