-- ===== src/Nb05/Profiles.antt =====
-- src/tuxedo_nb05/tuxedo_nb05_power_profiles.c: the power profile, which is written again where the
-- firmware changes it. `evaluate` is `wmidev_evaluate_method`: `none` is a failure and `some none` a
-- success without an object. `un` is what a local variable holds before it is written.
pub mod Settle
use Prim.Native.String.{String}
use tuxedo_drivers.Common.{
  ℕ, Bool, true, false, not, M, pure, ◌>>=◌, ◌>>◌, if◌then◌else◌, ◌==◌, ℤ, pos, success, eio,
  enodev, einval, enomem, nonzero, Option, none, some, List, [], ◌∷◌,
}
use tuxedo_drivers.Clevo.{Object, integer, buffer, other_object, enodata}

abbrev pub Evaluate : Type 0 → Type 0
Evaluate S = ℕ → ℕ → M S (Option (Option Object))

-- The driver's variables. `timer` is whether the timer runs, `work` whether the work is scheduled,
-- and `wmi_dev` whether `__wmi_dev` is set.
pub record Profiles (S : Type 0) : Type 0 where
  pub wmi_dev : Bool
  pub last_chosen_profile : ℕ
  pub profile_changed_by_driver_flag : Bool
  pub timer : Bool
  pub work : Bool
  pub firmware : S

abbrev pub integer_result : Option (Option Object) → ℤ × Option ℕ
integer_result none = (eio, none)
integer_result (some none) = (enodata, none)
integer_result (some (some (integer value))) = (success, some value)
integer_result (some (some (buffer bytes))) = (eio, none)
integer_result (some (some other_object)) = (eio, none)

abbrev pub platform_profile_options : List (String × ℕ)
platform_profile_options = ("low-power", 2) ∷ ("balanced", 0) ∷ ("performance", 1) ∷ []

-- The first option with the value.
abbrev pub descriptor_of : List (String × ℕ) → ℕ → Option String
descriptor_of [] value = none
descriptor_of ((descriptor, v) ∷ more) value =
    let rest = descriptor_of more value in if v == value then some descriptor else rest

-- The value of the first option whose descriptor matches.
abbrev pub value_of : List (String × ℕ) → (String → Bool) → Option ℕ
value_of [] matches = none
value_of ((descriptor, v) ∷ more) matches =
    let rest = value_of more matches in if matches descriptor then some v else rest

-- What the show function returns: a line, or an error.
abbrev pub printed_profile : List (String × ℕ) → ℕ → ℤ × Option String
printed_profile options value = elim (descriptor_of options value) [
  | none ↦ (eio, none)
  | some descriptor ↦ (success, some descriptor)
]

-- The status of a write from that of the call and what it gives.
abbrev pub written : ℤ × Option ℕ → ℤ
written (err, none) = err
written (err, some out) = if nonzero err then err else if out == 0 then success else einval

-- The line for what was read.
abbrev pub shown : ℤ × Option ℕ → ℤ × Option String
shown (err, none) = (eio, none)
shown (err, some value) = printed_profile platform_profile_options value

module _ {S : Type 0} where
  unfoldable pub profile_changed_timer_bump : M (Profiles S) (Unit {0})
  profile_changed_timer_bump k =
      (tt, record k { profile_changed_by_driver_flag = true; timer = true })

  unfoldable pub rewrite_last_profile : Profiles S → Profiles S
  rewrite_last_profile k = record k { work = true }

  -- The timer has run out.
  unfoldable pub profile_changed_timeout : Profiles S → Profiles S
  unfolding rewrite_last_profile
  profile_changed_timeout k =
      rewrite_last_profile (record k { timer = false; profile_changed_by_driver_flag = false })

  module _ (evaluate : Evaluate S) where
    unfoldable pub nb05_wmi_aa_method : ℕ → ℕ → M (Profiles S) (ℤ × Option ℕ)
    nb05_wmi_aa_method wmi_method_id value k =
        if k.wmi_dev
        then (let r = evaluate wmi_method_id value k.firmware in
            (integer_result r.0, record k { firmware = r.1 }))
        else ((enodev, none), k)

    unfoldable pub write_profile : ℕ → M (Profiles S) ℤ
    unfolding profile_changed_timer_bump
    write_profile profile = do
      profile_changed_timer_bump
      r ← nb05_wmi_aa_method 1 profile
      pure (written r)

    unfoldable pub read_profile : ℕ → M (Profiles S) (ℤ × Option ℕ)
    read_profile un = nb05_wmi_aa_method 2 un

    unfoldable pub platform_profile_show : ℕ → M (Profiles S) (ℤ × Option String)
    platform_profile_show un = do r ← read_profile un; pure (shown r)

    -- The write of the last profile where another one was read.
    abbrev pub write_other : ℕ → ℤ × Option ℕ → M (Profiles S) ℤ
    write_other last (err, none) = pure err
    write_other last (err, some current) =
        if current == last then pure success else write_profile last

    unfoldable pub rewrite_last_profile_internal : ℕ → M (Profiles S) ℤ
    rewrite_last_profile_internal un = do
      r ← read_profile un
      last ← (λ k. (k.last_chosen_profile, k))
      write_other last r

    -- The work that was scheduled runs.
    unfoldable pub nb05_rewrite_profile_work_handler : ℕ → Profiles S → Profiles S
    unfolding rewrite_last_profile_internal
    nb05_rewrite_profile_work_handler un k =
        (rewrite_last_profile_internal un (record k { work = false })).1

    -- The option that was found is set.
    abbrev pub choose : ℕ → Option ℕ → M (Profiles S) ℤ
    choose size none = pure einval
    choose size (some value) = do
      err ← write_profile value
      if nonzero err then pure err else (λ k. (pos size, record k { last_chosen_profile = value }))

    -- `matches` compares a descriptor with the text, without the white space around it.
    unfoldable pub platform_profile_store : (String → Bool) → ℕ → M (Profiles S) ℤ
    platform_profile_store matches size = choose size (value_of platform_profile_options matches)

    -- `compatible` and `guid` are the two tests, `allocated` whether there is memory, `registered`
    -- the status of the platform device and `created` that of the attributes.
    unfoldable pub tuxedo_nb05_power_profiles_probe :
        ℕ → Bool → Bool → Bool → Bool → ℤ → M (Profiles S) ℤ
    tuxedo_nb05_power_profiles_probe un compatible guid allocated registered created k =
        let known = record k { wmi_dev = true } in
        if not compatible
        then (enodev, known)
        else if not guid
        then (enodev, known)
        else if not allocated
        then (enomem, known)
        else (let r = read_profile un known in
            elim r.0.1 [
              | none ↦ (eio, r.1)
              | some value ↦ (
                if not registered then enomem else if nonzero created then created else success,
                record (r.1) { last_chosen_profile = value },
              )
            ])

  unfoldable pub tuxedo_nb05_power_profiles_remove : Profiles S → Profiles S
  tuxedo_nb05_power_profiles_remove k = record k { timer = false }
