-- ===== src/Clevo/FnLock/Lock.antt =====
-- The fn lock over a firmware that keeps it.
use tuxedo_drivers.Common.{
  ℕ, zero, suc, ◌<◌, ◌≡◌, refl, ap, ◌∙◌, sym, subst, arith, Bool, true, false, not, if◌then◌else◌,
  ◌==◌, ltb, ℤ, pos, success, nonzero, some, List, [], ◌∷◌, M, pure, ◌>>=◌, ◌>>◌, einval, ◌-◌,
}
use tuxedo_drivers.Uniwill.Switches.{number, failed}
use tuxedo_drivers.Clevo.{Object, buffer, ClevoInterface, Clevo, clevo_evaluate_method_pkgbuf}
use tuxedo_drivers.Clevo.Flexicharger.Firmware.{after, after_pkgbuf, method2_lem, pkgbuf_lem}
use tuxedo_drivers.Clevo.FnLock.{
  FnState, fn_of, clevo_acpi_fn_get, clevo_acpi_fn_lock_set, clevo_fn_lock_show,
  clevo_fn_lock_store, toggle_fn_lock,
}

-- What is relied on of the firmware: 0x18 gives the lock, 1 for set and 2 for not, and two bytes of
-- the keyboard's status; 0x19 with these two bytes sets the lock and leaves them.
pub record IsFnLock {S : Type 0} (i : ClevoInterface S) (locked : S → Bool) : Type 0 where
  pub first : S → ℕ
  pub second : S → ℕ
  pub more : S → List ℕ
  pub gets :
      (s : S)
      → (i.method_call 0x4 0x18 s).0
        ≡ (success, buffer ((if locked s then 1 else 2) ∷ first s ∷ second s ∷ more s))
  pub gets_locked : (s : S) → locked (i.method_call 0x4 0x18 s).1 ≡ locked s
  pub sets :
      (on : Bool) (s t : S)
      → (i.method_call_pkgbuf 0x4
          (0x19 ∷ (if on then 0x01 else 0x02) ∷ first s ∷ second s ∷ [])
          t).0
        ≡ success
  pub sets_locked :
      (on : Bool) (s t : S)
      → locked
          (i.method_call_pkgbuf 0x4
            (0x19 ∷ (if on then 0x01 else 0x02) ∷ first s ∷ second s ∷ [])
            t).1
        ≡ on

module _ {S : Type 0} (i : ClevoInterface S) (locked : S → Bool) (law : IsFnLock i locked) where
  -- The values that are read.
  abbrev read_from : S → FnState
  read_from s = record {
    on = if locked s then 1 else 0;
    kbstatus1 = law.first s;
    kbstatus2 = law.second s;
  }

  fn_lem :
      (un : FnState) (on : Bool) (a b : ℕ) (more : List ℕ)
      → fn_of un (success, buffer ((if on then 1 else 2) ∷ a ∷ b ∷ more))
        ≡ (success, record { on = if on then 1 else 0; kbstatus1 = a; kbstatus2 = b })
  fn_lem un true a b more = refl
  fn_lem un false a b more = refl

  get_lem :
      (un : FnState) (c : Clevo S)
      → c.active ≡ some i
      → clevo_acpi_fn_get un c ≡ ((success, read_from c.firmware), after i 0x4 0x18 c)
  unfolding clevo_acpi_fn_get
  get_lem un c h =
      let s = c.firmware in
      let answer : ℤ × Object =
        (success, buffer ((if locked s then 1 else 2) ∷ law.first s ∷ law.second s ∷ law.more s)) in
      ap (λ (r : (ℤ × Object) × Clevo S). (fn_of un r.0, r.1))
        (method2_lem i 0x4 0x18 c answer h (law.gets s))
      ∙ ap (λ (r : ℤ × FnState). (r, after i 0x4 0x18 c))
          (fn_lem un (locked s) (law.first s) (law.second s) (law.more s))

  -- The bytes that are sent.
  abbrev args : Bool → S → List ℕ
  args on s = 0x19 ∷ (if on then 0x01 else 0x02) ∷ law.first s ∷ law.second s ∷ []

  set_lem :
      (un : FnState) (on : Bool) (c : Clevo S)
      → c.active ≡ some i
      → clevo_acpi_fn_lock_set un on c
        ≡ (success, after_pkgbuf i 0x4 (args on c.firmware) (after i 0x4 0x18 c))
  unfolding clevo_acpi_fn_lock_set
  set_lem un on c h =
      let s = c.firmware in
      ap
        (λ (r : (ℤ × FnState) × Clevo S).
          (if nonzero r.0.0
              then pure r.0.0
              else clevo_evaluate_method_pkgbuf 0x4
                  (0x19 ∷ (if on then 0x01 else 0x02) ∷ r.0.1.kbstatus1 ∷ r.0.1.kbstatus2 ∷ []))
            r.1)
        (get_lem un c h)
      ∙ pkgbuf_lem i 0x4 (args on s) (after i 0x4 0x18 c) success h
          (law.sets on s (after i 0x4 0x18 c).firmware)

  -- The state after a set.
  abbrev pub after_set : Bool → Clevo S → Clevo S
  after_set on c = after_pkgbuf i 0x4 (args on c.firmware) (after i 0x4 0x18 c)

  show_lem :
      (un : FnState) (c : Clevo S)
      → c.active ≡ some i
      → (clevo_fn_lock_show un c).0 ≡ number (if locked c.firmware then 1 else 0)
  unfolding clevo_fn_lock_show
  show_lem un c h =
      ap (λ (r : (ℤ × FnState) × Clevo S). if nonzero r.0.0 then failed r.0.0 else number r.0.1.on)
        (get_lem un c h)

  -- A set lock is shown.
  shown_lem :
      (un : FnState) (on : Bool) (c : Clevo S)
      → c.active ≡ some i
      → (clevo_fn_lock_show un (after_set on c)).0 ≡ number (if on then 1 else 0)
  shown_lem un on c h =
      show_lem un (after_set on c) h
      ∙ ap (λ t. number (if t then 1 else 0))
          (law.sets_locked on c.firmware (after i 0x4 0x18 c).firmware)

  store_lem :
      (un : FnState) (n size : ℕ) (c : Clevo S)
      → c.active ≡ some i
      → n < 2
      → clevo_fn_lock_store un (some (pos n)) size c ≡ (pos size, after_set (n == 1) c)
  unfolding clevo_fn_lock_store
  store_lem un n size c h small =
      let passes : ltb 1 n ≡ false = ground arith in
      let stored : M (Clevo S) ℤ = (do
        err ← clevo_acpi_fn_lock_set un (n == 1)
        pure (if nonzero err then err else pos size)) in
      ap (λ t. (if t then pure einval else stored) c) passes
      ∙ ap (λ (r : ℤ × Clevo S). (if nonzero r.0 then r.0 else pos size, r.1))
          (set_lem un (n == 1) c h)

  toggle_lem :
      (un : FnState) (c : Clevo S)
      → c.active ≡ some i
      → (toggle_fn_lock un c).1
        ≡ after_set (not ((if locked c.firmware then 1 else 0) == 1)) (after i 0x4 0x18 c)
  unfolding toggle_fn_lock
  toggle_lem un c h =
      ap
        (λ (r : (ℤ × FnState) × Clevo S).
          ((if nonzero r.0.0
              then pure tt
              else (do clevo_acpi_fn_lock_set un (not (r.0.1.on == 1)); pure tt))
            r.1).1)
        (get_lem un c h)
      ∙ ap (λ (r : ℤ × Clevo S). r.1)
          (set_lem un (not ((if locked c.firmware then 1 else 0) == 1)) (after i 0x4 0x18 c) h)

  flipped :
      (t : Bool) → (if not ((if t then 1 else 0) == 1) then suc zero else 0) ≡ (if t then 0 else 1)
  flipped true = refl
  flipped false = refl

  toggled_lem :
      (un : FnState) (on : Bool) (c : Clevo S)
      → c.active ≡ some i
      → let d = after_set on c in
        (clevo_fn_lock_show un (toggle_fn_lock un d).1).0 ≡ number (if on then 0 else 1)
  toggled_lem un on c h =
      let d = after_set on c in
      let is_on : locked d.firmware ≡ on =
        law.sets_locked on c.firmware (after i 0x4 0x18 c).firmware in
      ap (λ x. (clevo_fn_lock_show un x).0) (toggle_lem un d h)
      ∙ (shown_lem un (not ((if locked d.firmware then 1 else 0) == 1)) (after i 0x4 0x18 d) h
          ∙ (ap number (flipped (locked d.firmware)) ∙ ap (λ t. number (if t then 0 else 1)) is_on))

  -- Over a firmware with a fn lock, a 0 or 1 that is stored is accepted and shown again, and the key
  -- switches the lock over, so that the other number is shown.
  pub fn_lock_show-store :
      (un : FnState) (n size : ℕ) (c : Clevo S)
      → c.active ≡ some i
      → n < 2
      → let x = clevo_fn_lock_store un (some (pos n)) size c in
        (x.0 ≡ pos size)
        × ((clevo_fn_lock_show un x.1).0 ≡ number n)
        × ((clevo_fn_lock_show un (toggle_fn_lock un x.1).1).0 ≡ number (1 - n))
  fn_lock_show-store un n size c h small =
      let shown : (if n == 1 then 1 else 0) ≡ n = ground arith in
      let switched : (if n == 1 then 0 else 1) ≡ 1 - n = ground arith in
      subst
        (λ (x : ℤ × Clevo S).
          (x.0 ≡ pos size)
          × ((clevo_fn_lock_show un x.1).0 ≡ number n)
          × ((clevo_fn_lock_show un (toggle_fn_lock un x.1).1).0 ≡ number (1 - n)))
        (sym (store_lem un n size c h small))
        (
          refl,
          shown_lem un (n == 1) c h ∙ ap number shown,
          toggled_lem un (n == 1) c h ∙ ap number switched,
        )
