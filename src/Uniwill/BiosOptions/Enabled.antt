-- ===== src/Uniwill/BiosOptions/Enabled.antt =====
-- The variable after the hidden options are switched on.
use tuxedo_drivers.Common.{
  ℕ, ◌≡◌, ◌≢◌, ◌⊎◌, inl, inr, refl, ap, ◌∙◌, sym, subst, arith, Bool, Bool-cases, true, false, not,
  M, pure, ◌>>=◌, ◌>>◌, if◌then◌else◌, ltb, leb, ◌==◌, ◌&&◌, Ram, some,
}
use tuxedo_drivers.Uniwill.BiosOptions.{
  Variable, Efi, fits, changes, enabled, enable, read_and_enable, uw_show_hidden_bios_options,
}

-- What is relied on of EFI: the variable is there, a read gives it, and a write stores it.
pub record IsEfi {S : Type 0} (efi : Efi S) (view : S → Variable) : Type 0 where
  pub sizes : (s : S) → (efi.get_size s).0 ≡ some (view s).size
  pub sizes_view : (s : S) → view (efi.get_size s).1 ≡ view s
  pub gets : (size : ℕ) (s : S) → (efi.get_variable size s).0 ≡ some (view s)
  pub gets_view : (size : ℕ) (s : S) → view (efi.get_variable size s).1 ≡ view s
  pub sets_view : (v : Variable) (s : S) → view (efi.set_variable v s).1 ≡ v

-- The variable after the call.
abbrev pub outcome : Variable → Variable
outcome v =
    if leb v.size 0x6f
    then v
    else if fits v.bytes && changes v.bytes
    then record v { bytes = enabled v.bytes }
    else v

-- The variable has the two switches: it is longer than their indices, both options are marked as
-- supported, and both switches are 0 or 1.
abbrev pub supports : Variable → Bool
supports v =
    ltb 0x6f v.size
    && v.bytes 0x60 == 1
    && v.bytes 0x6e == 1
    && leb (v.bytes 0x33) 1
    && leb (v.bytes 0x6f) 1

-- A variable with the switches has both on; any other one stays.
abbrev pub Switched : Variable → Variable → Type 0
Switched v o =
    ((supports v ≡ false) × (o ≡ v))
    ⊎ ((supports v ≡ true) × (o.bytes 0x33 ≡ 1) × (o.bytes 0x6f ≡ 1))

short_lem : (v : Variable) → leb v.size 0x6f ≡ true → supports v ≡ false
short_lem v h = ground (arith, h)

other_lem : (v : Variable) → fits v.bytes ≡ false → supports v ≡ false
other_lem v h = ground (arith, h)

supported_lem : (v : Variable) → leb v.size 0x6f ≡ false → fits v.bytes ≡ true → supports v ≡ true
supported_lem v e h = ground (arith, e, h)

already_on : (f : Ram) → fits f ≡ true → changes f ≡ false → (f 0x33 ≡ 1) × (f 0x6f ≡ 1)
already_on f h c = ground (arith, h, c)

switched_on : (f : Ram) → fits f ≡ true → (enabled f 0x33 ≡ 1) × (enabled f 0x6f ≡ 1)
switched_on f h = ground (arith, h)

kept_bytes : (f : Ram) (j : ℕ) → j ≢ 0x33 → j ≢ 0x6f → enabled f j ≡ f j
kept_bytes f j p q = ground (arith, p, q)

fits_kept : (f : Ram) → fits f ≡ true → fits (enabled f) ≡ true
fits_kept f h = ground (arith, h)

changes_none : (f : Ram) → fits f ≡ true → changes (enabled f) ≡ false
changes_none f h = ground (arith, h)

-- What the outcome keeps of the variable; it is its own outcome.
abbrev pub Outcome : Variable → Variable → Type 0
Outcome v o =
    Switched v o × ((j : ℕ) → j ≢ 0x33 → j ≢ 0x6f → o.bytes j ≡ v.bytes j) × (outcome o ≡ o)

choice : Variable → Bool → Bool → Bool → Variable
choice v short fit change =
    if short then v else if fit && change then record v { bytes = enabled v.bytes } else v

same_lem : (v : Variable) → Switched v v → outcome v ≡ v → Outcome v (outcome v)
same_lem v h e = subst (Outcome v) (sym e) (h, λ j p q. refl, e)

outcome_kept : (v : Variable) → Outcome v (outcome v)
unfolding choice
outcome_kept v =
    let short = leb v.size 0x6f in
    elim (Bool-cases short) [
      | inl e ↦
          same_lem v (inl (short_lem v e, refl))
            (λ j. choice v (e j) (fits v.bytes) (changes v.bytes))
      | inr e ↦ elim (Bool-cases (fits v.bytes)) [
        | inr f ↦
            same_lem v (inl (other_lem v f, refl)) (λ j. choice v (e j) (f j) (changes v.bytes))
        | inl f ↦ elim (Bool-cases (changes v.bytes)) [
          | inr c ↦
              same_lem v (inr (let a = already_on v.bytes f c in (supported_lem v e f, a.0, a.1)))
                (λ j. choice v (e j) (f j) (c j))
          | inl c ↦
              let o = record v { bytes = enabled v.bytes } in
              subst (Outcome v) (sym (λ j. choice v (e j) (f j) (c j))) (
                (let a = switched_on v.bytes f in inr (supported_lem v e f, a.0, a.1)),
                kept_bytes v.bytes,
                λ j. choice o (e j) (fits_kept v.bytes f j) (changes_none v.bytes f j),
              )
        ]
      ]
    ]

module _ {S : Type 0} (efi : Efi S) (view : S → Variable) (law : IsEfi efi view) where
  enable_lem :
      (v : Variable) (s : S)
      → view s ≡ v
      → view (enable efi (some v) s).1
        ≡ (if fits v.bytes && changes v.bytes then record v { bytes = enabled v.bytes } else v)
  unfolding enable
  enable_lem v s e =
      by_tests (fits v.bytes) (changes v.bytes)
        (efi.set_variable (record v { bytes = enabled v.bytes }) >> pure tt)
        (record v { bytes = enabled v.bytes })
        (law.sets_view (record v { bytes = enabled v.bytes }) s)
    where
      by_tests :
          (f c : Bool) (m : M S (Unit {0})) (w : Variable)
          → view (m s).1 ≡ w
          → view ((if not f then pure tt else if not c then pure tt else m) s).1
            ≡ (if f && c then w else v)
      by_tests true true m w h = h
      by_tests true false m w h = e
      by_tests false c m w h = e

  outcome_lem :
      (s : S) → view (uw_show_hidden_bios_options efi true true true s).1 ≡ outcome (view s)
  unfolding uw_show_hidden_bios_options read_and_enable
  outcome_lem s =
      let s1 = (efi.get_size s).1 in
      let v = view s in
      let s2 = (efi.get_variable v.size s1).1 in
      let found : (efi.get_variable v.size s1).0 ≡ some v =
        law.gets v.size s1 ∙ ap some (law.sizes_view s) in
      let kept : view s2 ≡ v = law.gets_view v.size s1 ∙ law.sizes_view s in
      ap (λ o. view (read_and_enable efi true o s1).1) (law.sizes s)
      ∙ by_size (leb v.size 0x6f) (efi.get_variable v.size >>= enable efi)
          (if fits v.bytes && changes v.bytes then record v { bytes = enabled v.bytes } else v)
          (ap (λ o. view (enable efi o s2).1) found ∙ enable_lem v s2 kept)
    where
      by_size :
          (t : Bool) (m : M S (Unit {0})) (w : Variable)
          → view (m (efi.get_size s).1).1 ≡ w
          → view ((if t then pure tt else m) (efi.get_size s).1).1 ≡ (if t then view s else w)
      by_size true m w h = law.sizes_view s
      by_size false m w h = h

  -- Over EFI with the variable, after the call no byte but the two switches has changed; where the
  -- variable is longer than 0x6f bytes, its support bytes 0x60 and 0x6e are 1 and its switches 0x33
  -- and 0x6f are 0 or 1, both switches are 1, and otherwise the whole variable is as it was; a
  -- second call changes nothing.
  pub options_enabled :
      (s : S)
      → let x = (uw_show_hidden_bios_options efi true true true s).1 in
        let y = (uw_show_hidden_bios_options efi true true true x).1 in
        Switched (view s) (view x)
        × ((j : ℕ) → j ≢ 0x33 → j ≢ 0x6f → (view x).bytes j ≡ (view s).bytes j)
        × (view y ≡ view x)
  options_enabled s =
      let x = (uw_show_hidden_bios_options efi true true true s).1 in
      let k = subst (Outcome (view s)) (sym (outcome_lem s)) (outcome_kept (view s)) in
      (k.0, k.1, outcome_lem x ∙ k.2)
