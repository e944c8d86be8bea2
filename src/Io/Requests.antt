-- ===== src/Io/Requests.antt =====
-- src/tuxedo_io/tuxedo_io.c: what the requests do to the devices.
use tuxedo_drivers.Common.{
  ℕ, ◌+◌, ◌*◌, ◌/◌, ◌%◌, ◌^◌, ◌<◌, ◌≡◌, inl, inr, refl, ap, ◌∙◌, sym, subst, arith, Bool, false,
  Bool-cases, if◌then◌else◌, leb, ◌==◌, ==_iff, bit_and, bit_or, bit_and-byte, bit_and-one,
  bit_or-byte, bit_or-word, ℤ, success, enodev, Option, some, pure,
}
use tuxedo_drivers.Uniwill.Dmi.{Dmi}
use tuxedo_drivers.Clevo.{integer, ClevoInterface, Clevo, clevo_evaluate_method}
use tuxedo_drivers.Clevo.Flexicharger.Firmware.{after, integer_lem}
use tuxedo_drivers.Io.{Copied, nothing, w_cl_fanspeed, w_cl_webcam_sw, copied_or}
use tuxedo_drivers.Io.ClevoIoctl.{
  limit_fanspeed, limit_fanspeeds, aura_gen3, set_argument, set_webcam, clevo_ioctl_interface,
}

-- A speed as it is sent: off below 31, 63 from 31 to 62, and itself above.
abbrev pub allowed : ℕ → ℕ
allowed speed = if leb speed 30 then 0 else if leb speed 62 then 63 else speed

limit_lem : (speed : ℕ) → limit_fanspeed speed ≡ allowed speed
unfolding limit_fanspeed
limit_lem speed = ground arith

allowed_small : (speed : ℕ) → speed < 256 → allowed speed < 256
allowed_small speed h = ground arith

-- The word with three bytes.
abbrev pub three : ℕ → ℕ → ℕ → ℕ
three a b c = a + b * 256 + c * 65536

limit_three :
    (argument : ℕ)
    → limit_fanspeeds argument
      ≡ three
          (allowed (argument % 256))
          (allowed (argument / 256 % 256))
          (allowed (argument / 65536 % 256))
unfolding limit_fanspeeds
limit_three argument =
    let byte = λ (x : ℕ). ap limit_fanspeed (bit_and-byte x) ∙ limit_lem (x % 256) in
    let a = allowed (argument % 256) in
    let b = allowed (argument / 256 % 256) in
    let small = allowed_small (argument % 256) (omega arith) in
    let small' = allowed_small (argument / 256 % 256) (omega arith) in
    let c = allowed (argument / 65536 % 256) in
    (λ i.
      bit_or (bit_or (byte argument i) (byte (argument / 256) i * 256))
        (byte (argument / 65536) i * 65536))
    ∙ (ap (λ x. bit_or x (c * 65536)) (bit_or-byte a b small)
        ∙ bit_or-word (a + b * 256) c (omega arith))

module _ {S : Type 0} (dmi : Dmi) where
  -- The request of a fan speed sends the three low bytes of the word that was copied, each of them 0
  -- if it is below 31, 63 if it is from 31 to 62, and unchanged if it is above.
  pub fanspeed_sends :
      (user : Option ℕ) (arg : ℕ) (c : Clevo S)
      → let argument = copied_or arg user in
        clevo_ioctl_interface dmi w_cl_fanspeed user arg c ≡ (
          (success, nothing),
          (clevo_evaluate_method 0x68
              (three
                (allowed (argument % 256))
                (allowed (argument / 256 % 256))
                (allowed (argument / 65536 % 256)))
              c).1,
        )
  unfolding clevo_ioctl_interface
  fanspeed_sends user arg c =
      ap (λ w. ((success, nothing), (clevo_evaluate_method 0x68 w c).1))
        (limit_three (copied_or arg user))

  -- What is relied on of a firmware with a switch for the webcam: its status is the low bit of an
  -- integer, and a set that asks for the other status brings it about, whether it sets or toggles.
  pub record IsWebcam (i : ClevoInterface S) (view : S → ℕ) : Type 0 where
    pub word_of : S → ℕ
    pub gets : (s : S) → (i.method_call 0x06 0 s).0 ≡ (success, integer (word_of s))
    pub low_bit : (s : S) → word_of s % 2 ≡ view s
    pub gets_view : (s : S) → view (i.method_call 0x06 0 s).1 ≡ view s
    pub sets_view :
        (argument : ℕ) (s : S)
        → (argument % 2 == view s) ≡ false
        → view (i.method_call 0x22 argument s).1 ≡ argument % 2
    pub answers :
        (argument : ℕ) (s : S)
        → (n : ℕ) × ((i.method_call 0x22 argument s).0 ≡ (success, integer n))

  -- Over a firmware that sets or toggles the webcam, the request leaves it in the status that is
  -- asked for, on every device but the two that refuse it.
  pub webcam_sets :
      (i : ClevoInterface S) (view : S → ℕ)
      → IsWebcam i view
      → (user : Option ℕ) (arg : ℕ) (c : Clevo S) → c.active ≡ some i
      → aura_gen3 dmi ≡ false
      → let x = clevo_ioctl_interface dmi w_cl_webcam_sw user arg c in
        (x.0 ≡ (success, nothing)) × (view x.1.firmware ≡ copied_or arg user % 2)
  unfolding clevo_ioctl_interface
  webcam_sets i view law user arg c h other =
      let w = copied_or arg user in
      let s = c.firmware in
      let b = view s in
      let n = law.word_of s in
      let c1 = after i 0x06 0 c in
      let got = integer_lem i 0x06 0 c n h (law.gets s) in
      let seen : bit_and (n % 2 ^ 32) 1 ≡ b =
        bit_and-one (n % 2 ^ 32) ∙ (omega arith ∙ law.low_bit s) in
      let decide = λ (t : Bool). (if t then pure (success, nothing) else set_argument 0x22 w) c1 in
      let e : (if aura_gen3 dmi then pure (enodev, nothing) else set_webcam w) c
          ≡ decide (w % 2 == b) =
        ap (λ (t : Bool). (if t then pure (enodev, nothing) else set_webcam w) c) other
        ∙ (ap
              (λ (r : (ℤ × Option ℕ) × Clevo S).
                (if bit_and w 0x01 == bit_and (copied_or 0 r.0.1) 0x01
                    then pure (success, nothing)
                    else set_argument 0x22 w)
                  r.1)
              got
            ∙ (λ j. decide (bit_and-one w j == seen j))) in
      let Done =
        λ (x : (ℤ × Copied) × Clevo S). (x.0 ≡ (success, nothing)) × (view x.1.firmware ≡ w % 2) in
      subst Done (sym e) (elim (Bool-cases (w % 2 == b)) [
        | inl same ↦
            subst (λ t. Done (decide t)) (sym same)
              (refl, law.gets_view s ∙ sym ((==_iff (w % 2) b).0 same))
        | inr differs ↦
            let s1 = c1.firmware in
            let a = law.answers w s1 in
            let sent = integer_lem i 0x22 w c1 a.0 h a.1 in
            subst (λ t. Done (decide t)) (sym differs)
              (
                refl,
                ap (λ (r : (ℤ × Option ℕ) × Clevo S). view r.1.firmware) sent
                    ∙ law.sets_view w s1 (ap (λ v. w % 2 == v) (law.gets_view s) ∙ differs),
              )
      ])
