-- ===== src/Uniwill/RomId/Corrected.antt =====
-- The ROM id after the correction.
use tuxedo_drivers.Common.{
  ℕ, zero, ◌+◌, ◌<◌, ◌≤◌, ◌≡◌, refl, ap, ◌∙◌, sym, subst, arith, Bool, Bool-cases, inl, inr, true,
  false, if◌then◌else◌, ◌==◌, ==_iff, u8, Ram, ℤ, success, nonzero, length, some, List, [], ◌∷◌, M,
  pure, ◌>>=◌, ◌⊎◌,
}
use tuxedo_drivers.Uniwill.Interface.{Reply, UniwillInterface, IsEcRam}
use tuxedo_drivers.Uniwill.Access.{Uniwill, uniwill_write_ec_ram_with_retry}
use tuxedo_drivers.Uniwill.Access.Ready.{IsReady, read-IsReady, after_read}
use tuxedo_drivers.Uniwill.Access.Retry.{ram-write_with_retry, ram-read_with_retry}
use tuxedo_drivers.Uniwill.RomId.{compare_from, write_from, correct, set_rom_id}

-- The bytes from an address on.
unfoldable pub Holds : Ram → ℕ → List ℕ → Type 0
Holds f address [] = zero ≡ zero
Holds f address (byte ∷ bytes) = (u8 (f address) ≡ byte) × Holds f (address + 1) bytes

unfoldable pub AreBytes : List ℕ → Type 0
AreBytes [] = zero ≡ zero
AreBytes (byte ∷ bytes) = (byte < 256) × AreBytes bytes

module _ {S : Type 0} (i : UniwillInterface S) (ready : S → Type 0) (ram : S → Ram)
    (law : IsEcRam i ready ram) (un : ℕ) (un_status : ℤ) (start : Reply) where
  -- What the comparison gives: no error, and the RAM as it was.
  abbrev Compared : Uniwill S → ℕ → List ℕ → (ℤ × Bool) × Uniwill S → Type 0
  Compared u a romid x =
      (x.0.0 ≡ success)
      × (ram x.1.ec ≡ ram u.ec)
      × IsReady i ready ram law x.1
      × (x.0.1 ≡ false → Holds (ram u.ec) a romid)
      × (Holds (ram u.ec) a romid → x.0.1 ≡ false)

  compare_lem :
      (a : ℕ) (romid : List ℕ) (u : Uniwill S)
      → IsReady i ready ram law u
      → a + length romid < 65536
      → Compared u a romid (compare_from un un_status start a romid u)
  unfolding compare_from Holds
  compare_lem a [] u r h = (refl, refl, r, λ e. refl, λ e. refl)
  compare_lem a (byte ∷ romid) u r h =
      let x = read-IsReady i ready ram law a un u r (omega arith) in
      let u1 = after_read i ready ram law a un u in
      let shown = u8 (ram u.ec a) in
      let rest = compare_lem (a + 1) romid u1 x.2 (omega arith) in
      let e = ram-read_with_retry i ready ram law u r un_status un a 2 (omega arith) in
      let Ends : (ℤ × Bool) × Uniwill S → Type 0 = Compared u a (byte ∷ romid) in
      subst Ends
        (sym (
          ap
            (λ (y : Reply × Uniwill S).
              (if nonzero y.0.status
                  then pure (y.0.status, false)
                  else if y.0.byte == byte
                  then compare_from un un_status start (a + 1) romid
                  else pure (success, true))
                y.1)
            e))
        (elim (Bool-cases (shown == byte)) [
          | inl t ↦
              subst
                (λ b. Ends (
                  (if b
                      then compare_from un un_status start (a + 1) romid
                      else pure (success, true))
                    u1))
                (sym t)
                (
                  rest.0,
                  rest.1 ∙ x.1,
                  rest.2,
                  λ f. ((==_iff shown byte).0 t, subst (λ g. Holds g (a + 1) romid) x.1 (rest.3 f)),
                  λ g. rest.4 (subst (λ f. Holds f (a + 1) romid) (sym x.1) g.1),
                )
          | inr t ↦
              subst
                (λ b. Ends (
                  (if b
                      then compare_from un un_status start (a + 1) romid
                      else pure (success, true))
                    u1))
                (sym t) (refl, x.1, x.2, λ f. ground (arith, f), λ g. ground (arith, t, g.0))
        ])

  -- What the writes give: no error, the bytes from the address on, and the others as they were.
  abbrev Stored : Uniwill S → ℕ → List ℕ → ℤ × Uniwill S → Type 0
  Stored u a romid x =
      (x.0 ≡ success)
      × Holds (ram x.1.ec) a romid
      × ((j : ℕ) → (j < a) ⊎ (a + length romid ≤ j) → ram x.1.ec j ≡ ram u.ec j)
      × IsReady i ready ram law x.1

  -- A write with its status 0, and what follows.
  step_lem :
      (a d : ℕ) (next : M (Uniwill S) ℤ) (u : Uniwill S)
      → IsReady i ready ram law u
      → a < 65536
      → d < 256
      → (do
        ret ← uniwill_write_ec_ram_with_retry start a d 3
        if nonzero ret then pure ret else next)
          u
        ≡ next (uniwill_write_ec_ram_with_retry start a d 3 u).1
  step_lem a d next u r h b =
      let w = uniwill_write_ec_ram_with_retry start a d 3 u in
      ap (λ t. (if nonzero t then pure t else next) w.1)
        (ram-write_with_retry i ready ram law u r start a d 2 h b).0

  write_lem :
      (a : ℕ) (romid : List ℕ) (u : Uniwill S)
      → IsReady i ready ram law u
      → a + length romid < 65536
      → AreBytes romid
      → Stored u a romid (write_from un un_status start a romid u)
  unfolding write_from Holds AreBytes
  write_lem a [] u r h b = (refl, refl, λ j p. refl, r)
  write_lem a (byte ∷ romid) u r h b =
      let w = ram-write_with_retry i ready ram law u r start a byte 2 (omega arith) b.0 in
      let u1 = (uniwill_write_ec_ram_with_retry start a byte 3 u).1 in
      let rest = write_lem (a + 1) romid u1 w.2 (omega arith) b.1 in
      let x = write_from un un_status start (a + 1) romid u1 in
      let first : ram x.1.ec a ≡ byte =
        rest.2 a (inl (omega arith)) ∙ (ap (λ (f : Ram). f a) w.1 ∙ ground arith) in
      subst (Stored u a (byte ∷ romid))
        (sym (step_lem a byte (write_from un un_status start (a + 1) romid) u r (omega arith) b.0))
        (
          rest.0,
          (ap u8 first ∙ omega (arith, b.0), rest.1),
          λ j p. elim p [
            | inl q ↦
                rest.2 j (inl (omega (arith, q))) ∙ (ap (λ (f : Ram). f j) w.1 ∙ ground (arith, q))
            | inr q ↦
                rest.2 j (inr (omega (arith, q))) ∙ (ap (λ (f : Ram). f j) w.1 ∙ ground (arith, q))
          ],
          rest.3,
        )

  -- The ROM id is there, and the bytes outside of the two lines of eight are as they were.
  abbrev pub Corrected : Uniwill S → List ℕ → ℤ × Uniwill S → Type 0
  Corrected u romid x =
      (x.0 ≡ success)
      × Holds (ram x.1.ec) 0x0770 romid
      × ((j : ℕ) → (j < 0x0770) ⊎ (0x0780 ≤ j) → ram x.1.ec j ≡ ram u.ec j)
      × IsReady i ready ram law x.1

  correct_lem :
      (romid : List ℕ) (u : Uniwill S)
      → IsReady i ready ram law u
      → length romid ≡ 14
      → AreBytes romid
      → Corrected u romid (correct un un_status start romid u)
  unfolding correct
  correct_lem romid u r h b =
      let w1 =
        ram-write_with_retry i ready ram law u r start 0x077e 0xA5 2 (omega arith) (omega arith) in
      let u1 = (uniwill_write_ec_ram_with_retry start 0x077e 0xA5 3 u).1 in
      let w2 =
        ram-write_with_retry i ready ram law u1 w1.2 start 0x077f 0x78 2 (omega arith)
          (omega arith) in
      let u2 = (uniwill_write_ec_ram_with_retry start 0x077f 0x78 3 u1).1 in
      let rest = write_lem 0x0770 romid u2 w2.2 (omega arith) b in
      let last = write_from un un_status start 0x0770 romid in
      let second : M (Uniwill S) ℤ = (do
        ret ← uniwill_write_ec_ram_with_retry start 0x077f 0x78 3
        if nonzero ret then pure ret else last) in
      let e =
        step_lem 0x077e 0xA5 second u r (omega arith) (omega arith)
        ∙ step_lem 0x077f 0x78 last u1 w1.2 (omega arith) (omega arith) in
      let specials : (j : ℕ) → (j < 0x0770) ⊎ (0x0780 ≤ j) → ram u2.ec j ≡ ram u.ec j = λ j p.
        ap (λ (f : Ram). f j) w2.1
        ∙ (ground (arith, p) ∙ (ap (λ (f : Ram). f j) w1.1 ∙ ground (arith, p))) in
      subst (Corrected u romid) (sym e) (
        rest.0,
        rest.1,
        λ j p. elim p [
          | inl q ↦ rest.2 j (inl q) ∙ specials j (inl q)
          | inr q ↦ rest.2 j (inr (omega (arith, q, h))) ∙ specials j (inr q)
        ],
        rest.3,
      )

  corrected :
      (romid : List ℕ) (u : Uniwill S)
      → IsReady i ready ram law u
      → length romid ≡ 14
      → AreBytes romid
      → Corrected u romid (set_rom_id un un_status start (some romid) u)
  unfolding set_rom_id
  corrected romid u r h b =
      let x = compare_from un un_status start 0x0770 romid u in
      let c = compare_lem 0x0770 romid u r (omega arith) in
      let fixed = correct_lem romid x.1 c.2 h b in
      subst
        (λ st. Corrected u romid (
          (if nonzero st
              then pure st
              else if x.0.1
              then correct un un_status start romid
              else pure success)
            x.1))
        (sym c.0)
        (elim (Bool-cases x.0.1) [
          | inl t ↦
              subst
                (λ differs.
                  Corrected u romid
                    ((if differs then correct un un_status start romid else pure success) x.1))
                (sym t) (fixed.0, fixed.1, λ j p. fixed.2 j p ∙ ap (λ (f : Ram). f j) c.1, fixed.3)
          | inr t ↦
              subst
                (λ differs.
                  Corrected u romid
                    ((if differs then correct un un_status start romid else pure success) x.1))
                (sym t)
                (
                  refl,
                  subst (λ f. Holds f 0x0770 romid) (sym c.1) (c.3 t),
                  λ j p. ap (λ (f : Ram). f j) c.1,
                  c.2,
                )
        ])

  -- A call that finds the ROM id right changes nothing.
  found_lem :
      (romid : List ℕ) (u : Uniwill S)
      → IsReady i ready ram law u
      → length romid ≡ 14
      → Holds (ram u.ec) 0x0770 romid
      → let y = set_rom_id un un_status start (some romid) u in
        (y.0 ≡ success) × (ram y.1.ec ≡ ram u.ec)
  unfolding set_rom_id
  found_lem romid u r h held =
      let x = compare_from un un_status start 0x0770 romid u in
      let c = compare_lem 0x0770 romid u r (omega arith) in
      subst
        (λ (t : ℤ × Bool).
          let y =
            (if nonzero t.0
                then pure t.0
                else if t.1
                then correct un un_status start romid
                else pure success)
              x.1 in
          (y.0 ≡ success) × (ram y.1.ec ≡ ram u.ec))
        (sym (λ j. (c.0 j, c.4 held j))) (refl, c.1)

  -- Over an EC RAM, after a call for a ROM id of 14 bytes the EC has it, no byte but those at 0x0770 to
  -- 0x077f has changed, and the call reports 0; a second call finds it right and changes nothing.
  pub rom_id_repaired :
      (romid : List ℕ) (u : Uniwill S)
      → IsReady i ready ram law u
      → length romid ≡ 14
      → AreBytes romid
      → let x = set_rom_id un un_status start (some romid) u in
        let y = set_rom_id un un_status start (some romid) x.1 in
        Corrected u romid x × (y.0 ≡ success) × (ram y.1.ec ≡ ram x.1.ec)
  rom_id_repaired romid u r h b =
      let x = corrected romid u r h b in
      let y = found_lem romid (set_rom_id un un_status start (some romid) u).1 x.3 h x.1 in
      (x, y.0, y.1)
