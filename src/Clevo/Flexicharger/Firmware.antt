-- ===== src/Clevo/Flexicharger/Firmware.antt =====
-- What is relied on of the two kinds of firmware, and what the driver's read and write do over them.
use tuxedo_drivers.Common.{
  ℕ, ◌+◌, ◌*◌, ◌%◌, ◌^◌, ◌<◌, ◌≡◌, ap, ◌∙◌, ℤ, success, Option, some, List, ◌∷◌,
}
use tuxedo_drivers.Clevo.{
  Object, integer, buffer, ClevoInterface, Clevo, call_by, call_pkgbuf_by, integer_of,
  clevo_evaluate_method, clevo_evaluate_method2, clevo_evaluate_method_pkgbuf,
}
use tuxedo_drivers.Clevo.Flexicharger.{
  Thresholds, chosen, buffer_set, clevo_flexicharger_read, clevo_flexicharger_write,
}
use tuxedo_drivers.Clevo.Flexicharger.Words.{IsSmall, word_of}

-- The older kind: 0x77 returns the thresholds in a word, 0x76 with the subcommands 6 and 5 sets the
-- thresholds and the status, and the read of the other kind returns an integer.
pub record IsLegacy {S : Type 0} (i : ClevoInterface S) (view : S → Thresholds) : Type 0 where
  pub reads : (s : S) → (i.method_call 0x77 0 s).0 ≡ (success, integer (word_of (view s)))
  pub reads_view : (s : S) → view (i.method_call 0x77 0 s).1 ≡ view s
  pub sets :
      (a b : ℕ) (s : S)
      → a < 256
      → b < 256
      → (i.method_call 0x76 (0x06000000 + b * 256 + a) s).0 ≡ (success, integer 0x76)
  pub sets_view :
      (a b : ℕ) (s : S)
      → a < 256
      → b < 256
      → view (i.method_call 0x76 (0x06000000 + b * 256 + a) s).1
        ≡ record (view s) { start_ = a; end_ = b }
  pub switches :
      (v : ℕ) (s : S) → v < 2 → (i.method_call 0x76 (0x05000000 + v) s).0 ≡ (success, integer 0x76)
  pub switches_view :
      (v : ℕ) (s : S)
      → v < 2
      → view (i.method_call 0x76 (0x05000000 + v) s).1 ≡ record (view s) { status = v }
  pub no_cc4 : (s : S) → (n : ℕ) × ((i.method_call 0x04 0x1e s).0 ≡ (success, integer n))
  pub no_cc4_view : (s : S) → view (i.method_call 0x04 0x1e s).1 ≡ view s

-- The newer kind: one buffer each for the read and for the write.
pub record IsCc4 {S : Type 0} (i : ClevoInterface S) (view : S → Thresholds) : Type 0 where
  pub more : S → List ℕ
  pub reads :
      (s : S)
      → (i.method_call 0x04 0x1e s).0
        ≡ (success, buffer ((view s).status ∷ (view s).start_ ∷ (view s).end_ ∷ more s))
  pub reads_view : (s : S) → view (i.method_call 0x04 0x1e s).1 ≡ view s
  pub sets :
      (t : Thresholds) (s : S)
      → IsSmall t
      → (i.method_call_pkgbuf 0x04 (buffer_set t) s).0 ≡ success
  pub sets_view :
      (t : Thresholds) (s : S) → IsSmall t → view (i.method_call_pkgbuf 0x04 (buffer_set t) s).1 ≡ t

-- The interface is the active one, and the thresholds fit into their bytes and are not both 0.
pub record IsCharging {S : Type 0} (i : ClevoInterface S) (view : S → Thresholds) (c : Clevo S)
    : Type 0 where
  pub is_active : c.active ≡ some i
  pub fits : IsSmall (view c.firmware)
  pub is_set : 0 < (view c.firmware).start_ + (view c.firmware).end_

-- What the driver's users rely on: a read returns the thresholds, and a write changes those that are
-- given and no other.
pub record IsFlexicharger {S : Type 0} (i : ClevoInterface S) (view : S → Thresholds) : Type 0 where
  pub flexicharger_read :
      (un : ℕ) (c : Clevo S)
      → IsCharging i view c
      → let r = clevo_flexicharger_read un c in
        (r.0 ≡ (success, some (view c.firmware)))
        × (view r.1.firmware ≡ view c.firmware)
        × (r.1.active ≡ c.active)
  pub flexicharger_write :
      (un : ℕ) (a b v : Option ℕ) (c : Clevo S)
      → IsCharging i view c
      → IsSmall (chosen a b v (view c.firmware))
      → let r = clevo_flexicharger_write un a b v c in
        (r.0 ≡ success)
        × (view r.1.firmware ≡ chosen a b v (view c.firmware))
        × (r.1.active ≡ c.active)

module _ {S : Type 0} (i : ClevoInterface S) where
  abbrev pub after : ℕ → ℕ → Clevo S → Clevo S
  after cmd arg c = record c { firmware = (i.method_call cmd arg c.firmware).1 }

  abbrev pub after_pkgbuf : ℕ → List ℕ → Clevo S → Clevo S
  after_pkgbuf cmd arg c = record c { firmware = (i.method_call_pkgbuf cmd arg c.firmware).1 }

  pub method2_lem :
      (cmd arg : ℕ) (c : Clevo S) (o : ℤ × Object)
      → c.active ≡ some i
      → (i.method_call cmd arg c.firmware).0 ≡ o
      → clevo_evaluate_method2 cmd arg c ≡ (o, after cmd arg c)
  unfolding clevo_evaluate_method2
  method2_lem cmd arg c o h e = ap (λ a. call_by a cmd arg c) h ∙ ap (λ x. (x, after cmd arg c)) e

  pub pkgbuf_lem :
      (cmd : ℕ) (arg : List ℕ) (c : Clevo S) (o : ℤ)
      → c.active ≡ some i
      → (i.method_call_pkgbuf cmd arg c.firmware).0 ≡ o
      → clevo_evaluate_method_pkgbuf cmd arg c ≡ (o, after_pkgbuf cmd arg c)
  unfolding clevo_evaluate_method_pkgbuf
  pkgbuf_lem cmd arg c o h e =
      ap (λ a. call_pkgbuf_by a cmd arg c) h ∙ ap (λ x. (x, after_pkgbuf cmd arg c)) e

  pub integer_lem :
      (cmd arg : ℕ) (c : Clevo S) (n : ℕ)
      → c.active ≡ some i
      → (i.method_call cmd arg c.firmware).0 ≡ (success, integer n)
      → clevo_evaluate_method cmd arg c ≡ ((success, some (n % 2 ^ 32)), after cmd arg c)
  unfolding clevo_evaluate_method
  integer_lem cmd arg c n h e =
      ap (λ (r : (ℤ × Object) × Clevo S). (integer_of r.0, r.1))
        (method2_lem cmd arg c (success, integer n) h e)
