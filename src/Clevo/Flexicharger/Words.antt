-- ===== src/Clevo/Flexicharger/Words.antt =====
-- The words that are exchanged with the firmware of the older kind, as arithmetic.
use tuxedo_drivers.Common.{
  ℕ, zero, suc, ◌+◌, ◌*◌, ◌/◌, ◌%◌, ◌<◌, ◌≡◌, refl, ◌∙◌, subst, arith, true, ◌==◌, ==_iff,
  check_below, checked_table, bit_and, bit_or, ◌<<<◌, bit_and-low_byte, bit_and-one,
}
use tuxedo_drivers.Clevo.Flexicharger.{Thresholds, thresholds_of}

-- The thresholds in one word: the end, the start and the status from the highest byte on.
abbrev pub word_of : Thresholds → ℕ
word_of t = t.end_ * 65536 + t.start_ * 256 + t.status

-- Each part has its byte, and the status its bit.
pub record IsSmall (t : Thresholds) : Type 0 where
  pub start_small : t.start_ < 256
  pub end_small : t.end_ < 256
  pub status_small : t.status < 2

pub thresholds-word_of : (t : Thresholds) → IsSmall t → thresholds_of (word_of t) ≡ t
thresholds-word_of t s =
    let w = word_of t in
    let a = t.start_ in
    let b = t.end_ in
    let c = t.status in
    let p = s.start_small in
    let q = s.end_small in
    let r = s.status_small in
    let e0 : bit_and (w / 256) 255 ≡ a = bit_and-low_byte (w / 256) (omega arith) ∙ omega arith in
    let e1 : bit_and (w / 65536) 255 ≡ b =
      bit_and-low_byte (w / 65536) (omega arith) ∙ omega arith in
    let e2 : bit_and w 1 ≡ c = bit_and-one w ∙ omega arith in
    λ i. record { start_ = e0 i; end_ = e1 i; status = e2 i }

set_table :
    check_below 65536 (λ x. bit_or (bit_or 0x06000000 (x % 256)) (x / 256 * 256) == 0x06000000 + x)
    ≡ true
unfolding check_below
set_table = refl

-- The word that sets the thresholds.
pub set_word :
    (a b : ℕ)
    → a < 256
    → b < 256
    → bit_or (bit_or (0x06 <<< 0x18) a) (b <<< 0x08) ≡ 0x06000000 + b * 256 + a
set_word a b p q =
    let x = b * 256 + a in
    let low : x % 256 ≡ a = omega arith in
    let high : x / 256 ≡ b = omega arith in
    subst (λ n. bit_or (bit_or 0x06000000 a) (n * 256) ≡ 0x06000000 + b * 256 + a) high
      (subst (λ n. bit_or (bit_or 0x06000000 n) (x / 256 * 256) ≡ 0x06000000 + b * 256 + a) low
        ((==_iff _ _).0 (checked_table 65536 _ x set_table (omega arith)) ∙ omega arith))

-- The word that sets the status.
pub status_word : (c : ℕ) → c < 2 → bit_or (0x05 <<< 0x18) (bit_and c 1) ≡ 0x05000000 + c
status_word zero h = refl
status_word (suc zero) h = refl
status_word (suc (suc c)) h = absurd (omega arith)
