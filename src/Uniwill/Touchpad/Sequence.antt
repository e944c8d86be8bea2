-- ===== src/Uniwill/Touchpad/Sequence.antt =====
-- What the filter of the touchpad toggle recognises, by the keyboard bytes that it has seen.
use tuxedo_drivers.Common.{
  M, ℕ, zero, suc, ◌<◌, ◌≡◌, refl, ap, ◌∙◌, arith, Bool, true, false, ◌==◌, ◌||◌, List, [], ◌∷◌,
  ◌++◌, ==_iff, Bool-cases, inl, inr, check_below, checked_table, subst, ◌≢◌,
}
use tuxedo_drivers.Uniwill.Touchpad.{
  uniwill_touchp_toggle_seq, byte_at, Toggle, uniwill_i8042_filter,
}

-- The first bytes of the sequence, the latest one first.
abbrev pub latest : ℕ → List ℕ
latest zero = []
latest (suc n) = byte_at uniwill_touchp_toggle_seq n ∷ latest n

-- The steps of the filter from its start, with the bytes of the keyboard, the latest one first. A
-- byte of the auxiliary port is not one of them.
pub data Seen : List ℕ → Toggle → Type 0 where
  start : (n : ℕ) → Seen [] (record { seq_pos = 0; scheduled = n })
  key :
      (byte : ℕ) (bytes : List ℕ) (t : Toggle)
      → Seen bytes t
      → Seen (byte ∷ bytes) (uniwill_i8042_filter byte false t).1
  aux :
      (byte : ℕ) (bytes : List ℕ) (t : Toggle)
      → Seen bytes t
      → Seen bytes (uniwill_i8042_filter byte true t).1

-- The position is within the array, and the bytes up to it are the latest that were seen.
pub Follows : List ℕ → Toggle → Type 0
Follows bytes t = (t.seq_pos < 8) × ((older : List ℕ) × (bytes ≡ latest t.seq_pos ++ older))

-- The two bytes that are kept back are not the last ones of the sequence.
kept_table :
    check_below 8 (λ n.
      elim (byte_at uniwill_touchp_toggle_seq n == 0x76
        || byte_at uniwill_touchp_toggle_seq n == 0xf6) [
          | true ↦ elim (n == 7) [ true ↦ false | false ↦ true ]
          | false ↦ true
        ])
    ≡ true
unfolding check_below
kept_table = refl

abbrev kept : ℕ → Bool
kept byte = byte == 0x76 || byte == 0xf6

kept_early :
    (n byte : ℕ)
    → n < 8
    → kept byte ≡ true
    → (byte == byte_at uniwill_touchp_toggle_seq n) ≡ true
    → suc n < 8
kept_early n byte small k m = ground (
  arith,
  (==_iff byte (byte_at uniwill_touchp_toggle_seq n)).0 m,
  checked_table 8 _ n kept_table small,
)

-- One more byte of the sequence.
longer :
    (byte : ℕ) (bytes older : List ℕ) (n : ℕ)
    → bytes ≡ latest n ++ older
    → (byte == byte_at uniwill_touchp_toggle_seq n) ≡ true
    → byte ∷ bytes ≡ latest (suc n) ++ older
longer byte bytes older n e m =
    ap (λ b. b ∷ bytes) ((==_iff byte (byte_at uniwill_touchp_toggle_seq n)).0 m)
    ∙ ap (λ l. byte_at uniwill_touchp_toggle_seq n ∷ l) e

step-Follows :
    (byte : ℕ) (bytes : List ℕ) (t : Toggle)
    → Follows bytes t
    → Follows (byte ∷ bytes) (uniwill_i8042_filter byte false t).1
unfolding Follows uniwill_i8042_filter
step-Follows byte bytes t (small, (older, e)) =
    elim (Bool-cases (byte == byte_at uniwill_touchp_toggle_seq t.seq_pos)) [
      | inr n ↦ rw n ((omega arith, (byte ∷ bytes, refl)))
      | inl m ↦ elim (Bool-cases (kept byte)) [
        | inl k ↦
            rw (m, k)
              (kept_early t.seq_pos byte small k m, (older, longer byte bytes older t.seq_pos e m))
        | inr k ↦ elim (Bool-cases (suc t.seq_pos == 8)) [
          | inl last ↦ rw (m, k, last) (omega arith, (byte ∷ bytes, refl))
          | inr more ↦
              rw (m, k, more) (ground arith, (older, longer byte bytes older t.seq_pos e m))
        ]
      ]
    ]

-- Whatever bytes came, the position is within the array of the sequence, and the bytes before the
-- position are the latest that were seen of the keyboard.
pub Seen-Follows : {bytes : List ℕ} {t : Toggle} → Seen bytes t → Follows bytes t
unfolding Follows uniwill_i8042_filter
Seen-Follows (start n) = (omega arith, ([], refl))
Seen-Follows (key byte bytes t r) = step-Follows byte bytes t (Seen-Follows r)
Seen-Follows (aux byte bytes t r) = Seen-Follows r

-- A byte of the keyboard has the toggle reported only if it and the seven latest bytes before it are
-- the whole sequence.
pub reports_only_sequence :
    {bytes : List ℕ} {t : Toggle} (byte : ℕ)
    → Seen bytes t
    → (uniwill_i8042_filter byte false t).1.scheduled ≢ t.scheduled
    → (older : List ℕ) × (byte ∷ bytes ≡ latest 8 ++ older)
unfolding uniwill_i8042_filter Follows
reports_only_sequence {bytes = bytes} {t = t} byte seen changed =
    let f = Seen-Follows seen in
    elim (Bool-cases (byte == byte_at uniwill_touchp_toggle_seq t.seq_pos)) [
      | inr n ↦ absurd (changed (ground (arith, n)))
      | inl m ↦ elim (Bool-cases (suc t.seq_pos == 8)) [
        | inr more ↦ absurd (changed (ground (arith, m, more)))
        | inl last ↦ (
          f.1.0,
          subst (λ n. byte ∷ bytes ≡ latest n ++ f.1.0) ((==_iff (suc t.seq_pos) 8).0 last)
              (longer byte bytes f.1.0 t.seq_pos f.1.1 m),
        )
      ]
    ]

-- The filter on bytes of the keyboard, the first one first: what is kept back, and the end.
unfoldable pub filter_all : List ℕ → M Toggle (List Bool)
filter_all [] t = ([], t)
filter_all (byte ∷ bytes) t =
    let r = uniwill_i8042_filter byte false t in
    let rest = filter_all bytes r.1 in (r.0 ∷ rest.0, rest.1)

reset :
    (byte : ℕ) (t : Toggle)
    → byte ≢ byte_at uniwill_touchp_toggle_seq t.seq_pos
    → uniwill_i8042_filter byte false t ≡ (false, record t { seq_pos = 0 })
unfolding uniwill_i8042_filter
reset byte t other = ground (arith, other)

-- After any byte that does not go on with what was seen, the whole sequence has the toggle reported
-- once, whatever was seen before it. Of these nine bytes only its two Zenkaku/Hankaku bytes are
-- kept back, and the filter ends at position 0.
pub sequence_reports :
    (byte : ℕ) (t : Toggle)
    → byte ≢ byte_at uniwill_touchp_toggle_seq t.seq_pos
    → filter_all (byte ∷ uniwill_touchp_toggle_seq) t ≡ (
      false ∷ false ∷ false ∷ false ∷ true ∷ true ∷ false ∷ false ∷ false ∷ [],
      record { seq_pos = 0; scheduled = suc t.scheduled },
    )
unfolding filter_all uniwill_i8042_filter
sequence_reports byte t other =
    ap (λ r. let rest = filter_all uniwill_touchp_toggle_seq r.1 in (r.0 ∷ rest.0, rest.1))
      (reset byte t other)
