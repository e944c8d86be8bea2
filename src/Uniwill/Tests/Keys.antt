-- ===== src/Uniwill/Tests/Keys.antt =====
-- The filter of the touchpad toggle on concrete bytes.
use tuxedo_drivers.Common.{ℕ, ◌≡◌, refl, arith, [], ◌∷◌, true, false}
use tuxedo_drivers.Uniwill.Touchpad.{uniwill_touchp_toggle_seq, Toggle, uniwill_i8042_filter}
use tuxedo_drivers.Uniwill.Touchpad.Sequence.{
  Seen, key, start, Follows, filter_all, Seen-Follows, sequence_reports,
}

abbrev fresh : Toggle
fresh = record { seq_pos = 0; scheduled = 4 }

abbrev after : ℕ → Toggle → Toggle
after byte t = (uniwill_i8042_filter byte false t).1

-- The toggle after the first seven bytes, and the steps to it.
abbrev almost : Toggle
almost =
    after 0xe0 (after 0x9d (after 0xf6 (after 0x76 (after 0x1d (after 0x5b (after 0xe0 fresh))))))

abbrev seen : Seen (0xe0 ∷ 0x9d ∷ 0xf6 ∷ 0x76 ∷ 0x1d ∷ 0x5b ∷ 0xe0 ∷ []) almost
seen = key _ _ _ (key _ _ _ (key _ _ _ (key _ _ _ (key _ _ _ (key _ _ _ (key _ _ _ (start 4)))))))

Seen-Follows_example : Follows (0xe0 ∷ 0x9d ∷ 0xf6 ∷ 0x76 ∷ 0x1d ∷ 0x5b ∷ 0xe0 ∷ []) almost
Seen-Follows_example = Seen-Follows seen

sequence_reports_example : filter_all (0x30 ∷ uniwill_touchp_toggle_seq) fresh ≡ (
  false ∷ false ∷ false ∷ false ∷ true ∷ true ∷ false ∷ false ∷ false ∷ [],
  record { seq_pos = 0; scheduled = 5 },
)
sequence_reports_example = sequence_reports 0x30 fresh (λ e. absurd (omega arith))

-- A byte that interrupts the sequence is not tried as the first of a new one, so this is missed.
interrupted_test : (filter_all (0xe0 ∷ uniwill_touchp_toggle_seq) fresh).1.scheduled ≡ 4
unfolding filter_all uniwill_i8042_filter
interrupted_test = refl
