-- ===== src/Uniwill/Tdp/Limits.antt =====
-- src/tuxedo_io/tuxedo_io.c: the limits that `uw_id_tdp` sets.
use tuxedo_drivers.Common.{
  ℕ, ◌≡◌, arith, Bool, true, ◌==◌, ltb, leb, ◌&&◌, ◌||◌, if◌then◌else◌, none, some, suc, zero,
  Bool-cases, ◌≤◌, enodev, List, inl, ◌⊎◌, inr, pos, ◌<◌,
}
use tuxedo_drivers.Uniwill.Dmi.{Dmi}
use tuxedo_drivers.Uniwill.Tdp.{Limits, entry, uw_get_tdp_min, uw_get_tdp_max}
use tuxedo_drivers.Uniwill.Tdp.Tables.{uw_id_tdp}

-- The highest value that the byte of a power limit can stand for: the third one can be doubled.
unfoldable pub highest : ℕ → ℕ
highest index = if index == 2 then 510 else 255

-- A pair of limits of one index: both missing, or in order and within the byte.
fits : ℕ → ℕ → ℕ → Bool
fits index low high =
    (low == 0 && high == 0) || (ltb 0 low && ltb low high && leb high (highest index))

fit : Limits → Bool
fit none = true
fit (some t) =
    fits 0 (entry t.0 0) (entry t.1 0)
    && fits 1 (entry t.0 1) (entry t.1 1)
    && fits 2 (entry t.0 2) (entry t.1 2)

-- Both limits of an index are missing, or both are there, in order and within the byte.
pub Bounded : Limits → ℕ → Type 0
Bounded l index =
    ((uw_get_tdp_min l index ≡ enodev) × (uw_get_tdp_max l index ≡ enodev))
    ⊎ ((low : ℕ) × (high : ℕ) × (uw_get_tdp_min l index ≡ pos low)
        × (uw_get_tdp_max l index ≡ pos high)
        × (0 < low)
        × (low < high)
        × (high ≤ highest index))

all_fit : (model : ℕ) (dmi : Dmi) → fit (uw_id_tdp model dmi) ≡ true
unfolding uw_id_tdp fit fits highest
all_fit model dmi = ground arith

-- Entries that fit give limits that are bounded.
fits-Bounded :
    (t : List ℕ × List ℕ) (index : ℕ)
    → index ≤ 2
    → fits index (entry t.0 index) (entry t.1 index) ≡ true
    → Bounded (some t) index
unfolding Bounded fits uw_get_tdp_min uw_get_tdp_max
fits-Bounded t index h f = elim (Bool-cases (entry t.0 index == 0)) [
  | inl e ↦ inl (ground arith, ground arith)
  | inr e ↦ inr (
    entry t.0 index,
    entry t.1 index,
    ground arith,
    ground arith,
    ground arith,
    ground arith,
    ground arith,
  )
]

all-Bounded : (l : Limits) (index : ℕ) → index ≤ 2 → fit l ≡ true → Bounded l index
unfolding fit Bounded uw_get_tdp_min uw_get_tdp_max
all-Bounded none index h f = inl (ground arith, ground arith)
all-Bounded (some t) zero h f = fits-Bounded t 0 h (ground arith)
all-Bounded (some t) (suc zero) h f = fits-Bounded t 1 h (ground arith)
all-Bounded (some t) (suc (suc zero)) h f = fits-Bounded t 2 h (ground arith)
all-Bounded (some t) (suc (suc (suc n))) h f = absurd (omega arith)

-- Of every device each of the three power limits either is missing in both tables, so that both
-- limits are -ENODEV, or has limits 0 < low < high, of which high fits into the byte that is
-- written: up to 255, and 510 for the third, which can be written halved.
pub tdp_limits_fit :
    (model : ℕ) (dmi : Dmi) (index : ℕ) → index ≤ 2 → Bounded (uw_id_tdp model dmi) index
tdp_limits_fit model dmi index h = all-Bounded (uw_id_tdp model dmi) index h (all_fit model dmi)
