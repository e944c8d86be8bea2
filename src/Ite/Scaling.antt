-- ===== src/Ite/Scaling.antt =====
-- src/ite_8291/ite_8291.c: the colour scaling, which stores each product in a byte.
use tuxedo_drivers.Common.{
  ℕ, ◌*◌, ◌/◌, ◌%◌, ◌≤◌, ◌<◌, arith, Bool, false, if◌then◌else◌, ◌==◌, ◌&&◌, ◌||◌, Option, none,
  some,
}
use tuxedo_drivers.Uniwill.Dmi.{Dmi}
use tuxedo_drivers.Uniwill.Dmi.DmiField.{board_name, product_sku}
use tuxedo_drivers.Ite.{Color, Device}

abbrev pub scale : ℕ → ℕ → ℕ
scale factor value = factor * value / 255 % 256

abbrev pub by_factors : ℕ → ℕ → ℕ → Color → Color
by_factors r g b c = record { red = scale r c.red; green = scale g c.green; blue = scale b c.blue }

abbrev pub red_blue : ℕ → ℕ → Color → Color
red_blue r b c = record c { red = scale r c.red; blue = scale b c.blue }

abbrev pub green_blue : ℕ → ℕ → Color → Color
green_blue g b c = record c { green = scale g c.green; blue = scale b c.blue }

abbrev pub only_red : ℕ → Color → Color
only_red r c = record c { red = scale r c.red }

-- Whether the key is known to be in a row.
abbrev pub in_row : Option ℕ → ℕ → Bool
in_row none n = false
in_row (some row) n = row == n

-- The tests on the board's name, which come last.
unfoldable pub board_scaling : Dmi → Color → Color
board_scaling dmi c =
    let board = dmi board_name in
    if board "X5KK45xS_X5SP45xS"
    then only_red 180 c
    else if board "X5AR45xS"
    then c
    else if board "X6KK45xU_X6SP45xU"
    then red_blue 187 153 c
    else if board "XxAF5xxx" || board "XxAF5xxx_mLED"
    then c
    else green_blue 126 120 c

-- The tests on product 0x600b, before these.
unfoldable pub product_600b_scaling : Dmi → Device → Option ℕ → Color → Color
product_600b_scaling dmi d row c =
    let sku = dmi product_sku in
    if (sku "STELLSL15I06" || sku "STELLARIS16I06") && d.product == 0x600b
    then (let all = red_blue 155 140 c in
        if in_row row 0
        then red_blue 279 282 all
        else if in_row row 5
        then red_blue 148 137 all
        else all)
    else if (sku "STELLARIS16I07" || sku "STELLARIS16A07" || dmi board_name "X6AR55xU")
        && d.product == 0x600b
    then red_blue 170 125 c
    else board_scaling dmi c

-- `row` is there if `row_col_set`.
unfoldable pub color_scaling : Dmi → Device → Option ℕ → Color → Color
color_scaling dmi d row c =
    let sku = dmi product_sku in
    let zones = d.product == 0xce00 && d.bcd_device == 0x0002 in
    if sku "STEPOL1XA04" && d.product == 0x600a
    then only_red 126 c
    else if sku "STELLARIS1XI05" && d.product == 0x600a
    then (let all = red_blue 200 220 c in if in_row row 5 then red_blue 230 200 all else all)
    else if sku "STELLARIS1XA05"
    then only_red 128 c
    else if sku "STELLARIS1XI05" && zones
    then by_factors 255 220 200 c
    else if sku "STELLARIS17I06" && zones
    then green_blue 180 180 c
    else if sku "STELLARIS17I06" && d.product == 0x600a
    then red_blue 200 220 c
    else product_600b_scaling dmi d row c

-- No component of the first colour is above that of the second.
pub Dimmer : Color → Color → Type 0
Dimmer c d = (c.red ≤ d.red) × (c.green ≤ d.green) × (c.blue ≤ d.blue)

unfoldable pub IsColor : Color → Type 0
IsColor c = (c.red < 256) × (c.green < 256) × (c.blue < 256)

scale_le : (factor value : ℕ) → factor ≤ 255 → value < 256 → scale factor value ≤ value
scale_le factor value h v =
    let product : factor * value ≤ 255 * value = grind arith in omega (arith, product)

-- The bottom row is scaled up after it was scaled down.
bottom_red : (value : ℕ) → value < 256 → scale 279 (scale 155 value) ≤ value
bottom_red value h = omega arith

bottom_blue : (value : ℕ) → value < 256 → scale 282 (scale 140 value) ≤ value
bottom_blue value h = omega arith

-- A scaling by at most 255 after one that does not brighten.
again_le :
    (factor value top : ℕ) → factor ≤ 255 → value ≤ top → top < 256 → scale factor value ≤ top
again_le factor value top h v t =
    let below = scale_le factor value h (omega arith) in omega (arith, below)

module _ (c : Color) (h : IsColor c) where
  same-Dimmer : Dimmer c c
  unfolding Dimmer
  same-Dimmer = ground arith

  red_blue-Dimmer : (r b : ℕ) → r ≤ 255 → b ≤ 255 → Dimmer (red_blue r b c) c
  unfolding Dimmer IsColor
  red_blue-Dimmer r b p q = (scale_le r c.red p h.0, omega arith, scale_le b c.blue q h.2)

  green_blue-Dimmer : (g b : ℕ) → g ≤ 255 → b ≤ 255 → Dimmer (green_blue g b c) c
  unfolding Dimmer IsColor
  green_blue-Dimmer g b p q = (omega arith, scale_le g c.green p h.1, scale_le b c.blue q h.2)

  only_red-Dimmer : (r : ℕ) → r ≤ 255 → Dimmer (only_red r c) c
  unfolding Dimmer IsColor
  only_red-Dimmer r p = (scale_le r c.red p h.0, omega arith, omega arith)

  by_factors-Dimmer : (r g b : ℕ) → r ≤ 255 → g ≤ 255 → b ≤ 255 → Dimmer (by_factors r g b c) c
  unfolding Dimmer IsColor
  by_factors-Dimmer r g b p q s =
      (scale_le r c.red p h.0, scale_le g c.green q h.1, scale_le b c.blue s h.2)

  bottom-Dimmer : Dimmer (red_blue 279 282 (red_blue 155 140 c)) c
  unfolding Dimmer IsColor
  bottom-Dimmer = (bottom_red c.red h.0, omega arith, bottom_blue c.blue h.2)

  top-Dimmer :
      (r b r2 b2 : ℕ)
      → r ≤ 255
      → b ≤ 255
      → r2 ≤ 255
      → b2 ≤ 255
      → Dimmer (red_blue r2 b2 (red_blue r b c)) c
  unfolding Dimmer IsColor
  top-Dimmer r b r2 b2 p q p2 q2 = (
    again_le r2 (scale r c.red) c.red p2 (scale_le r c.red p h.0) h.0,
    omega arith,
    again_le b2 (scale b c.blue) c.blue q2 (scale_le b c.blue q h.2) h.2,
  )

  board-Dimmer : (dmi : Dmi) → Dimmer (board_scaling dmi c) c
  unfolding board_scaling
  board-Dimmer dmi = ground (
    arith,
    same-Dimmer,
    only_red-Dimmer 180 (omega arith),
    red_blue-Dimmer 187 153 (omega arith) (omega arith),
    green_blue-Dimmer 126 120 (omega arith) (omega arith),
  )

  product_600b-Dimmer :
      (dmi : Dmi) (d : Device) (row : Option ℕ) → Dimmer (product_600b_scaling dmi d row c) c
  unfolding product_600b_scaling
  product_600b-Dimmer dmi d row = ground (
    arith,
    bottom-Dimmer,
    top-Dimmer 155 140 148 137 (omega arith) (omega arith) (omega arith) (omega arith),
    red_blue-Dimmer 155 140 (omega arith) (omega arith),
    red_blue-Dimmer 170 125 (omega arith) (omega arith),
    board-Dimmer dmi,
  )

  -- On every device and for every row the scaling makes no component of a colour brighter, the
  -- scaling up of the bottom row included.
  pub color_scaling-Dimmer :
      (dmi : Dmi) (d : Device) (row : Option ℕ) → Dimmer (color_scaling dmi d row c) c
  unfolding color_scaling
  color_scaling-Dimmer dmi d row = ground (
    arith,
    only_red-Dimmer 126 (omega arith),
    top-Dimmer 200 220 230 200 (omega arith) (omega arith) (omega arith) (omega arith),
    red_blue-Dimmer 200 220 (omega arith) (omega arith),
    only_red-Dimmer 128 (omega arith),
    by_factors-Dimmer 255 220 200 (omega arith) (omega arith) (omega arith),
    green_blue-Dimmer 180 180 (omega arith) (omega arith),
    product_600b-Dimmer dmi d row,
  )
