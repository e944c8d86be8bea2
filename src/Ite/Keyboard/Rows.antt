-- ===== src/Ite/Keyboard/Rows.antt =====
-- The rows that the keyboard shows after a key is set.
use tuxedo_drivers.Common.{
  ℕ, zero, suc, ◌+◌, ◌/◌, ◌%◌, ◌≤◌, ◌<◌, ◌≡◌, ◌≢◌, ◌⊎◌, update, refl, ap, ◌∙◌, sym, subst, arith,
  false, if◌then◌else◌, ◌==◌, ==_iff, ltb, leb, u8, Bool-cases, inl, inr, ℤ, pos, success, some,
  List, [], ◌∷◌, M, pure, ◌>>◌,
}
use tuxedo_drivers.Uniwill.Dmi.{Dmi}
use tuxedo_drivers.Ite.{Hid, Color, Device, is_negative}
use tuxedo_drivers.Ite.Scaling.{color_scaling}
use tuxedo_drivers.Ite.Keyboard.{
  RowData, set_byte, Driver, row_data_set, row_bytes, ite8291_write_control, write_rows_from,
  ite8291_write_rows, ite8291_perkey_write_state, leds_set_brightness_mc,
}

-- What the keyboard shows, and the row that was announced.
pub record Shown : Type 0 where
  pub level : ℕ
  pub announced : ℕ
  pub rows : ℕ → List ℕ

abbrev pub set_row : ℕ → List ℕ → (ℕ → List ℕ) → ℕ → List ℕ
set_row row bytes rows r = if r == row then bytes else rows r

-- What is relied on of the keyboard: the requests 08 02 33 and 16 as the driver's file describes
-- them, and a report of the bytes of the row that was announced.
pub record IsPerkey {S : Type 0} (h : Hid S) (view : S → Shown) : Type 0 where
  pub takes_params :
      (b : ℕ) (s : S)
      → b ≤ 0x32
      → view (h.raw_request (0x08 ∷ 0x02 ∷ 0x33 ∷ 0x00 ∷ b ∷ 0x00 ∷ 0x00 ∷ 0x00 ∷ []) s).1
        ≡ record (view s) { level = b }
  pub takes_row :
      (row : ℕ) (s : S)
      → row < 6
      → view (h.raw_request (0x16 ∷ 0x00 ∷ row ∷ 0x00 ∷ 0x00 ∷ 0x00 ∷ 0x00 ∷ 0x00 ∷ []) s).1
        ≡ record (view s) { announced = row }
  pub takes_bytes :
      (bytes : List ℕ) (s : S)
      → view (h.output_report bytes s).1
        ≡ record (view s) { rows = set_row ((view s).announced) bytes ((view s).rows) }
  pub reports : (bytes : List ℕ) (s : S) → (n : ℕ) × ((h.output_report bytes s).0 ≡ pos n)

module _ {S : Type 0} (h : Hid S) (view : S → Shown) (law : IsPerkey h view) where
  -- The rows below a number are those of the data.
  Written : RowData → ℕ → S → Type 0
  Written d row s = (j : ℕ) → j < row → (view s).rows j ≡ row_bytes d j

  -- One round of the loop.
  round : RowData → ℕ → M S ℤ
  round d row = do
    ite8291_write_control h (0x16 ∷ 0x00 ∷ row ∷ 0x00 ∷ 0x00 ∷ 0x00 ∷ 0x00 ∷ 0x00 ∷ [])
    h.output_report (row_bytes d row)

  round_view :
      (d : RowData) (row : ℕ) (s : S)
      → row < 6
      → view (round d row s).1
        ≡ record (view s) { announced = row; rows = set_row row (row_bytes d row) ((view s).rows) }
  unfolding round ite8291_write_control
  round_view d row s small =
      law.takes_bytes (row_bytes d row) _
      ∙ ap (λ (v : Shown). record v { rows = set_row (v.announced) (row_bytes d row) (v.rows) })
          (law.takes_row row s small)

  round-Written :
      (d : RowData) (row : ℕ) (s : S)
      → row < 6
      → Written d row s
      → Written d (row + 1) (round d row s).1
  unfolding Written
  round-Written d row s small below j bound =
      ap (λ (v : Shown). v.rows j) (round_view d row s small) ∙ elim (Bool-cases (j == row)) [
        | inl e ↦
            ap (λ t. if t then row_bytes d row else (view s).rows j) e
            ∙ ap (row_bytes d) (sym ((==_iff j row).0 e))
        | inr e ↦
            ap (λ t. if t then row_bytes d row else (view s).rows j) e ∙ below j (ground (arith, e))
      ]

  -- The loop ends with every row written, and keeps the brightness.
  rows_lem :
      (d : RowData) (rounds row n : ℕ) (s : S)
      → row + rounds ≡ 6
      → Written d row s
      → let x = write_rows_from h d rounds row (pos n) s in
        (x.0 ≡ success) × Written d 6 x.1 × ((view x.1).level ≡ (view s).level)
  unfolding write_rows_from round
  rows_lem d zero row n s e below = (refl, subst (λ r. Written d r s) (omega arith) below, refl)
  rows_lem d (suc rounds) row n s e below =
      let s2 = (round d row s).1 in
      let small : row < 6 = omega arith in
      let answer =
        law.reports (row_bytes d row)
          (ite8291_write_control h (0x16 ∷ 0x00 ∷ row ∷ 0x00 ∷ 0x00 ∷ 0x00 ∷ 0x00 ∷ 0x00 ∷ [])
            s).1 in
      let next : write_rows_from h d (suc rounds) row (pos n) s
          ≡ write_rows_from h d rounds (row + 1) (pos answer.0) s2 =
        ap (λ r. (if is_negative r then pure r else write_rows_from h d rounds (row + 1) r) s2)
          answer.1 in
      let rest =
        rows_lem d rounds (row + 1) answer.0 s2 (omega arith) (round-Written d row s small below) in
      subst (λ (x : ℤ × S). (x.0 ≡ success) × Written d 6 x.1 × ((view x.1).level ≡ (view s).level))
        (sym next) (rest.0, rest.1, rest.2 ∙ ap (λ (v : Shown). v.level) (round_view d row s small))

  start_lem : (d : RowData) (s : S) → Written d 0 s
  unfolding Written
  start_lem d s j small = absurd (omega arith)

  write_rows_lem :
      (d : RowData) (b : ℕ) (s : S)
      → let x = ite8291_write_rows h d b s in
        (x.0 ≡ success) × Written d 6 x.1 × ((view x.1).level ≡ (if ltb 0x32 b then 0x32 else b))
  unfolding ite8291_write_rows ite8291_write_control
  write_rows_lem d b s =
      let level = if ltb 0x32 b then 0x32 else b in
      let s1 = (h.raw_request (0x08 ∷ 0x02 ∷ 0x33 ∷ 0x00 ∷ level ∷ 0x00 ∷ 0x00 ∷ 0x00 ∷ []) s).1 in
      let rest = rows_lem d 6 0 0 s1 refl (start_lem d s1) in
      (
        rest.0,
        rest.1,
        rest.2 ∙ ap (λ (v : Shown). v.level) (law.takes_params level s (ground arith)),
      )

-- The colour of a key by its channel.
abbrev pub key_color : RowData → ℕ → Color
key_color d channel = record {
  red = d (channel / 21) (44 + channel % 21);
  green = d (channel / 21) (23 + channel % 21);
  blue = d (channel / 21) (2 + channel % 21);
}

at_same : (row i byte : ℕ) (d : RowData) → set_byte row i byte d row i ≡ byte
at_same row i byte d = ground arith

at_other :
    (row i byte r j : ℕ) (d : RowData) → (r ≢ row) ⊎ (j ≢ i) → set_byte row i byte d r j ≡ d r j
at_other row i byte r j d (inl n) = ground (arith, n)
at_other row i byte r j d (inr n) = elim (Bool-cases (r == row)) [
  | inl e ↦
      ap (λ t. (if t then update (d row) i byte else d r) j) e
      ∙ (ground (arith, n) ∙ ap (λ q. d q j) (sym ((==_iff r row).0 e)))
  | inr e ↦ ap (λ t. (if t then update (d row) i byte else d r) j) e
]

-- The three bytes of a colour.
abbrev set_color : ℕ → ℕ → Color → RowData → RowData
set_color row col c d =
    set_byte row (2 + col) c.blue
      (set_byte row (23 + col) c.green (set_byte row (44 + col) c.red d))

same_color :
    (row col : ℕ) (c : Color) (d : RowData)
    → (set_color row col c d row (44 + col) ≡ c.red)
      × (set_color row col c d row (23 + col) ≡ c.green)
      × (set_color row col c d row (2 + col) ≡ c.blue)
same_color row col c d =
    let with_red = set_byte row (44 + col) c.red d in
    let with_green = set_byte row (23 + col) c.green with_red in
    (
      at_other row (2 + col) c.blue row (44 + col) with_green (inr (omega arith))
          ∙ (at_other row (23 + col) c.green row (44 + col) with_red (inr (omega arith))
              ∙ at_same row (44 + col) c.red d),
      at_other row (2 + col) c.blue row (23 + col) with_green (inr (omega arith))
          ∙ at_same row (23 + col) c.green with_red,
      at_same row (2 + col) c.blue with_green,
    )

other_byte :
    (row col : ℕ) (c : Color) (d : RowData) (r j : ℕ)
    → (r ≢ row) ⊎ ((j ≢ 2 + col) × (j ≢ 23 + col) × (j ≢ 44 + col))
    → set_color row col c d r j ≡ d r j
other_byte row col c d r j away =
    let with_red = set_byte row (44 + col) c.red d in
    let with_green = set_byte row (23 + col) c.green with_red in
    at_other row (2 + col) c.blue r j with_green (ground (arith, away))
    ∙ (at_other row (23 + col) c.green r j with_red (ground (arith, away))
        ∙ at_other row (44 + col) c.red r j d (ground (arith, away)))

module _ (dmi : Dmi) (dev : Device) (d : RowData) (channel : ℕ) (color : Color)
    (small : channel < 126) where
  set_lem : row_data_set dmi dev d (channel / 21) (channel % 21) color ≡ (
    success,
    set_color (channel / 21) (channel % 21) (color_scaling dmi dev (some (channel / 21)) color) d,
  )
  unfolding row_data_set
  set_lem =
      let row_fits : leb 6 (channel / 21) ≡ false = ground arith in
      let column_fits : leb 21 (channel % 21) ≡ false = ground arith in
      ground (arith, row_fits, column_fits)

  same_key :
      key_color (row_data_set dmi dev d (channel / 21) (channel % 21) color).1 channel
      ≡ color_scaling dmi dev (some (channel / 21)) color
  same_key =
      let c = color_scaling dmi dev (some (channel / 21)) color in
      let t = same_color (channel / 21) (channel % 21) c d in
      ap (λ (r : ℤ × RowData). key_color r.1 channel) set_lem ∙ λ i. record {
        red = t.0 i;
        green = t.1 i;
        blue = t.2 i;
      }

  other_key :
      (other : ℕ)
      → other ≢ channel
      → key_color (row_data_set dmi dev d (channel / 21) (channel % 21) color).1 other
        ≡ key_color d other
  other_key other distinct =
      let c = color_scaling dmi dev (some (channel / 21)) color in
      let row = channel / 21 in
      let col = channel % 21 in
      let away : (other / 21 ≢ row) ⊎ (other % 21 ≢ col) = ground arith in
      let red = other_byte row col c d (other / 21) (44 + other % 21) (ground (arith, away)) in
      let green = other_byte row col c d (other / 21) (23 + other % 21) (ground (arith, away)) in
      let blue = other_byte row col c d (other / 21) (2 + other % 21) (ground (arith, away)) in
      ap (λ (r : ℤ × RowData). key_color r.1 other) set_lem ∙ λ i. record {
        red = red i;
        green = green i;
        blue = blue i;
      }

module _ {S : Type 0} (h : Hid S) (view : S → Shown) (law : IsPerkey h view) (dmi : Dmi)
    (dev : Device) where
  -- Over a keyboard with single keys, where the input is not buffered, the colour and a brightness of
  -- one of the 126 keys that are set are those of the driver's data, the colour scaled; the other
  -- keys keep their colours, and the keyboard shows all six rows of the data and the brightness, but
  -- 50 where it is above.
  pub key_set_shown :
      (channel other brightness : ℕ) (color : Color) (k : Driver S)
      → channel < 126
      → other ≢ channel
      → k.device_buffer_input ≡ false
      → let x = (leds_set_brightness_mc h dmi dev channel color brightness k).1 in
        (key_color x.perkey.row_data channel ≡ color_scaling dmi dev (some (channel / 21)) color)
        × (key_color x.perkey.row_data other ≡ key_color k.perkey.row_data other)
        × ((row : ℕ) → row < 6 → (view x.hid).rows row ≡ row_bytes x.perkey.row_data row)
        × ((view x.hid).level ≡ (if ltb 0x32 (u8 brightness) then 0x32 else u8 brightness))
  unfolding leds_set_brightness_mc ite8291_perkey_write_state Written
  key_set_shown channel other brightness color k small distinct direct =
      let set = row_data_set dmi dev k.perkey.row_data (channel / 21) (channel % 21) color in
      let k2 = record k {
        perkey = record {
          row_data = set.1;
          brightness = u8 brightness;
          leds_brightness = brightness;
        };
      } in
      let written = write_rows_lem h view law set.1 (u8 brightness) k.hid in
      subst
        (λ t.
          let x = if t then k2 else (ite8291_perkey_write_state h k2).1 in
          (key_color x.perkey.row_data channel ≡ color_scaling dmi dev (some (channel / 21)) color)
          × (key_color x.perkey.row_data other ≡ key_color k.perkey.row_data other)
          × ((row : ℕ) → row < 6 → (view x.hid).rows row ≡ row_bytes x.perkey.row_data row)
          × ((view x.hid).level ≡ (if ltb 0x32 (u8 brightness) then 0x32 else u8 brightness)))
        (sym direct)
        (
          same_key dmi dev k.perkey.row_data channel color small,
          other_key dmi dev k.perkey.row_data channel color small other distinct,
          written.1,
          written.2,
        )
