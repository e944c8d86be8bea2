-- ===== src/Stk8321/Axis.antt =====
-- The acceleration of an axis, and the entries of the mount matrix.
use tuxedo_drivers.Common.{
  ℕ, zero, suc, ◌+◌, ◌*◌, ◌/◌, ◌%◌, ◌-◌, ◌<◌, ◌≡◌, ap, ◌∙◌, arith, if◌then◌else◌, Ram, update,
  bit_or-nibble, bit_or_comm, ℤ, pos, negsuc, success, pure, ◌>>=◌,
}
use tuxedo_drivers.Ite.{is_negative}
use tuxedo_drivers.Stk8321.{
  I2c, Accel, axis_value, extended, val_int, info_raw, stk8321_read_axis, stk8321_read_raw,
  stk8321_read_x, stk8321_read_y, stk8321_read_z,
}

-- What is relied on of the sensor: a read gives the byte of the register, and a write changes it.
pub record IsSensor {S : Type 0} (b : I2c S) (view : S → Ram) : Type 0 where
  pub reads : (reg : ℕ) (s : S) → (b.read_byte reg s).0 ≡ pos (view s reg)
  pub reads_view : (reg : ℕ) (s : S) → view (b.read_byte reg s).1 ≡ view s
  pub writes : (reg byte : ℕ) (s : S) → (b.write_byte reg byte s).0 ≡ success
  pub writes_view :
      (reg byte : ℕ) (s : S) → view (b.write_byte reg byte s).1 ≡ update (view s) reg byte

-- What is relied on of the kernel's function: the bit of the index is the sign of a number of one bit
-- more than the index.
pub record IsSignExtend (sign_extend32 : ℤ → ℕ → ℤ) : Type 0 where
  pub clear_sign : (v : ℕ) → v < 2048 → sign_extend32 (pos v) 11 ≡ pos v
  pub set_sign : (v : ℕ) → v < 2048 → sign_extend32 (pos (4095 - v)) 11 ≡ negsuc v

-- A number of 12 bits in two's complement.
unfoldable pub twelve_bits : ℤ → ℕ
twelve_bits (pos v) = v
twelve_bits (negsuc v) = 4095 - v

-- The numbers from -2048 to 2047.
unfoldable pub IsTwelveBit : ℤ → Type 0
IsTwelveBit (pos v) = v < 2048
IsTwelveBit (negsuc v) = v < 2048

module _ {S : Type 0} (b : I2c S) (view : S → Ram) (law : IsSensor b view) where
  axis_lem :
      (reg1 reg2 : ℕ) (s : S)
      → view s reg1 < 256
      → (stk8321_read_axis b reg1 reg2 s).0 ≡ pos (view s reg2 * 16 + view s reg1 / 16)
  unfolding stk8321_read_axis
  axis_lem reg1 reg2 s small =
      let s2 = (b.read_byte reg1 s).1 in
      let low = view s reg1 in
      let high = view s reg2 in
      let second : (b.read_byte reg2 s2).0 ≡ pos high =
        law.reads reg2 s2 ∙ ap (λ (ram : Ram). pos (ram reg2)) (law.reads_view reg1 s) in
      ap
        (λ t.
          ((if is_negative t
              then pure t
              else (do high_byte ← b.read_byte reg2; pure (axis_value t high_byte)))
            s2).0)
        (law.reads reg1 s)
      ∙ (ap (axis_value (pos low)) second
          ∙ ap pos (
              bit_or_comm (high * 16) (low / 16)
              ∙ (bit_or-nibble (low / 16) high (omega arith) ∙ omega arith)))

  -- The value that is made of the two registers of an axis.
  value_lem :
      (sign_extend32 : ℤ → ℕ → ℤ) (z : ℤ) (n : ℕ)
      → IsSignExtend sign_extend32
      → IsTwelveBit z
      → n ≡ twelve_bits z
      → extended b sign_extend32 (pos n) ≡ val_int z
  unfolding IsTwelveBit twelve_bits
  value_lem sign_extend32 (pos v) n ext fits e =
      ap (λ m. val_int (sign_extend32 (pos m) 11)) e ∙ ap val_int (ext.clear_sign v fits)
  value_lem sign_extend32 (negsuc v) n ext fits e =
      ap (λ m. val_int (sign_extend32 (pos m) 11)) e ∙ ap val_int (ext.set_sign v fits)

  twelve_small : (z : ℤ) → IsTwelveBit z → twelve_bits z < 4096
  unfolding IsTwelveBit twelve_bits
  twelve_small (pos v) h = omega arith
  twelve_small (negsuc v) h = omega arith

  -- Over the sensor, where the two registers of one of the three axes hold a number of 12 bits in two's
  -- complement, its low four bits above four others, a read of the axis gives the number.
  pub axis_read :
      (sign_extend32 : ℤ → ℕ → ℤ) (address : ℕ) (z : ℤ) (noise : ℕ) (a : Accel S)
      → IsSignExtend sign_extend32
      → address < 3
      → IsTwelveBit z
      → noise < 16
      → view a.bus (2 + 2 * address) ≡ twelve_bits z % 16 * 16 + noise
      → view a.bus (3 + 2 * address) ≡ twelve_bits z / 16
      → (stk8321_read_raw b sign_extend32 address info_raw a).0 ≡ val_int z
  unfolding stk8321_read_raw stk8321_read_x stk8321_read_y stk8321_read_z
  axis_read sign_extend32 address z noise a ext small fits four low high =
      let axis : (reg1 reg2 : ℕ)
          → view a.bus reg1 ≡ twelve_bits z % 16 * 16 + noise
          → view a.bus reg2 ≡ twelve_bits z / 16
          → extended b sign_extend32 (stk8321_read_axis b reg1 reg2 a.bus).0 ≡ val_int z =
        λ reg1 reg2 l r.
          ap (extended b sign_extend32) (axis_lem reg1 reg2 a.bus (omega (arith, l)))
          ∙ value_lem sign_extend32 z _ ext fits (omega (arith, l, r)) in
      by_address address small low high axis
    where
      by_address :
          (n : ℕ)
          → n < 3
          → view a.bus (2 + 2 * n) ≡ twelve_bits z % 16 * 16 + noise
          → view a.bus (3 + 2 * n) ≡ twelve_bits z / 16
          → ((reg1 reg2 : ℕ)
              → view a.bus reg1 ≡ twelve_bits z % 16 * 16 + noise
              → view a.bus reg2 ≡ twelve_bits z / 16
              → extended b sign_extend32 (stk8321_read_axis b reg1 reg2 a.bus).0 ≡ val_int z)
          → (stk8321_read_raw b sign_extend32 n info_raw a).0 ≡ val_int z
      by_address zero h l r axis = axis 2 3 l r
      by_address (suc zero) h l r axis = axis 4 5 l r
      by_address (suc (suc zero)) h l r axis = axis 6 7 l r
      by_address (suc (suc (suc n))) h l r axis = absurd (omega arith)
