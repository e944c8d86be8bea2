-- ===== src/Nb05/Ec/Device.antt =====
-- What the driver relies on: behind the two ports stands an I2EC device. `view` shows its
-- registers in the state, and each port access acts on them as documented for these devices:
-- port 0x4e selects register 0x2e or 0x2f, 0x2e selects a byte of the address or the data, and
-- 0x2f accesses what is selected.
use tuxedo_drivers.Common.{ℕ, ◌+◌, ◌*◌, ◌≡◌, refl, Ram, update, ◌==◌, if◌then◌else◌}
use tuxedo_drivers.Nb05.Ec.{Ports}

pub record I2ec : Type 0 where
  pub index : ℕ
  pub select : ℕ
  pub high : ℕ
  pub low : ℕ
  pub ram : Ram

abbrev pub address : I2ec → ℕ
address d = d.high * 256 + d.low

-- A write to register 0x2f.
abbrev pub store_selected : ℕ → I2ec → I2ec
store_selected v d =
    if d.select == 0x11
    then record d { high = v }
    else if d.select == 0x10
    then record d { low = v }
    else if d.select == 0x12
    then record d { ram = update d.ram (address d) v }
    else d

abbrev pub device_outb : ℕ → ℕ → I2ec → I2ec
device_outb v port d =
    if port == 0x4e
    then record d { index = v }
    else if port == 0x4f
    then (if d.index == 0x2e
        then record d { select = v }
        else if d.index == 0x2f
        then store_selected v d
        else d)
    else d

pub record IsI2ec {S : Type 0} (p : Ports S) (view : S → I2ec) : Type 0 where
  pub outb_view : (v port : ℕ) (s : S) → view (p.outb v port s).1 ≡ device_outb v port (view s)
  pub inb_view : (port : ℕ) (s : S) → view (p.inb port s).1 ≡ view s
  pub inb_data :
      (s : S)
      → (view s).index ≡ 0x2f
      → (view s).select ≡ 0x12
      → (p.inb 0x4f s).0 ≡ (view s).ram (address (view s))

-- A device that is nothing but its registers.
abbrev pub registers : Ports I2ec
registers = record {
  outb = λ v port d. (tt, device_outb v port d);
  inb = λ port d. (d.ram (address d), d);
}

pub registers-IsI2ec : IsI2ec registers (λ d. d)
registers-IsI2ec = record {
  outb_view = λ v port s. refl;
  inb_view = λ port s. refl;
  inb_data = λ s i j. refl;
}
