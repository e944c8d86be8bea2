-- ===== src/Uniwill/BiosOptions.antt =====
-- src/uniwill_keyboard.h: the hidden options of the BIOS, which two bytes of an EFI variable switch on.
pub mod Enabled
use tuxedo_drivers.Common.{
  ℕ, Bool, true, false, not, M, pure, ◌>>=◌, ◌>>◌, if◌then◌else◌, ◌==◌, leb, ◌&&◌, ◌||◌, Ram,
  update, Option, none, some,
}

abbrev pub memory_overclocking_switch : ℕ
memory_overclocking_switch = 0x33

abbrev pub memory_overclocking_support : ℕ
memory_overclocking_support = 0x60

abbrev pub performance_support : ℕ
performance_support = 0x6e

abbrev pub performance_switch : ℕ
performance_switch = 0x6f

-- An EFI variable: its attributes, its size and its bytes.
pub record Variable : Type 0 where
  pub attr : ℕ
  pub size : ℕ
  pub bytes : Ram

-- The EFI calls with the name of the variable. `get_size` is `efi.get_variable` without a buffer: the
-- size where it answers EFI_BUFFER_TOO_SMALL. `get_variable` and `set_variable` are those with the
-- buffer; `none` and `false` are their errors.
pub record Efi (S : Type 0) : Type 0 where
  pub get_size : M S (Option ℕ)
  pub get_variable : ℕ → M S (Option Variable)
  pub set_variable : Variable → M S Bool

abbrev pub is_switch : ℕ → Bool
is_switch b = b == 0x00 || b == 0x01

-- Both support bytes are set, and both switches have one of the two values.
abbrev pub fits : Ram → Bool
fits buf =
    buf memory_overclocking_support == 0x01
    && buf performance_support == 0x01
    && is_switch (buf memory_overclocking_switch)
    && is_switch (buf performance_switch)

abbrev pub switch_on : ℕ → Ram → Ram
switch_on i buf = if buf i == 0x00 then update buf i 0x01 else buf

abbrev pub changes : Ram → Bool
changes buf = buf memory_overclocking_switch == 0x00 || buf performance_switch == 0x00

abbrev pub enabled : Ram → Ram
enabled buf = switch_on performance_switch (switch_on memory_overclocking_switch buf)

module _ {S : Type 0} (efi : Efi S) where
  -- What is done with the variable that was read.
  unfoldable pub enable : Option Variable → M S (Unit {0})
  enable none = pure tt
  enable (some v) =
      if not (fits v.bytes)
      then pure tt
      else if not (changes v.bytes)
      then pure tt
      else efi.set_variable (record v { bytes = enabled v.bytes }) >> pure tt

  unfoldable pub read_and_enable : Bool → Option ℕ → M S (Unit {0})
  unfolding enable
  read_and_enable allocated none = pure tt
  read_and_enable allocated (some size) =
      if leb size performance_switch
      then pure tt
      else if not allocated
      then pure tt
      else efi.get_variable size >>= enable

  -- `has_options` is the feature of the device, `runtime_services` whether EFI has them, and
  -- `allocated` whether there is memory.
  unfoldable pub uw_show_hidden_bios_options : Bool → Bool → Bool → M S (Unit {0})
  unfolding read_and_enable
  uw_show_hidden_bios_options has_options runtime_services allocated =
      if not has_options
      then pure tt
      else if not runtime_services
      then pure tt
      else efi.get_size >>= read_and_enable allocated
