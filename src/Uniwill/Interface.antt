-- ===== src/Uniwill/Interface.antt =====
-- src/uniwill_interfaces.h: the function table behind which the access to the embedded controller
-- (EC) stands. A pointer that a function writes through is an argument with the byte that it
-- points at before the call, and a result with the one after it.
use tuxedo_drivers.Common.{refl, ℕ, ◌<◌, ◌≡◌, ℤ, success, M, Ram, update, u8}
use Prim.Native.String.{String}

-- The return value, and `*data` after the call.
pub record Reply : Type 0 where
  pub status : ℤ
  pub byte : ℕ

pub record UniwillInterface (S : Type 0) : Type 0 where
  pub string_id : String
  -- address, `*data` before the call
  pub read_ec_ram : ℕ → ℕ → M S Reply
  -- address, data
  pub write_ec_ram : ℕ → ℕ → M S ℤ
  -- function, argument
  pub wmi_evaluate : ℕ → ℕ → M S ℤ

-- What the clients of the table rely on: in a state that is `ready`, a store stands behind it, a
-- read returns the byte there (the low eight bits of what is stored) and a write changes it, with
-- status 0, and the next state is ready too.
pub record IsEcRam {S : Type 0} (i : UniwillInterface S) (ready : S → Type 0) (ram : S → Ram)
    : Type 0 where
  pub read_status :
      (a old : ℕ) (s : S) → ready s → a < 65536 → (i.read_ec_ram a old s).0.status ≡ success
  pub read_byte :
      (a old : ℕ) (s : S) → ready s → a < 65536 → (i.read_ec_ram a old s).0.byte ≡ u8 (ram s a)
  pub read_ram : (a old : ℕ) (s : S) → ready s → a < 65536 → ram (i.read_ec_ram a old s).1 ≡ ram s
  pub read_ready : (a old : ℕ) (s : S) → ready s → a < 65536 → ready (i.read_ec_ram a old s).1
  pub write_status : (a d : ℕ) (s : S) → ready s → a < 65536 → (i.write_ec_ram a d s).0 ≡ success
  pub write_ram :
      (a d : ℕ) (s : S) → ready s → a < 65536 → ram (i.write_ec_ram a d s).1 ≡ update (ram s) a d
  pub write_ready : (a d : ℕ) (s : S) → ready s → a < 65536 → ready (i.write_ec_ram a d s).1

-- The store itself behind the table.
abbrev pub plain_ram : UniwillInterface Ram
plain_ram = record {
  string_id = "plain";
  read_ec_ram = λ a old f. (record { status = success; byte = u8 (f a) }, f);
  write_ec_ram = λ a d f. (success, update f a d);
  wmi_evaluate = λ function arg f. (success, f);
}

pub plain_ram-IsEcRam : IsEcRam plain_ram (λ f. Unit {0}) (λ f. f)
plain_ram-IsEcRam = record {
  read_status = λ a old s r h. refl;
  read_byte = λ a old s r h. refl;
  read_ram = λ a old s r h. refl;
  read_ready = λ a old s r h. tt;
  write_status = λ a d s r h. refl;
  write_ram = λ a d s r h. refl;
  write_ready = λ a d s r h. tt;
}
