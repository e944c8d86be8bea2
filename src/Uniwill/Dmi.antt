-- ===== src/Uniwill/Dmi.antt =====
-- The kernel's `dmi_match`, a parameter of what identifies a device.
use tuxedo_drivers.Common.{Bool, false, List, [], ◌∷◌, ◌||◌}
use Prim.Native.String.{String}

pub data DmiField : Type 0 where
  board_name product_name product_sku sys_vendor : DmiField

abbrev pub Dmi : Type 0
Dmi = DmiField → String → Bool

-- `false || dmi_match(field, a) || dmi_match(field, b) || ..`
unfoldable pub any_match : Dmi → DmiField → List String → Bool
any_match dmi field [] = false
any_match dmi field (name ∷ names) = dmi field name || any_match dmi field names
