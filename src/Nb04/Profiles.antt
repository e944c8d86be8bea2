-- ===== src/Nb04/Profiles.antt =====
-- src/tuxedo_nb04/tuxedo_nb04_power_profiles.c: the power profile.
use Prim.Native.String.{String}
use tuxedo_drivers.Common.{
  ℕ, ◌≡◌, ap, ◌∙◌, Bool, not, M, pure, ◌>>=◌, if◌then◌else◌, ◌==◌, leb, ◌&&◌, ℤ, pos, success, eio,
  einval, enodev, enomem, nonzero, Option, none, some, zeros, List, [], ◌∷◌,
}
use tuxedo_drivers.Uniwill.Dmi.{Dmi}
use tuxedo_drivers.Uniwill.Dmi.DmiField.{product_sku, sys_vendor}
use tuxedo_drivers.Nb05.Profiles.{value_of, printed_profile}
use tuxedo_drivers.Nb04.Wmi.{Evaluate, WmiDev, word_at, nb04_wmi_bs_method}

-- The driver data, and the WMI device.
pub record Profiles (S : Type 0) : Type 0 where
  pub current_profile_value : ℕ
  pub wmi : WmiDev S

abbrev pub platform_profile_options : List (String × ℕ)
platform_profile_options = ("low-power", 0) ∷ ("balanced", 1) ∷ ("performance", 2) ∷ []

unfoldable pub platform_profile_show : {S : Type 0} → Profiles S → ℤ × Option String
platform_profile_show k = printed_profile platform_profile_options k.current_profile_value

module _ {S : Type 0} (evaluate : Evaluate S) where
  unfoldable pub set_system_mode : ℕ → M (WmiDev S) ℤ
  set_system_mode mode_input = if leb 3 mode_input then pure einval else (do
    r ← nb04_wmi_bs_method evaluate (zeros 80) 0x07 (mode_input ∷ zeros 7)
    pure (if nonzero r.0 then r.0 else if word_at r.1 0 == 0 then success else eio))

  unfoldable pub write_platform_profile_state : M (Profiles S) ℤ
  write_platform_profile_state k =
      let r = set_system_mode k.current_profile_value k.wmi in (r.0, record k { wmi = r.1 })

  -- The option that was found is kept and set.
  abbrev pub choose : ℕ → Option ℕ → M (Profiles S) ℤ
  choose size none k = (einval, k)
  choose size (some value) k =
      let r = write_platform_profile_state (record k { current_profile_value = value }) in
      (if nonzero r.0 then r.0 else pos size, r.1)

  -- `matches` compares a descriptor with the text, without the white space around it.
  unfoldable pub platform_profile_store : (String → Bool) → ℕ → M (Profiles S) ℤ
  platform_profile_store matches size = choose size (value_of platform_profile_options matches)

  -- `created` is the status of the attributes.
  unfoldable pub tuxedo_nb04_power_profiles_probe : Dmi → Bool → ℤ → M (Profiles S) ℤ
  tuxedo_nb04_power_profiles_probe dmi allocated created k =
      if not allocated
      then (enomem, k)
      else if dmi sys_vendor "TUXEDO" && dmi product_sku "SIRIUS1601"
      then (enodev, k)
      else (let r = write_platform_profile_state (record k { current_profile_value = 2 }) in
          (created, r.1))

  -- Whatever the firmware answers, a descriptor that is written is shown afterwards, also where the
  -- store reports that it was not set.
  pub store_shows :
      (size value : ℕ) (matches : String → Bool) (descriptor : String) (k : Profiles S)
      → value_of platform_profile_options matches ≡ some value
      → printed_profile platform_profile_options value ≡ (success, some descriptor)
      → let x = platform_profile_store matches size k in
        let r = set_system_mode value k.wmi in
        (x.0 ≡ (if nonzero r.0 then r.0 else pos size))
        × (platform_profile_show x.1 ≡ (success, some descriptor))
  unfolding platform_profile_store platform_profile_show write_platform_profile_state
  store_shows size value matches descriptor k found printed =
      let x = choose size (some value) k in
      let e = ap (λ v. choose size v k) found in
      (
        ap (λ (r : ℤ × Profiles S). r.0) e,
        ap (λ (r : ℤ × Profiles S). platform_profile_show r.1) e ∙ printed,
      )
