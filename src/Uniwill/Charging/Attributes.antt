-- ===== src/Uniwill/Charging/Attributes.antt =====
-- src/uniwill_keyboard.h: the sysfs attributes of the charging profile and priority. The texts
-- are those that the kernel's `strstrip` leaves of what was written.
use Prim.Native.String.{String}
use text.Mathlib.Text.{◌==◌ as str_eq}
use text.Mathlib.TextEquality.{eq_iff}
use tuxedo_drivers.Common.{
  ℕ, ◌<◌, ◌≡◌, arith, Ram, M, pure, ◌>>=◌, if◌then◌else◌, ◌==◌, ℤ, pos, einval, eio, nonzero,
  Option, none, some, List, [], ◌∷◌,
}
use tuxedo_drivers.Uniwill.Interface.{UniwillInterface, IsEcRam}
use tuxedo_drivers.Uniwill.Access.{Uniwill}
use tuxedo_drivers.Uniwill.Access.Ready.{IsReady}
use tuxedo_drivers.Uniwill.Charging.{
  uw_set_charging_profile, uw_get_charging_profile, uw_set_charging_priority,
  uw_get_charging_priority,
}
use tuxedo_drivers.Uniwill.Charging.Fields.{get-set_charging_profile, get-set_charging_priority}

-- What a show function returns: a text that it prints, or an error.
pub data Shown : Type 0 where
  printed : String → Shown
  failed : ℤ → Shown

abbrev pub Options : Type 0
Options = List (String × ℕ)

unfoldable pub charging_profile_options : Options
charging_profile_options = ("high_capacity", 0x00) ∷ ("balanced", 0x01) ∷ ("stationary", 0x02) ∷ []

unfoldable pub charging_prio_options : Options
charging_prio_options = ("charge_battery", 0x00) ∷ ("performance", 0x01) ∷ []

-- The search loops of the store and of the show functions.
unfoldable pub find_value : String → Options → Option ℕ
find_value descriptor [] = none
find_value descriptor ((d, v) ∷ options) =
    if str_eq d descriptor then some v else find_value descriptor options

unfoldable pub find_descriptor : ℕ → Options → Option String
find_descriptor value [] = none
find_descriptor value ((d, v) ∷ options) =
    if v == value then some d else find_descriptor value options

shown : ℤ → ℕ → Options → Shown
shown status value options =
    if nonzero status
    then failed status
    else elim (find_descriptor value options) [ some d ↦ printed d | none ↦ failed eio ]

-- The value that was found is set; `size` or -EIO is returned. Else -EINVAL is.
store : {S : Type 0} → (ℕ → M (Uniwill S) ℤ) → Option ℕ → ℕ → M (Uniwill S) ℤ
store set none size = pure einval
store set (some v) size = do result ← set v; pure (if nonzero result then eio else pos size)

module _ {S : Type 0} (un : ℕ) where
  unfoldable pub uw_charging_profile_show : M (Uniwill S) Shown
  unfolding shown
  uw_charging_profile_show = do
    r ← uw_get_charging_profile un
    pure (shown r.status r.byte charging_profile_options)

  unfoldable pub uw_charging_profile_store : String → ℕ → M (Uniwill S) ℤ
  unfolding store
  uw_charging_profile_store descriptor =
      store (uw_set_charging_profile un) (find_value descriptor charging_profile_options)

  unfoldable pub uw_charging_prio_show : M (Uniwill S) Shown
  unfolding shown
  uw_charging_prio_show = do
    r ← uw_get_charging_priority un
    pure (shown r.status r.byte charging_prio_options)

  unfoldable pub uw_charging_prio_store : String → ℕ → M (Uniwill S) ℤ
  unfolding store
  uw_charging_prio_store descriptor =
      store (uw_set_charging_priority un) (find_value descriptor charging_prio_options)

found_profile :
    (d : String) (v : ℕ)
    → find_value d charging_profile_options ≡ some v
    → (v < 4) × (find_descriptor v charging_profile_options ≡ some d)
unfolding find_value find_descriptor charging_profile_options
found_profile d v h =
    ground (arith, eq_iff "high_capacity" d, eq_iff "balanced" d, eq_iff "stationary" d)

found_prio :
    (d : String) (v : ℕ)
    → find_value d charging_prio_options ≡ some v
    → (v < 2) × (find_descriptor v charging_prio_options ≡ some d)
unfolding find_value find_descriptor charging_prio_options
found_prio d v h = ground (arith, eq_iff "charge_battery" d, eq_iff "performance" d)

module _ {S : Type 0} (i : UniwillInterface S) (ready : S → Type 0) (ram : S → Ram)
    (law : IsEcRam i ready ram) (un : ℕ) (u : Uniwill S) (r : IsReady i ready ram law u) where
  -- Over an EC RAM, a charging profile that is stored by one of its three names is accepted and shown by that
  -- name.
  pub charging_profile_show-store :
      (d : String) (v size : ℕ)
      → find_value d charging_profile_options ≡ some v
      → ((uw_charging_profile_store un d size u).0 ≡ pos size)
        × ((uw_charging_profile_show un (uw_charging_profile_store un d size u).1).0 ≡ printed d)
  unfolding uw_charging_profile_store uw_charging_profile_show
  charging_profile_show-store d v size h =
      let f = found_profile d v h in
      let g = get-set_charging_profile i ready ram law un un v u r (ground (arith, f.0)) in
      ground (arith, g.0, g.1, f)

  -- Over an EC RAM, a charging priority that is stored by one of its two names is accepted and shown by that
  -- name.
  pub charging_prio_show-store :
      (d : String) (v size : ℕ)
      → find_value d charging_prio_options ≡ some v
      → ((uw_charging_prio_store un d size u).0 ≡ pos size)
        × ((uw_charging_prio_show un (uw_charging_prio_store un d size u).1).0 ≡ printed d)
  unfolding uw_charging_prio_store uw_charging_prio_show
  charging_prio_show-store d v size h =
      let f = found_prio d v h in
      let g = get-set_charging_priority i ready ram law un un v u r (ground (arith, f.0)) in
      ground (arith, g.0, g.1, f)
