-- ===== src/Clevo/Leds/Init.antt =====
-- src/clevo_leds.h: `clevo_leds_init`, which finds the type of the backlight, sets it and registers
-- its LED class devices. `board_in` is `dmi_string_in` on the board's name, and `beyond`
-- what the memory holds where the code reads behind a buffer that is too short.
pub mod Registration
use Prim.Native.String.{String}
use tuxedo_drivers.Common.{
  ℕ, zero, suc, Bool, true, false, not, M, pure, ◌>>=◌, ◌>>◌, when, if◌then◌else◌, ◌==◌, ◌&&◌, ◌||◌,
  test_bits, ltb, length, u8, ℤ, success, einval, nonzero, Option, none, some, List, [], ◌∷◌, ◌≡◌,
  refl, ap, ◌∙◌, sym, subst, arith,
}
use tuxedo_drivers.Uniwill.Touchpad.{byte_at}
use tuxedo_drivers.Clevo.{
  Clevo, Object, integer, buffer, other_object, clevo_evaluate_method, clevo_evaluate_method2,
}
use tuxedo_drivers.Clevo.Leds.{
  ClevoLeds, Registered, nothing, type_none, type_fixed_color, type_1_zone_rgb, type_3_zone_rgb,
  by_clevo, assign, clevo_leds_set_brightness_extern, clevo_leds_set_color_extern,
  clevo_evaluate_set_keyboard_status, clevo_leds_remove,
}

-- What the kernel answers to the registration of each device.
pub record Answers : Type 0 where
  pub to_white : ℤ
  pub to_rgb_0 : ℤ
  pub to_rgb_1 : ℤ
  pub to_rgb_2 : ℤ

-- The status of the registrations for a type, and what is registered afterwards. A device that was
-- registered is given up if a later one fails.
unfoldable pub register : Answers → ℕ → Registered → ℤ × Registered
register a type g =
    if type == type_fixed_color
    then (if nonzero a.to_white then (a.to_white, g) else (success, record g { white = true }))
    else if type == type_1_zone_rgb
    then (if nonzero a.to_rgb_0 then (a.to_rgb_0, g) else (success, record g { rgb_0 = true }))
    else if type == type_3_zone_rgb
    then (if nonzero a.to_rgb_0
        then (a.to_rgb_0, g)
        else if nonzero a.to_rgb_1
        then (a.to_rgb_1, record g { rgb_0 = false })
        else if nonzero a.to_rgb_2
        then (a.to_rgb_2, record g { rgb_0 = false; rgb_1 = false })
        else (success, record g { rgb_0 = true; rgb_1 = true; rgb_2 = true }))
    else (success, g)

-- The byte with the type, or what lies behind a buffer that is too short.
abbrev pub specs_byte : (List ℕ → ℕ) → List ℕ → ℕ
specs_byte beyond bytes = if ltb 0x0f (length bytes) then byte_at bytes 0x0f else u8 (beyond bytes)

module _ {S : Type 0} where
  abbrev pub with_max_5 : ClevoLeds S → ClevoLeds S
  with_max_5 l = record l { max_brightness = 5; led_brightness = 0 }

  -- The second word of features: whether a white backlight has five levels.
  unfoldable pub ask_levels : M (ClevoLeds S) ℤ
  ask_levels = do
    r ← by_clevo (clevo_evaluate_method 0x7a 0)
    elim r.1 [
      | none ↦ pure r.0
      | some features ↦ when (test_bits features 0x4000) (assign with_max_5) >> pure r.0
    ]

  -- What is made of the answer to CLEVO_CMD_GET_SPECS: whether the search ends, and the status.
  unfoldable pub take_specs : (List ℕ → ℕ) → ℤ × Object → M (ClevoLeds S) (Bool × ℤ)
  unfolding ask_levels
  take_specs beyond (status, integer value) =
      pure (false, if nonzero status then status else einval)
  take_specs beyond (status, other_object) = pure (false, if nonzero status then status else einval)
  take_specs beyond (status, buffer bytes) = if nonzero status then pure (false, status) else (do
    assign (λ l. record l { backlight_type = specs_byte beyond bytes })
    if specs_byte beyond bytes == 0
        then pure (false, success)
        else (do ret ← ask_levels; pure (true, ret)))

  -- The loop, from the number of rounds that are left.
  unfoldable pub find_type : (List ℕ → ℕ) → ℕ → ℤ → M (ClevoLeds S) ℤ
  unfolding take_specs
  find_type beyond zero status = pure status
  find_type beyond (suc rounds) status = do
    r ← by_clevo (clevo_evaluate_method2 0x0d 0)
    found ← take_specs beyond r
    if found.0 then pure found.1 else find_type beyond rounds found.1

  -- Devices up to Intel's 8th generation.
  unfoldable pub find_older : M (ClevoLeds S) (Unit {0})
  unfolding ask_levels
  find_older = do
    r ← by_clevo (clevo_evaluate_method 0x52 0)
    elim r.1 [
      | none ↦ pure tt
      | some features ↦
          if test_bits features 0x00400000
          then assign (λ l. record l { backlight_type = type_3_zone_rgb })
          else if test_bits features 0x40000000
          then (assign (λ l. record l { backlight_type = type_fixed_color })
              >> ask_levels
              >> pure tt)
          else pure tt
    ]

  -- The state that is found, before anything is registered. `un` is `status` before the loop.
  unfoldable pub prepare : (List ℕ → ℕ) → ℤ → (String → Bool) → M (ClevoLeds S) (Unit {0})
  unfolding find_type find_older
  prepare beyond un board_in = do
    status ← find_type beyond 3 un
    type ← (λ l. (l.backlight_type, l))
    when (nonzero status || type == type_none) find_older
    when (board_in "N14xWU" || board_in "N13xWU") (assign with_max_5)
    type ← (λ l. (l.backlight_type, l))
    brightness ← (λ l. (l.led_brightness, l))
    if type == type_fixed_color
        then clevo_leds_set_brightness_extern brightness
        else clevo_leds_set_color_extern 0xffffff

  unfoldable pub clevo_leds_init : (List ℕ → ℕ) → ℤ → (String → Bool) → Answers → M (ClevoLeds S) ℤ
  unfolding prepare register
  clevo_leds_init beyond un board_in answers = do
    prepare beyond un board_in
    type ← (λ l. (l.backlight_type, l))
    when (type == type_1_zone_rgb || type == type_3_zone_rgb)
        (by_clevo (clevo_evaluate_set_keyboard_status 1) >> pure tt)
    ret ← (λ l. let r = register answers type l.registered in (r.0, record l { registered = r.1 }))
    if nonzero ret
        then pure ret
        else (assign (λ l. record l { leds_initialized = true }) >> pure success)
