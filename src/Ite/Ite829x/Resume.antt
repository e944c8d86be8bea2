-- ===== src/Ite/Ite829x/Resume.antt =====
-- What the keys show after a resume.
use tuxedo_drivers.Common.{
  ℕ, zero, suc, ◌+◌, ◌*◌, ◌/◌, ◌%◌, ◌<◌, ◌≡◌, ◌≢◌, refl, ap, ◌∙◌, sym, subst, arith, Bool-cases,
  inl, inr, true, false, if◌then◌else◌, ◌==◌, ==_iff, ltb, u8, ◌&&◌, check_below, checked_table,
  success, [], ◌∷◌,
}
use tuxedo_drivers.Uniwill.Touchpad.{byte_at}
use tuxedo_drivers.Ite.{Hid, Color}
use tuxedo_drivers.Ite.Ite829x.{
  get_led_id, mode_to_color, Driver, color_of_word, for_keys, keyb_send_data, set_key, keyb_set_all,
  send_mode, send_stored, send_brightness, driver_resume_callb,
}

-- The bytes that are sent of a colour.
abbrev pub sent_color : Color → Color
sent_color c = record { red = u8 c.red; green = u8 c.green; blue = u8 c.blue }

abbrev pub set_id : ℕ → Color → (ℕ → Color) → ℕ → Color
set_id id c shown i = if i == id then c else shown i

-- What is relied on of the keyboard: the command 1 sets the colour of the key with the identifier.
pub record IsKeys {S : Type 0} (h : Hid S) (view : S → ℕ → Color) : Type 0 where
  pub takes_key :
      (id : ℕ) (c : Color) (s : S)
      → view (h.raw_request (0xcc ∷ 0x01 ∷ id ∷ c.red ∷ c.green ∷ c.blue ∷ []) s).1
        ≡ set_id id c (view s)

id_table : check_below 120 (λ j. get_led_id (j / 20) (j % 20) == j / 20 * 32 + j % 20) ≡ true
unfolding check_below
id_table = refl

-- The identifier of a key by its number.
id_lem : (j : ℕ) → j < 120 → get_led_id (j / 20) (j % 20) ≡ j / 20 * 32 + j % 20
id_lem j small = ground (arith, checked_table 120 _ j id_table small)

distinct_ids :
    (i j : ℕ)
    → i < 120
    → j < 120
    → i ≢ j
    → get_led_id (i / 20) (i % 20) ≢ get_led_id (j / 20) (j % 20)
distinct_ids i j p q n e = n (omega (arith, e, id_lem i p, id_lem j q))

module _ {S : Type 0} (h : Hid S) (view : S → ℕ → Color) (law : IsKeys h view) (c : Color) where
  -- The keys below a number show the colour and have it stored.
  Colored : ℕ → Driver S → Type 0
  Colored n d =
      (j : ℕ)
      → j < n
      → (view d.hid (get_led_id (j / 20) (j % 20)) ≡ sent_color c)
        × (d.colors (j / 20) (j % 20) ≡ c)

  key_lem :
      (n : ℕ) (d : Driver S)
      → n < 120
      → Colored n d
      → Colored (n + 1) (set_key h c (n / 20) (n % 20) d).1
  unfolding Colored set_key keyb_send_data
  key_lem n d small below j bound =
      let id = get_led_id (n / 20) (n % 20) in
      let me = get_led_id (j / 20) (j % 20) in
      let shown = ap (λ (f : ℕ → Color). f me) (law.takes_key id (sent_color c) d.hid) in
      elim (Bool-cases (j == n)) [
        | inl e ↦
            let is_n : j ≡ n = (==_iff j n).0 e in
            let same : (me == id) ≡ true =
              (==_iff me id).1 (ap (λ k. get_led_id (k / 20) (k % 20)) is_n) in
            let cell : (j / 20 == n / 20 && j % 20 == n % 20) ≡ true = ground (arith, is_n) in
            (
              shown ∙ ap (λ t. if t then sent_color c else view d.hid me) same,
              ap (λ t. if t then c else d.colors (j / 20) (j % 20)) cell,
            )
        | inr e ↦
            let differs : j ≢ n = ground (arith, e) in
            let less : j < n = omega (arith, differs) in
            let other : (me == id) ≡ false =
              ground (arith, distinct_ids j n (omega arith) small differs) in
            let cell : (j / 20 == n / 20 && j % 20 == n % 20) ≡ false = ground (arith, differs) in
            (
              shown
                  ∙ (ap (λ t. if t then sent_color c else view d.hid me) other ∙ (below j less).0),
              ap (λ t. if t then c else d.colors (j / 20) (j % 20)) cell ∙ (below j less).1,
            )
      ]

  all_lem :
      (rounds n : ℕ) (d : Driver S)
      → n + rounds ≡ 120
      → Colored n d
      → Colored 120 (for_keys (set_key h c) rounds n d).1
  unfolding for_keys
  all_lem zero n d e below = subst (λ m. Colored m d) (omega arith) below
  all_lem (suc rounds) n d e below =
      all_lem rounds (n + 1) (set_key h c (n / 20) (n % 20) d).1 (omega arith)
        (key_lem n d (omega arith) below)

  start_lem : (d : Driver S) → Colored 0 d
  unfolding Colored
  start_lem d j small = absurd (omega arith)

  -- Every key has the colour after all were set.
  set_all_lem :
      (row col : ℕ) (d : Driver S)
      → row < 6
      → col < 20
      → let x = (keyb_set_all h c d).1 in
        (view x.hid (get_led_id row col) ≡ sent_color c) × (x.colors row col ≡ c)
  unfolding keyb_set_all Colored
  set_all_lem row col d p q =
      let j = row * 20 + col in
      let x = (for_keys (set_key h c) 120 0 d).1 in
      let row_is : j / 20 ≡ row = omega arith in
      let col_is : j % 20 ≡ col = omega arith in
      let at_key = all_lem 120 0 d refl (start_lem d) j (omega arith) in
      subst
        (λ (k : ℕ × ℕ). (view x.hid (get_led_id k.0 k.1) ≡ sent_color c) × (x.colors k.0 k.1 ≡ c))
        (λ i. (row_is i, col_is i)) at_key

module _ {S : Type 0} (h : Hid S) (view : S → ℕ → Color) (law : IsKeys h view) where
  stored-mode :
      (rounds key : ℕ) (d : Driver S) → (for_keys (send_stored h) rounds key d).1.mode ≡ d.mode
  unfolding for_keys send_stored keyb_send_data
  stored-mode zero key d = refl
  stored-mode (suc rounds) key d =
      stored-mode rounds (key + 1) (send_stored h (key / 20) (key % 20) d).1

  -- After a resume in one of the seven modes of one colour every key shows the mode's colour and has
  -- it as its intensities, whatever intensities it had before.
  pub resume_overwrites :
      (row col : ℕ) (d : Driver S)
      → row < 6
      → col < 20
      → d.mode < 7
      → let x = driver_resume_callb h d in
        let c = color_of_word (byte_at mode_to_color d.mode) in
        (x.0 ≡ success)
        × (view x.1.hid (get_led_id row col) ≡ sent_color c)
        × (x.1.colors row col ≡ c)
  unfolding driver_resume_callb send_mode keyb_send_data
  resume_overwrites row col d p q m =
      let c = color_of_word (byte_at mode_to_color d.mode) in
      let e = (for_keys (send_stored h) 120 0 (send_brightness h d).1).1 in
      let same : e.mode ≡ d.mode = stored-mode 120 0 (send_brightness h d).1 in
      let plain : ltb d.mode 7 ≡ true = ground arith in
      let to_mode : (send_mode h e.mode e).1 ≡ (keyb_set_all h c e).1 =
        ap (λ n. (send_mode h n e).1) same ∙ ground (arith, plain) in
      let all = set_all_lem h view law c row col e p q in
      subst
        (λ (x : Driver S).
          (success ≡ success)
          × (view x.hid (get_led_id row col) ≡ sent_color c)
          × (x.colors row col ≡ c))
        (sym to_mode) (refl, all.0, all.1)
