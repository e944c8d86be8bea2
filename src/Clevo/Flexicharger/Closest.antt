-- ===== src/Clevo/Flexicharger/Closest.antt =====
-- src/clevo_keyboard.h: the search for the closest value of an array.
use mathlib.Core.List.{Memᴰ}
use mathlib.Core.List.Memᴰ
use tuxedo_drivers.Common.{
  ℕ, ◌≤◌, ◌≡◌, ◌⊎◌, inl, inr, refl, ◌∙◌, sym, subst, arith, if◌then◌else◌, ltb, pos, List, [], ◌∷◌,
}
use tuxedo_drivers.Clevo.Flexicharger.{distance, closest_from, array_find_closest_u8}

-- A value of the list with the least distance.
pub Closest : ℕ → List ℕ → ℕ → Type 0
Closest value haystack c =
    Memᴰ c haystack × ((y : ℕ) → Memᴰ y haystack → distance value c ≤ distance value y)

-- The result is the start or of the list, and nothing of either is closer.
Nearest : ℕ → List ℕ → ℕ → ℕ → Type 0
Nearest value haystack start c =
    ((c ≡ start) ⊎ Memᴰ c haystack)
    × (distance value c ≤ distance value start)
    × ((y : ℕ) → Memᴰ y haystack → distance value c ≤ distance value y)

better : ℕ → ℕ → ℕ → ℕ
better value x start = if ltb (distance value x) (distance value start) then x else start

better_lem :
    (value x start : ℕ)
    → ((better value x start ≡ start) ⊎ (better value x start ≡ x))
      × (distance value (better value x start) ≤ distance value start)
      × (distance value (better value x start) ≤ distance value x)
unfolding better
better_lem value x start = (ground arith, ground arith, ground arith)

from-Nearest :
    (value : ℕ) (haystack : List ℕ) (start : ℕ)
    → Nearest value haystack start (closest_from value haystack start)
unfolding Nearest closest_from better
from-Nearest value [] start = (inl refl, omega arith, λ y m. absurd (Memᴰ.not-nil m))
from-Nearest value (x ∷ haystack) start =
    let b = better value x start in
    let h = from-Nearest value haystack b in
    let k = better_lem value x start in
    (
      elim h.0 [
        | inl e ↦ elim k.0 [ inl s ↦ inl (e ∙ s) | inr s ↦ inr (Memᴰ.head (e ∙ s)) ]
        | inr m ↦ inr (Memᴰ.tail m)
      ],
      ground (arith, h.1, k.1),
      λ y m. elim (Memᴰ.cases_cons m) [
        | inl e ↦
            subst (λ z. distance value (closest_from value haystack b) ≤ distance value z) (sym e)
              (ground (arith, h.1, k.2))
        | inr n ↦ h.2 y n
      ],
    )

-- For every value and every array that is not empty the result is a value of the array to which no
-- other value of it is closer.
pub found-Closest :
    (value x : ℕ) (haystack : List ℕ)
    → (c : ℕ) × (array_find_closest_u8 value (x ∷ haystack) ≡ pos c)
      × Closest value (x ∷ haystack) c
unfolding array_find_closest_u8 Closest Nearest
found-Closest value x haystack =
    let c = closest_from value (x ∷ haystack) x in
    let h = from-Nearest value (x ∷ haystack) x in
    (c, refl, (elim h.0 [ inl e ↦ Memᴰ.head e | inr m ↦ m ], h.2))
