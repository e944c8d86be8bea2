-- ===== src/Common/State.antt =====
-- Stateful code: a function of the state that returns a result and the new state, with `do`.
use Prim.Native.Nat.{ℕ}
use mathlib.Core.Bool.{Bool, true, false}
use tuxedo_drivers.Common.Tests.{◌==◌, if◌then◌else◌}

abbrev pub M : Type 0 → Type 0 → Type 0
M S A = S → A × S

abbrev pub pure : {S A : Type 0} → A → M S A
pure a s = (a, s)

infixl 5 ◌>>=◌ ◌>>◌
abbrev pub ◌>>=◌ : {S A B : Type 0} → M S A → (A → M S B) → M S B
◌>>=◌ m f s = f (m s).0 (m s).1

abbrev pub ◌>>◌ : {S A B : Type 0} → M S A → M S B → M S B
◌>>◌ m k s = k (m s).1

-- `if (b) m;`
abbrev pub when : {S : Type 0} → Bool → M S (Unit {0}) → M S (Unit {0})
when true m = m
when false m = pure tt

-- A byte store and the write of one byte.
abbrev pub Ram : Type 0
Ram = ℕ → ℕ

abbrev pub update : Ram → ℕ → ℕ → Ram
update f a d x = if a == x then d else f x
