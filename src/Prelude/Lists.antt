-- ===== src/Prelude/Lists.antt =====
-- Lists over the native numbers.
use Prim.Native.Nat.{ℕ, zero, suc, ◌+◌}
use native.Mathlib.Omega.{arith}
use mathlib.Core.Path.{◌≡◌}
use panapi.Prelude.Tests.{◌==◌, if◌then◌else◌}
use mathlib.Core.Option.{Option, none, some}
use mathlib.Core.List.{List, [], ◌∷◌, ◌++◌}

module _ {ℓ} {A : Type ℓ} where
  abbrev pub length : List A → ℕ
  length [] = 0
  length (_ ∷ xs) = suc (length xs)

  abbrev pub get_elem? : List A → ℕ → Option A
  get_elem? [] i = none
  get_elem? (x ∷ xs) zero = some x
  get_elem? (x ∷ xs) (suc i) = get_elem? xs i

  -- a write to a memory of numbered cells
  abbrev pub update : (ℕ → A) → ℕ → A → ℕ → A
  update f n v k = if n == k then v else f k

pub length_append {ℓ} : {A : Type ℓ} (xs ys : List A) → length (xs ++ ys) ≡ length xs + length ys
length_append [] ys = omega arith
length_append (x ∷ xs) ys = ground (arith, length_append xs ys)
