-- ===== src/Prelude/GoMap.antt =====
-- Go's `map[string]V` as an association list: a key is written in place, or added at the end.
use mathlib.Core.Path.{◌≡◌, refl}
use mathlib.Core.Option.{Option, none, some}
use mathlib.Core.List.{List, [], ◌∷◌}
use native.Mathlib.Omega.{arith}
use Prim.Native.String.{String}
use text.Mathlib.Text.{◌==◌}
use text.Mathlib.TextEquality.{eq_iff}
use panapi.Prelude.Tests.{if◌then◌else◌}

abbrev pub GoMap {ℓ} : Type ℓ → Type ℓ
GoMap V = List (String × V)

module _ {ℓ} {V : Type ℓ} where
  -- `value, ok := entries[key]`
  unfoldable pub lookup : String → GoMap V → Option V
  lookup key [] = none
  lookup key ((other, value) ∷ entries) = if other == key then some value else lookup key entries

  -- `entries[key] = value`
  unfoldable pub insert : String → V → GoMap V → GoMap V
  insert key value [] = (key, value) ∷ []
  insert key value ((other, held) ∷ entries) =
      let rest = insert key value entries in
      if other == key then (key, value) ∷ entries else (other, held) ∷ rest

  -- `delete(entries, key)`
  unfoldable pub delete : String → GoMap V → GoMap V
  delete key [] = []
  delete key ((other, held) ∷ entries) =
      let rest = delete key entries in if other == key then rest else (other, held) ∷ rest

  -- the loop that copies a map to a new one; Go leaves the order of the keys open
  unfoldable pub copy_map : GoMap V → GoMap V
  copy_map [] = []
  copy_map ((key, value) ∷ entries) = insert key value (copy_map entries)

  pub lookup-insert :
      (key other : String) (value : V) (entries : GoMap V)
      → lookup other (insert key value entries)
        ≡ (if key == other then some value else lookup other entries)
  unfolding lookup insert
  lookup-insert key other value [] = refl
  lookup-insert key other value ((i, held) ∷ entries) =
      ground (
        arith,
        eq_iff key other,
        eq_iff i key,
        eq_iff i other,
        lookup-insert key other value entries,
      )

  pub lookup-delete :
      (key other : String) (entries : GoMap V)
      → lookup other (delete key entries) ≡ (if key == other then none else lookup other entries)
  unfolding lookup delete
  lookup-delete key other [] = ground arith
  lookup-delete key other ((i, held) ∷ entries) =
      ground
        (arith, eq_iff key other, eq_iff i key, eq_iff i other, lookup-delete key other entries)

module _ {ℓ} {V : Type ℓ} where
  pub lookup-copy_map :
      (other : String) (entries : GoMap V) → lookup other (copy_map entries) ≡ lookup other entries
  unfolding lookup copy_map
  lookup-copy_map other [] = refl
  lookup-copy_map other ((key, value) ∷ entries) =
      ground
        (arith, lookup-insert key other value (copy_map entries), lookup-copy_map other entries)
