-- ===== src/Base/Maps.antt =====
-- A Go map with numbers for keys, as an association list.
use Prim.Native.Nat.{ℕ}
use mathlib.Core.Path.{◌≡◌, refl}
use mathlib.Core.List.{List, [], ◌∷◌}
use mathlib.Core.Option.{Option, none, some}
use native.Mathlib.Omega.{arith}
use smartbch.Base.Tests.{◌==◌, if◌then◌else◌}

abbrev pub Map {ℓ} : Type ℓ → Type ℓ
Map V = List (ℕ × V)

module _ {ℓ} {V : Type ℓ} where
  unfoldable pub lookup : ℕ → Map V → Option V
  lookup key [] = none
  lookup key (entry ∷ rest) = if entry.0 == key then some entry.1 else lookup key rest

  unfoldable pub insert : ℕ → V → Map V → Map V
  insert key value [] = (key, value) ∷ []
  insert key value (entry ∷ rest) =
      if entry.0 == key then (key, value) ∷ rest else entry ∷ insert key value rest

  -- `delete(m, key)`
  unfoldable pub erase : ℕ → Map V → Map V
  erase key [] = []
  erase key (entry ∷ rest) = if entry.0 == key then erase key rest else entry ∷ erase key rest

  pub lookup-insert :
      (key other : ℕ) (value : V) (entries : Map V)
      → lookup other (insert key value entries)
        ≡ (if key == other then some value else lookup other entries)
  unfolding lookup insert
  lookup-insert key other value [] = refl
  lookup-insert key other value (entry ∷ rest) = ground (arith, lookup-insert key other value rest)

  pub lookup-erase :
      (key other : ℕ) (entries : Map V)
      → lookup other (erase key entries) ≡ (if key == other then none else lookup other entries)
  unfolding lookup erase
  lookup-erase key other [] = ground arith
  lookup-erase key other (entry ∷ rest) = ground (arith, lookup-erase key other rest)
