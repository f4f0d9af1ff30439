-- ===== src/Base/Maps.antt =====
-- Go maps with numeric keys, as association lists without a fixed order.
use Prim.Native.Nat.{ℕ, suc, ◌≤◌}
use mathlib.Core.Path.{◌≡◌, refl}
use mathlib.Core.Option.{Option, none, some}
use mathlib.Core.List.{List, [], ◌∷◌}
use native.Mathlib.Omega.{arith}
use cogame.Base.Tests.{◌==◌, if◌then◌else◌}
use cogame.Base.Lists.{length}

module _ {ℓ} {V : Type ℓ} where
  -- m[key] with the comma-ok form.
  unfoldable pub lookup : ℕ → List (ℕ × V) → Option V
  lookup key [] = none
  lookup key ((other, value) ∷ entries) = if other == key then some value else lookup key entries

  -- m[key] = value
  unfoldable pub insert : ℕ → V → List (ℕ × V) → List (ℕ × V)
  insert key value [] = (key, value) ∷ []
  insert key value ((other, old) ∷ entries) =
      if other == key then (key, value) ∷ entries else (other, old) ∷ insert key value entries

  -- delete(m, k)
  unfoldable pub delete : ℕ → List (ℕ × V) → List (ℕ × V)
  delete key [] = []
  delete key ((other, old) ∷ entries) =
      if other == key then delete key entries else (other, old) ∷ delete key entries

  pub lookup-insert :
      (key other : ℕ) (value : V) (entries : List (ℕ × V))
      → lookup other (insert key value entries)
        ≡ (if key == other then some value else lookup other entries)
  unfolding lookup insert
  lookup-insert key other value [] = refl
  lookup-insert key other value ((head, old) ∷ entries) =
      ground (arith, lookup-insert key other value entries)

  pub lookup-delete :
      (key other : ℕ) (entries : List (ℕ × V))
      → lookup other (delete key entries) ≡ (if key == other then none else lookup other entries)
  unfolding lookup delete
  lookup-delete key other [] = ground arith
  lookup-delete key other ((head, old) ∷ entries) = ground (arith, lookup-delete key other entries)

  pub length-insert :
      (key : ℕ) (value : V) (entries : List (ℕ × V))
      → length (insert key value entries) ≤ suc (length entries)
  unfolding insert
  length-insert key value [] = omega arith
  length-insert key value ((other, old) ∷ entries) = ground (arith, length-insert key value entries)

  pub length-delete :
      (key : ℕ) (entries : List (ℕ × V)) → length (delete key entries) ≤ length entries
  unfolding delete
  length-delete key [] = omega arith
  length-delete key ((other, old) ∷ entries) = ground (arith, length-delete key entries)

pub ruleset map_laws = (lookup-insert, lookup-delete)
