-- ===== src/Base/Dict.antt =====
-- Go maps with string keys, as association lists without a fixed order.
use Prim.Native.String.{String}
use mathlib.Core.Path.{◌≡◌, refl}
use mathlib.Core.Option.{Option, none, some}
use mathlib.Core.List.{List, [], ◌∷◌}
use native.Mathlib.Omega.{arith}
use text.Mathlib.Text.{◌==◌}
use text.Mathlib.TextEquality.{eq_iff}
use cogame.Base.Tests.{if◌then◌else◌}

module _ {ℓ} {Value : Type ℓ} where
  unfoldable pub lookup : String → List (String × Value) → Option Value
  lookup key [] = none
  lookup key ((other, value) ∷ entries) = if other == key then some value else lookup key entries

  unfoldable pub insert : String → Value → List (String × Value) → List (String × Value)
  insert key value [] = (key, value) ∷ []
  insert key value ((other, old) ∷ entries) =
      if other == key then (key, value) ∷ entries else (other, old) ∷ insert key value entries

  unfoldable pub delete : String → List (String × Value) → List (String × Value)
  delete key [] = []
  delete key ((other, old) ∷ entries) =
      if other == key then delete key entries else (other, old) ∷ delete key entries

  pub lookup-insert :
      (key other : String) (value : Value) (entries : List (String × Value))
      → lookup other (insert key value entries)
        ≡ (if key == other then some value else lookup other entries)
  unfolding lookup insert
  lookup-insert key other value [] = refl
  lookup-insert key other value ((head, old) ∷ entries) = ground (
    arith,
    eq_iff key other,
    eq_iff head key,
    eq_iff head other,
    lookup-insert key other value entries,
  )

  pub lookup-delete :
      (key other : String) (entries : List (String × Value))
      → lookup other (delete key entries) ≡ (if key == other then none else lookup other entries)
  unfolding lookup delete
  lookup-delete key other [] = ground arith
  lookup-delete key other ((head, old) ∷ entries) =
      ground (
        arith,
        eq_iff key other,
        eq_iff head key,
        eq_iff head other,
        lookup-delete key other entries,
      )

  -- No key is there twice.
  abbrev pub IsMap : List (String × Value) → Type ℓ
  IsMap [] = Unit
  IsMap ((key, value) ∷ entries) = (lookup key entries ≡ none) × IsMap entries

  pub insert-IsMap :
      (key : String) (value : Value) (entries : List (String × Value))
      → IsMap entries
      → IsMap (insert key value entries)
  unfolding insert lookup
  insert-IsMap key value [] h = (refl, tt)
  insert-IsMap key value ((other, old) ∷ entries) h = ground (
    arith,
    eq_iff other key,
    eq_iff key other,
    insert-IsMap key value entries h.1,
    lookup-insert key other value entries,
  )
