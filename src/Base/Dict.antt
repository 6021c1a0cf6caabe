-- ===== src/Base/Dict.antt =====
-- Python's `dict` with text keys, as an association list: a new key goes to the end, a known one
-- keeps its place.
use mathlib.Core.Path.{◌≡◌, refl}
use mathlib.Core.Bool.{Bool}
use mathlib.Core.Option.{Option, none, some}
use mathlib.Core.List.{List, [], ◌∷◌}
use native.Mathlib.Omega.{arith}
use Prim.Native.String.{String}
use text.Mathlib.Text.{◌==◌}
use text.Mathlib.TextEquality.{eq_iff}
use beacn.Base.Tests.{if◌then◌else◌}

abbrev pub Dict {ℓ} : Type ℓ → Type ℓ
Dict V = List (String × V)

module _ {ℓ} {V : Type ℓ} where
  unfoldable pub lookup : String → Dict V → Option V
  lookup k [] = none
  lookup k ((j, v) ∷ d) = if j == k then some v else lookup k d

  -- `d[k] = v`
  unfoldable pub insert : String → V → Dict V → Dict V
  insert k v [] = (k, v) ∷ []
  insert k v ((j, w) ∷ d) = let rest = insert k v d in if j == k then (k, v) ∷ d else (j, w) ∷ rest

  -- `d.pop(k, None)`
  unfoldable pub remove : String → Dict V → Dict V
  remove k [] = []
  remove k ((j, w) ∷ d) = let rest = remove k d in if j == k then rest else (j, w) ∷ rest

  -- The entries whose value passes the test.
  unfoldable pub retain : (V → Bool) → Dict V → Dict V
  retain p [] = []
  retain p ((j, w) ∷ d) = let rest = retain p d in if p w then (j, w) ∷ rest else rest

  pub lookup-insert :
      (k j : String) (v : V) (d : Dict V)
      → lookup j (insert k v d) ≡ (if k == j then some v else lookup j d)
  unfolding lookup insert
  lookup-insert k j v [] = refl
  lookup-insert k j v ((i, w) ∷ d) =
      ground (arith, eq_iff k j, eq_iff i k, eq_iff i j, lookup-insert k j v d)

  pub lookup-remove :
      (k j : String) (d : Dict V) → lookup j (remove k d) ≡ (if k == j then none else lookup j d)
  unfolding lookup remove
  lookup-remove k j [] = ground arith
  lookup-remove k j ((i, w) ∷ d) =
      ground (arith, eq_iff k j, eq_iff i k, eq_iff i j, lookup-remove k j d)

module _ {ℓ} {V : Type ℓ} where
  -- No key stands twice.
  abbrev pub IsUnique : Dict V → Type ℓ
  IsUnique [] = Unit
  IsUnique ((j, v) ∷ d) = (lookup j d ≡ none) × IsUnique d

  abbrev pub if_passes : (V → Bool) → Option V → Option V
  if_passes p none = none
  if_passes p (some v) = if p v then some v else none

  lookup-retain-none :
      (p : V → Bool) (k : String) (d : Dict V) → lookup k d ≡ none → lookup k (retain p d) ≡ none
  unfolding lookup retain
  lookup-retain-none p k [] h = refl
  lookup-retain-none p k ((j, v) ∷ d) h = ground (arith, lookup-retain-none p k d)

  pub lookup-retain :
      (p : V → Bool) (k : String) (d : Dict V)
      → IsUnique d
      → lookup k (retain p d) ≡ if_passes p (lookup k d)
  unfolding lookup retain
  lookup-retain p k [] u = refl
  lookup-retain p k ((j, v) ∷ d) u =
      ground (arith, eq_iff j k, lookup-retain p k d u.1, lookup-retain-none p k d)

  pub insert-IsUnique : (k : String) (v : V) (d : Dict V) → IsUnique d → IsUnique (insert k v d)
  unfolding insert lookup
  insert-IsUnique k v [] u = (refl, tt)
  insert-IsUnique k v ((j, w) ∷ d) u =
      ground (arith, eq_iff j k, eq_iff k j, insert-IsUnique k v d u.1, lookup-insert k j v d)
