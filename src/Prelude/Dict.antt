-- ===== src/Prelude/Dict.antt =====
-- A JavaScript object or Map with text keys, as an association list.
use Prim.Native.String.{String}
use mathlib.Core.Path.{◌≡◌, refl}
use mathlib.Core.Option.{Option, none, some}
use mathlib.Core.List.{List, [], ◌∷◌}
use native.Mathlib.Omega.{arith}
use text.Mathlib.Text.{◌==◌}
use text.Mathlib.TextEquality.{eq_iff}
use secure_auth_x_pro.Prelude.Tests.{if◌then◌else◌}

module _ {ℓ} {V : Type ℓ} where
  -- `m.get(k)`, `o[k]`
  unfoldable pub lookup : String → List (String × V) → Option V
  lookup k [] = none
  lookup k ((j, v) ∷ m) = if j == k then some v else lookup k m

  -- `m.set(k, v)`: an old key keeps its place.
  unfoldable pub set_key : String → V → List (String × V) → List (String × V)
  set_key k v [] = (k, v) ∷ []
  set_key k v ((j, w) ∷ m) = if j == k then (k, v) ∷ m else (j, w) ∷ set_key k v m

  -- `m.delete(k)`
  unfoldable pub delete_key : String → List (String × V) → List (String × V)
  delete_key k [] = []
  delete_key k ((j, w) ∷ m) = let rest = delete_key k m in if j == k then rest else (j, w) ∷ rest

  pub lookup-set_key :
      (k j : String) (v : V) (m : List (String × V))
      → lookup j (set_key k v m) ≡ (if k == j then some v else lookup j m)
  unfolding lookup set_key
  lookup-set_key k j v [] = refl
  lookup-set_key k j v ((i, w) ∷ m) =
      ground (arith, eq_iff k j, eq_iff i k, eq_iff i j, lookup-set_key k j v m)

  pub lookup-delete_key :
      (k j : String) (m : List (String × V))
      → lookup j (delete_key k m) ≡ (if k == j then none else lookup j m)
  unfolding lookup delete_key
  lookup-delete_key k j [] = ground arith
  lookup-delete_key k j ((i, w) ∷ m) =
      ground (arith, eq_iff k j, eq_iff i k, eq_iff i j, lookup-delete_key k j m)
