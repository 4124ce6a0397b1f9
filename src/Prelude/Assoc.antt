-- ===== src/Prelude/Assoc.antt =====
-- Go maps as association lists: a lookup, a write and a `delete`.
use mathlib.Core.Path.{◌≡◌, refl}
use mathlib.Core.List.{List, [], ◌∷◌}
use mathlib.Core.Option.{Option, none, some}
use native.Mathlib.Omega.{arith}
use cosmoguard.Prelude.Tests.{if◌then◌else◌, Eq, ◌==◌}

module _ {ℓ κ} {K : Type ℓ} {V : Type κ} ⦃e : Eq K⦄ where
  unfoldable pub lookup : K → List (K × V) → Option V
  lookup k [] = none
  lookup k ((j, v) ∷ m) = if j == k then some v else lookup k m

  unfoldable pub insert : K → V → List (K × V) → List (K × V)
  insert k v [] = (k, v) ∷ []
  insert k v ((j, w) ∷ m) = if j == k then (k, v) ∷ m else (j, w) ∷ insert k v m

  unfoldable pub remove : K → List (K × V) → List (K × V)
  remove k [] = []
  remove k ((j, w) ∷ m) = let rest = remove k m in if j == k then rest else (j, w) ∷ rest

  pub lookup-insert :
      (new key : K) (v : V) (m : List (K × V))
      → lookup key (insert new v m) ≡ (if new == key then some v else lookup key m)
  unfolding insert lookup
  lookup-insert new key v [] = refl
  lookup-insert new key v ((i, w) ∷ m) =
      ground (arith, lookup-insert new key v m, e.beq_iff i new, e.beq_iff new key, e.beq_iff i key)

  pub lookup-remove :
      (k j : K) (m : List (K × V)) → lookup j (remove k m) ≡ (if k == j then none else lookup j m)
  unfolding lookup remove
  lookup-remove k j [] = ground arith
  lookup-remove k j ((i, w) ∷ m) =
      ground (arith, e.beq_iff k j, e.beq_iff i k, e.beq_iff i j, lookup-remove k j m)
