-- ===== src/Base/Dict.antt =====
-- `std::unordered_map` with text keys, as an association list. The order of the entries is one of
-- the orders in which the map may be walked.
use mathlib.Core.List.{List, [], ◌∷◌}
use mathlib.Core.Option.{Option, none, some}
use mathlib.Core.Option
use mathlib.Core.Path.{◌≡◌, refl}
use native.Mathlib.Omega.{arith}
use tinymq_broker.Base.Tests.{Bytes, bytes_beq_iff, bytes_equality, ◌==◌, if◌then◌else◌}

module _ {ℓ} {V : Type ℓ} where
  -- `find(k)`.
  unfoldable pub lookup : Bytes → List (Bytes × V) → Option V
  lookup k [] = none
  lookup k ((j, v) ∷ m) = if j == k then some v else lookup k m

  -- `m[k] = v`.
  unfoldable pub assign : Bytes → V → List (Bytes × V) → List (Bytes × V)
  assign k v [] = (k, v) ∷ []
  assign k v ((j, u) ∷ m) = if j == k then (k, v) ∷ m else (j, u) ∷ assign k v m

  -- `erase(k)`.
  unfoldable pub erase : Bytes → List (Bytes × V) → List (Bytes × V)
  erase k [] = []
  erase k ((j, u) ∷ m) = if j == k then erase k m else (j, u) ∷ erase k m

  -- `for (auto &entry : m) entry.second = f(entry.second)`.
  unfoldable pub map_values : (V → V) → List (Bytes × V) → List (Bytes × V)
  map_values f [] = []
  map_values f ((j, u) ∷ m) = (j, f u) ∷ map_values f m

  pub lookup-assign :
      (k j : Bytes) (v : V) (m : List (Bytes × V))
      → lookup j (assign k v m) ≡ (if k == j then some v else lookup j m)
  unfolding lookup assign
  lookup-assign k j v [] = refl
  lookup-assign k j v ((i, u) ∷ m) =
      ground (arith, bytes_beq_iff k j, bytes_beq_iff i k, bytes_beq_iff i j, lookup-assign k j v m)

  pub lookup-erase :
      (k j : Bytes) (m : List (Bytes × V))
      → lookup j (erase k m) ≡ (if k == j then none else lookup j m)
  unfolding lookup erase
  lookup-erase k j [] = ground arith
  lookup-erase k j ((i, u) ∷ m) =
      ground (arith, bytes_beq_iff k j, bytes_beq_iff i k, bytes_beq_iff i j, lookup-erase k j m)

  pub lookup-map_values :
      (f : V → V) (j : Bytes) (m : List (Bytes × V))
      → lookup j (map_values f m) ≡ Option.map f (lookup j m)
  unfolding lookup map_values
  lookup-map_values f j [] = refl
  lookup-map_values f j ((i, u) ∷ m) = ground (arith, lookup-map_values f j m)
