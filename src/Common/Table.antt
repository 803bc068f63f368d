-- ===== src/Common/Table.antt =====
-- A map with numbers as keys, as the list of its entries.
use mathlib.Core.Path.{◌≡◌}
use mathlib.Core.Bool.{Bool, true, false}
use mathlib.Core.Option.{Option, none, some}
use mathlib.Core.List.{List, [], ◌∷◌}
use Prim.Native.Nat.{ℕ}
use native.Mathlib.Omega.{arith}
use vim_clap.Common.Tests.{if◌then◌else◌, ◌==◌}

module _ {ℓ} {V : Type ℓ} where
  abbrev pub value_at : ℕ → List (ℕ × V) → Option V
  value_at k [] = none
  value_at k ((j, v) ∷ m) = let rest = value_at k m in if j == k then some v else rest

  abbrev pub has_key : ℕ → List (ℕ × V) → Bool
  has_key k [] = false
  has_key k ((j, v) ∷ m) = let rest = has_key k m in if j == k then true else rest

  abbrev pub write_at : ℕ → V → List (ℕ × V) → List (ℕ × V)
  write_at k v [] = (k, v) ∷ []
  write_at k v ((j, w) ∷ m) =
      let rest = (j, w) ∷ write_at k v m in if j == k then (k, v) ∷ m else rest

  abbrev pub remove_key : ℕ → List (ℕ × V) → List (ℕ × V)
  remove_key k [] = []
  remove_key k ((j, v) ∷ m) = let rest = remove_key k m in if j == k then rest else (j, v) ∷ rest

  pub value_at-write_at :
      (k j : ℕ) (v : V) (m : List (ℕ × V))
      → value_at j (write_at k v m) ≡ (if k == j then some v else value_at j m)
  value_at-write_at k j v [] = ground arith
  value_at-write_at k j v ((i, w) ∷ m) = ground (arith, value_at-write_at k j v m)

  pub has_key-write_at :
      (k j : ℕ) (v : V) (m : List (ℕ × V))
      → has_key j (write_at k v m) ≡ (if k == j then true else has_key j m)
  has_key-write_at k j v [] = ground arith
  has_key-write_at k j v ((i, w) ∷ m) = ground (arith, has_key-write_at k j v m)

  pub has_key-remove_key :
      (k j : ℕ) (m : List (ℕ × V))
      → has_key j (remove_key k m) ≡ (if k == j then false else has_key j m)
  has_key-remove_key k j [] = ground arith
  has_key-remove_key k j ((i, w) ∷ m) = ground (arith, has_key-remove_key k j m)
