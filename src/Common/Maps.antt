-- ===== src/Common/Maps.antt =====
-- A Go map with text keys as a list of entries. A nil map is the empty list: every write of the
-- program makes the map first where it may be nil. Iteration goes through the list.
use Prim.Native.String.{String}
use native.Mathlib.Omega.{arith}
use text.Mathlib.TextEquality.{eq_iff}
use mathlib.Core.Path.{◌≡◌, refl}
use mathlib.Core.Bool.{Bool, true, false}
use mathlib.Core.List.{List, [], ◌∷◌, map}
use mathlib.Core.Option.{Option, none, some}
use Prim.Native.Nat.{ℕ, suc, ◌≤◌, ◌<◌}
use sextant.Common.Tests.{if◌then◌else◌, ◌==◌, String_Testable}
use sextant.Common.Lists.{length, contains}

abbrev pub Map : Type 0 → Type 0
Map V = List (String × V)

module _ {V : Type 0} where
  -- `m[k]` with the second result
  abbrev pub lookup : String → Map V → Option V
  lookup k [] = none
  lookup k ((j, v) ∷ m) = if j == k then some v else lookup k m

  -- `m[k] = v`
  abbrev pub insert : String → V → Map V → Map V
  insert k v [] = (k, v) ∷ []
  insert k v ((j, w) ∷ m) = if j == k then (k, v) ∷ m else (j, w) ∷ insert k v m

  -- `delete(m, k)`
  abbrev pub remove : String → Map V → Map V
  remove k [] = []
  remove k ((j, w) ∷ m) = if j == k then remove k m else (j, w) ∷ remove k m

  abbrev pub has : String → Map V → Bool
  has k m = elim (lookup k m) [ none ↦ false | some _ ↦ true ]

  abbrev pub keys : Map V → List String
  keys = map (λ e. e.0)

  pub lookup-insert :
      (k j : String) (v : V) (m : Map V)
      → lookup j (insert k v m) ≡ (if k == j then some v else lookup j m)
  lookup-insert k j v [] = refl
  lookup-insert k j v ((i, w) ∷ m) =
      ground (arith, eq_iff k j, eq_iff i k, eq_iff i j, lookup-insert k j v m)

  pub lookup-remove :
      (k j : String) (m : Map V) → lookup j (remove k m) ≡ (if k == j then none else lookup j m)
  lookup-remove k j [] = ground arith
  lookup-remove k j ((i, w) ∷ m) =
      ground (arith, eq_iff k j, eq_iff i k, eq_iff i j, lookup-remove k j m)

  -- The entries whose keys are not in a list.
  abbrev pub unseen : List String → Map V → ℕ
  unseen seen [] = 0
  unseen seen ((k, v) ∷ m) = if contains seen k then unseen seen m else suc (unseen seen m)

  pub unseen-le :
      (seen : List String) (k : String) (m : Map V) → unseen (k ∷ seen) m ≤ unseen seen m
  unseen-le seen k [] = omega arith
  unseen-le seen k ((j, v) ∷ m) = ground (arith, unseen-le seen k m)

  pub unseen-lt :
      (seen : List String) (k : String) (m : Map V) (v : V)
      → lookup k m ≡ some v
      → contains seen k ≡ false
      → unseen (k ∷ seen) m < unseen seen m
  unseen-lt seen k [] v h c = ground arith
  unseen-lt seen k ((j, w) ∷ m) v h c =
      ground (arith, eq_iff j k, eq_iff k j, unseen-lt seen k m v, unseen-le seen k m)

  pub unseen-length : (seen : List String) (m : Map V) → unseen seen m ≤ length m
  unseen-length seen [] = omega arith
  unseen-length seen ((j, w) ∷ m) = ground (arith, unseen-length seen m)
