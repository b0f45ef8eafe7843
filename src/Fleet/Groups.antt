-- ===== src/Fleet/Groups.antt =====
-- internal/domain/fleet/groups.go, lines 10 to 58: the group tree. The loop of `GroupAncestry` runs
-- on fuel: it goes on only at a group that it has not seen, so one round more than there are groups
-- is enough.
pub mod Ancestry
use sextant.Common.{
  if◌then◌else◌, ◌==◌, length, contains, before, Map, lookup, has, ℕ, zero, suc, String, not, ◌&&◌,
  Option, none, some, List, [], ◌∷◌, ℕ_Testable, String_Testable,
}
use sextant.Fleet.Model.{Group, Fleet}

abbrev pub chain_or_nil : Option (List String) → List String
chain_or_nil none = []
chain_or_nil (some chain) = chain

module _ {A : Type 0} where
  -- The loop of `GroupAncestry`: the groups seen, the current one, and the chain above the last.
  -- `none` is out of fuel.
  unfoldable pub climb :
      Map (Group A) → ℕ → List String → String → List String → Option (List String)
  climb groups zero seen cur chain = none
  climb groups (suc fuel) seen cur chain =
      if cur == ""
      then some chain
      else if contains seen cur
      then some chain
      else elim (lookup cur groups) [
        | none ↦ some chain
        | some g ↦ climb groups fuel (cur ∷ seen) g.parent (cur ∷ chain)
      ]

  -- `GroupAncestry`
  unfoldable pub group_ancestry : Map (Group A) → String → List String
  unfolding climb
  group_ancestry groups g = chain_or_nil (climb groups (suc (length groups)) [] g [])

  -- `p` after a dangling parent is read as no parent
  abbrev pub parent_or_root : Map (Group A) → Group A → String
  parent_or_root groups g =
      if not (g.parent == "") && not (has g.parent groups) then "" else g.parent

  -- `GroupChildren`, before the sort
  unfoldable pub children_of : Map (Group A) → Map (Group A) → String → List String
  children_of groups [] parent = []
  children_of groups ((name, g) ∷ rest) parent =
      if parent_or_root groups g == parent
      then name ∷ children_of groups rest parent
      else children_of groups rest parent
