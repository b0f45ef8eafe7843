-- ===== src/Fleet/Redundancy.antt =====
-- internal/domain/fleet/redundant_groups.go: groups of a device that are above another of its groups.
pub mod Guard
pub mod Pruned
use sextant.Common.{
  ltb, if◌then◌else◌, ◌==◌, length, is_empty, keep, any, contains, Map, lookup, drop, String, Bool,
  not, ◌&&◌, Option, none, some, List, [], ◌∷◌, ℕ_Testable, String_Testable,
}
use sextant.Common.{[], ◌∷◌, none, some, true, false}
use sextant.Fleet.Model.{Fleet, Device, Group}
use sextant.Fleet.Groups.{group_ancestry}

-- The inner loops of `rejectAncestorDuplication`: the groups above `g`.
unfoldable pub duplicate_of : List String → String → List String → Option (String × String)
duplicate_of list g [] = none
duplicate_of list g (anc ∷ rest) =
    if not (anc == g) && contains list anc then some (anc, g) else duplicate_of list g rest

-- The groups that are kept where the ones in `drop` are cut.
unfoldable pub without : List String → List String → List String
without drop list = keep (λ g. not (contains drop g)) list

module _ {A : Type 0} where
  -- Whether `x` is above the group `g`; a group is not above itself.
  abbrev pub is_above : Map (Group A) → String → String → Bool
  is_above groups g x = contains (group_ancestry groups g) x && not (x == g)

  -- `reachable`: whether a group is above one of the list
  abbrev pub is_reachable : Map (Group A) → List String → String → Bool
  is_reachable groups list x = any (λ g. is_above groups g x) list

  -- The entries of a list that `RedundantGroups` collects.
  unfoldable pub redundant_in : Map (Group A) → List String → List String
  redundant_in groups list = keep (is_reachable groups list) list

  -- `RedundantGroups`
  unfoldable pub redundant_groups : Fleet A → String → List String
  unfolding redundant_in
  redundant_groups f tag = elim (lookup tag f.devices) [
    | none ↦ []
    | some d ↦ if ltb (length d.groups) 2 then [] else redundant_in f.groups d.groups
  ]

  abbrev pub with_groups : List String → Device A → Device A
  with_groups list d = record d { groups = list }

  -- The loop of `PruneRedundantGroups`.
  unfoldable pub prune_each : Fleet A → Map (Device A) → Map (Device A)
  unfolding redundant_groups without
  prune_each f [] = []
  prune_each f ((tag, d) ∷ rest) =
      (
        tag,
        if is_empty (redundant_groups f tag)
            then d
            else with_groups (without (redundant_groups f tag) d.groups) d,
      )
      ∷ prune_each f rest

  -- `PruneRedundantGroups`
  unfoldable pub prune_redundant_groups : Fleet A → Fleet A
  unfolding prune_each
  prune_redundant_groups f = record f { devices = prune_each f f.devices }

  unfoldable pub first_duplicate :
      Map (Group A) → List String → List String → Option (String × String)
  unfolding duplicate_of
  first_duplicate groups list [] = none
  first_duplicate groups list (g ∷ gs) = elim (duplicate_of list g (group_ancestry groups g)) [
    | none ↦ first_duplicate groups list gs
    | some pair ↦ some pair
  ]

  -- `rejectAncestorDuplication`; the pair is the one that its error names
  unfoldable pub reject_ancestor_duplication :
      Map (Group A) → List String → Option (String × String)
  unfolding first_duplicate
  reject_ancestor_duplication groups list = first_duplicate groups list list
