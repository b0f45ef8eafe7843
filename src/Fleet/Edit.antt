-- ===== src/Fleet/Edit.antt =====
-- internal/domain/fleet/mutate.go and the groups of device.go: what changes a group, the rollout plan
-- and the access list. The walk up from a new parent runs on fuel: it goes on only at a group that it
-- has not seen and that has a parent, so two rounds more than there are groups are enough.
pub mod Plan
pub mod Forest
pub mod Walk
use sextant.Common.{
  if◌then◌else◌, ◌==◌, length, is_empty, any, contains, ltb_ℤ, pos, ◌<>◌, is_slug, before, Result,
  ◌>>=◌, ◌>>◌, refuse, ok, err, Map, lookup, insert, remove, has, ℕ, zero, suc, String, Bool, true,
  false, not, ◌&&◌, ◌||◌, Option, none, some, List, [], ◌∷◌, ℕ_Testable, String_Testable,
}
use sextant.Fleet.Model.{
  Fleet, Group, Device, Assignment, AccessBinding, Filter, FilterRule, RolloutRing, RolloutPolicy,
  no_group, group_list,
}
use sextant.Fleet.Groups.{children_of}

pub data Error : Type 0 where
  bad_name group_exists unknown_group unknown_parent : String → Error
  has_subgroups has_devices still_targeted still_bound still_filtered still_ring : String → Error
  cycle : String → String → Error
  -- the walk ran out of fuel
  stuck : Error
  no_rings : Error
  no_group_named negative_soak bad_percent : ℕ → Error
  unknown_ring_group taken : ℕ → String → Error

-- A filter's rule that names the group.
abbrev pub names_group : String → FilterRule → Bool
names_group name r = r.attr == "group" && (r.value == name || contains r.values name)

abbrev pub check_cycle : String → String → Option Bool → Result Error (Unit {0})
check_cycle group parent none = err stuck
check_cycle group parent (some found) = refuse found (cycle parent group)

-- The checks of one ring after those of its groups.
unfoldable pub check_bounds : ℕ → RolloutRing → Result Error (Unit {0})
check_bounds i r =
    refuse (ltb_ℤ r.soak_minutes (pos 0)) (negative_soak i)
    >> refuse (ltb_ℤ r.min_healthy_percent (pos 0) || ltb_ℤ (pos 100) r.min_healthy_percent)
        (bad_percent i)

module _ {A : Type 0} where
  abbrev pub with_groups : Map (Group A) → Fleet A → Fleet A
  with_groups groups f = record f { groups = groups }

  abbrev pub with_rollout : Option RolloutPolicy → Fleet A → Fleet A
  with_rollout plan f = record f { rollout = plan }

  -- `AddGroup`
  unfoldable pub add_group : String → Group A → Fleet A → Result Error (Fleet A)
  add_group name g f = do
    refuse (not (is_slug name)) (bad_name name)
    refuse (has name f.groups) (group_exists name)
    refuse (not (g.parent == "") && not (has g.parent f.groups)) (unknown_parent g.parent)
    ok (with_groups (insert name g f.groups) f)

  -- `GroupDevices`, before the sort
  unfoldable pub members : Map (Device A) → String → List String
  members [] group = []
  members ((tag, d) ∷ devices) group =
      if contains d.groups group then tag ∷ members devices group else members devices group

  -- `RemoveGroup`
  unfoldable pub remove_group : String → Fleet A → Result Error (Fleet A)
  unfolding members
  remove_group name f = do
    refuse (not (has name f.groups)) (unknown_group name)
    refuse (not (is_empty (children_of f.groups f.groups name))) (has_subgroups name)
    refuse (not (is_empty (members f.devices name))) (has_devices name)
    refuse (any (λ a. a.target == "group:" <> name) f.assignments) (still_targeted name)
    refuse (any (λ b. b.scope == "group:" <> name) f.access) (still_bound name)
    refuse (any (λ e. any (names_group name) e.1.rules) f.filters) (still_filtered name)
    refuse (elim f.rollout [ none ↦ false | some p ↦ any (λ r. r.group == name) p.rings ])
        (still_ring name)
    ok (with_groups (remove name f.groups) f)

  abbrev pub parent_of : Map (Group A) → String → String
  parent_of groups name = elim (lookup name groups) [ none ↦ "" | some g ↦ g.parent ]

  -- The walk in `SetGroupParent`: whether it reaches the group, or `none` out of fuel.
  unfoldable pub reaches : Map (Group A) → ℕ → String → List String → String → Option Bool
  reaches groups zero group seen cur = none
  reaches groups (suc fuel) group seen cur =
      let up = reaches groups fuel group (cur ∷ seen) (parent_of groups cur) in
      if cur == ""
      then some false
      else if cur == group
      then some true
      else if contains seen cur
      then some false
      else up

  -- `g.Parent = parent; f.Groups[group] = g`
  abbrev pub with_parent : String → Group A → Group A
  with_parent parent g = record g { parent = parent }

  -- The checks of a parent that is not empty.
  unfoldable pub check_parent : Map (Group A) → String → String → Result Error (Unit {0})
  check_parent groups group parent =
      if parent == ""
      then ok tt
      else (refuse (not (has parent groups)) (unknown_parent parent)
          >> check_cycle group parent (reaches groups (suc (suc (length groups))) group [] parent))

  -- `SetGroupParent`
  unfoldable pub set_group_parent : String → String → Fleet A → Result Error (Fleet A)
  unfolding check_parent
  set_group_parent group parent f = elim (lookup group f.groups) [
    | none ↦ err (unknown_group group)
    | some g ↦
        check_parent f.groups group parent
        >> ok (with_groups (insert group (with_parent parent g) f.groups) f)
  ]

  -- The loop over the groups of one ring, with the groups seen before it.
  unfoldable pub check_ring_groups :
      Map (Group A) → ℕ → List String → List String → Result Error (List String)
  check_ring_groups groups i [] seen = ok seen
  check_ring_groups groups i (g ∷ gs) seen = do
    refuse (not (has g groups)) (unknown_ring_group i g)
    refuse (contains seen g) (taken i g)
    check_ring_groups groups i gs (g ∷ seen)

  -- The loop over the rings.
  unfoldable pub check_rings :
      Map (Group A) → ℕ → List RolloutRing → List String → Result Error (List String)
  unfolding check_ring_groups check_bounds
  check_rings groups i [] seen = ok seen
  check_rings groups i (r ∷ rs) seen =
      refuse (is_empty (group_list r)) (no_group_named i)
      >> (check_ring_groups groups i (group_list r) seen >>= λ seen'.
          check_bounds i r >> check_rings groups (suc i) rs seen')

  -- `SetRolloutPlan`, with `none` for nil
  unfoldable pub set_rollout_plan : Option RolloutPolicy → Fleet A → Result Error (Fleet A)
  unfolding check_rings
  set_rollout_plan none f = ok (with_rollout none f)
  set_rollout_plan (some p) f =
      refuse (is_empty p.rings) no_rings
      >> (check_rings f.groups 0 p.rings [] >>= λ seen. ok (with_rollout (some p) f))

  -- `SetGroupPin`
  unfoldable pub set_group_pin : String → String → Fleet A → Result Error (Fleet A)
  set_group_pin group target f = elim (lookup group f.groups) [
    | none ↦ err (unknown_group group)
    | some g ↦ ok (with_groups (insert group (record g { pin = target }) f.groups) f)
  ]
