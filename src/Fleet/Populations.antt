-- ===== src/Fleet/Populations.antt =====
-- internal/domain/fleet/groups.go, lines 50 to 64 and 100 to 228, and internal/app/hosts.go: which
-- devices a group, a rollout and a change stand for, and the register of accepted risks.
pub mod Cohorts
use sextant.Common.{
  if◌then◌else◌, ◌==◌, keep, contains, leb_ℤ, pos, ◌<>◌, cut_prefix, Map, lookup, has, keys, sort,
  String, Bool, true, false, not, ◌||◌, Option, none, some, List, [], ◌∷◌, ℕ_Testable,
  String_Testable,
}
use sextant.Fleet.Model.{
  Fleet, Device, Group, Scope, RolloutRing, device_at, is_retired, is_provisional,
}
use sextant.Fleet.Groups.{group_ancestry}

-- The loop of `rolloutRing`.
unfoldable pub ring_named : List RolloutRing → String → Option RolloutRing
ring_named [] group = none
ring_named (r ∷ rs) group = if r.group == group then some r else ring_named rs group

-- `ring == nil || ring.MaxDevices <= 0`
abbrev pub is_uncapped : Option RolloutRing → Bool
is_uncapped none = true
is_uncapped (some r) = leb_ℤ r.max_devices (pos 0)

abbrev pub backwards : List String → List String → List String
backwards [] acc = acc
backwards (x ∷ xs) acc = backwards xs (x ∷ acc)

module _ {A : Type 0} where
  -- The loop of `GroupDevices`.
  unfoldable pub tags_in : Map (Device A) → String → List String
  tags_in [] group = []
  tags_in ((tag, d) ∷ devices) group =
      let rest = tags_in devices group in if contains d.groups group then tag ∷ rest else rest

  -- `GroupDevices`
  unfoldable pub group_devices : Fleet A → String → List String
  unfolding tags_in
  group_devices f group = sort (tags_in f.devices group)

  -- `ActiveGroupDevices`
  unfoldable pub active_group_devices : Fleet A → String → List String
  unfolding group_devices
  active_group_devices f group =
      keep (λ tag. not (is_retired (device_at f tag))) (group_devices f group)

  -- `ConvergingGroupDevices`
  unfoldable pub converging_group_devices : Fleet A → String → List String
  unfolding active_group_devices
  converging_group_devices f group =
      keep (λ tag. not (is_provisional (device_at f tag))) (active_group_devices f group)

  -- `rolloutRing`
  unfoldable pub rollout_ring : Fleet A → String → Option RolloutRing
  unfolding ring_named
  rollout_ring f group = elim f.rollout [ none ↦ none | some p ↦ ring_named p.rings group ]

  -- `ReleasedGroupDevices`
  unfoldable pub released_group_devices : Fleet A → String → List String
  unfolding converging_group_devices rollout_ring
  released_group_devices f group =
      if is_uncapped (rollout_ring f group)
      then converging_group_devices f group
      else keep (λ tag. (device_at f tag).pin == group) (converging_group_devices f group)

  -- `DeviceTags`
  unfoldable pub device_tags : Fleet A → List String
  device_tags f = sort (keys f.devices)

  -- `TargetDevices`
  unfoldable pub target_devices : Fleet A → String → List String
  unfolding device_tags active_group_devices
  target_devices f target =
      if target == "org"
      then keep (λ tag. not (is_retired (device_at f tag))) (device_tags f)
      else elim (cut_prefix "group:" target) [
        | some g ↦ active_group_devices f g
        | none ↦ elim (cut_prefix "device:" target) [
          | none ↦ []
          | some tag ↦ elim (lookup tag f.devices) [
            | none ↦ []
            | some d ↦ if is_retired d then [] else tag ∷ []
          ]
        ]
      ]

  -- Whether one of the groups has `g` in its ancestry.
  unfoldable pub is_under : Map (Group A) → String → List String → Bool
  is_under groups g [] = false
  is_under groups g (dg ∷ dgs) = contains (group_ancestry groups dg) g || is_under groups g dgs

  -- The loop of `AffectedHosts` over the devices.
  unfoldable pub hosts_under : Map (Group A) → Map (Device A) → String → List String
  unfolding is_under
  hosts_under groups [] g = []
  hosts_under groups ((tag, d) ∷ devices) g =
      let rest = hosts_under groups devices g in
      if is_retired d then rest else if is_under groups g d.groups then tag ∷ rest else rest

  -- `AffectedHosts`; the empty list is nil, which stands for everything
  unfoldable pub affected_hosts : Fleet A → String → List String
  unfolding hosts_under
  affected_hosts f ref = elim (cut_prefix "device:" ref) [
    | some tag ↦ elim (lookup tag f.devices) [
      | none ↦ tag ∷ []
      | some d ↦ if is_retired d then [] else tag ∷ []
    ]
    | none ↦ elim (cut_prefix "group:" ref) [
      | some g ↦ sort (hosts_under f.groups f.devices g)
      | none ↦ []
    ]
  ]

  -- `Accepted[key]`, for a reason that is not empty
  abbrev pub accepted_at : Scope A → String → Option String
  accepted_at s key = elim (lookup key s.accepted) [
    | none ↦ none
    | some r ↦ if r == "" then none else some r
  ]

  abbrev pub scope_of : Map (Group A) → String → Option (Scope A)
  scope_of groups g = elim (lookup g groups) [ none ↦ none | some x ↦ some x.scope ]

  -- The loop over an ancestry, from the child to the root; the list comes reversed.
  unfoldable pub accepted_above : Map (Group A) → List String → String → Option (String × String)
  accepted_above groups [] key = none
  accepted_above groups (g ∷ gs) key =
      let rest = accepted_above groups gs key in
      elim (scope_of groups g) [
        | none ↦ rest
        | some s ↦ elim (accepted_at s key) [ none ↦ rest | some r ↦ some (r, "group:" <> g) ]
      ]

  -- The loop over the device's groups, the last first; the list comes reversed.
  unfoldable pub accepted_in : Map (Group A) → List String → String → Option (String × String)
  unfolding accepted_above
  accepted_in groups [] key = none
  accepted_in groups (g ∷ gs) key =
      let rest = accepted_in groups gs key in
      elim (accepted_above groups (backwards (group_ancestry groups g) []) key) [
        | none ↦ rest
        | some r ↦ some r
      ]

  abbrev pub accepted_by_org : Option (Scope A) → String → Option (String × String)
  accepted_by_org none key = none
  accepted_by_org (some s) key = elim (accepted_at s key) [ none ↦ none | some r ↦ some (r, "org") ]

  -- `AcceptanceFor`: the reason and its scope
  unfoldable pub acceptance_for : Fleet A → String → String → Option (String × String)
  unfolding accepted_in
  acceptance_for f tag key = elim (lookup tag f.devices) [
    | none ↦ accepted_by_org f.org key
    | some d ↦ elim (accepted_at d.scope key) [
      | some r ↦ some (r, "device")
      | none ↦ elim (accepted_in f.groups (backwards d.groups []) key) [
        | some r ↦ some r
        | none ↦ accepted_by_org f.org key
      ]
    ]
  ]
