-- ===== src/Examples/Memberships.antt =====
-- A machine that stands in a group and in the group above it.
use sextant.Common.{
  if◌then◌else◌, ◌==◌, contains, not, ◌&&◌, All, Map, lookup, has, ℕ, String, ◌≡◌, refl, ◌↔◌, true,
  none, some, List, [], ◌∷◌, ℕ_Testable, String_Testable,
}
use sextant.Common.{[], ◌∷◌, none, some, true, refl}
use sextant.Fleet.Model.{Fleet, Device, Group, no_group}
use sextant.Fleet.Groups.{group_ancestry, climb}
use sextant.Fleet.Device.{check_groups, check_class_allowed, class_allowed_by, put_device}
use sextant.Fleet.Device.Enrolment.{admits}
use sextant.Fleet.Redundancy.{
  is_reachable, with_groups, redundant_in, redundant_groups, prune_redundant_groups, prune_each,
  without, reject_ancestor_duplication, first_duplicate, duplicate_of,
}
use sextant.Fleet.Redundancy.Guard.{reject_ancestor_duplication_iff}
use sextant.Fleet.Redundancy.Pruned.{prune_redundant_groups-exact}
use sextant.Fleet.Memberships.{
  DevicePatch, patched, update_device, check_hardware, check_membership, check_duplicates,
  check_guardrail,
}
use sextant.Fleet.Memberships.Updated.{update_device-ok}
use sextant.Examples.Fleets.{fleet, machine}

abbrev tree : Map (Group ℕ)
tree = ("all", no_group) ∷ ("lab", record no_group { parent = "all" }) ∷ []

abbrev twice : Fleet ℕ
twice = record fleet {
  groups = tree;
  devices = ("pc-1", record machine { groups = "all" ∷ "lab" ∷ [] }) ∷ [];
}

-- The group above is the redundant one, and pruning leaves the other.
twice_redundant : redundant_groups twice "pc-1" ≡ "all" ∷ []
unfolding redundant_groups redundant_in group_ancestry climb
twice_redundant = refl

twice_pruned :
    (elim (lookup "pc-1" (prune_redundant_groups twice).devices) [ none ↦ [] | some d ↦ d.groups ])
    ≡ "lab" ∷ []
unfolding prune_redundant_groups prune_each without redundant_groups redundant_in group_ancestry
    climb
twice_pruned = refl

reject_ancestor_duplication_iff_example :
    (reject_ancestor_duplication tree ("all" ∷ "lab" ∷ []) ≡ none)
    ↔ (redundant_in tree ("all" ∷ "lab" ∷ []) ≡ [])
reject_ancestor_duplication_iff_example = reject_ancestor_duplication_iff tree ("all" ∷ "lab" ∷ [])

abbrev twice_joined : Device ℕ
twice_joined = record machine { groups = "all" ∷ "lab" ∷ [] }

prune_redundant_groups-exact_example :
    (list : List String) × (lookup "pc-1" (prune_redundant_groups twice).devices
      ≡ some (with_groups list twice_joined))
    × ((g : String)
        → contains list g
          ≡ (contains ("all" ∷ "lab" ∷ []) g && not (is_reachable tree ("all" ∷ "lab" ∷ []) g)))
    × (redundant_groups (prune_redundant_groups twice) "pc-1" ≡ [])
prune_redundant_groups-exact_example = prune_redundant_groups-exact twice "pc-1" twice_joined refl

abbrev to_lab : DevicePatch
to_lab = record {
  hardware = none;
  class = none;
  assigned_user = some "ann";
  groups = some ("lab" ∷ []);
  labels = none;
  itam = none;
}

update_device-ok_example :
    (d : Device ℕ) × (lookup "pc-1" twice.devices ≡ some d)
    × ((other : String)
        → lookup other
            (put_device "pc-1"
              (patched to_lab (record machine { groups = "all" ∷ "lab" ∷ [] }))
              twice).devices
          ≡ (if "pc-1" == other then some (patched to_lab d) else lookup other twice.devices))
    × ((list : List String)
        → some ("lab" ∷ []) ≡ some list
        → All (λ k. has k tree ≡ true) list
          × (redundant_in tree list ≡ [])
          × All (λ k. admits (lookup k tree) (patched to_lab d).class ≡ true) list)
    × (true ≡ true
        → All
            (λ k. admits (lookup k tree) (patched to_lab d).class ≡ true)
            (patched to_lab d).groups)
update_device-ok_example =
    update_device-ok "pc-1" to_lab twice
      (put_device "pc-1" (patched to_lab (record machine { groups = "all" ∷ "lab" ∷ [] })) twice)
      (unfold update_device check_hardware check_membership check_duplicates check_guardrail
          check_groups check_class_allowed class_allowed_by reject_ancestor_duplication
          first_duplicate duplicate_of group_ancestry climb in
        refl)
