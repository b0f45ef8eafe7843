-- ===== src/Examples/Fleets.antt =====
-- A small fleet: an organisation with a lab, and one machine in it.
use sextant.Common.{
  if◌then◌else◌, ◌==◌, Bool-cases, is_empty, All, Distinct, pos, is_slug, ok, Map, lookup, has, ℕ,
  String, eq_iff, ◌≡◌, ap, ◌↔◌, refl, inl, inr, Bool, true, false, none, some, [], ◌∷◌, ℕ_Testable,
  String_Testable,
}
use sextant.Fleet.Model.{
  device_active, Fleet, Group, Device, Filter, RolloutPolicy, no_group, no_device, group_list,
}
use sextant.Fleet.Groups.{children_of}
use sextant.Fleet.Device.Enrolment.{admits, add_device-ok}
use sextant.Fleet.Device.{
  add_device, enrolled_as, check_groups, check_class_allowed, class_allowed_by, is_class,
  put_device,
}
use sextant.Fleet.Edit.Forest.{IsForest, set_group_parent-IsForest}
use sextant.Fleet.Edit.Walk.{reaches_decides, Climbs}
use sextant.Fleet.Edit.{
  remove_group, with_groups, members, set_group_parent, check_parent, reaches, parent_of,
  set_rollout_plan, with_rollout, check_rings, check_ring_groups, check_bounds,
}
use sextant.Fleet.Edit.Plan.{set_rollout_plan-IsSound, IsSound, ring_groups}

abbrev groups : Map (Group ℕ)
groups = ("all", no_group) ∷ ("lab", record no_group { parent = "all" }) ∷ []

abbrev pub machine : Device ℕ
machine = record no_device {
  groups = "lab" ∷ [];
  class = "laptop";
  hardware = "x1";
  intent = "lock";
}

abbrev pub fleet : Fleet ℕ
fleet = record {
  version = 1;
  org = none;
  groups = groups;
  devices = ("pc-1", machine) ∷ [];
  stations = [];
  policies = [];
  assignments = [];
  filters = [];
  access = [];
  rollout = none;
  assurance = none;
}

abbrev laptops : Filter
laptops = record {
  name = "Laptops";
  match = "all";
  rules = record { attr = "class"; op = "eq"; value = "laptop"; values = [] } ∷ [];
}

abbrev plan : RolloutPolicy
plan = record {
  rings =
      record {
        group = "lab";
        groups = [];
        name = "Lab";
        soak_minutes = pos 30;
        min_healthy_percent = pos 90;
        require_approval = true;
        min_devices = pos 0;
        max_devices = pos 0;
      }
      ∷ record {
        group = "";
        groups = "all" ∷ [];
        name = "All";
        soak_minutes = pos 0;
        min_healthy_percent = pos 0;
        require_approval = false;
        min_devices = pos 0;
        max_devices = pos 2;
      }
      ∷ [];
  approve_role = "owner";
  auto_flow = none;
}

set_rollout_plan-IsSound_example :
    (some plan ≡ some plan)
    × (is_empty plan.rings ≡ false)
    × All (IsSound groups) plan.rings
    × Distinct (ring_groups plan.rings)
set_rollout_plan-IsSound_example =
    set_rollout_plan-IsSound plan fleet (with_rollout (some plan) fleet)
      (unfold set_rollout_plan check_rings check_ring_groups check_bounds group_list in refl)

-- The lab moves from the top of the tree below the other group.
abbrev flat : Map (Group ℕ)
flat = ("all", no_group) ∷ ("lab", no_group) ∷ []

abbrev flat_fleet : Fleet ℕ
flat_fleet = record fleet { groups = flat }

flat-parent_of : (x : String) → parent_of flat x ≡ ""
flat-parent_of x = elim (Bool-cases ("all" == x)) [
  | inl a ↦ rw (a, parent_of) refl
  | inr a ↦ elim (Bool-cases ("lab" == x)) [
    | inl b ↦ rw (a, b, parent_of) refl
    | inr b ↦ rw (a, b, parent_of) refl
  ]
]

flat-IsForest : IsForest flat
flat-IsForest x = elim (Bool-cases (x == "")) [
  | inl e ↦ (0, (eq_iff x "").0 e)
  | inr e ↦ (1, (λ p. absurd (cc ((eq_iff x "").1 p)), flat-parent_of x))
]

set_group_parent-IsForest_example : IsForest groups
set_group_parent-IsForest_example =
    set_group_parent-IsForest "lab" "all" flat_fleet fleet flat-IsForest
      (unfold set_group_parent check_parent reaches in refl)

-- Two groups that are each the parent of the other.
abbrev ring_of_two : Map (Group ℕ)
ring_of_two = ("a", record no_group { parent = "b" }) ∷ ("b", record no_group { parent = "a" }) ∷ []

reaches_decides_example :
    (b : Bool) × (reaches ring_of_two 4 "c" [] "a" ≡ some b)
    × ((b ≡ true) ↔ ((n : ℕ) × Climbs ring_of_two n "a" "c"))
reaches_decides_example =
    reaches_decides ring_of_two "c" "a" (λ e. absurd (cc (ap (λ x. x == "") e)))

-- A second laptop, as a station enrolls it.
abbrev newcomer : Device ℕ
newcomer = record no_device { groups = "lab" ∷ []; class = "laptop"; hardware = "x1" }

enrols : add_device "pc-2" newcomer 7 fleet ≡ ok (put_device "pc-2" (enrolled_as newcomer 7) fleet)
unfolding add_device check_groups check_class_allowed class_allowed_by is_class is_slug
enrols = refl

add_device-ok_example :
    (is_slug "pc-2" ≡ true)
    × (has "pc-2" fleet.devices ≡ false)
    × All (λ g. has g groups ≡ true) ("lab" ∷ [])
    × All (λ g. admits (lookup g groups) "laptop" ≡ true) ("lab" ∷ [])
    × (((enrolled_as newcomer 7).state == device_active) ≡ false)
    × ((other : String)
        → lookup other (put_device "pc-2" (enrolled_as newcomer 7) fleet).devices
          ≡ (if "pc-2" == other then some (enrolled_as newcomer 7) else lookup other fleet.devices))
add_device-ok_example =
    add_device-ok "pc-2" newcomer 7 fleet (put_device "pc-2" (enrolled_as newcomer 7) fleet) enrols

-- A group of a wave that lists its groups is removed while the plan still names it.
abbrev listed : Fleet ℕ
listed = record fleet {
  groups = ("shop", no_group) ∷ [];
  devices = [];
  rollout = some (record plan {
    rings =
        record {
          group = "";
          groups = "shop" ∷ [];
          name = "Shops";
          soak_minutes = pos 0;
          min_healthy_percent = pos 0;
          require_approval = false;
          min_devices = pos 0;
          max_devices = pos 0;
        }
        ∷ [];
  });
}

shop_removed : remove_group "shop" listed ≡ ok (with_groups [] listed)
unfolding remove_group children_of members
shop_removed = refl
